-- ===== src/AutoUpdate/Stable.antt =====
-- A build is launched only after two polls in a row found it.
use zeromux.AutoUpdate.{
  UpdateConfig, Observation, Updater, Outcome, launch_swap, stability_step, try_swap, pass_gate,
  judge, settle_step, look_at, on_stat, poll, new_updater, same_stat, same_sha, wait_stable,
  proceed,
}
use zeromux.AutoUpdate.Swaps.{judge-IsSafe}
use zeromux.Prelude.{
  ℕ, ◌≡◌, refl, Bool, true, false, Option, none, some, Text, text_eq→≡, arith, Bool-cases, inl, inr,
  ap, sym, ◌∙◌, subst, if◌then◌else◌,
}

-- A file that the loop can read and hash at every poll. The hash is a function of the file as long as
-- its time and size stay.
pub data Watched (cfg : UpdateConfig) : Updater → Observation → Type 0 where
  first :
      (o : Observation) (st : ℕ × ℕ) (h : Text)
      → o.stat ≡ some st
      → o.hash ≡ some h
      → Watched cfg (poll cfg o new_updater).0 o
  later :
      (s : Updater) (before o : Observation) (st : ℕ × ℕ) (h : Text)
      → Watched cfg s before
      → o.stat ≡ some st
      → o.hash ≡ some h
      → (before.stat ≡ o.stat → before.hash ≡ o.hash)
      → Watched cfg (poll cfg o s).0 o

pub judge-kept :
    (cfg : UpdateConfig) (o : Observation) (sha : Text) (s : Updater)
    → ((judge cfg o sha s).0.last_stat ≡ s.last_stat)
      × ((judge cfg o sha s).0.last_seen_sha ≡ s.last_seen_sha)
unfolding judge pass_gate try_swap
judge-kept cfg o sha s = ground arith

pub same_stat→≡ : (o : Option (ℕ × ℕ)) (st : ℕ × ℕ) → same_stat o st ≡ true → o ≡ some st
same_stat→≡ none st h = cc
same_stat→≡ (some (m, n)) (mtime, size) h = ground arith

same_sha→≡ : (o : Option Text) (sha : Text) → same_sha o sha ≡ true → o ≡ some sha
same_sha→≡ none sha h = cc
same_sha→≡ (some seen) sha h = ap some (text_eq→≡ seen sha h)

-- What a poll of a file with the hash `h` leaves, and what it needs for a swap.
record Settles (st : ℕ × ℕ) (h : Text) (s : Updater) (r : Updater × Outcome) : Type 0 where
  noted : r.0.last_stat ≡ some st
  seen : r.0.last_seen_sha ≡ some h
  confirmed : (sha : Text) → r.1 ≡ launch_swap sha → (s.last_seen_sha ≡ some h) × (sha ≡ h)

judge-Settles :
    (cfg : UpdateConfig) (o : Observation) (st : ℕ × ℕ) (h : Text) (s : Updater)
    → s.last_seen_sha ≡ some h
    → Settles st h s (judge cfg o h (record s { last_stat = some st; last_seen_sha = some h }))
judge-Settles cfg o st h s e =
    let s1 : Updater = record s { last_stat = some st; last_seen_sha = some h } in
    let (a, b) = judge-kept cfg o h s1 in
    record {
      noted = a;
      seen = b;
      confirmed = λ sha. λ q. (e, sym (judge-IsSafe cfg o h sha s1 q).1);
    }

changed-Settles :
    (cfg : UpdateConfig) (o : Observation) (st : ℕ × ℕ) (h : Text) (s : Updater) (b : Bool)
    → same_sha s.last_seen_sha h ≡ b
    → Settles st h s (
        settle_step cfg o
          (if b then proceed h else wait_stable h)
          (record s { last_stat = some st }))
unfolding settle_step
changed-Settles cfg o st h s true e = judge-Settles cfg o st h s (same_sha→≡ s.last_seen_sha h e)
changed-Settles cfg o st h s false e = record {
  noted = refl;
  seen = refl;
  confirmed = λ sha. λ q. ground arith;
}

look_at-Settles :
    (cfg : UpdateConfig) (o : Observation) (st : ℕ × ℕ) (h : Text) (s : Updater)
    → o.hash ≡ some h
    → (s.last_stat ≡ some st → s.last_seen_sha ≡ some h)
    → Settles st h s (look_at cfg o st s)
unfolding look_at stability_step settle_step
look_at-Settles cfg o st h s q k = elim (Bool-cases (same_stat s.last_stat st)) [
  | inl e ↦
      rw (e, k (same_stat→≡ s.last_stat st e))
        (judge-Settles cfg o st h (record s { last_seen_sha = some h }) refl)
  | inr e ↦
      rw (e, q)
        (changed-Settles cfg (record o { hash = some h }) st h s (same_sha s.last_seen_sha h) refl)
]

poll-Settles :
    (cfg : UpdateConfig) (o : Observation) (st : ℕ × ℕ) (h : Text) (s : Updater)
    → o.stat ≡ some st
    → o.hash ≡ some h
    → (s.last_stat ≡ some st → s.last_seen_sha ≡ some h)
    → Settles st h s (poll cfg o s)
unfolding poll on_stat
poll-Settles cfg o st h s p q k =
    subst (λ x. Settles st h s (on_stat cfg o x s)) (sym p) (look_at-Settles cfg o st h s q k)

pub Watched-kept :
    (cfg : UpdateConfig) (s : Updater) (o : Observation)
    → Watched cfg s o
    → (s.last_stat ≡ o.stat) × (s.last_seen_sha ≡ o.hash)
Watched-kept cfg _ _ (first o st h p q) =
    let v = poll-Settles cfg o st h new_updater p q (ground arith) in
    (v.noted ∙ sym p, v.seen ∙ sym q)
Watched-kept cfg _ _ (later s before o st h w p q k) =
    let (a, b) = Watched-kept cfg s before w in
    let v = poll-Settles cfg o st h s p q (λ e. b ∙ k (sym a ∙ e ∙ sym p) ∙ q) in
    (v.noted ∙ sym p, v.seen ∙ sym q)

-- Of a file that can be read and hashed at every poll, and whose hash stays while its time and size
-- do, a build is launched only if this poll and the one before it found that build.
pub poll-confirmed :
    (cfg : UpdateConfig) (s : Updater) (before o : Observation) (st : ℕ × ℕ) (h sha : Text)
    → Watched cfg s before
    → o.stat ≡ some st
    → o.hash ≡ some h
    → (before.stat ≡ o.stat → before.hash ≡ o.hash)
    → (poll cfg o s).1 ≡ launch_swap sha
    → (before.hash ≡ some sha) × (o.hash ≡ some sha)
poll-confirmed cfg s before o st h sha w p q k e =
    let (a, b) = Watched-kept cfg s before w in
    let v = poll-Settles cfg o st h s p q (λ x. b ∙ k (sym a ∙ x ∙ sym p) ∙ q) in
    let (seen, same) = v.confirmed sha e in
    (sym b ∙ seen ∙ ap some (sym same), q ∙ ap some (sym same))
