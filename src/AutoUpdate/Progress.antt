-- ===== src/AutoUpdate/Progress.antt =====
-- When the auto-updater gets to a new build, and when it does not.
use zeromux.AutoUpdate.{
  UpdateConfig, Observation, Updater, Outcome, skipped, launch_swap, stability_step, gate_decision,
  try_swap, pass_gate, judge, settle_step, look_at, on_stat, poll, polls, is_disabled, same_stat,
  same_sha, waited_secs,
}
use zeromux.AutoUpdate.Marker.{health_failed_recently}
use zeromux.AutoUpdate.Stable.{Watched, Watched-kept, judge-kept, same_stat→≡}
use zeromux.AutoUpdate.Swaps.{judge-IsSafe}
use zeromux.Prelude.{
  if_cases, ap, sym, ◌∙◌, subst, ℕ, ◌≤◌, ◌≡◌, ◌≢◌, ◌⊎◌, inl, inr, refl, true, false, Option, none,
  some, List, [], ◌∷◌, Text, text_eq, arith, Bool-cases, All,
}
use zeromux.Session.Summary.{RunningSummary}

-- Nothing outside stands in the way of the build.
pub record IsReady (cfg : UpdateConfig) (o : Observation) (since : Option ℕ) (sha : Text)
    (summary : RunningSummary) : Type 0 where
  pub is_foreign : text_eq sha cfg.self_sha ≡ false
  pub unmarked : health_failed_recently o.marker sha o.wall_secs 21600 ≡ false
  pub smoke_passes : o.smoke_ok ≡ true
  pub has_summary : o.summary ≡ some summary
  pub no_run : summary.scheduled ≡ 0
  pub may_stop : (summary.interactive ≡ 0) ⊎ (cfg.max_wait_secs ≤ waited_secs o.mono_ms since)
  pub still_no_run : o.recheck.scheduled ≡ 0
  pub still_read : o.recheck.scheduled_read_failed ≡ false

judge-launches :
    (cfg : UpdateConfig) (o : Observation) (sha : Text) (s : Updater) (summary : RunningSummary)
    → same_sha s.smoke_failed_sha sha ≡ false
    → IsReady cfg o s.pending_since sha summary
    → (judge cfg o sha s).1 ≡ launch_swap sha
unfolding judge pass_gate gate_decision try_swap
judge-launches cfg o sha s summary f v = ground arith

same_stat_refl : (st : ℕ × ℕ) → same_stat (some st) st ≡ true
same_stat_refl (m, n) = ground arith

look_at-same :
    (cfg : UpdateConfig) (o : Observation) (st : ℕ × ℕ) (sha : Text) (s : Updater)
    → s.last_stat ≡ some st
    → s.last_seen_sha ≡ some sha
    → look_at cfg o st s
      ≡ judge cfg o sha (record s { last_stat = some st; last_seen_sha = some sha })
unfolding look_at stability_step settle_step
look_at-same cfg o st sha s a b = rw (a, b, same_stat_refl st) refl

poll-same :
    (cfg : UpdateConfig) (o : Observation) (st : ℕ × ℕ) (sha : Text) (s : Updater)
    → o.stat ≡ some st
    → s.last_stat ≡ some st
    → s.last_seen_sha ≡ some sha
    → poll cfg o s ≡ judge cfg o sha (record s { last_stat = some st; last_seen_sha = some sha })
unfolding poll on_stat
poll-same cfg o st sha s p a b = ap (λ x. on_stat cfg o x s) p ∙ look_at-same cfg o st sha s a b

-- A build that the poll before found, and whose file has not changed since, is launched by this poll if
-- it is not the one that runs and failed neither its trial run nor, of late, its health check, if the
-- trial run succeeds, no scheduled run is in flight before or after it, the table can be read, and no
-- interactive turn runs or the build has waited for `max_wait`.
pub poll-launches :
    (cfg : UpdateConfig) (s : Updater) (before o : Observation) (st : ℕ × ℕ) (sha : Text)
    (summary : RunningSummary)
    → Watched cfg s before
    → before.hash ≡ some sha
    → before.stat ≡ some st
    → o.stat ≡ some st
    → same_sha s.smoke_failed_sha sha ≡ false
    → IsReady cfg o s.pending_since sha summary
    → (poll cfg o s).1 ≡ launch_swap sha
poll-launches cfg s before o st sha summary w b c p f v =
    let (noted, seen) = Watched-kept cfg s before w in
    ap (λ r. r.1) (poll-same cfg o st sha s p (noted ∙ c) (seen ∙ b))
    ∙ judge-launches cfg o sha (record s { last_stat = some st; last_seen_sha = some sha }) summary
        f v

-- Never a swap.
abbrev pub Quiet : Outcome → Type 0
Quiet r = (sha : Text) → r ≢ launch_swap sha

own-Quiet :
    (cfg : UpdateConfig) (o : Observation) (s : Updater) → Quiet (judge cfg o cfg.self_sha s).1
own-Quiet cfg o s sha e =
    let (safe, same, _) = judge-IsSafe cfg o cfg.self_sha sha s e in safe.foreign (sym same)

polls-cons :
    (cfg : UpdateConfig) (o : Observation) (os : List Observation) (s : Updater)
    → Quiet (poll cfg o s).1
    → All Quiet (polls cfg os (poll cfg o s).0)
    → All Quiet (polls cfg (o ∷ os) s)
unfolding polls
polls-cons cfg o os s q qs = (
  q,
  if_cases (All Quiet) (is_disabled (poll cfg o s).1) [] (polls cfg os (poll cfg o s).0) (λ _. tt)
      (λ _. qs),
)

stuck-Quiet :
    (cfg : UpdateConfig) (os : List Observation) (st : ℕ × ℕ) (s : Updater)
    → s.last_stat ≡ some st
    → s.last_seen_sha ≡ some cfg.self_sha
    → All (λ o. o.stat ≡ some st) os
    → All Quiet (polls cfg os s)
unfolding polls
stuck-Quiet cfg [] st s a b all = tt
stuck-Quiet cfg (o ∷ os) st s a b (p, ps) =
    let t : Updater = record s { last_stat = some st; last_seen_sha = some cfg.self_sha } in
    let same = poll-same cfg o st cfg.self_sha s p a b in
    let (x, y) = judge-kept cfg o cfg.self_sha t in
    polls-cons cfg o os s (subst (λ r. Quiet r.1) (sym same) (own-Quiet cfg o t)) (
      stuck-Quiet cfg os st (poll cfg o s).0 (ap (λ r. r.0.last_stat) same ∙ x)
        (ap (λ r. r.0.last_seen_sha) same ∙ y) ps)

look_at-unread :
    (cfg : UpdateConfig) (o : Observation) (st : ℕ × ℕ) (s : Updater)
    → o.hash ≡ none
    → s.last_stat ≢ some st
    → look_at cfg o st s ≡ (record s { last_stat = some st }, skipped)
unfolding look_at stability_step settle_step
look_at-unread cfg o st s h n = elim (Bool-cases (same_stat s.last_stat st)) [
  | inl e ↦ absurd (n (same_stat→≡ s.last_stat st e))
  | inr e ↦ rw (e, h) refl
]

-- When the loop has the running build on record and cannot hash the file at the first poll after it
-- changed, it takes the new build for the running one and launches nothing, for as long as the file's
-- time and size stay as that poll found them, whatever else it observes.
pub unread_build_ignored :
    (cfg : UpdateConfig) (s : Updater) (o : Observation) (os : List Observation) (st : ℕ × ℕ)
    → s.last_seen_sha ≡ some cfg.self_sha
    → s.last_stat ≢ some st
    → o.stat ≡ some st
    → o.hash ≡ none
    → All (λ x. x.stat ≡ some st) os
    → All Quiet (polls cfg (o ∷ os) s)
unfolding poll on_stat
unread_build_ignored cfg s o os st b n p h all =
    let same : poll cfg o s ≡ (record s { last_stat = some st }, skipped) =
      ap (λ x. on_stat cfg o x s) p ∙ look_at-unread cfg o st s h n in
    polls-cons cfg o os s (subst (λ r. Quiet r.1) (sym same) (λ sha. λ e. ground arith)) (
      subst (λ r. All Quiet (polls cfg os r.0)) (sym same)
        (stuck-Quiet cfg os st (record s { last_stat = some st }) refl b all))
