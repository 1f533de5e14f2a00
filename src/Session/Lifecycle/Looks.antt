-- ===== src/Session/Lifecycle/Looks.antt =====
-- The closes that were seen to be due.
use zeromux.Prelude.{
  ℕ, ◌≤◌, ◌≡◌, refl, String, str_eq, true, Option, none, some, List, [], ◌∷◌, inl, inr, arith,
  Bool-cases, Option-cases, leb→le, All, if_cases, subst,
}
use zeromux.Session.{Session}
use zeromux.Session.Table.{Sessions, lookup}
use zeromux.Session.Lifecycle.{is_due, is_ended, tmux_name, Doomed, look}
use zeromux.Session.Lifecycle.History.{
  Op, create, exit, reopen, undo, drop_session, carry_out, close, due, World, first, without, step,
  after, asked, pending_of, Window, SawDue, Decided,
}
use zeromux.Session.Lifecycle.Windows.{windows}

is_due-cases : (now : ℕ) (o : Option ℕ) → is_due now o ≡ true → (u : ℕ) × (o ≡ some u) × (u ≤ now)
unfolding is_due
is_due-cases now none e = cc
is_due-cases now (some u) e = (u, refl, leb→le u now e)

-- What a look that sees a due close has seen.
look-eq-some :
    (id : String) (now : ℕ) (ss : Sessions) (d : Doomed)
    → look id now ss ≡ some d
    → (s : Session) × (lookup id ss ≡ some s)
      × (tmux_name s.resume_token ≡ some d.name)
      × (is_due now s.pending_kill_until ≡ true)
      × (d.id ≡ id)
      × (d.was_ended ≡ is_ended s.status)
unfolding look
look-eq-some id now ss d e = elim (Option-cases (lookup id ss)) [
  | inl gone ↦ ground arith
  | inr (s, there) ↦ (s, there, ground arith, ground arith, ground arith, ground arith)
]

pending-eq-some :
    (id : String) (ss : Sessions) (s : Session) (u : ℕ)
    → lookup id ss ≡ some s
    → s.pending_kill_until ≡ some u
    → pending_of id ss ≡ some u
pending-eq-some id ss s u e h = ground arith

All-map {ℓ κ} :
    {A : Type ℓ} (P Q : A → Type κ) → ((a : A) → P a → Q a) → (xs : List A) → All P xs → All Q xs
All-map P Q f [] a = tt
All-map P Q f (x ∷ xs) a = (f x a.0, All-map P Q f xs a.1)

All-without :
    (P : Doomed → Type 0) (id : String) (ds : List Doomed) → All P ds → All P (without id ds)
unfolding without
All-without P id [] a = tt
All-without P id (d ∷ ds) a =
    if_cases (All P) (str_eq d.id id) ds (d ∷ without id ds) (λ _. a.1)
      (λ _. (a.0, All-without P id ds a.1))

pub first-All :
    (P : Doomed → Type 0) (id : String) (ds : List Doomed) (d : Doomed)
    → All P ds
    → first id ds ≡ some d
    → P d
unfolding first
first-All P id [] d a e = cc
first-All P id (r ∷ ds) d a e = elim (Bool-cases (str_eq r.id id)) [
  | inl here ↦ subst P (ground arith) a.0
  | inr later ↦ first-All P id ds d a.1 (ground arith)
]

doomed-carry_out :
    (P : Doomed → Type 0) (id : String) (w : World)
    → All P w.doomed
    → All P (step (carry_out id) w).1.doomed
unfolding step
doomed-carry_out P id w a = elim (Option-cases (first id w.doomed)) [
  | inl none_due ↦ rw (none_due, step) a
  | inr (d, found) ↦ rw (found, step) (All-without P id w.doomed a)
]

module _ (start : Sessions) (quiet : (id : String) → pending_of id start ≡ none) where
  look-SawDue :
      (past : List Op) (id : String) (now : ℕ) (d : Doomed)
      → look id now (after start past).sessions ≡ some d
      → SawDue start past now d
  look-SawDue past id now d e =
      let (s, there, bound, due_now, same, was) =
        look-eq-some id now (after start past).sessions d e in
      let (u, pending, over) = is_due-cases now s.pending_kill_until due_now in
      let w = windows start quiet past id in
      let e' = pending-eq-some id (after start past).sessions s u there pending in
      let (t, at, window) = subst (λ o. Window o (asked start past id)) e' w in
      record {
        asked_at = t;
        was_asked = rw same at;
        waited = omega arith;
        session = s;
        was_there = rw same there;
        bound = bound;
        ended_then = was;
      }

  -- Every close in the hands of a task was seen to be due.
  pub doomed-Decided : (past : List Op) → All (Decided start past) (after start past).doomed
  unfolding after step
  doomed-Decided [] = tt
  doomed-Decided (due id now ∷ past) =
      elim (Option-cases (look id now (after start past).sessions)) [
        | inl early ↦ rw early (All-map _ _ (λ d. inr) _ (doomed-Decided past))
        | inr (d, seen) ↦
            rw seen
              (inl (look-SawDue past id now d seen), All-map _ _ (λ d. inr) _ (doomed-Decided past))
      ]
  doomed-Decided (carry_out id ∷ past) =
      doomed-carry_out (Decided start past) id (after start past) (doomed-Decided past)
  doomed-Decided (create s ∷ past) = doomed-Decided past
  doomed-Decided (exit j ∷ past) = doomed-Decided past
  doomed-Decided (reopen j ∷ past) = doomed-Decided past
  doomed-Decided (undo j ∷ past) = doomed-Decided past
  doomed-Decided (drop_session j ∷ past) = doomed-Decided past
  doomed-Decided (close j now ∷ past) = doomed-Decided past
