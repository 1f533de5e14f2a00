-- ===== src/Session/Lifecycle/Windows.antt =====
-- The windows of undo that are open after a history.
use zeromux.Prelude.{
  ℕ, ◌+◌, ◌≡◌, refl, String, str_eq, eq_iff, ◌&&◌, Option, none, some, List, [], ◌∷◌, inl, inr,
  arith, if◌then◌else◌, Option-cases, if_cases,
}
use zeromux.Session.{Session, ended}
use zeromux.Session.Table.{Sessions, lookup, remove, lookup-modify, lookup-remove}
use zeromux.Session.Lifecycle.{
  pending_kill_ms, mark_ended, revive, revived, pend, mark_pending_kill, restore, remove_session,
  Doomed, strike,
}
use zeromux.Session.Lifecycle.History.{
  Op, create, exit, reopen, undo, drop_session, carry_out, close, due, World, first, step, after,
  asked, pending_of, Window, Windows,
}

pending-mark_ended :
    (id j : String) (ss : Sessions) → pending_of j (mark_ended id ss).2 ≡ pending_of j ss
unfolding mark_ended
pending-mark_ended id j ss =
    ground (arith, lookup-modify (λ r. record r { status = ended }) (λ s. refl) id j ss)

pending-revive : (id j : String) (ss : Sessions) → pending_of j (revive id ss).2 ≡ pending_of j ss
unfolding revive
pending-revive id j ss = ground (arith, lookup-modify revived (λ s. refl) id j ss)

pending-restore :
    (id j : String) (ss : Sessions)
    → pending_of j (restore id ss).2 ≡ (if str_eq id j then none else pending_of j ss)
unfolding restore
pending-restore id j ss = ground (arith, eq_iff id j, lookup-modify (pend none) (λ s. refl) id j ss)

pending-mark_pending_kill :
    (id : String) (now : ℕ) (j : String) (ss : Sessions)
    → pending_of j (mark_pending_kill id now ss).2 ≡ (
        if str_eq id j && (mark_pending_kill id now ss).0
        then some (now + pending_kill_ms)
        else pending_of j ss)
unfolding mark_pending_kill
pending-mark_pending_kill id now j ss =
    ground
      (arith, eq_iff id j, lookup-modify (pend (some (now + pending_kill_ms))) (λ s. refl) id j ss)

pending-remove_session :
    (id j : String) (ss : Sessions)
    → pending_of j (remove_session id ss).2 ≡ (if str_eq id j then none else pending_of j ss)
unfolding remove_session
pending-remove_session id j ss = ground (arith, eq_iff id j, lookup-remove id j ss)

pending-create :
    (s : Session) (j : String) (ss : Sessions)
    → pending_of j (pend none s ∷ remove s.id ss)
      ≡ (if str_eq s.id j then none else pending_of j ss)
unfolding lookup
pending-create s j ss = ground (arith, eq_iff s.id j, lookup-remove s.id j ss)

pending-strike :
    (d : Doomed) (j : String) (ss : Sessions)
    → pending_of j (strike d ss).2 ≡ (if str_eq d.id j then none else pending_of j ss)
unfolding strike
pending-strike d j ss = pending-remove_session d.id j ss

Window-carry_out :
    (id j : String) (w : World) (a : Option ℕ)
    → Window (pending_of j w.sessions) a
    → Window (pending_of j (step (carry_out id) w).1.sessions) a
unfolding step
Window-carry_out id j w a h = elim (Option-cases (first id w.doomed)) [
  | inl none_due ↦ rw (none_due, step) h
  | inr (d, found) ↦
      rw (found, step)
        (rw (pending-strike d j w.sessions) (
          if_cases (λ (u : Option ℕ). Window u a) (str_eq d.id j) none (pending_of j w.sessions)
            (λ _. tt) (λ _. h)))
]

pub windows :
    (start : Sessions)
    → ((id : String) → pending_of id start ≡ none)
    → (past : List Op) → Windows start past
unfolding after asked step
windows start quiet [] id = rw (quiet id) tt
windows start quiet (create s ∷ past) id =
    ground (arith, pending-create s id (after start past).sessions, windows start quiet past id)
windows start quiet (exit j ∷ past) id =
    rw (pending-mark_ended j id (after start past).sessions) (windows start quiet past id)
windows start quiet (reopen j ∷ past) id =
    rw (pending-revive j id (after start past).sessions) (windows start quiet past id)
windows start quiet (undo j ∷ past) id =
    ground (arith, pending-restore j id (after start past).sessions, windows start quiet past id)
windows start quiet (drop_session j ∷ past) id =
    ground
      (arith, pending-remove_session j id (after start past).sessions, windows start quiet past id)
windows start quiet (carry_out j ∷ past) id =
    Window-carry_out j id (after start past) _ (windows start quiet past id)
windows start quiet (close j now ∷ past) id = ground (
  arith,
  pending-mark_pending_kill j now id (after start past).sessions,
  windows start quiet past id,
)
windows start quiet (due j now ∷ past) id = windows start quiet past id
