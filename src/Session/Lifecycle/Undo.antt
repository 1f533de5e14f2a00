-- ===== src/Session/Lifecycle/Undo.antt =====
-- Which tmux sessions are killed.
use zeromux.Prelude.{
  ℕ, ◌≡◌, refl, String, none, List, [], ◌∷◌, ◌++◌, inl, inr, arith, if◌then◌else◌, Bool-cases,
  Option-cases, All, ap,
}
use zeromux.Session.{Session}
use zeromux.Session.Table.{Sessions, lookup}
use zeromux.Session.Lifecycle.{
  Call, kill_tmux, delete_row, upsert_row, set_pending_row, abort_active_run, forget_push,
  remove_worktree, forget_log, mark_ended, revive, mark_pending_kill, restore, removal_calls,
  remove_session, Doomed, strike,
}
use zeromux.Session.Lifecycle.History.{
  Op, create, exit, reopen, undo, drop_session, carry_out, close, due, first, step, after,
  pending_of, Decided, killed, IsWarranted,
}
use zeromux.Session.Lifecycle.Looks.{doomed-Decided, first-All}

killed-append : (xs ys : List Call) → killed (xs ++ ys) ≡ killed xs ++ killed ys
killed-append [] ys = refl
killed-append (kill_tmux n ∷ xs) ys = ap (λ l. n ∷ l) (killed-append xs ys)
killed-append (delete_row j ∷ xs) ys = killed-append xs ys
killed-append (upsert_row s ∷ xs) ys = killed-append xs ys
killed-append (set_pending_row j u ∷ xs) ys = killed-append xs ys
killed-append (abort_active_run j r ∷ xs) ys = killed-append xs ys
killed-append (forget_push j ∷ xs) ys = killed-append xs ys
killed-append (remove_worktree p ∷ xs) ys = killed-append xs ys
killed-append (forget_log j ∷ xs) ys = killed-append xs ys

killed-removal_calls : (id : String) (s : Session) → killed (removal_calls id s) ≡ []
unfolding removal_calls
killed-removal_calls id s = ground arith

killed-remove_session : (id : String) (ss : Sessions) → killed (remove_session id ss).1 ≡ []
unfolding remove_session
killed-remove_session id ss = elim (Option-cases (lookup id ss)) [
  | inl gone ↦ rw (gone, remove_session, killed)
  | inr (s, there) ↦ rw (there, remove_session, killed) (killed-removal_calls id s)
]

killed-strike :
    (d : Doomed) (ss : Sessions)
    → killed (strike d ss).1 ≡ (if d.was_ended then [] else d.name ∷ [])
unfolding strike
killed-strike d ss =
    rw
      (
        killed-append (remove_session d.id ss).1
            (if d.was_ended then [] else kill_tmux d.name ∷ []),
        killed-remove_session d.id ss,
      )
      (elim (Bool-cases d.was_ended) [ inl e ↦ rw e | inr e ↦ rw e ])

killed-mark_ended : (id : String) (ss : Sessions) → killed (mark_ended id ss).1 ≡ []
unfolding mark_ended
killed-mark_ended id ss = ground arith

killed-revive : (id : String) (ss : Sessions) → killed (revive id ss).1 ≡ []
unfolding revive
killed-revive id ss = ground arith

killed-restore : (id : String) (ss : Sessions) → killed (restore id ss).1 ≡ []
unfolding restore
killed-restore id ss = ground arith

killed-mark_pending_kill :
    (id : String) (now : ℕ) (ss : Sessions) → killed (mark_pending_kill id now ss).1 ≡ []
unfolding mark_pending_kill
killed-mark_pending_kill id now ss = ground arith

module _ (start : Sessions) (quiet : (id : String) → pending_of id start ≡ none) where
  carry_out-IsWarranted :
      (past : List Op) (id : String)
      → All (IsWarranted start past) (killed (step (carry_out id) (after start past)).0)
  unfolding step
  carry_out-IsWarranted past id =
      let w = after start past in
      elim (Option-cases (first id w.doomed)) [
        | inl none_due ↦ rw (none_due, step) tt
        | inr (d, found) ↦
            let decided =
              first-All (Decided start past) id w.doomed d (doomed-Decided start quiet past)
                found in
            rw (found, step)
              (rw (killed-strike d w.sessions) (elim (Bool-cases d.was_ended) [
                | inl gone ↦ rw gone tt
                | inr alive ↦ rw alive ((d, decided, refl, alive), tt)
              ]))
      ]

  -- From sessions none of which is being closed, after any history of operations on sessions, an
  -- operation kills a tmux session only to carry out a close that some earlier look saw to be due: the
  -- close had been asked for five seconds before that look at least and not been undone until then, and
  -- the session was bound to that tmux session and had not ended.
  pub kill_after_undo_window :
      (past : List Op) (op : Op)
      → All (IsWarranted start past) (killed (step op (after start past)).0)
  unfolding step
  kill_after_undo_window past (create s) = tt
  kill_after_undo_window past (exit id) = rw (killed-mark_ended id (after start past).sessions) tt
  kill_after_undo_window past (reopen id) = rw (killed-revive id (after start past).sessions) tt
  kill_after_undo_window past (undo id) = rw (killed-restore id (after start past).sessions) tt
  kill_after_undo_window past (drop_session id) =
      rw (killed-remove_session id (after start past).sessions) tt
  kill_after_undo_window past (carry_out id) = carry_out-IsWarranted past id
  kill_after_undo_window past (close id now) =
      rw (killed-mark_pending_kill id now (after start past).sessions) tt
  kill_after_undo_window past (due id now) = tt
