-- ===== src/Examples/Closing.antt =====
-- The theorems on closing sessions, at one terminal that is closed and killed.
use zeromux.Examples.Data.{session}
use zeromux.Prelude.{refl, some, List, [], ◌∷◌, All}
use zeromux.Session.{Session, tmux, own}
use zeromux.Session.Lifecycle.History.{
  Op, create, close, due, carry_out, step, after, killed, IsWarranted,
}
use zeromux.Session.Lifecycle.Undo.{kill_after_undo_window}
use zeromux.Session.Table.{lookup}

abbrev terminal : Session
terminal = record session { resume_token = some (tmux "zmx-1"); tmux_origin = some own }

-- Closed at 1000 and looked at five seconds later.
abbrev history : List Op
history = due session.id 6000 ∷ close session.id 1000 ∷ create terminal ∷ []

kill_after_undo_window_example :
    All (IsWarranted [] history) (killed (step (carry_out session.id) (after [] history)).0)
unfolding lookup
kill_after_undo_window_example =
    kill_after_undo_window [] (λ id. refl) history (carry_out session.id)
