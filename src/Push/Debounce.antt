-- ===== src/Push/Debounce.antt =====
-- The two debounce maps of src/push.rs `PushService`, and the three senders that go by them. A map is an
-- association list. A sender looks and then marks, each under a lock of its own and in a task of its own,
-- so these are two steps.
pub mod Spacing
use zeromux.Prelude.{
  ℕ, ◌-◌, String, str_eq, Bool, true, false, not, ◌&&◌, Option, none, some, List, [], ◌∷◌, retain,
  ltb, leb, ◌==◌, if◌then◌else◌,
}

pub record Mark : Type 0 where
  pub user : String
  pub session : String
  pub at_ms : ℕ

abbrev pub Marks : Type 0
Marks = List Mark

abbrev pub is_for : String → String → Mark → Bool
is_for user session m = str_eq m.user user && str_eq m.session session

pub record Service : Type 0 where
  pub debounce : Marks
  pub stuck_debounce : Marks

abbrev pub last_mark : String → String → Marks → Option ℕ
last_mark user session [] = none
last_mark user session (m ∷ ms) =
    let rest = last_mark user session ms in if is_for user session m then some m.at_ms else rest

-- `HashMap::insert`.
abbrev pub mark : String → String → ℕ → Marks → Marks
mark user session now ms =
    record { user = user; session = session; at_ms = now }
    ∷ retain (λ m. not (is_for user session m)) ms

-- A zero stands for never.
unfoldable pub last_turn_push : String → String → Service → Option ℕ
last_turn_push user session s = elim (last_mark user session s.debounce) [
  | none ↦ none
  | some at ↦ if at == 0 then none else some at
]

unfoldable pub last_stuck_push : String → String → Service → Option ℕ
last_stuck_push user session s = last_mark user session s.stuck_debounce

unfoldable pub mark_turn_pushed : String → String → ℕ → Service → Service
mark_turn_pushed user session now s = record s { debounce = mark user session now s.debounce }

unfoldable pub mark_stuck_pushed : String → String → ℕ → Service → Service
mark_stuck_pushed user session now s = record s {
  stuck_debounce = mark user session now s.stuck_debounce;
}

unfoldable pub forget_session : String → Service → Service
forget_session session s = record {
  debounce = retain (λ m. not (str_eq m.session session)) s.debounce;
  stuck_debounce = retain (λ m. not (str_eq m.session session)) s.stuck_debounce;
}

within : ℕ → ℕ → Option ℕ → Bool
within gap now none = false
within gap now (some last) = ltb (now - last) gap

-- A clock that went back counts as no time here; the difference in the source is negative, which is
-- below the gap as well.
unfoldable pub should_push_turn_done : ℕ → Option ℕ → ℕ → Bool
unfolding within
should_push_turn_done now last dur = leb 60000 dur && not (within 30000 now last)

unfoldable pub should_push_run_done : ℕ → Option ℕ → Bool
unfolding within
should_push_run_done now last = not (within 30000 now last)

unfoldable pub should_push_stuck : ℕ → Option ℕ → Bool
unfolding within
should_push_stuck now last = not (within 300000 now last)

pub data Attempt : Type 0 where
  turn_done : ℕ → Attempt
  run_done stuck : Attempt

-- `maybe_push_turn_done`, `maybe_push_run_done` and the stuck push of the scheduler: whether the sender
-- that looks goes on.
unfoldable pub looks : Attempt → String → String → ℕ → Service → Bool
unfolding should_push_turn_done should_push_run_done should_push_stuck last_turn_push
    last_stuck_push
looks (turn_done dur) user session now s =
    should_push_turn_done now (last_turn_push user session s) dur
looks run_done user session now s = should_push_run_done now (last_turn_push user session s)
looks stuck user session now s = should_push_stuck now (last_stuck_push user session s)

-- What it marks then.
unfoldable pub marks : Attempt → String → String → ℕ → Service → Service
unfolding mark_turn_pushed mark_stuck_pushed
marks (turn_done dur) user session now s = mark_turn_pushed user session now s
marks run_done user session now s = mark_turn_pushed user session now s
marks stuck user session now s = mark_stuck_pushed user session now s
