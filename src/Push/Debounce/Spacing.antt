-- ===== src/Push/Debounce/Spacing.antt =====
-- When a sender of notifications goes on, by what was marked before.
use zeromux.Prelude.{
  ℕ, ◌+◌, ◌<◌, ◌≡◌, refl, String, str_eq, Bool, true, false, not, ◌&&◌, Option, none, some, List,
  [], ◌∷◌, arith, retain, All, if◌then◌else◌, ap, ◌∙◌, eq_iff, Bool-cases, inl, inr, leb,
}
use zeromux.Push.Debounce.{
  Mark, Marks, is_for, Service, last_mark, mark, last_turn_push, last_stuck_push, mark_turn_pushed,
  mark_stuck_pushed, forget_session, should_push_turn_done, should_push_run_done, should_push_stuck,
  Attempt, turn_done, run_done, stuck, looks, marks,
}

-- Turn and run notifications share a map, stuck ones have their own.
pub data Channel : Type 0 where
  finished silent : Channel

abbrev pub channel : Attempt → Channel
channel (turn_done dur) = finished
channel run_done = finished
channel stuck = silent

abbrev same_channel : Channel → Channel → Bool
same_channel finished finished = true
same_channel silent silent = true
same_channel finished silent = false
same_channel silent finished = false

abbrev marks_of : Channel → Service → Marks
marks_of finished s = s.debounce
marks_of silent s = s.stuck_debounce

-- What is done to the maps, by any task: a sender that went on marks, a session is removed.
pub data Step : Type 0 where
  marked : Attempt → String → String → ℕ → Step
  forgotten : String → Step

unfoldable pub step : Step → Service → Service
step (marked a user session now) s = marks a user session now s
step (forgotten session) s = forget_session session s

-- The maps after a history, its newest step first, from empty maps.
unfoldable pub after : List Step → Service
unfolding step
after [] = record { debounce = []; stuck_debounce = [] }
after (x ∷ past) = step x (after past)

-- When the user was last told of the session on the channel, by the history: not since it was removed.
abbrev pub last_told : Channel → String → String → List Step → Option ℕ
last_told c user session [] = none
last_told c user session (marked a u v now ∷ past) =
    let before = last_told c user session past in
    if same_channel c (channel a) && (str_eq u user && str_eq v session) then some now else before
last_told c user session (forgotten v ∷ past) =
    let before = last_told c user session past in if str_eq session v then none else before

abbrev pub gap : Channel → ℕ
gap finished = 30000
gap silent = 300000

abbrev pub is_over : ℕ → Option ℕ → ℕ → Bool
is_over g none now = true
is_over g (some told) now = leb (told + g) now

abbrev pub is_long : Attempt → Bool
is_long (turn_done dur) = leb 60000 dur
is_long run_done = true
is_long stuck = true

is_for-agree :
    (user session u v : String) (m : Mark)
    → is_for u v m ≡ true
    → is_for user session m ≡ (str_eq u user && str_eq v session)
is_for-agree user session u v m h =
    let a : m.user ≡ u = (eq_iff m.user u).0 (ground arith) in
    let b : m.session ≡ v = (eq_iff m.session v).0 (ground arith) in
    ap (λ x. str_eq x user && str_eq m.session session) a
    ∙ ap (λ x. str_eq u user && str_eq x session) b

last_mark-retain :
    (user session u v : String) (ms : Marks)
    → (str_eq u user && str_eq v session) ≡ false
    → last_mark user session (retain (λ m. not (is_for u v m)) ms) ≡ last_mark user session ms
last_mark-retain user session u v [] h = refl
last_mark-retain user session u v (m ∷ ms) h = elim (Bool-cases (is_for u v m)) [
  | inl e ↦ rw (e, is_for-agree user session u v m e, h) (last_mark-retain user session u v ms h)
  | inr e ↦ rw (e, last_mark-retain user session u v ms h) refl
]

last_mark-mark :
    (user session u v : String) (now : ℕ) (ms : Marks)
    → last_mark user session (mark u v now ms)
      ≡ (if str_eq u user && str_eq v session then some now else last_mark user session ms)
last_mark-mark user session u v now ms = elim (Bool-cases (str_eq u user && str_eq v session)) [
  | inl e ↦ rw e refl
  | inr e ↦ rw e (last_mark-retain user session u v ms e)
]

last_mark-forget :
    (user session v : String) (ms : Marks)
    → last_mark user session (retain (λ m. not (str_eq m.session v)) ms)
      ≡ (if str_eq session v then none else last_mark user session ms)
last_mark-forget user session v [] = ground arith
last_mark-forget user session v (m ∷ ms) = elim (Bool-cases (is_for user session m)) [
  | inl e ↦
      let same : m.session ≡ session = (eq_iff m.session session).0 (ground (arith, e)) in
      ground (arith, e, ap (λ x. str_eq x v) same, last_mark-forget user session v ms)
  | inr e ↦ ground (arith, e, last_mark-forget user session v ms)
]

-- The maps hold what the history tells.
last_mark-told :
    (c : Channel) (user session : String) (past : List Step)
    → last_mark user session (marks_of c (after past)) ≡ last_told c user session past
unfolding after step marks mark_turn_pushed mark_stuck_pushed forget_session
last_mark-told finished user session [] = refl
last_mark-told silent user session [] = refl
last_mark-told finished user session (marked (turn_done dur) u v now ∷ past) =
    rw
      (
        last_mark-mark user session u v now (after past).debounce,
        last_mark-told finished user session past,
      )
      refl
last_mark-told finished user session (marked run_done u v now ∷ past) =
    rw
      (
        last_mark-mark user session u v now (after past).debounce,
        last_mark-told finished user session past,
      )
      refl
last_mark-told finished user session (marked stuck u v now ∷ past) =
    last_mark-told finished user session past
last_mark-told silent user session (marked (turn_done dur) u v now ∷ past) =
    last_mark-told silent user session past
last_mark-told silent user session (marked run_done u v now ∷ past) =
    last_mark-told silent user session past
last_mark-told silent user session (marked stuck u v now ∷ past) =
    rw
      (
        last_mark-mark user session u v now (after past).stuck_debounce,
        last_mark-told silent user session past,
      )
      refl
last_mark-told finished user session (forgotten v ∷ past) =
    rw
      (
        last_mark-forget user session v (after past).debounce,
        last_mark-told finished user session past,
      )
      refl
last_mark-told silent user session (forgotten v ∷ past) =
    rw
      (
        last_mark-forget user session v (after past).stuck_debounce,
        last_mark-told silent user session past,
      )
      refl

-- No clock shows the epoch itself.
abbrev pub IsAfterEpoch : Step → Type 0
IsAfterEpoch (marked a user session now) = 0 < now
IsAfterEpoch (forgotten session) = Unit

abbrev IsPositive : Option ℕ → Type 0
IsPositive none = Unit
IsPositive (some t) = 0 < t

last_told-IsPositive :
    (c : Channel) (user session : String) (past : List Step)
    → All IsAfterEpoch past
    → IsPositive (last_told c user session past)
last_told-IsPositive c user session [] h = tt
last_told-IsPositive c user session (marked a u v now ∷ past) (h, hs) =
    ground (arith, h, last_told-IsPositive c user session past hs)
last_told-IsPositive c user session (forgotten v ∷ past) (h, hs) =
    ground (arith, last_told-IsPositive c user session past hs)

looks-last :
    (a : Attempt) (user session : String) (now : ℕ) (s : Service) (told : Option ℕ)
    → last_mark user session (marks_of (channel a) s) ≡ told
    → IsPositive told
    → looks a user session now s ≡ (is_long a && is_over (gap (channel a)) told now)
unfolding looks should_push_turn_done should_push_run_done should_push_stuck last_turn_push
    last_stuck_push
looks-last (turn_done dur) user session now s none e h = ground (arith, e)
looks-last (turn_done dur) user session now s (some t) e h = ground (arith, e, h)
looks-last run_done user session now s none e h = ground (arith, e)
looks-last run_done user session now s (some t) e h = ground (arith, e, h)
looks-last stuck user session now s none e h = ground (arith, e)
looks-last stuck user session now s (some t) e h = ground (arith, e, h)

-- From empty maps, whatever was marked and whatever sessions were removed before, by any tasks and in any
-- order, a sender that looks goes on exactly if the turn took a minute, where it tells of a turn, and the
-- last mark for the user and the session since the session was removed, if there is one, is thirty seconds
-- old at least, or five minutes for its silence; if no clock that was marked shows the epoch itself.
pub looks-last_told :
    (a : Attempt) (user session : String) (now : ℕ) (past : List Step)
    → All IsAfterEpoch past
    → looks a user session now (after past)
      ≡ (is_long a && is_over (gap (channel a)) (last_told (channel a) user session past) now)
looks-last_told a user session now past h =
    looks-last a user session now (after past) (last_told (channel a) user session past)
      (last_mark-told (channel a) user session past)
      (last_told-IsPositive (channel a) user session past h)
