-- ===== src/Turns/Fifo.antt =====
-- The lengths of the FIFO of turns under its operations.
use zeromux.Prelude.{
  ℕ, suc, ◌+◌, ◌-◌, ◌≡◌, refl, [], ◌∷◌, arith, length, length-append, is_some, ltb, ap, map, Option,
  none, some, ◌++◌, List,
}
use zeromux.RunMetrics.{RunOutcome}
use zeromux.Turns.{
  TurnStarts, start, start_external, mark_echoed, set_live_intent, settle, TurnEntry, front_intent,
}

pub length-start : (ms : ℕ) (ts : TurnStarts) → length (start ms ts) ≡ length ts + 1
unfolding start
length-start ms ts = length-append ts _

pub length-start_external :
    (ms : ℕ) (ts : TurnStarts) → length (start_external ms ts) ≡ length ts + 1
unfolding start_external
length-start_external ms ts = length-append ts _

pub length-mark_echoed : (ts : TurnStarts) → length (mark_echoed ts) ≡ length ts
unfolding mark_echoed
length-mark_echoed [] = refl
length-mark_echoed (e ∷ es) = ground (arith, length-mark_echoed es)

pub length-set_live_intent :
    (o : RunOutcome) (ts : TurnStarts) → length (set_live_intent o ts) ≡ length ts
unfolding set_live_intent
length-set_live_intent o [] = refl
length-set_live_intent o (e ∷ []) = refl
length-set_live_intent o (e ∷ f ∷ es) = ap suc (length-set_live_intent o (f ∷ es))

pub length-settle : (ts : TurnStarts) → length (settle ts).1 ≡ length ts - 1
unfolding settle
length-settle [] = omega arith
length-settle (e ∷ es) = omega arith

is_some-settle : (ts : TurnStarts) → is_some (settle ts).0 ≡ ltb 0 (length ts)
unfolding settle
is_some-settle [] = refl
is_some-settle (e ∷ es) = ground arith

-- The start times in the FIFO, oldest first.
abbrev pub start_of : TurnEntry → ℕ
start_of e = e.ms

abbrev pub settled_start : Option (ℕ × Option RunOutcome) → List ℕ
settled_start none = []
settled_start (some (started, intent)) = started ∷ []

pub starts-start :
    (now : ℕ) (ts : TurnStarts) → map start_of (start now ts) ≡ map start_of ts ++ now ∷ []
unfolding start
starts-start now [] = refl
starts-start now (e ∷ es) = ap (λ l. e.ms ∷ l) (starts-start now es)

pub starts-start_external :
    (now : ℕ) (ts : TurnStarts) → map start_of (start_external now ts) ≡ map start_of ts ++ now ∷ []
unfolding start_external
starts-start_external now [] = refl
starts-start_external now (e ∷ es) = ap (λ l. e.ms ∷ l) (starts-start_external now es)

pub starts-mark_echoed : (ts : TurnStarts) → map start_of (mark_echoed ts) ≡ map start_of ts
unfolding mark_echoed
starts-mark_echoed [] = refl
starts-mark_echoed (e ∷ es) = ground (arith, starts-mark_echoed es)

pub starts-set_live_intent :
    (o : RunOutcome) (ts : TurnStarts) → map start_of (set_live_intent o ts) ≡ map start_of ts
unfolding set_live_intent
starts-set_live_intent o [] = refl
starts-set_live_intent o (e ∷ []) = refl
starts-set_live_intent o (e ∷ f ∷ es) = ap (λ l. e.ms ∷ l) (starts-set_live_intent o (f ∷ es))

pub starts-settle :
    (ts : TurnStarts) → settled_start (settle ts).0 ++ map start_of (settle ts).1 ≡ map start_of ts
unfolding settle
starts-settle [] = refl
starts-settle (e ∷ es) = refl

-- The intent at the front is the one that `settle` gives.
pub intent-settle :
    (ts : TurnStarts) (o : RunOutcome)
    → front_intent ts ≡ some o
    → (started : ℕ) × ((settle ts).0 ≡ some (started, some o))
unfolding front_intent settle
intent-settle [] o h = cc
intent-settle (e ∷ es) o h = (e.ms, ground arith)
