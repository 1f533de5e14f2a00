-- ===== src/RunMetrics.antt =====
-- src/run_metrics.rs: the outcome, the duration and the cost of one turn, the statistics over a
-- session's runs, and their retention. Milliseconds are natural numbers. A cost is a natural number
-- of one fixed smallest unit where the source has an f64, so its rounding is not modelled.
pub mod Sorted
pub mod Stats
pub mod Cost
pub mod Retention
use zeromux.Prelude.{
  ℕ, zero, suc, ◌+◌, ◌-◌, ◌*◌, ◌/◌, String, str_eq, Bool, true, false, not, ◌||◌, Option, none,
  some, List, [], ◌∷◌, map, ltb, leb, if◌then◌else◌, is_some, unwrap_or, length, get_or, retain,
  count_if, ◌&&◌, ◌==◌,
}

pub data RunOutcome : Type 0 where
  completed errored timeout cancelled : RunOutcome

pub data VerdictSource : Type 0 where
  no_source agent_marker human : VerdictSource

pub data TerminalEvt : Type 0 where
  result_evt error_evt exit_evt : TerminalEvt

-- The wire form of an outcome, and its reader, which maps an unknown word to `none`.
unfoldable pub as_str : RunOutcome → String
as_str completed = "completed"
as_str errored = "errored"
as_str timeout = "timeout"
as_str cancelled = "cancelled"

unfoldable pub parse_lenient : String → Option RunOutcome
parse_lenient s =
    if str_eq s "completed"
    then some completed
    else if str_eq s "errored"
    then some errored
    else if str_eq s "timeout"
    then some timeout
    else if str_eq s "cancelled"
    then some cancelled
    else none

-- The user's intent, where there is one, goes before what the terminal event suggests.
unfoldable pub classify_outcome : TerminalEvt → Option RunOutcome → RunOutcome
classify_outcome evt (some p) = p
classify_outcome result_evt none = completed
classify_outcome error_evt none = errored
classify_outcome exit_evt none = errored

pub record RunMetric : Type 0 where
  pub run_id : String
  pub session_id : String
  pub work_dir : String
  pub agent_type : String
  pub turn_seq : ℕ
  pub started_ms : ℕ
  pub ended_ms : ℕ
  pub duration_ms : ℕ
  pub outcome : RunOutcome
  pub failure_kind : Option String
  pub verdict : Option String
  pub verdict_source : VerdictSource
  pub cost_usd : Option ℕ
  pub tokens_in : Option ℕ
  pub tokens_out : Option ℕ
  pub input_snapshot_ref : Option String

pub record SessionRunStats : Type 0 where
  pub count : ℕ
  pub avg_ms : ℕ
  pub p50_ms : ℕ
  pub p95_ms : ℕ
  pub max_ms : ℕ
  pub completed_count : ℕ
  pub errored_count : ℕ
  pub timeout_count : ℕ
  pub cancelled_count : ℕ

-- A clock that went back gives 0.
unfoldable pub duration_ms : ℕ → ℕ → ℕ
duration_ms started ended = if ltb ended started then 0 else ended - started

-- The running total of the CLI turned into this turn's share, with the new baseline.
unfoldable pub diff_cost : Option ℕ → Option ℕ → Bool → Bool → Option ℕ × Option ℕ
diff_cost prev none is_first is_resumed = (none, prev)
diff_cost prev (some cur) is_first is_resumed =
    let base = unwrap_or prev 0 in
    if is_first && is_resumed
    then (none, some cur)
    else (some (if ltb cur base then 0 else cur - base), some cur)

-- The same at a boundary of the fan-out: a boundary that records nothing moves no baseline.
unfoldable pub diff_cost_at_boundary :
    Option ℕ → Option ℕ → Bool → Bool → Bool → Option ℕ × Option ℕ × Bool
unfolding diff_cost
diff_cost_at_boundary prev cur first_seen is_resumed will_record =
    let (delta, new_prev) = diff_cost prev cur (not first_seen) is_resumed in
    if will_record then (delta, new_prev, first_seen || is_some cur) else (none, prev, first_seen)

-- `sort_unstable` on numbers.
pub insert_sorted : ℕ → List ℕ → List ℕ
insert_sorted x [] = x ∷ []
insert_sorted x (y ∷ ys) = let rest = insert_sorted x ys in if leb x y then x ∷ y ∷ ys else y ∷ rest

pub sort_unstable : List ℕ → List ℕ
sort_unstable [] = []
sort_unstable (x ∷ xs) = insert_sorted x (sort_unstable xs)

-- Nearest rank: the rank is ceil(p / 100 * n), clamped to 1..n, counted from 1.
percentile : List ℕ → ℕ → ℕ
percentile [] p = 0
percentile (x ∷ xs) p =
    let n = length (x ∷ xs) in
    let rank = (p * n + 99) / 100 in
    let clamped = if ltb rank 1 then 1 else if ltb n rank then n else rank in
    get_or (x ∷ xs) (clamped - 1) 0

pub sum : List ℕ → ℕ
sum [] = 0
sum (x ∷ xs) = x + sum xs

pub last_or : List ℕ → ℕ → ℕ
last_or [] d = d
last_or (x ∷ xs) d = last_or xs x

pub durations : List RunMetric → List ℕ
durations = map λ r. r.duration_ms

abbrev is_outcome : RunOutcome → RunOutcome → Bool
is_outcome completed completed = true
is_outcome errored errored = true
is_outcome timeout timeout = true
is_outcome cancelled cancelled = true
is_outcome _ _ = false

-- The loop over the runs that counts one of the four outcomes.
outcome_count : RunOutcome → List RunMetric → ℕ
outcome_count o = count_if λ r. is_outcome o r.outcome

unfoldable pub compute_stats : List RunMetric → SessionRunStats
unfolding percentile sort_unstable insert_sorted sum last_or durations outcome_count
compute_stats runs =
    let durs = sort_unstable (durations runs) in
    let n = length runs in
    record {
      count = n;
      avg_ms = if n == 0 then 0 else sum (durations runs) / n;
      p50_ms = percentile durs 50;
      p95_ms = percentile durs 95;
      max_ms = last_or durs 0;
      completed_count = outcome_count completed runs;
      errored_count = outcome_count errored runs;
      timeout_count = outcome_count timeout runs;
      cancelled_count = outcome_count cancelled runs;
    }

-- `while runs.len() > keep_count { runs.pop_front() }`, one round for each element at most.
pub pop_front_to : {A : Type 0} → ℕ → List A → List A
pop_front_to keep [] = []
pop_front_to keep (r ∷ rs) =
    let rest = pop_front_to keep rs in if ltb keep (length (r ∷ rs)) then rest else r ∷ rs

-- `ended_ms >= now_ms - keep_window_ms`, with the window on the other side.
unfoldable pub gc_retain : List RunMetric → ℕ → ℕ → ℕ → List RunMetric
unfolding pop_front_to
gc_retain runs now_ms keep_count keep_window_ms =
    pop_front_to keep_count (retain (λ r. leb now_ms (r.ended_ms + keep_window_ms)) runs)

-- session_manager.rs `build_run_metric`.
unfoldable pub build_run_metric :
    String
    → String
    → String
    → String
    → ℕ
    → ℕ
    → ℕ
    → RunOutcome
    → Option String
    → Option ℕ
    → Option ℕ
    → Option ℕ
    → RunMetric
build_run_metric run_id sid dir agent seq started ended outcome fk cost tin tout = record {
  run_id = run_id;
  session_id = sid;
  work_dir = dir;
  agent_type = agent;
  turn_seq = seq;
  started_ms = started;
  ended_ms = ended;
  duration_ms = duration_ms started ended;
  outcome = outcome;
  failure_kind = fk;
  verdict = none;
  verdict_source = no_source;
  cost_usd = cost;
  tokens_in = tin;
  tokens_out = tout;
  input_snapshot_ref = none;
}
