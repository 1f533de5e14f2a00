-- ===== src/Lib.antt =====
-- ZeroMux keeps terminals and coding agents alive behind a web server. This library models the part of
-- it that decides what an agent's session does: the session manager and the fan-out tasks that own
-- the Claude, crew and codex processes (src/session_manager.rs), with the run metrics
-- (src/run_metrics.rs), the events of the process layer (src/acp/process.rs), the verdicts and the run
-- table of scheduled tasks (src/scheduled_tasks.rs), the auto-updater (src/auto_update.rs) and the push
-- notifications (src/push.rs).
--
-- How the parts interact: clients, the scheduler and watchdogs send inputs to a session's fan-out. The
-- fan-out owns its variables, talks to the process, and reports to the manager, which updates the
-- session under its lock. Here a round of the fan-out is a function from its variables to new ones and
-- the list of calls it makes, in their order, and the manager serves each call on a session.
--
-- - Acp: `AcpEvent` and the functions on one event. A JSON value is the text it is printed as.
-- - Prompts: the texts of prompts; Prompts.Cap has the proofs on the scrollback cap.
-- - Turns: `TurnStarts`, the FIFO of the started turns, and `classify_claude_event`; Turns.Fifo its
--   lemmas.
-- - PromptQueue: the collect queue, `QueueMode` and the timers, each of which is the instant at which it
--   fires; PromptQueue.Window is about the window from `arm` to the flush.
-- - Inputs: `SessionInput`.
-- - RunMetrics: src/run_metrics.rs; RunMetrics.Sorted, RunMetrics.Stats, RunMetrics.Cost and
--   RunMetrics.Retention are its proofs.
-- - Verdict: `extract_verdict`; Verdict.Last is about the marker that it takes.
-- - Posture, Session: `Posture`, `Session` and `RunningProcess`. Session.Turn has `apply_turn` and what
--   else the fan-out does to a session (Session.Turn.Ring: the ring of its runs), Session.Scrollback
--   the replay buffer and the broadcast (Bounds, Replay), Session.Spawn the phases of
--   `ensure_running` (Protocol: its callers in any interleaving, Fallback: a resume that failed),
--   Session.Persisted the row of a session in src/session_store.rs (Restart: a write and a load).
-- - ClaudeFanout: `spawn_acp_fanout`. State has its variables, Boundary the end of a turn,
--   Events what the process sends, Input what clients send, Loop the rounds, Manager what the session
--   manager does for each call. Invariant, Runs, Ledger, Starts, Aborts and Mirror, the last of them and
--   Runs and Starts with the children Events and Rounds, are its proofs.
-- - Effects: the calls that a fan-out makes, and the composition of its steps.
-- - GatewayFanout: `spawn_crew_fanout` and `spawn_codex_fanout`, whose bodies are one text but for the
--   resume token, crew's note of its first prompt and its approvals. State, Events and Input as for
--   Claude; Invariant is about the variables between rounds, Parity (Events, Rounds) about the two kinds
--   of fan-out side by side.
-- - AutoUpdate: the poll loop of src/auto_update.rs, with Marker for the file of a failed build and
--   Session.Summary for `running_summary`. Swaps is about when a swap is launched, Stable about the two
--   polls before one, Progress about when one comes and when it does not, Written about the marker.
-- - Push: src/push.rs. Endpoint is the guard on endpoints (Embedded: IPv6 forms of IPv4 addresses),
--   Table the subscriptions and their handlers in src/web.rs (Counts, Isolation, Bounded, Ranking, Kept,
--   Sending), where what is served while a POST is awaited is a list of requests, and Debounce the maps of
--   the last notifications, with a look and a mark as two steps (Spacing).
-- - ScheduledRuns: the table of runs of src/scheduled_tasks.rs as the list of its rows in rowid order,
--   with the claim, the overlap guard and the writers of states; Reconcile has the timeouts, the
--   confirmations and the retention; Claims, Awaiting, Ended and Timeouts are the proofs.
-- - EventLog: the dates of `iso_from_secs` of src/events.rs, up to the numbers printed; Calendar proves
--   them.
-- - Session.Table and Session.Lifecycle: how sessions are ended, closed, restored and removed, with the
--   handlers of src/web.rs (Requests) and what is asked of tmux (Tmux). History, Windows, Looks and Undo
--   are about which tmux sessions are killed.
-- - FuzzyIndex.Vault: `VaultModel` of src/fuzzy_index.rs, which is brought up to date folder by folder.
--   Tree, Below and Nodes are about the disk and its paths; Scan is the full walk; Links, Visit,
--   Reconcile, Equivalence and FullScan lead to reconciling as against scanning again.
-- - CrewFrames: `normalize_frame` of src/acp/crew_process.rs, which makes events of the frames of the Crew
--   gateway, with Acp.Format for src/acp/format.rs; Told is about the text of results, ToolCalls about the
--   calls of tools that are shown. Acp.Json is what they read of `serde_json`.
-- - DiffFilter: `filter_diff_excluded` of src/web.rs, which keeps secrets out of the diffs that are served;
--   Sections describes a diff as git writes it, Headers is about how its headers are read and Kept about what
--   is left of it.
-- - PathGuards: the checks of src/web.rs on paths that are read and written below a session's folder;
--   Resolve is about what they accept. The file system's resolution of links is a parameter.
-- - Paths: the components of a path. Prelude: Boolean tests, lists over native numbers, texts. Examples: concrete runs.
--
-- Choices. Which branch of `select!` is ready is up to the runtime, so a run of the fan-out is any
-- sequence of messages. The clock is read once in a round, and may go back. Numbers are natural
-- numbers: the u64 counters are taken not to overflow, the u32 `turns_completed` wraps. A cost is a
-- natural number of a fixed unit where the source has an f64. The serialisers, JSON values, the clock face of
-- chrono, the start of a process, the parser of URLs and the answers of the push services are
-- parameters; the file system, the hashes, the clocks and the trial run are what a poll of the
-- auto-updater observes. A mask that keeps the high bits of a number is written as a division. The channel of a session is the list of the frames
-- sent on it, so a receiver that lags behind is not modelled. The manager is there whenever it is
-- called. The loop of `extract_verdict` runs on fuel, one more than the length of the text; each round
-- shortens the text, so it is never used up. The loop over the years of a date has a turn for each day
-- and takes 365 days at least in each. The walk of a vault has fuel for the size of the disk, and a bound
-- on its depth (usize::MAX) that it does not meet. The loop of a caller that waits for a spawn is modelled by
-- one look of it.
--
-- Not modelled: the scheduler loop and the replays of src/scheduled_tasks.rs, the
-- swap script of src/auto_update.rs, the search of src/fuzzy_index.rs and src/quick_targets.rs, which are
-- yet to come; and the HTTP, websocket, terminal, vault, SQLite, process and delivery layers, which are I/O.
mod Prelude
pub mod Acp
pub mod Prompts
pub mod RunMetrics
pub mod Turns
pub mod PromptQueue
pub mod Inputs
pub mod Paths
pub mod Posture
pub mod Session
pub mod Verdict
pub mod ScheduledRuns
pub mod ClaudeFanout
pub mod Effects
pub mod GatewayFanout
pub mod Push
pub mod CrewFrames
pub mod AutoUpdate
pub mod EventLog
pub mod FuzzyIndex
pub mod DiffFilter
pub mod PathGuards
pub mod Examples
