-- ===== src/ClaudeFanout.antt =====
-- src/session_manager.rs `spawn_acp_fanout`: the task that owns one Claude process.
-- State has its local variables and the calls that it makes, Boundary the end of a turn, Events what
-- the process sends, Input what the clients send, Loop the rounds of its `select!`.
pub mod State
pub mod Boundary
pub mod Events
pub mod Input
pub mod Loop
pub mod Invariant
pub mod Runs
pub mod Ledger
pub mod Starts
pub mod Aborts
pub mod Manager
pub mod Mirror
