-- ===== src/GatewayFanout.antt =====
-- src/session_manager.rs `spawn_crew_fanout` and `spawn_codex_fanout`: the tasks that own a gateway
-- connection. Their bodies are one text but for the source of the resume token and what crew alone
-- does with its first prompt and with approvals, so one model serves both.
pub mod State
pub mod Events
pub mod Input
pub mod Invariant
pub mod Parity
