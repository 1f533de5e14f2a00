-- ===== src/Examples.antt =====
-- Concrete runs and sessions, and each theorem that has hypotheses or arguments at one of them.
mod Data
mod Metrics
mod Fanouts
mod Sessions
mod Written
mod Scheduled
mod Gateways
mod Updates
mod Pushes
mod Stamps
mod Vaults
mod Closing
mod Diffs
mod Frames
mod Guards
