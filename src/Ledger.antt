-- ===== src/Ledger.antt =====
-- src/inference_grid/ledger.py: the tables and the operations on them.
pub mod State
pub mod Claim
pub mod Dispatch
pub mod Resolve
pub mod Submit
pub mod Outcomes
pub mod Cooldowns
pub mod Configure
pub mod Lanes
pub mod Lifecycle
pub mod Effects
pub mod Calls
