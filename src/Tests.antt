-- ===== src/Tests.antt =====
-- The calls of src/inference_grid/ledger.py on concrete tables.
mod Scenario
mod Runs
mod Ledgers
mod Parts
mod Boards
mod Workers
mod Routes
mod Packets
mod Failovers
mod Collections
mod Streams
mod Configs
mod Rounds
mod Stranded
mod Readies
mod Cooldowns
mod Published
