-- ===== src/PacketLane.antt =====
-- src/inference_grid/lanes/packet.py: the packet lane. An agent builds, the gates are run as code, and
-- the same session is entered again with the failures, a bounded number of times.
pub mod IdleWatch
pub mod Transcript
pub mod Adapters
pub mod Gates
pub mod Session
pub mod Loop
pub mod Build
