-- ===== src/Tests.antt =====
-- Tests: what the theorems say at concrete inputs.
pub mod Rlp
pub mod Tries
pub mod Updates
pub mod Windows
pub mod Holdout
pub mod Seals
pub mod Paired
pub mod Reuse
pub mod Queueing
pub mod Simulation
pub mod Ecosystem
pub mod Overlay
