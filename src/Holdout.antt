-- ===== src/Holdout.antt =====
-- evaluation/holdout/holdout.py: the selection of the holdout window, its commitment and its
-- verification.
pub mod Derive
pub mod Chain
pub mod State
pub mod Manifest
pub mod Commands
