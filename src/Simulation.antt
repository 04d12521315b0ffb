-- ===== src/Simulation.antt =====
-- research/queueing_sim.py: the event loop of `simulate`.
pub mod State
pub mod Moves
pub mod Loop
pub mod Budget
pub mod Rounds
pub mod Ends
pub mod Running
pub mod Capacity
pub mod Silent
pub mod Tallies
pub mod Started
pub mod Openings
pub mod Begun
pub mod Faults
