-- ===== src/Ecosystem.antt =====
-- research/proof_graph_sim.py: the modules and jobs of a market for proofs, and what each is worth.
pub mod Graph
pub mod Market
pub mod Closure
pub mod Reach
pub mod Costs
pub mod Scores
pub mod Least
pub mod Margins
pub mod Used
pub mod Cascade
pub mod Cache
pub mod Game
pub mod Shares
