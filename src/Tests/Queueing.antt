-- ===== src/Tests/Queueing.antt =====
-- Tests of research/queueing_sim.py, find_min_N.
use lemma_xperiment.Common.{arith}
use lemma_xperiment.Queueing.{runs_of, find_min_N}
use lemma_xperiment.Queueing.Smallest.{IsAnswer, find_min_N-IsAnswer}
use lemma_xperiment.Tests.Simulation.{whole, doubled}

-- Up to three servers for the one job, whose success is to be 1.
find_min_N-IsAnswer_example :
    IsAnswer (runs_of whole doubled 1) 3 (find_min_N (runs_of whole doubled 1) 3)
find_min_N-IsAnswer_example = find_min_N-IsAnswer whole doubled 1 3 (omega arith)
