-- ===== src/Lib.antt =====
-- LemmaXperiment: the scripts around a proof experiment on Ethereum blocks, written in Python.
-- This library models the ones that decide something: which block windows are drawn, how a
-- holdout is committed and revealed, when a candidate is accepted and which of its files are
-- taken, which Merkle proofs and state roots the fixtures expect, and what the simulations of
-- the research notes compute.
--
-- The parts, and the files that model them:
--
-- Common: Booleans on the native numbers, lists, association lists (Common/Dicts, for Python's
--   dictionaries with byte strings for keys), a stable sort (Common/Sort, for `sorted`), tests
--   on lists (Common/Filters), Python's floats as a record of operations (Common/Numbers), and
--   the outcomes of code that may raise (Common/Faults: a result or the exception's kind).
-- Blocks: the header fields that the scripts keep and compare (evaluation/holdout/holdout.py).
-- Trie: evaluation/fixtures/trie/gen.py, the generator of the trie fixtures. Trie/Nibbles has
--   the paths (`nibbles`, `compact_encode`, `compact_decode`, `key_from_nibbles`), Trie/Walk has
--   `Trie.path_proof` with one function for each part of its loop, Trie/Chain has
--   `walk_positions` and `rebuild_chain`, Trie/Accounts has the account encoding and
--   `account_proof_entry`, and Trie/Updates has the oracle `apply_updates`. Accounts and updates
--   use the walk and the encoding.
-- Windows: apparatus/fork_windows.py: `post`, the search for a fork's first block, the windows,
--   the medians and the loop over the forks.
-- Holdout: evaluation/holdout/holdout.py. Holdout/Derive has `derive`, Holdout/Chain has `rpc`,
--   `header` and `agreed_header`, Holdout/State the files that the commands read and write, and
--   Holdout/Manifest and Holdout/Commands have `cmd_precommit`, `cmd_seal` and `cmd_verify`,
--   which use all of these. A command is a function from the files to an outcome and the files
--   it leaves.
-- Paired: evaluation/analysis/paired.py, the acceptance computation. Paired has `per_block`,
--   which Paired/Reached and Paired/Medians describe, Paired/Decision has `improvement`,
--   `bootstrap` and `evaluate`.
-- Reuse: reuse/input.py, the scan of a thousand blocks and the choice of the one that is used.
--   It relies on the rule of Holdout/Derive.
-- Queueing: research/queueing_sim.py, the search `find_min_N`, over any runs (`Runs`) and over
--   those of `simulate` (`runs_of`).
-- Simulation: research/queueing_sim.py, `simulate`, as a state machine. Simulation/State has its
--   arguments, jobs, events and variables, Simulation/Moves has `start_copy`, `try_dispatch`,
--   `release_all` and `finalize`, and Simulation/Loop has one function for each kind of event,
--   the loop and the result. A job is named by its number, as the events and the waiting line
--   share it. Reached (Simulation/Capacity) is the relation of the states of a run.
-- Ecosystem: research/proof_graph_sim.py. Ecosystem/Graph has the modules, classes and jobs, and
--   the closures; Ecosystem/Market the synthetic data; Ecosystem/Costs the jobs that are made
--   and what a job costs and uses; Ecosystem/Scores the scores of a module, and Ecosystem/Game
--   the saving game and the Shapley values. The scores are functions of the ecosystem and may
--   raise a KeyError.
-- Overlay: evaluation/overlay.py, from the entries of the specification to the files that are
--   copied; the script is a function from the checkout to its exit and the checkout it leaves.
-- Tests: the theorems at concrete inputs, with a small encoding, hash, trie and chain.
--
-- Parameters: the hash, rlp and py-trie of the fixtures (`Library`, `HexaryTrie`, with `RlpLaws`
-- and `HexaryLaws` for what is documented of them), sha256, JSON and eth_keys (`Host`), the
-- endpoints, and Python's floats and random generator (`Floats`, `draw`, `Generator`, and the
-- draws of `Setup`). What a theorem relies on of floats is a record of laws (`OrderLaws`,
-- `SumLaws`, `ShareLaws`, `RankLaw`), stated so that NaN may occur. `fnmatchcase` is a
-- parameter. The exponential may overflow (`exp_overflows`) and a square root is taken of what
-- is not negative, which the code that calls them tests as Python does; whole numbers are taken
-- to be small enough for a float. Numbers are unbounded as in Python; where the source
-- subtracts, the tests before it keep the difference above zero, or the place says otherwise.
--
-- Fuel: the walk takes one round for each nibble of the key and one more, since every round
-- moves along the key; the inner loop of `walk_positions` takes the size of the node; the
-- searches take the size of their range; the scan takes twenty batches of fifty; a derivation
-- takes 2 ^ 32 draws, after which the counter no longer fits in its four bytes; the event loop
-- takes a round for each event that can occur, at most three for each copy of a job and two for
-- the job, for one job more than are asked for; a closure takes a round for each dependency that
-- is declared; `rpc` makes four attempts and `post` six. Running out is an outcome of its own.
--
-- Not modelled: the cases that gen.py builds and writes, random addresses, printing, the times
-- of day and the fixed texts of the files; `fast_single_fcfs` and the experiments of the
-- simulations; the digests and the record of the overlay; the option --ahead below zero, and a
-- --sealed-dir that differs between the commands of one set; a `warmup` that is negative or no
-- finite number; the freeze, the corpus index and the axiom report; the code in Rust,
-- JavaScript, Lean and Solidity.
pub mod Blocks
pub mod Common
pub mod Ecosystem
pub mod Holdout
pub mod Overlay
pub mod Paired
pub mod Queueing
pub mod Reuse
pub mod Simulation
pub mod Tests
pub mod Trie
pub mod Windows
