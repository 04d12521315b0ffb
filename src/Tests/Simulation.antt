-- ===== src/Tests/Simulation.antt =====
-- Tests of research/queueing_sim.py, `simulate`: whole numbers in place of floats.
use lemma_xperiment.Simulation.Tallies.{IsBalanced, Reached-IsBalanced}
use lemma_xperiment.Simulation.Faults.{RankLaw, IsRaised, simulate_faults}
use lemma_xperiment.Simulation.Capacity.{Reached-IsWithinCapacity, begins, Reached, takes}
use lemma_xperiment.Simulation.Running.{IsWithinCapacity}
use lemma_xperiment.Common.{
  Floats, ℕ, ◌+◌, ◌-◌, ◌*◌, ◌/◌, ◌≡◌, ◌≢◌, refl, true, [], ok, err, ltb, out_of_fuel, sort, place,
  zero_division_error, arith, false,
}
use lemma_xperiment.Simulation.State.{
  Setup, redundant, hedge, push, comes_first, put, start_of, remove, State, arrive,
}
use lemma_xperiment.Simulation.Loop.{
  simulate, loop, bound, start, empty_state, handle, on_arrival, next_arrival, kill_later, create,
  enqueue, new_job, complete, leave, no_job, on_done, on_hedge, on_kill, or_else, p99, report,
  util_of, sound, setup_checks, mean_exponent,
}
use lemma_xperiment.Simulation.Moves.{
  try_dispatch, dispatch, is_stale, start_copy, count_finished, finalize, hedge_later, measured,
  on_server, release, release_all, service, exponent, wait_of, warm,
}
use lemma_xperiment.Simulation.Ends.{simulate_ends}
use mathlib.Core.List.{foldr}

abbrev pub whole : Floats
whole = record {
  F = ℕ;
  of_nat = λ n. n;
  difference = λ m n. m - n;
  add = λ x y. x + y;
  sub = λ x y. x - y;
  exp = λ x. x;
  exp_overflows = λ x. ltb 100 x;
  sqrt = λ x. x;
  truncate = λ x. x;
  sum = foldr (λ x y. x + y) 0;
  mul = λ x y. x * y;
  div = λ x y. x / y;
  below = ltb;
  above = λ n x. ltb x n;
}

-- Two servers, and two copies of one job.
abbrev pub doubled : Setup whole
doubled = record {
  servers = 2;
  lam = 1;
  window = 20;
  mu = 3;
  sigma = 1;
  policy = redundant;
  k = 2;
  t_h = 1;
  phi = 0;
  speedup = 0;
  kill = true;
  is_poisson = true;
  n_jobs = 1;
  warmup = 0;
  gauss = λ i. i;
  expovariate = λ i. 2;
}

-- One server, and a hedge one second after the start of a copy.
abbrev hedged : Setup whole
hedged = record doubled { servers = 1; policy = hedge; window = 5 }

-- The first copy runs for 5 seconds and the second would for 6, of which 5 count.
runs_doubled :
    simulate whole doubled
    ≡ ok (record {
      servers = 2;
      n = 1;
      success = 1;
      p_wait = 0;
      mean_wait = 0;
      p99_wait = 0;
      util = 1;
      work_per_job = 10;
      offered_load = 3;
    })
unfolding simulate loop bound start push place empty_state handle on_arrival next_arrival
    try_dispatch dispatch kill_later create enqueue is_stale new_job sound setup_checks
    mean_exponent exponent start_copy sort complete leave no_job on_done on_hedge on_kill or_else
    p99 report util_of count_finished finalize hedge_later measured on_server release release_all
    service wait_of warm comes_first put remove start_of
runs_doubled = refl

simulate_ends_example : simulate whole hedged ≢ err out_of_fuel
simulate_ends_example = simulate_ends whole hedged

-- The state after the first arrival.
abbrev arrived : State whole
arrived = on_arrival whole doubled 2 (record (start whole doubled) { events = [] })

first_round : Reached whole doubled arrived
unfolding start push place handle empty_state
first_round = takes (record { time = 2; seq = 1; kind = arrive }) [] arrived begins refl refl

Reached-IsWithinCapacity_example : IsWithinCapacity whole doubled arrived
Reached-IsWithinCapacity_example = Reached-IsWithinCapacity whole doubled arrived first_round

-- With no server no job is counted.
abbrev unserved : Setup whole
unserved = record doubled { servers = 0; kill = false }

raises_unserved : simulate whole unserved ≡ err zero_division_error
unfolding simulate loop bound start push place empty_state handle on_arrival next_arrival
    try_dispatch dispatch kill_later create enqueue is_stale new_job report p99 warm sound
    setup_checks
raises_unserved = refl

cut_rank : RankLaw whole unserved
unfolding RankLaw
cut_rank n = omega arith

simulate_faults_example : IsRaised whole unserved zero_division_error
simulate_faults_example = simulate_faults whole unserved cut_rank raises_unserved

Reached-IsBalanced_example : IsBalanced whole doubled arrived
Reached-IsBalanced_example = Reached-IsBalanced whole doubled arrived first_round
