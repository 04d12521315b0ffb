-- ===== src/Simulation/Moves.antt =====
-- research/queueing_sim.py: the parts of `simulate` that change the state.
use lemma_xperiment.Common.{
  ℕ, ◌+◌, ◌-◌, Bool, not, ◌&&◌, ◌||◌, List, [], ◌∷◌, ◌++◌, Option, none, some, ◌==◌, ltb, leb,
  if◌then◌else◌, Floats,
}
use lemma_xperiment.Simulation.State.{
  is_hedge, done, hedge_due, Setup, Job, State, update, push, put,
}

module _ (fl : Floats) (c : Setup fl) where
  -- n_warm
  unfoldable pub warm : ℕ
  warm = fl.truncate (fl.mul (fl.of_nat c.n_jobs) c.warmup)

  -- mu + sigma * (sq_phi * job.zj + sq_1phi * zi)
  unfoldable pub exponent : Job fl → fl.F → fl.F
  exponent job zi = fl.add c.mu (
      fl.mul c.sigma
        (fl.add (fl.mul (fl.sqrt c.phi) job.zj) (fl.mul (fl.sqrt (fl.sub (fl.of_nat 1) c.phi)) zi)))

  -- `scale * math.exp(...)`, where the exponential does not overflow.
  unfoldable pub service : Job fl → fl.F → fl.F
  service job zi = fl.mul (fl.sub (fl.of_nat 1) c.speedup) (fl.exp (exponent job zi))

  abbrev pub or_time : Option fl.F → fl.F → fl.F
  or_time none t = t
  or_time (some u) t = u

  -- `max(t0, x)` of two floats: the first of two that are equal.
  abbrev pub later : fl.F → fl.F → fl.F
  later x y = if fl.below x y then y else x

  -- The copy is on a server; what is left of `start_copy` are its pushes. The call of `service` marks
  -- the state where the exponential overflows.
  unfoldable pub on_server : ℕ → ℕ → fl.F → State fl → State fl
  on_server j cid t s = record s {
    free = s.free - 1;
    drawn = s.drawn + 1;
    jobs = update fl s.jobs j (record (s.jobs j) {
      running = put fl cid t (s.jobs j).running;
      first_start = some (or_time (s.jobs j).first_start t);
    });
    overflowed = s.overflowed || fl.exp_overflows (exponent (s.jobs j) (c.gauss s.drawn));
  }

  unfoldable pub hedge_later : ℕ → ℕ → fl.F → State fl → State fl
  hedge_later j cid t s =
      if is_hedge c.policy && cid == 0 then push fl (fl.add t c.t_h) (hedge_due j) s else s

  unfoldable pub start_copy : ℕ → ℕ → fl.F → State fl → State fl
  start_copy j cid t s =
      hedge_later j cid t (
        push fl (fl.add t (service (s.jobs j) (c.gauss s.drawn))) (done j cid)
          (on_server j cid t s))

  -- `job.done`, or the deadline has passed and late jobs are killed.
  unfoldable pub is_stale : Job fl → fl.F → Bool
  is_stale job t = job.is_done || c.kill && not (fl.below t job.deadline)

  -- The loop of `try_dispatch` over the waiting line, which it takes from the head.
  unfoldable pub dispatch : fl.F → List (ℕ × ℕ) → State fl → State fl
  dispatch t [] s = record s { waitq = [] }
  dispatch t ((j, cid) ∷ waitq) s =
      if ltb 0 s.free
      then dispatch t waitq (if is_stale (s.jobs j) t then s else start_copy j cid t s)
      else record s { waitq = (j, cid) ∷ waitq }

  unfoldable pub try_dispatch : fl.F → State fl → State fl
  try_dispatch t s = dispatch t s.waitq s

  -- The time that a copy which started at `t0` was busy inside the measured period.
  unfoldable pub measured : ℕ → fl.F → fl.F → State fl → State fl
  measured j t t0 s =
      if leb warm j
      then record s { busy = fl.add s.busy (fl.sub t (later t0 (or_time s.measure_start t0))) }
      else s

  unfoldable pub release : ℕ → fl.F → List (ℕ × fl.F) → State fl → State fl
  release j t [] s = s
  release j t ((cid, t0) ∷ running) s =
      release j t running (measured j t t0 (record s { free = s.free + 1 }))

  -- `release_all` for a job that has just been marked: `job.done = True` comes before it, with the
  -- time of completion where there is one.
  unfoldable pub release_all : ℕ → Job fl → fl.F → State fl → State fl
  release_all j job t s =
      let s' = release j t job.running s in
      record s' { jobs = update fl s'.jobs j (record job { running = [] }) }

  -- job.first_start - job.arr, or job.deadline - job.arr
  unfoldable pub wait_of : Job fl → fl.F
  wait_of job = fl.sub (or_time job.first_start job.deadline) job.arr

  unfoldable pub finalize : ℕ → Job fl → fl.F → Bool → State fl → State fl
  finalize j job t on_time s = if ltb j warm then s else record s {
    n = s.n + 1;
    success = if on_time then s.success + 1 else s.success;
    resp_sum = if on_time then fl.add s.resp_sum (fl.sub t job.arr) else s.resp_sum;
    waited =
        if fl.below (fl.div (fl.of_nat 1) (fl.of_nat 1_000_000_000)) (wait_of job)
        then s.waited + 1
        else s.waited;
    wait_sum = fl.add s.wait_sum (wait_of job);
    waits = s.waits ++ wait_of job ∷ [];
  }

  -- The count of finished jobs, and the end of the measured period.
  unfoldable pub count_finished : ℕ → fl.F → State fl → State fl
  count_finished j t s =
      if leb warm j
      then record s {
        finished = s.finished + 1;
        measure_end = if s.finished + 1 == c.n_jobs - warm then some t else s.measure_end;
      }
      else s
