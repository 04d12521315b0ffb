-- ===== src/Simulation/Loop.antt =====
-- research/queueing_sim.py: one round of the event loop of `simulate`, the loop, and its result.
use lemma_xperiment.Common.{
  ℕ, zero, suc, ◌+◌, ◌-◌, ◌*◌, true, false, not, List, [], ◌∷◌, ◌++◌, Option, none, some, ◌==◌, ltb,
  leb, if◌then◌else◌, Floats, get_elem?, sort, Outcome, ok, err, type_error, index_error,
  zero_division_error, overflow_error, value_error, out_of_fuel, ◌&&◌, ◌||◌, or_raise, require,
  ◌>>=◌, ◌>>◌, is_zero,
}
use lemma_xperiment.Simulation.State.{
  is_redundant, Kind, arrive, done, hedge_due, kill_due, Setup, Job, State, update, push, start_of,
  remove,
}
use lemma_xperiment.Simulation.Moves.{
  warm, later, try_dispatch, release_all, finalize, count_finished,
}

module _ (fl : Floats) where
  pub record Result : Type 0 where
    pub servers : ℕ
    pub n : ℕ
    pub success : fl.F
    pub p_wait : fl.F
    pub mean_wait : fl.F
    pub p99_wait : fl.F
    pub util : fl.F
    pub work_per_job : fl.F
    pub offered_load : fl.F

module _ (fl : Floats) (c : Setup fl) where
  abbrev pub copies : ℕ
  copies = if is_redundant c.policy then c.k else 1

  unfoldable pub new_job : fl.F → fl.F → Job fl
  new_job t z = record {
    arr = t;
    deadline = fl.add t c.window;
    zj = z;
    is_done = false;
    completion = none;
    running = [];
    first_start = none;
  }

  -- `waitq.append((job, c))` for each copy.
  unfoldable pub enqueue : ℕ → (from left : ℕ) → List (ℕ × ℕ)
  enqueue j from zero = []
  enqueue j from (suc left) = (j, from) ∷ enqueue j (from + 1) left

  unfoldable pub create : fl.F → State fl → State fl
  create t s = record s {
    jobs_created = s.jobs_created + 1;
    measure_start = if s.jobs_created == warm fl c then some t else s.measure_start;
    jobs = update fl s.jobs s.jobs_created (new_job t (c.gauss s.drawn));
    drawn = s.drawn + 1;
    waitq = s.waitq ++ enqueue s.jobs_created 0 copies;
  }

  unfoldable pub kill_later : ℕ → fl.F → State fl → State fl
  kill_later j t s = if c.kill then push fl (fl.add t c.window) (kill_due j) s else s

  unfoldable pub next_arrival : fl.F → State fl → State fl
  next_arrival t s =
      if ltb s.jobs_created c.n_jobs
      then (if c.is_poisson
          then push fl (fl.add t (c.expovariate s.drawn)) arrive (record s { drawn = s.drawn + 1 })
          else push fl (fl.add t (fl.div (fl.of_nat 1) c.lam)) arrive
              (record s { undivided = s.undivided || is_zero fl c.lam }))
      else s

  unfoldable pub on_arrival : fl.F → State fl → State fl
  on_arrival t s = next_arrival t (try_dispatch fl c t (kill_later s.jobs_created t (create t s)))

  unfoldable pub complete : ℕ → Job fl → fl.F → State fl → State fl
  complete j job t s = count_finished fl c j t (
      finalize fl c j job t (not (fl.below job.deadline t))
        (release_all fl c j (record job { is_done = true; completion = some t }) t s))

  -- The copy leaves its server. `max` of a time and None is a TypeError.
  unfoldable pub leave : ℕ → ℕ → fl.F → fl.F → State fl → Outcome (State fl)
  leave j cid t t0 s =
      let job : Job fl = record (s.jobs j) { running = remove fl cid (s.jobs j).running } in
      let s' : State fl = record s { free = s.free + 1; jobs = update fl s.jobs j job } in
      if leb (warm fl c) j
      then or_raise s.measure_start type_error
        >>= (λ m0. ok (record s' { busy = fl.add s.busy (fl.sub t (later fl c t0 m0)) }))
      else ok s'

  unfoldable pub on_done : ℕ → ℕ → fl.F → State fl → Outcome (State fl)
  on_done j cid t s = elim (start_of fl cid (s.jobs j).running) [
    | none ↦ ok s
    | some t0 ↦ leave j cid t t0 s >>= λ s'.
        ok (try_dispatch fl c t (if (s'.jobs j).is_done then s' else complete j (s'.jobs j) t s'))
  ]

  unfoldable pub on_hedge : ℕ → fl.F → State fl → State fl
  on_hedge j t s =
      if (s.jobs j).is_done then s else try_dispatch fl c t (record s { waitq = (j, 1) ∷ s.waitq })

  -- The job is marked as done, without a time of completion.
  unfoldable pub on_kill : ℕ → fl.F → State fl → State fl
  on_kill j t s =
      if (s.jobs j).is_done
      then s
      else try_dispatch fl c t (
          count_finished fl c j t (
            finalize fl c j (s.jobs j) t false
              (release_all fl c j (record (s.jobs j) { is_done = true }) t s)))

  -- One event, which is no longer in the heap.
  unfoldable pub handle : Kind → fl.F → State fl → Outcome (State fl)
  handle arrive t s = ok (on_arrival t s)
  handle (done j cid) t s = on_done j cid t s
  handle (hedge_due j) t s = ok (on_hedge j t s)
  handle (kill_due j) t s = ok (on_kill j t s)

  -- What an event that is over has raised: it starts copies before it draws the next arrival.
  unfoldable pub sound : State fl → Outcome (Unit {0})
  sound s = do
    require (not s.overflowed) overflow_error
    require (not s.undivided) zero_division_error

  -- The loop: the last time, and the state.
  unfoldable pub loop : ℕ → fl.F → State fl → Outcome (fl.F × State fl)
  loop zero t s = elim s.events [ [] ↦ ok (t, s) | _ ∷ _ ↦ err out_of_fuel ]
  loop (suc fuel) t s = elim s.events [
    | [] ↦ ok (t, s)
    | e ∷ events ↦ handle e.kind e.time (record s { events = events }) >>= λ s'.
        sound s' >>= λ _. loop fuel e.time s'
  ]

  unfoldable pub no_job : Job fl
  no_job = new_job (fl.of_nat 0) (fl.of_nat 0)

  unfoldable pub empty_state : State fl
  empty_state = record {
    events = [];
    seq = 0;
    free = c.servers;
    waitq = [];
    busy = fl.of_nat 0;
    jobs = λ j. no_job;
    jobs_created = 0;
    n = 0;
    success = 0;
    waited = 0;
    wait_sum = fl.of_nat 0;
    waits = [];
    resp_sum = fl.of_nat 0;
    measure_start = none;
    measure_end = none;
    finished = 0;
    drawn = 0;
    overflowed = false;
    undivided = false;
  }

  unfoldable pub start : State fl
  start =
      if c.is_poisson
      then push fl (c.expovariate 0) arrive (record empty_state { drawn = 1 })
      else push fl (fl.of_nat 0) arrive empty_state

  -- `x or y`: None and zero count as false.
  unfoldable pub or_else : Option fl.F → fl.F → fl.F
  or_else none y = y
  or_else (some x) y = if is_zero fl x then y else x

  -- waits[int(0.99 * (n - 1))], for `n` above zero
  unfoldable pub p99 : List fl.F → ℕ → Outcome fl.F
  p99 waits n =
      or_raise
        (get_elem? (sort (λ x y. not (fl.below y x)) waits)
          (fl.truncate (fl.mul (fl.div (fl.of_nat 99) (fl.of_nat 100)) (fl.of_nat (n - 1)))))
        index_error

  unfoldable pub util_of : fl.F → fl.F → Outcome fl.F
  util_of busy span =
      if fl.below (fl.of_nat 0) span
      then (if c.servers == 0
          then err zero_division_error
          else ok (fl.div busy (fl.mul (fl.of_nat c.servers) span)))
      else ok (fl.of_nat 0)

  -- mu + sigma * sigma / 2
  unfoldable pub mean_exponent : fl.F
  mean_exponent = fl.add c.mu (fl.div (fl.mul c.sigma c.sigma) (fl.of_nat 2))

  -- The dictionary that is returned; the arguments are not repeated in it, but for "N".
  unfoldable pub report : fl.F → State fl → Outcome (Result fl)
  report t s = do
    require (not (s.n == 0)) zero_division_error
    p ← p99 s.waits s.n
    u ← util_of s.busy (fl.sub (or_else s.measure_end t) (or_else s.measure_start (fl.of_nat 0)))
    require (not (fl.exp_overflows mean_exponent)) overflow_error
    ok (record {
      servers = c.servers;
      n = s.n;
      success = fl.div (fl.of_nat s.success) (fl.of_nat s.n);
      p_wait = fl.div (fl.of_nat s.waited) (fl.of_nat s.n);
      mean_wait = fl.div s.wait_sum (fl.of_nat s.n);
      p99_wait = p;
      util = u;
      work_per_job = fl.div s.busy (fl.of_nat s.n);
      offered_load = fl.mul (fl.mul c.lam (fl.exp mean_exponent)) (fl.sub (fl.of_nat 1) c.speedup);
    })

  -- Enough events for every job; `Simulation/Ends.antt` shows so.
  unfoldable pub bound : ℕ
  bound = (c.n_jobs + 1) * (3 * copies + 2)

  -- What `math.sqrt` and the first call of `expovariate` raise.
  unfoldable pub setup_checks : Outcome (Unit {0})
  setup_checks = do
    require (not (fl.below c.phi (fl.of_nat 0))) value_error
    require (not (fl.below (fl.sub (fl.of_nat 1) c.phi) (fl.of_nat 0))) value_error
    require (not (c.is_poisson && is_zero fl c.lam)) zero_division_error

  unfoldable pub simulate : Outcome (Result fl)
  simulate = do setup_checks; (t, s) ← loop bound (fl.of_nat 0) start; report t s
