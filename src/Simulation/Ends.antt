-- ===== src/Simulation/Ends.antt =====
-- The event loop of `simulate` ends: `bound` is enough fuel for it.
use lemma_xperiment.Common.{
  ℕ, zero, suc, ◌+◌, ◌-◌, ◌*◌, ◌≤◌, ◌≡◌, ◌≢◌, refl, ◌∙◌, Bool, true, false, not, List, [], ◌∷◌,
  Option, none, some, ◌==◌, leb, if◌then◌else◌, Floats, Bool-cases, Option-cases, Outcome-cases,
  inl, inr, arith, err, out_of_fuel, or_raise, err_inj, Fault, require, zero_division_error,
  >>=-elim-err, overflow_error, value_error,
}
use lemma_xperiment.Simulation.State.{
  Kind, arrive, done, hedge_due, kill_due, Setup, Event, State, push, start_of,
}
use lemma_xperiment.Simulation.Moves.{warm}
use lemma_xperiment.Simulation.Loop.{
  leave, on_done, handle, loop, start, empty_state, bound, copies, p99, util_of, report, simulate,
  sound, setup_checks, mean_exponent,
}
use lemma_xperiment.Simulation.Budget.{charge, charges, budget, charges-push, tolls}
use lemma_xperiment.Simulation.Rounds.{one_more, handle-budget}

require-ne-out_of_fuel : (b : Bool) {e : Fault} → e ≢ out_of_fuel → require b e ≢ err out_of_fuel
require-ne-out_of_fuel true ne h = cc
require-ne-out_of_fuel false ne h = ne (err_inj h)

or_raise-ne-out_of_fuel :
    {A : Type 0} (o : Option A) {e : Fault} → e ≢ out_of_fuel → or_raise o e ≢ err out_of_fuel
or_raise-ne-out_of_fuel none ne h = ne (err_inj h)
or_raise-ne-out_of_fuel (some a) ne h = cc

module _ (fl : Floats) (c : Setup fl) where
  leave-ne-out_of_fuel :
      (j cid : ℕ) (t t0 : fl.F) (s : State fl) → leave fl c j cid t t0 s ≢ err out_of_fuel
  unfolding leave
  leave-ne-out_of_fuel j cid t t0 s h = elim (Bool-cases (leb (warm fl c) j)) [
    | inr early ↦ cc (rw (early, leave) at h)
    | inl counted ↦ elim (Option-cases s.measure_start) [
      | inl unset ↦ cc (rw (counted, unset, leave) at h)
      | inr (m0, set) ↦ cc (rw (counted, set, leave) at h)
    ]
  ]

  handle-ne-out_of_fuel :
      (kind : Kind) (t : fl.F) (s : State fl) → handle fl c kind t s ≢ err out_of_fuel
  unfolding handle on_done
  handle-ne-out_of_fuel arrive t s h = cc
  handle-ne-out_of_fuel (hedge_due j) t s h = cc
  handle-ne-out_of_fuel (kill_due j) t s h = cc
  handle-ne-out_of_fuel (done j cid) t s h =
      elim (Option-cases (start_of fl cid (s.jobs j).running)) [
        | inl cancelled ↦ cc (rw (cancelled, handle, on_done) at h)
        | inr (t0, running) ↦ elim (Outcome-cases (leave fl c j cid t t0 s)) [
          | inr (bad, failed) ↦
              leave-ne-out_of_fuel j cid t t0 s
                (failed ∙ cc (rw (running, failed, handle, on_done) at h))
          | inl (left, moved) ↦ cc (rw (running, moved, handle, on_done) at h)
        ]
      ]

  sound-ne-out_of_fuel : (s : State fl) → sound fl c s ≢ err out_of_fuel
  unfolding sound
  sound-ne-out_of_fuel s h =
      >>=-elim-err (require (not s.overflowed) overflow_error) _ h
        (require-ne-out_of_fuel (not s.overflowed) (λ e. cc))
        λ v e rest. require-ne-out_of_fuel (not s.undivided) (λ e. cc) rest

  setup_checks-ne-out_of_fuel : setup_checks fl c ≢ err out_of_fuel
  unfolding setup_checks
  setup_checks-ne-out_of_fuel h =
      >>=-elim-err (require (not (fl.below c.phi (fl.of_nat 0))) value_error) _ h
        (require-ne-out_of_fuel _ (λ e. cc))
        λ v e rest.
          >>=-elim-err
            (require (not (fl.below (fl.sub (fl.of_nat 1) c.phi) (fl.of_nat 0))) value_error) _ rest
            (require-ne-out_of_fuel _ (λ e. cc))
            λ v' e' last. require-ne-out_of_fuel _ (λ e. cc) last

  one-le-charge : (kind : Kind) → 1 ≤ charge fl c kind
  unfolding charge
  one-le-charge arrive = omega arith
  one-le-charge (done j cid) = omega arith
  one-le-charge (hedge_due j) = omega arith
  one-le-charge (kill_due j) = omega arith

  -- Fuel for the budget of a state is enough for the loop from it.
  pub loop-ne-out_of_fuel :
      (fuel : ℕ) (t : fl.F) (s : State fl)
      → budget fl c s ≤ fuel
      → loop fl c fuel t s ≢ err out_of_fuel
  unfolding loop budget charges
  loop-ne-out_of_fuel zero t s enough = go s.events enough
    where
      go :
          (events : List (Event fl))
          → charges fl c events + tolls s.waitq + (c.n_jobs - s.jobs_created) * charge fl c arrive
            ≤ 0
          → loop fl c zero t (record s { events = events }) ≢ err out_of_fuel
      go [] enough h = cc
      go (e ∷ events) enough h = absurd (omega (arith, one-le-charge e.kind))
  loop-ne-out_of_fuel (suc fuel) t s enough =
      go s.events enough (λ u s' le. loop-ne-out_of_fuel fuel u s' le)
    where
      go :
          (events : List (Event fl))
          → charges fl c events + tolls s.waitq + (c.n_jobs - s.jobs_created) * charge fl c arrive
            ≤ suc fuel
          → ((u : fl.F) (s' : State fl)
              → budget fl c s' ≤ fuel
              → loop fl c fuel u s' ≢ err out_of_fuel)
          → loop fl c (suc fuel) t (record s { events = events }) ≢ err out_of_fuel
      go [] enough again h = cc
      go (e ∷ events) enough again h =
          let left = record s { events = events } in
          >>=-elim-err (handle fl c e.kind e.time left) _ h
            (handle-ne-out_of_fuel e.kind e.time left)
            λ s' moved checked.
              >>=-elim-err (sound fl c s') _ checked (sound-ne-out_of_fuel s') λ v clear rest.
                again e.time s' (omega (arith, handle-budget fl c e.kind e.time left s' moved)) rest

  push-budget :
      (t : fl.F) (kind : Kind) (s : State fl)
      → budget fl c (push fl t kind s) ≡ charge fl c kind + budget fl c s
  unfolding budget push
  push-budget t kind s = omega (arith, charges-push fl c t kind s)

  empty-budget :
      (s : State fl)
      → s.events ≡ []
      → s.waitq ≡ []
      → s.jobs_created ≡ 0
      → budget fl c s ≡ c.n_jobs * charge fl c arrive
  unfolding budget charges tolls
  empty-budget s e w k =
      let whole : c.n_jobs - 0 ≡ c.n_jobs = omega arith in rw (e, w, k, whole) (omega arith)

  util_of-ne-out_of_fuel : (busy span : fl.F) → util_of fl c busy span ≢ err out_of_fuel
  unfolding util_of
  util_of-ne-out_of_fuel busy span h = ground arith

  report-ne-out_of_fuel : (t : fl.F) (s : State fl) → report fl c t s ≢ err out_of_fuel
  unfolding report p99
  report-ne-out_of_fuel t s h =
      >>=-elim-err (require (not (s.n == 0)) zero_division_error) _ h
        (require-ne-out_of_fuel (not (s.n == 0)) (λ e. cc))
        λ v e counted.
          >>=-elim-err (p99 fl c s.waits s.n) _ counted (or_raise-ne-out_of_fuel _ (λ e. cc))
            λ p e ranked.
              >>=-elim-err (util_of fl c _ _) _ ranked (util_of-ne-out_of_fuel _ _) λ u e bounded.
                >>=-elim-err (require (not (fl.exp_overflows (mean_exponent fl c))) overflow_error)
                  _ bounded (require-ne-out_of_fuel _ (λ e. cc)) λ v e made. cc

  start-budget : budget fl c (start fl c) ≡ bound fl c
  unfolding start bound charge empty_state
  start-budget = go c.is_poisson
    where
      total : (n a : ℕ) (s : State fl) → budget fl c s ≡ n * a → a + budget fl c s ≡ (n + 1) * a
      total n a s e = omega (arith, one_more a (n + 1) n (omega arith))

      first : fl.F → State fl → State fl
      first t s = push fl t arrive s

      fresh : State fl
      fresh = record (empty_state fl c) { drawn = 1 }

      go :
          (b : Bool)
          → budget fl c
              (if b then first (c.expovariate 0) fresh else first (fl.of_nat 0) (empty_state fl c))
            ≡ (c.n_jobs + 1) * (3 * copies fl c + 2)
      go true =
          push-budget (c.expovariate 0) arrive fresh
          ∙ total c.n_jobs (charge fl c arrive) fresh (empty-budget fresh refl refl refl)
      go false =
          push-budget (fl.of_nat 0) arrive (empty_state fl c)
          ∙ total c.n_jobs (charge fl c arrive) (empty_state fl c)
              (empty-budget (empty_state fl c) refl refl refl)

  -- The event loop always ends in time; what `simulate` may raise is a fault of Python's.
  pub simulate_ends : simulate fl c ≢ err out_of_fuel
  unfolding simulate
  simulate_ends h =
      >>=-elim-err (setup_checks fl c) _ h setup_checks-ne-out_of_fuel λ v checked ready.
        >>=-elim-err (loop fl c (bound fl c) (fl.of_nat 0) (start fl c)) _ ready
          (loop-ne-out_of_fuel (bound fl c) (fl.of_nat 0) (start fl c)
            (omega (arith, start-budget)))
          λ out ran rest. report-ne-out_of_fuel out.0 out.1 rest
