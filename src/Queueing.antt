-- ===== src/Queueing.antt =====
-- research/queueing_sim.py: find_min_N, the search for the smallest number of provers. The
-- search is over any runs, and `runs_of` are those of `simulate`.
pub mod Smallest
use lemma_xperiment.Simulation.State.{Setup}
use lemma_xperiment.Simulation.Loop.{Result, simulate}
use lemma_xperiment.Common.{
  ℕ, zero, suc, ◌+◌, ◌/◌, Bool, true, false, Option, none, some, ◌==◌, ltb, if◌then◌else◌, Outcome,
  ok, err, out_of_fuel, ◌>>=◌, Floats, not,
}

-- What `find_min_N` uses of a run, which returns or raises: `servers` is its result's "N", and
-- `reaches` says whether its "success" is at least the target.
pub record Runs : Type 1 where
  pub Result : Type 0
  pub simulate : ℕ → Outcome Result
  pub servers : Result → ℕ
  pub reaches : Result → Bool

module _ (r : Runs) where
  pub search : (fuel lo hi : ℕ) → r.Result → Outcome (ℕ × r.Result)
  search zero lo hi best = if ltb lo hi then err out_of_fuel else ok (lo, best)
  search (suc fuel) lo hi best = elim (ltb lo hi) [
    | false ↦ ok (lo, best)
    | true ↦ r.simulate ((lo + hi) / 2) >>= λ run. elim (r.reaches run) [
      | true ↦ search fuel lo ((lo + hi) / 2) run
      | false ↦ search fuel ((lo + hi) / 2 + 1) hi best
    ]
  ]

  -- `if best["N"] != lo: best = simulate(lo, ...)`
  pub settled : ℕ × r.Result → Outcome (Option ℕ × r.Result)
  settled (lo, best) =
      if r.servers best == lo
      then ok (some lo, best)
      else r.simulate lo >>= λ run. ok (some lo, run)

  pub find_min_N : (N_max : ℕ) → Outcome (Option ℕ × r.Result)
  find_min_N N_max = r.simulate N_max >>= λ best.
      if r.reaches best then search N_max 1 N_max best >>= settled else ok (none, best)

-- `simulate(n, lam, D, mu, sigma, n_jobs=n_jobs, **kw)` for a number `n`, against a target.
unfoldable pub runs_of : (fl : Floats) → Setup fl → fl.F → Runs
runs_of fl c target = record {
  Result = Result fl;
  simulate = λ n. simulate fl (record c { servers = n });
  servers = λ run. run.servers;
  reaches = λ run. not (fl.below run.success target);
}
