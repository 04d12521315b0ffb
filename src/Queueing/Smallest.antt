-- ===== src/Queueing/Smallest.antt =====
-- What find_min_N finds, without any assumption that more provers succeed more often.
use lemma_xperiment.Common.{
  ℕ, zero, suc, ◌+◌, ◌-◌, ◌/◌, ◌≤◌, ◌<◌, ◌≡◌, refl, sym, ◌∙◌, ap, subst, true, false, none, some,
  ◌==◌, ==_iff, ltb, ◌⊎◌, inl, inr, Bool-cases, ok, arith, ltb→lt, Option, Outcome, Fault, err,
  ◌>>=◌, Outcome-cases, Floats, require, not, overflow_error, zero_division_error, >>=-elim,
}
use lemma_xperiment.Queueing.{Runs, search, settled, find_min_N, runs_of}
use lemma_xperiment.Simulation.State.{Setup}
use lemma_xperiment.Simulation.Loop.{
  Result, simulate, setup_checks, loop, bound, start, report, p99, util_of, mean_exponent,
}

module _ (r : Runs) where
  -- The run with `n` provers returns, and its success is at least the target.
  abbrev pub Reaches : ℕ → Type 0
  Reaches n = (run : r.Result) × (r.simulate n ≡ ok run) × (r.reaches run ≡ true)

  -- It returns, and its success is below the target.
  abbrev pub Misses : ℕ → Type 0
  Misses n = (run : r.Result) × (r.simulate n ≡ ok run) × (r.reaches run ≡ false)

  -- A number of provers that reaches the target where one prover fewer does not.
  pub record IsSmallest (N_max n : ℕ) : Type 0 where
    pub low : 1 ≤ n
    pub high : n ≤ N_max
    pub reached : Reaches n
    pub least : (n ≡ 1) ⊎ Misses (n - 1)

  -- How the search ends.
  pub data IsAnswer (N_max : ℕ) (o : Outcome (Option ℕ × r.Result)) : Type 0 where
    out_of_reach :
        (run : r.Result)
        → r.simulate N_max ≡ ok run
        → r.reaches run ≡ false
        → o ≡ ok (none, run)
        → IsAnswer N_max o
    found :
        (n : ℕ) (run : r.Result)
        → IsSmallest N_max n
        → r.simulate n ≡ ok run
        → o ≡ ok (some n, run)
        → IsAnswer N_max o
    raised :
        (n : ℕ) (e : Fault)
        → 1 ≤ n
        → n ≤ N_max
        → r.simulate n ≡ err e
        → o ≡ err e
        → IsAnswer N_max o

  -- What holds between the rounds.
  record IsOpen (N_max lo hi : ℕ) (best : r.Result) : Type 0 where
    low : 1 ≤ lo
    ordered : lo ≤ hi
    high : hi ≤ N_max
    reached : Reaches hi
    least : (lo ≡ 1) ⊎ Misses (lo - 1)
    known : (m : ℕ) × (r.simulate m ≡ ok best)

  -- How the rounds end.
  data Ends (N_max : ℕ) (o : Outcome (ℕ × r.Result)) : Type 0 where
    at :
        (n m : ℕ) (best : r.Result)
        → IsSmallest N_max n
        → r.simulate m ≡ ok best
        → o ≡ ok (n, best)
        → Ends N_max o
    broken :
        (n : ℕ) (e : Fault) → 1 ≤ n → n ≤ N_max → r.simulate n ≡ err e → o ≡ err e → Ends N_max o

  module _ (fuel lo hi : ℕ) (best : r.Result) where
    stop : ltb lo hi ≡ false → search r (suc fuel) lo hi best ≡ ok (lo, best)
    unfolding search
    stop done = ground arith

    failed :
        (e : Fault)
        → ltb lo hi ≡ true
        → r.simulate ((lo + hi) / 2) ≡ err e
        → search r (suc fuel) lo hi best ≡ err e
    unfolding search
    failed e below broke = ground arith

    lower :
        (run : r.Result)
        → ltb lo hi ≡ true
        → r.simulate ((lo + hi) / 2) ≡ ok run
        → r.reaches run ≡ true
        → search r (suc fuel) lo hi best ≡ search r fuel lo ((lo + hi) / 2) run
    unfolding search
    lower run below ran reached = ground arith

    upper :
        (run : r.Result)
        → ltb lo hi ≡ true
        → r.simulate ((lo + hi) / 2) ≡ ok run
        → r.reaches run ≡ false
        → search r (suc fuel) lo hi best ≡ search r fuel ((lo + hi) / 2 + 1) hi best
    unfolding search
    upper run below ran missed = ground arith

  spent :
      (lo hi : ℕ) (best : r.Result) → ltb lo hi ≡ false → search r zero lo hi best ≡ ok (lo, best)
  unfolding search
  spent lo hi best done = ground arith

  closed :
      (N_max lo hi : ℕ) (best : r.Result)
      → IsOpen N_max lo hi best
      → ltb lo hi ≡ false
      → IsSmallest N_max lo
  closed N_max lo hi best i done =
      let ordered = i.ordered in
      let same : hi ≡ lo = ground arith in
      record {
        low = i.low;
        high = omega (arith, i.ordered, i.high);
        reached = subst Reaches same i.reached;
        least = i.least;
      }

  search-Ends :
      (N_max fuel lo hi : ℕ) (best : r.Result)
      → IsOpen N_max lo hi best
      → hi ≤ lo + fuel
      → Ends N_max (search r fuel lo hi best)
  search-Ends N_max zero lo hi best i enough = elim (Bool-cases (ltb lo hi)) [
    | inl below ↦ absurd (omega (arith, ltb→lt lo hi below))
    | inr done ↦
        let (m, known) = i.known in
        Ends.at lo m best (closed N_max lo hi best i done) known (spent lo hi best done)
  ]
  search-Ends N_max (suc fuel) lo hi best i enough = elim (Bool-cases (ltb lo hi)) [
    | inr done ↦
        let (m, known) = i.known in
        Ends.at lo m best (closed N_max lo hi best i done) known (stop fuel lo hi best done)
    | inl below ↦
        let mid = (lo + hi) / 2 in
        let lt : lo < hi = ltb→lt lo hi below in
        elim (Outcome-cases (r.simulate mid)) [
          | inr (e, broke) ↦
              Ends.broken mid e (omega (arith, i.low)) (omega (arith, i.high)) broke
                (failed fuel lo hi best e below broke)
          | inl (run, ran) ↦ elim (Bool-cases (r.reaches run)) [
            | inl reached ↦ subst (Ends N_max) (sym (lower fuel lo hi best run below ran reached)) (
                search-Ends N_max fuel lo mid run
                  (record {
                    low = i.low;
                    ordered = omega arith;
                    high = omega (arith, i.high);
                    reached = (run, ran, reached);
                    least = i.least;
                    known = (mid, ran);
                  })
                  (omega arith))
            | inr missed ↦ subst (Ends N_max) (sym (upper fuel lo hi best run below ran missed)) (
                search-Ends N_max fuel (mid + 1) hi best
                  (record {
                    low = omega arith;
                    ordered = omega arith;
                    high = i.high;
                    reached = i.reached;
                    least = inr (subst Misses (omega arith) (run, ran, missed));
                    known = i.known;
                  })
                  (omega arith))
          ]
        ]
  ]

module _ (r : Runs) (N_max : ℕ)
    (told : (n : ℕ) (run : r.Result) → r.simulate n ≡ ok run → r.servers run ≡ n) where
  settled-IsAnswer :
      (n m : ℕ) (best : r.Result)
      → IsSmallest r N_max n
      → r.simulate m ≡ ok best
      → IsAnswer r N_max (settled r (n, best))
  unfolding settled
  settled-IsAnswer n m best small known = elim (Bool-cases (r.servers best == n)) [
    | inl same ↦
        let at : m ≡ n = sym (told m best known) ∙ (==_iff _ _).0 same in
        IsAnswer.found n best small (ap r.simulate (sym at) ∙ known) (rw same refl)
    | inr other ↦
        let (run, ran, reached) = small.reached in
        IsAnswer.found n run small ran (rw (other, ran) refl)
  ]

  search-IsAnswer :
      (o : Outcome (ℕ × r.Result)) → Ends r N_max o → IsAnswer r N_max (o >>= settled r)
  search-IsAnswer o (Ends.at n m best small known e) = rw e (settled-IsAnswer n m best small known)
  search-IsAnswer o (Ends.broken n x low high broke e) =
      IsAnswer.raised n x low high broke (rw e refl)

search_runs :
    (r : Runs) (N_max : ℕ)
    → ((n : ℕ) (run : r.Result) → r.simulate n ≡ ok run → r.servers run ≡ n)
    → 1 ≤ N_max
    → IsAnswer r N_max (find_min_N r N_max)
unfolding find_min_N
search_runs r N_max told positive = elim (Outcome-cases (r.simulate N_max)) [
  | inr (e, broke) ↦ IsAnswer.raised N_max e positive (omega arith) broke (rw broke refl)
  | inl (best, ran) ↦ elim (Bool-cases (r.reaches best)) [
    | inr missed ↦ IsAnswer.out_of_reach best ran missed (rw (ran, missed) refl)
    | inl reached ↦
        rw (ran, reached)
          (search-IsAnswer r N_max told (search r N_max 1 N_max best) (
            search-Ends r N_max N_max 1 N_max best
              (record {
                low = omega arith;
                ordered = positive;
                high = omega arith;
                reached = (best, ran, reached);
                least = inl refl;
                known = (N_max, ran);
              })
              (omega arith)))
  ]
]

-- A run's "N" is the number of provers that it was told.
simulate-servers :
    (fl : Floats) (c : Setup fl) (run : Result fl)
    → simulate fl c ≡ ok run
    → run.servers ≡ c.servers
unfolding simulate report
simulate-servers fl c run h = >>=-elim (setup_checks fl c) _ h λ _ _ ready.
    >>=-elim (loop fl c (bound fl c) (fl.of_nat 0) (start fl c)) _ ready λ (t, s) _ reported.
      >>=-elim (require (not (s.n == 0)) zero_division_error) _ reported λ _ _ h1.
        >>=-elim (p99 fl c s.waits s.n) _ h1 λ p _ h2. >>=-elim (util_of fl c _ _) _ h2 λ u _ h3.
          >>=-elim (require (not (fl.exp_overflows (mean_exponent fl c))) overflow_error) _ h3
            λ _ _ made. cc (ap (λ (o : Outcome (Result fl)). o) made)

-- Where N_max is not zero, `find_min_N` over the runs of `simulate` returns no number, with the run
-- at N_max, whose success is below the target; or it returns a number from 1 to N_max whose run
-- reaches the target, with that run, such that the number is 1 or the run with one prover fewer
-- returns and stays below the target; or a run with 1 to N_max provers raises an exception, and
-- `find_min_N` raises the same.
pub find_min_N-IsAnswer :
    (fl : Floats) (c : Setup fl) (target : fl.F) (N_max : ℕ)
    → 1 ≤ N_max
    → IsAnswer (runs_of fl c target) N_max (find_min_N (runs_of fl c target) N_max)
unfolding runs_of
find_min_N-IsAnswer fl c target N_max positive =
    search_runs (runs_of fl c target) N_max
      (λ n run ran. simulate-servers fl (record c { servers = n }) run ran) positive
