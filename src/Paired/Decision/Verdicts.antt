-- ===== src/Paired/Decision/Verdicts.antt =====
-- When the verdict of the acceptance computation is Pass.
use lemma_xperiment.Common.{
  Floats, ℕ, ◌≤◌, ◌≡◌, refl, subst, Bool, true, false, not, ◌&&◌, List, Option, some, ltb, length,
  Outcome, ok, err, >>=-elim, Bool-cases, inl, inr, All, arith, filter, map, [], ◌∷◌,
}
use lemma_xperiment.Paired.{Execution, baseline, candidate, alternative, per_block, blocks_of}
use lemma_xperiment.Paired.Decision.{
  Verdict, pass, fail, inconclusive, is_empty, Policy, median_of, bootstrap, Row, all_rows,
  is_paired, is_failed, gains, Statistics, Record, conditions, verdict_of, performance_of, evaluate,
}
use lemma_xperiment.Paired.Reached.{HasReached, IsMeasured, HasReached-some, IsMeasured-HasReached}
use lemma_xperiment.Paired.Decision.Origins.{IsRowOf, rows-IsRowOf, gains-paired}
use lemma_xperiment.Paired.Medians.{IsMedianOf, median_of-IsMedian}
use lemma_xperiment.Paired.Decision.Resamples.{IsInterval, bootstrap-IsInterval}
use lemma_xperiment.Paired.Decision.Rows.{filter-none, IsSound, IsTold, all_rows-IsTold, rows_hold}

module _ (fl : Floats) (policy : Policy) where
  -- Where the baseline reached the row's block, the candidate did too.
  pub IsKept : List Execution → Row fl policy → Type 0
  IsKept execs r = HasReached execs r.block baseline → HasReached execs r.block candidate

  pub record IsAcceptable (execs : List Execution) (r : Record fl policy) : Type 0 where
    pub blocks : map (λ (row : Row fl policy). row.block) r.rows ≡ blocks_of execs
    pub told : All (IsRowOf fl policy execs) r.rows
    pub kept : All (IsKept execs) r.rows
    pub enough : policy.minimum_blocks ≤ length (filter (is_paired fl policy) r.rows)
    pub s : Statistics fl policy
    pub found : r.statistics ≡ some s
    pub values : List fl.F
    pub of_rows :
        map some values
        ≡ map (λ (row : Row fl policy). row.gain) (filter (is_paired fl policy) r.rows)
    pub from : IsMedianOf fl policy values s.statistic
    pub improved : fl.below s.statistic (fl.of_nat policy.minimum_improvement) ≡ false
    pub interval : IsInterval fl policy values s.low s.high
    pub positive : fl.below (fl.of_nat 0) s.low ≡ true
    pub each : All (IsSound fl policy) r.rows

  pub record Meets (draw : ℕ → ℕ → ℕ → ℕ) (rs : List (Row fl policy))
      (s : Option (Statistics fl policy)) : Type 0 where
    pub enough : policy.minimum_blocks ≤ length (filter (is_paired fl policy) rs)
    pub stats : Statistics fl policy
    pub found : s ≡ some stats
    pub from :
        median_of fl policy (gains fl policy (filter (is_paired fl policy) rs)) ≡ ok stats.statistic
    pub interval :
        IsInterval fl policy
          (gains fl policy (filter (is_paired fl policy) rs))
          stats.low
          stats.high
    pub conditions_hold : conditions fl policy stats rs ≡ true

  performance_of-Meets :
      (draw : ℕ → ℕ → ℕ → ℕ) (rs : List (Row fl policy)) (v : Verdict)
      (s : Option (Statistics fl policy))
      → performance_of fl policy draw rs ≡ ok (v, s)
      → v ≡ pass
      → Meets draw rs s
  unfolding performance_of
  performance_of-Meets draw rs v s done passed =
      elim (Bool-cases (ltb (length (filter (is_paired fl policy) rs)) policy.minimum_blocks)) [
        | inl few ↦ elim (Bool-cases (is_empty (filter (is_failed fl policy) rs))) [
          | inl none_failed ↦ absurd (cc (rw (few, none_failed) at done, passed))
          | inr failed ↦ absurd (cc (rw (few, failed) at done, passed))
        ]
        | inr many ↦
            >>=-elim (median_of fl policy (gains fl policy (filter (is_paired fl policy) rs))) _
              (rw many at done)
              λ stat from h1.
                >>=-elim
                  (bootstrap fl policy draw (gains fl policy (filter (is_paired fl policy) rs))) _
                  h1
                  λ (lo, hi) drawn h2.
                    let found : Statistics fl policy = record {
                      statistic = stat;
                      low = lo;
                      high = hi;
                    } in
                    elim (Bool-cases (conditions fl policy found rs)) [
                      | inr broken ↦ absurd (cc (rw broken at h2, passed))
                      | inl hold ↦ record {
                        enough = ground arith;
                        stats = found;
                        found = cc (rw hold at h2);
                        from = from;
                        interval = bootstrap-IsInterval fl policy draw _ lo hi drawn;
                        conditions_hold = hold;
                      }
                    ]
      ]

  verdict_of-pass :
      (v : Verdict) (correctness formal : Bool)
      → verdict_of fl policy v correctness formal ≡ pass
      → (v ≡ pass) × (correctness ≡ true) × (formal ≡ true)
  unfolding verdict_of
  verdict_of-pass pass true true h = (refl, refl, refl)
  verdict_of-pass pass true false h = cc
  verdict_of-pass pass false formal h = cc
  verdict_of-pass fail true true h = cc
  verdict_of-pass fail true false h = cc
  verdict_of-pass fail false formal h = cc
  verdict_of-pass inconclusive true true h = cc
  verdict_of-pass inconclusive true false h = cc
  verdict_of-pass inconclusive false formal h = cc

  and-parts : (a b : Bool) → (a && b) ≡ true → (a ≡ true) × (b ≡ true)
  and-parts true b h = (refl, h)
  and-parts false b h = cc

  not-true : (b : Bool) → not b ≡ true → b ≡ false
  not-true true h = cc
  not-true false h = refl

  keeps :
      (execs : List Execution) (rs : List (Row fl policy))
      → All (IsRowOf fl policy execs) rs
      → All (IsSound fl policy) rs
      → All (IsKept execs) rs
  unfolding IsKept
  keeps execs [] told sound = tt
  keeps execs (r ∷ rs) (here, told) (this, sound) =
      (λ reached. kept reached, keeps execs rs told sound)
    where
      kept : HasReached execs r.block baseline → HasReached execs r.block candidate
      kept reached =
          let (a, a_set) = HasReached-some execs r.block baseline r.a here.a_measured reached in
          let (b, b_set, _) = this a a_set in
          IsMeasured-HasReached execs r.block candidate b
            (subst (IsMeasured execs r.block candidate) b_set here.b_measured)

  Meets-IsAcceptable :
      (execs : List Execution) (draw : ℕ → ℕ → ℕ → ℕ) (rs : List (Row fl policy)) (v w : Verdict)
      (s : Option (Statistics fl policy))
      → Meets draw rs s
      → All (IsTold fl policy) rs
      → All (IsRowOf fl policy execs) rs
        × (map (λ (row : Row fl policy). row.block) rs ≡ blocks_of execs)
      → IsAcceptable execs (record { rows = rs; statistics = s; performance = v; verdict = w })
  unfolding conditions
  Meets-IsAcceptable execs draw rs v w s m told (rows, blocks) =
      let (c1, h1) = and-parts _ _ m.conditions_hold in
      let (c2, h2) = and-parts _ _ h1 in
      let (c3, c4) = and-parts _ _ h2 in
      let sound = rows_hold fl policy rs told (filter-none (is_failed fl policy) rs c1) c4 in
      record {
        blocks = blocks;
        told = rows;
        kept = keeps execs rs rows sound;
        interval = m.interval;
        enough = m.enough;
        s = m.stats;
        found = m.found;
        values = gains fl policy (filter (is_paired fl policy) rs);
        of_rows = gains-paired fl policy execs rs rows;
        from = median_of-IsMedian fl policy _ _ m.from;
        improved = not-true _ c2;
        positive = c3;
        each = sound;
      }

  Accepted : List Execution → Bool → Bool → Outcome (Record fl policy) → Type 0
  Accepted execs correctness formal (err e) = Unit
  Accepted execs correctness formal (ok r) =
      r.verdict ≡ pass → (correctness ≡ true) × (formal ≡ true) × IsAcceptable execs r

-- A verdict of Pass is given only where the correctness and the formal gate passed, and: there is a
-- row for every block of the executions, in order, whose entries say whether the variant has runs on
-- the block that all reached their end, with the median of their pgu; the gain of a row that both
-- variants reached is the smaller of the improvements on the baseline and, where it reached the block,
-- on the alternative; enough blocks are paired; the statistic is the median of the gains of the
-- paired blocks and not below the minimum; the bounds of the interval stand at their ranks among the
-- sorted medians of resamples of these gains, as many as the policy says, and the lower is above
-- zero; on every block that the baseline reached the candidate did too, with a pgu not beyond the cap.
pub evaluate-IsAcceptable :
    (fl : Floats) (policy : Policy) (draw : ℕ → ℕ → ℕ → ℕ) (execs : List Execution)
    (correctness formal : Bool) (r : Record fl policy)
    → evaluate fl policy draw execs correctness formal ≡ ok r
    → r.verdict ≡ pass
    → (correctness ≡ true) × (formal ≡ true) × IsAcceptable fl policy execs r
unfolding evaluate Accepted
evaluate-IsAcceptable fl policy draw execs correctness formal r done =
    >>=-elim (per_block execs baseline) _ done λ a on_a h1.
      >>=-elim (per_block execs candidate) _ h1 λ b on_b h2.
        >>=-elim (per_block execs alternative) _ h2 λ c on_c h3.
          >>=-elim (all_rows fl policy a b c (blocks_of execs)) _ h3 λ rs listed h4.
            >>=-elim (performance_of fl policy draw rs) _ h4 λ (v, s) performed h5.
              subst (Accepted fl policy execs correctness formal) h5 (λ passed.
                let (passing, one, two) = verdict_of-pass fl policy v correctness formal passed in
                (
                  one,
                  two,
                  Meets-IsAcceptable fl policy execs draw rs v _ s
                      (performance_of-Meets fl policy draw rs v s performed passing)
                      (all_rows-IsTold fl policy a b c (blocks_of execs) rs listed)
                      (rows-IsRowOf fl policy execs a b c rs on_a on_b on_c listed),
                ))
