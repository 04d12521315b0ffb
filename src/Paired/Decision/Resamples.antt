-- ===== src/Paired/Decision/Resamples.antt =====
-- What the interval of bootstrap is of.
use lemma_xperiment.Common.{
  Floats, ℕ, zero, suc, ◌+◌, ◌-◌, ◌≡◌, refl, ◌∙◌, ap, subst, not, List, [], ◌∷◌, some, length,
  get_elem?, sort, ok, ok_inj, index_error, or_raise, or_raise-eq-ok, >>=-elim, All, Elem, inl, inr,
}
use Prim.Native.Nat.{min}
use lemma_xperiment.Paired.Medians.{IsMedianOf, median_of-IsMedian}
use lemma_xperiment.Paired.Decision.{Policy, median_of, sample, sampled, bootstrap}

get_elem?-Elem : {A : Type 0} (xs : List A) (i : ℕ) (x : A) → get_elem? xs i ≡ some x → Elem x xs
get_elem?-Elem [] i x h = cc
get_elem?-Elem (y ∷ xs) zero x h = inl (cc)
get_elem?-Elem (y ∷ xs) (suc i) x h = inr (get_elem?-Elem xs i x h)

module _ (fl : Floats) (policy : Policy) where
  -- The median of as many of the values as there are, drawn with repetition.
  pub record IsResample (values : List fl.F) (m : fl.F) : Type 0 where
    pub drawn : List fl.F
    pub same_length : length drawn ≡ length values
    pub of_values : All (λ x. Elem x values) drawn
    pub median : IsMedianOf fl policy drawn m

  -- The bounds stand at their ranks in a sorted list of medians of resamples.
  pub record IsInterval (values : List fl.F) (low high : fl.F) : Type 0 where
    pub medians : List fl.F
    pub enough : length medians ≡ policy.resamples
    pub resampled : All (IsResample values) medians
    pub at_low : get_elem? (sort (λ x y. not (fl.below y x)) medians) policy.low_rank ≡ some low
    pub at_high :
        get_elem?
          (sort (λ x y. not (fl.below y x)) medians)
          (min (policy.resamples - 1) policy.high_rank)
        ≡ some high

  IsSample : List fl.F → ℕ → List fl.F → Type 0
  IsSample values n xs = (length xs ≡ n) × All (λ x. Elem x values) xs

  sample-IsSample :
      (draw : ℕ → ℕ → ℕ) (values : List fl.F) (j left : ℕ) (xs : List fl.F)
      → sample fl policy draw values j left ≡ ok xs
      → IsSample values left xs
  unfolding sample IsSample
  sample-IsSample draw values j zero xs done = subst (IsSample values 0) (ok_inj done) (refl, tt)
  sample-IsSample draw values j (suc left) xs done =
      >>=-elim (or_raise (get_elem? values (draw j (length values))) index_error) _ done
        λ x picked h1. >>=-elim (sample fl policy draw values (j + 1) left) _ h1 λ rest others h2.
          let (count, all) = sample-IsSample draw values (j + 1) left rest others in
          subst (IsSample values (suc left)) (ok_inj h2)
            (ap suc count, (get_elem?-Elem values _ x (or_raise-eq-ok _ _ picked), all))

  IsDrawn : List fl.F → ℕ → List fl.F → Type 0
  IsDrawn values n ms = (length ms ≡ n) × All (IsResample values) ms

  sampled-IsDrawn :
      (draw : ℕ → ℕ → ℕ → ℕ) (values : List fl.F) (i left : ℕ) (ms : List fl.F)
      → sampled fl policy draw values i left ≡ ok ms
      → IsDrawn values left ms
  unfolding sampled IsDrawn IsSample
  sampled-IsDrawn draw values i zero ms done = subst (IsDrawn values 0) (ok_inj done) (refl, tt)
  sampled-IsDrawn draw values i (suc left) ms done =
      >>=-elim (sample fl policy (draw i) values 0 (length values)) _ done λ xs chosen h1.
        >>=-elim (median_of fl policy xs) _ h1 λ m median h2.
          >>=-elim (sampled fl policy draw values (i + 1) left) _ h2 λ rest others h3.
            let (count, all) = sampled-IsDrawn draw values (i + 1) left rest others in
            let (same, own) = sample-IsSample (draw i) values 0 (length values) xs chosen in
            subst (IsDrawn values (suc left)) (ok_inj h3) (
              ap suc count,
              (
                record {
                  drawn = xs;
                  same_length = same;
                  of_values = own;
                  median = median_of-IsMedian fl policy xs m median;
                },
                all,
              ),
            )

  pub bootstrap-IsInterval :
      (draw : ℕ → ℕ → ℕ → ℕ) (values : List fl.F) (low high : fl.F)
      → bootstrap fl policy draw values ≡ ok (low, high)
      → IsInterval values low high
  unfolding bootstrap IsDrawn
  bootstrap-IsInterval draw values low high done =
      >>=-elim (sampled fl policy draw values 0 policy.resamples) _ done λ ms made h1.
        let le = λ (x : fl.F) (y : fl.F). not (fl.below y x) in
        >>=-elim (or_raise (get_elem? (sort le ms) policy.low_rank) index_error) _ h1 λ lo at_lo h2.
          >>=-elim
            (or_raise (get_elem? (sort le ms) (min (policy.resamples - 1) policy.high_rank))
              index_error)
            _ h2
            λ hi at_hi h3.
              let (count, all) = sampled-IsDrawn draw values 0 policy.resamples ms made in
              let same : (lo, hi) ≡ (low, high) = ok_inj h3 in
              record {
                medians = ms;
                enough = count;
                resampled = all;
                at_low = or_raise-eq-ok _ _ at_lo ∙ ap (λ (p : fl.F × fl.F). some p.0) same;
                at_high = or_raise-eq-ok _ _ at_hi ∙ ap (λ (p : fl.F × fl.F). some p.1) same;
              }
