-- ===== src/Ecosystem/Margins.antt =====
-- More modules never make a job dearer, so that what a removal costs is not negative.
use lemma_xperiment.Common.{
  Floats, ◌≡◌, refl, sym, subst, true, false, not, List, [], ◌∷◌, has, every-Elem, every_all,
  filter-Elem, Elem, Elem→has, has→Elem, All, ok, ok_inj, >>=-elim,
}
use lemma_xperiment.Ecosystem.Graph.{
  Name, Names, Modules, Job, Ecosystem, keys, config_closure, dependents,
}
use lemma_xperiment.Ecosystem.Costs.{is_subset, feasible, cost, settled_jobs}
use lemma_xperiment.Ecosystem.Scores.{each, without, left_without, extra, mc_short_of, mc_short}
use lemma_xperiment.Ecosystem.Least.{OrderLaws, Offers, fallback, config, IsPriced, cost-IsLeast}

abbrev pub IsWithin : Names → Names → Type 0
IsWithin some_ all = (x : Name) → Elem x some_ → Elem x all

feasible-IsWithin :
    (ms : Modules) (cfg few more : Names)
    → IsWithin few more
    → feasible ms cfg few ≡ ok true
    → feasible ms cfg more ≡ ok true
unfolding feasible is_subset
feasible-IsWithin ms cfg few more within h = >>=-elim (config_closure ms cfg) _ h λ out found fits.
    let all : is_subset out more ≡ true =
      every_all (λ x. has x more) out
        λ x at.
          Elem→has x more
            (within x (has→Elem x few (every-Elem (λ y. has y few) x out (ok_inj fits) at))) in
    rw (found, all) refl

pub left_without-IsWithin :
    (ms : Modules) (j : Name) {available : Names}
    → left_without ms j ≡ ok available
    → IsWithin available (keys ms)
unfolding left_without without
left_without-IsWithin ms j done x at = >>=-elim (dependents ms j) _ done λ ds found same.
    (filter-Elem (λ y. not (has y (j ∷ ds))) x (keys ms) (subst (Elem x) (sym (ok_inj same)) at)).0

module _ (fl : Floats) (laws : OrderLaws fl) (eco : Ecosystem fl) where
  -- Where the prices of a job are numbers, the job never costs more with more modules available.
  pub cost_antitone :
      (job : Job fl)
      → IsPriced fl laws eco job
      → (few more : Names) {x y : fl.F} → IsWithin few more
      → cost fl eco job few ≡ ok x
      → cost fl eco job more ≡ ok y
      → fl.below x y ≡ false
  cost_antitone job priced few more {x} {y} within dear cheap =
      (cost-IsLeast fl laws eco job priced more cheap).least x
        (wider (cost-IsLeast fl laws eco job priced few dear).offered)
    where
      wider :
          {best z : fl.F} {configs : List (Names × fl.F)}
          → Offers fl eco.modules few job.base best configs z
          → Offers fl eco.modules more job.base best configs z
      wider fallback = fallback
      wider (config cfg mult at fits) =
          config cfg mult at (feasible-IsWithin eco.modules cfg few more within fits)

  -- What is relied on of `-` and `sum`: a difference is below zero only if its first term is below
  -- its second, and a sum only if one of its terms is.
  pub record SumLaws : Type 0 where
    pub sub : (x y : fl.F) → fl.below x y ≡ false → fl.below (fl.sub x y) (fl.of_nat 0) ≡ false
    pub sum :
        (xs : List fl.F)
        → All (λ x. fl.below x (fl.of_nat 0) ≡ false) xs
        → fl.below (fl.sum xs) (fl.of_nat 0) ≡ false

  module _ (sums : SumLaws) where
    extra-not-negative :
        (available : Names)
        → IsWithin available (keys eco.modules)
        → (jobs : List (Job fl)) {xs : List fl.F} → All (IsPriced fl laws eco) jobs
        → each (extra fl eco available) jobs ≡ ok xs
        → All (λ x. fl.below x (fl.of_nat 0) ≡ false) xs
    unfolding each extra
    extra-not-negative available within [] priced done = subst (All _) (ok_inj done) tt
    extra-not-negative available within (job ∷ jobs) priced done =
        >>=-elim (extra fl eco available job) _ done λ x one rest.
          >>=-elim (each (extra fl eco available) jobs) _ rest λ xs others same.
            subst (All _) (ok_inj same) (
              >>=-elim (cost fl eco job available) _ one λ dear e more.
                  >>=-elim (cost fl eco job (keys eco.modules)) _ more λ cheap e' same'.
                    subst (λ z. fl.below z (fl.of_nat 0) ≡ false) (ok_inj same')
                      (sums.sub dear cheap
                        (cost_antitone job priced.0 available (keys eco.modules) within e e')),
              extra-not-negative available within jobs priced.1 others,
            )

    -- Where the prices of the settled jobs are numbers, the marginal contribution of a module, its
    -- dependents removed with it, is not below zero.
    pub mc_short-not-negative :
        (j : Name) {x : fl.F}
        → All (IsPriced fl laws eco) (settled_jobs fl eco)
        → mc_short fl eco j ≡ ok x
        → fl.below x (fl.of_nat 0) ≡ false
    unfolding mc_short mc_short_of
    mc_short-not-negative j priced done =
        >>=-elim (left_without eco.modules j) _ done λ available found rest.
          >>=-elim (each (extra fl eco available) (settled_jobs fl eco)) _ rest λ xs all same.
            subst (λ z. fl.below z (fl.of_nat 0) ≡ false) (ok_inj same)
              (sums.sum xs (
                extra-not-negative available (left_without-IsWithin eco.modules j found)
                  (settled_jobs fl eco) priced all))
