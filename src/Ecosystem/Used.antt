-- ===== src/Ecosystem/Used.antt =====
-- What a job uses: a configuration of the least price, or the fallback.
use lemma_xperiment.Common.{
  Floats, ◌≡◌, refl, sym, ◌∙◌, ap, subst, Bool, true, false, ◌&&◌, List, [], ◌∷◌, Option, none,
  some, if◌then◌else◌, Elem, Elem-append_left, Elem-sort, sort, Bool-cases, inl, inr, arith, ok,
  ok_inj, >>=-elim,
}
use lemma_xperiment.Ecosystem.Graph.{Name, Names, Modules, JobClass, Job, Ecosystem}
use lemma_xperiment.Ecosystem.Costs.{feasible, cheaper, best_of, with_bundle, bundle_up, used_in}
use lemma_xperiment.Ecosystem.Least.{OrderLaws, Offers, fallback, config, IsPriced}
use lemma_xperiment.Ecosystem.Margins.{IsWithin}

module _ (fl : Floats) (laws : OrderLaws fl) where
  module _ (ms : Modules) (available : Names) (base : fl.F) (P : Option Names → fl.F → Type 0) where
    -- A choice with its price: as `P` says, no dearer than the first best, nor than a configuration.
    pub record IsBest (best : fl.F) (configs : List (Names × fl.F)) (chosen : Option Names)
        : Type 0 where
      pub price : fl.F
      pub picked : P chosen price
      pub first : fl.below best price ≡ false
      pub least :
          (cfg : Names) (mult : fl.F)
          → Elem (cfg, mult) configs
          → feasible ms cfg available ≡ ok true
          → fl.below (fl.mul mult base) price ≡ false

    self : (x : fl.F) → fl.below x x ≡ false
    self x = elim (Bool-cases (fl.below x x)) [ inl h ↦ laws.asym x x h | inr h ↦ h ]

    -- One more configuration, which is no dearer where it is feasible.
    least-cons :
        (cfg : Names) (mult : fl.F) (configs : List (Names × fl.F)) (price : fl.F)
        → (feasible ms cfg available ≡ ok true → fl.below (fl.mul mult base) price ≡ false)
        → ((c : Names) (m : fl.F)
            → Elem (c, m) configs
            → feasible ms c available ≡ ok true
            → fl.below (fl.mul m base) price ≡ false)
        → (c : Names) (m : fl.F) → Elem (c, m) ((cfg, mult) ∷ configs)
        → feasible ms c available ≡ ok true
        → fl.below (fl.mul m base) price ≡ false
    least-cons cfg mult configs price here later c m (inl e) fits =
        subst (λ (k : Names × fl.F). fl.below (fl.mul k.1 base) price ≡ false) (sym e)
          (here (ap (λ (k : Names × fl.F). feasible ms k.0 available) (sym e) ∙ fits))
    least-cons cfg mult configs price here later c m (inr at) fits = later c m at fits

    differ : ok false ≡ ok true → ⊥
    differ h = cc

    either-IsNumber :
        (k : Bool) {x y : fl.F}
        → laws.IsNumber x
        → laws.IsNumber y
        → laws.IsNumber (if k then x else y)
    either-IsNumber true p q = p
    either-IsNumber false p q = q

    either-picked :
        (k : Bool) {o o' : Option Names} {x y : fl.F}
        → (k ≡ true → P o x)
        → P o' y
        → P (if k then o else o') (if k then x else y)
    either-picked true p q = p refl
    either-picked false p q = q

    first_true : (f b : Bool) → (f && b) ≡ true → f ≡ true
    first_true f b h = ground arith

    step-IsBest :
        (f b : Bool) (best : fl.F) (cfg : Names) (mult : fl.F) (configs : List (Names × fl.F))
        {out : Option Names}
        → laws.IsNumber best
        → laws.IsNumber (fl.mul mult base)
        → feasible ms cfg available ≡ ok f
        → fl.below (fl.mul mult base) best ≡ b
        → IsBest (if f && b then fl.mul mult base else best) configs out
        → IsBest best ((cfg, mult) ∷ configs) out
    step-IsBest false b best cfg mult configs number number' fits under ih = record {
      price = ih.price;
      picked = ih.picked;
      first = ih.first;
      least = least-cons cfg mult configs ih.price (λ h. absurd (differ (sym fits ∙ h))) ih.least;
    }
    step-IsBest true false best cfg mult configs number number' fits under ih = record {
      price = ih.price;
      picked = ih.picked;
      first = ih.first;
      least =
          least-cons cfg mult configs ih.price
            (λ h. laws.trans ih.price best (fl.mul mult base) number ih.first under) ih.least;
    }
    step-IsBest true true best cfg mult configs number number' fits under ih = record {
      price = ih.price;
      picked = ih.picked;
      first = laws.trans ih.price (fl.mul mult base) best number' ih.first (laws.asym _ _ under);
      least = least-cons cfg mult configs ih.price (λ h. ih.first) ih.least;
    }

    pub best_of-IsBest :
        (best : fl.F) (chosen : Option Names) (configs : List (Names × fl.F)) {out : Option Names}
        → laws.IsNumber best
        → P chosen best
        → ((cfg : Names) (mult : fl.F)
            → Elem (cfg, mult) configs
            → laws.IsNumber (fl.mul mult base))
        → ((cfg : Names) (mult : fl.F)
            → Elem (cfg, mult) configs
            → feasible ms cfg available ≡ ok true
            → P (some cfg) (fl.mul mult base))
        → best_of fl ms available base best chosen configs ≡ ok out
        → IsBest best configs out
    unfolding best_of
    best_of-IsBest best chosen [] number picked numbers picks done = record {
      price = best;
      picked = subst (λ o. P o best) (ok_inj done) picked;
      first = self best;
      least = λ c m at. absurd at;
    }
    best_of-IsBest best chosen ((cfg, mult) ∷ configs) number picked numbers picks done =
        >>=-elim (feasible ms cfg available) _ done λ f fits rest.
          step-IsBest f (fl.below (fl.mul mult base) best) best cfg mult configs number
            (numbers cfg mult (inl refl)) fits refl
            (best_of-IsBest
              (if f && fl.below (fl.mul mult base) best then fl.mul mult base else best)
              (if f && fl.below (fl.mul mult base) best then some cfg else chosen) configs
              (either-IsNumber (f && fl.below (fl.mul mult base) best) (numbers cfg mult (inl refl))
                number)
              (either-picked (f && fl.below (fl.mul mult base) best)
                (λ k.
                  picks cfg mult (inl refl)
                    (fits ∙ ap ok (first_true f (fl.below (fl.mul mult base) best) k)))
                picked)
              (λ c m at. numbers c m (inr at)) (λ c m at. picks c m (inr at)) rest)

  -- What a job may use, with its price: nothing, for the fallback, or a configuration that is
  -- feasible, with the bundle or without.
  pub data IsUse (ms : Modules) (available : Names) (base : fl.F) (own : JobClass fl)
      : Option Names → fl.F → Type 0 where
    falls_back : IsUse ms available base own none (fl.mul own.fallback base)
    runs :
        (cfg more : Names) (mult : fl.F)
        → Elem (cfg, mult) own.configs
        → feasible ms cfg available ≡ ok true
        → IsWithin cfg more
        → IsUse ms available base own (some more) (fl.mul mult base)

  with_bundle-IsWithin :
      (b : Bool) (bundle : Option Name) (cfg : Names) → IsWithin cfg (with_bundle fl b bundle cfg)
  unfolding with_bundle
  with_bundle-IsWithin false bundle cfg x at = at
  with_bundle-IsWithin true none cfg x at = at
  with_bundle-IsWithin true (some []) cfg x at = at
  with_bundle-IsWithin true (some (y ∷ ys)) cfg x at = Elem-append_left x cfg ((y ∷ ys) ∷ []) at

  module _ (eco : Ecosystem fl) (job : Job fl) (priced : IsPriced fl laws eco job)
      (available : Names) where
    -- Where the prices of a job are numbers, what the job uses has a price that no option of the job
    -- is below: the fallback where it uses nothing, and else that of a configuration which is
    -- feasible and of which it uses every module.
    pub used_in-IsUse :
        {u : Option Names}
        → used_in fl eco job available ≡ ok u
        → (x : fl.F) × IsUse eco.modules available job.base priced.own u x
          × ((y : fl.F)
              → Offers fl eco.modules available job.base
                  (fl.mul priced.own.fallback job.base)
                  priced.own.configs
                  y
              → fl.below y x ≡ false)
    unfolding used_in bundle_up
    used_in-IsUse {u} done =
        >>=-elim (best_of fl eco.modules available job.base _ none (sort (cheaper fl) own.configs))
          _ (rw (priced.found, used_in) at done)
          λ chosen best same.
            let found =
              best_of-IsBest eco.modules available job.base
                (IsUse eco.modules available job.base own) (fl.mul own.fallback job.base) none
                (sort (cheaper fl) own.configs) priced.alone falls_back
                (λ cfg mult at. priced.configured cfg mult (unsorted cfg mult at))
                (λ cfg mult at fits. runs cfg cfg mult (unsorted cfg mult at) fits (λ x h. h))
                best in
            (
              found.price,
              subst (λ o. IsUse eco.modules available job.base own o found.price) (ok_inj same)
                  (bundled found.picked),
              least found.first found.least,
            )
      where
        own : JobClass fl
        own = priced.own

        unsorted :
            (cfg : Names) (mult : fl.F)
            → Elem (cfg, mult) (sort (cheaper fl) own.configs)
            → Elem (cfg, mult) own.configs
        unsorted cfg mult at = (Elem-sort (cheaper fl) (cfg, mult) own.configs).0 at

        bundled :
            {o : Option Names} {x : fl.F}
            → IsUse eco.modules available job.base own o x
            → IsUse eco.modules available job.base own (bundle_up fl own job o) x
        bundled falls_back = falls_back
        bundled (runs cfg more mult at fits within) =
            runs cfg (with_bundle fl job.bundled own.bundle more) mult at fits
              (λ x h. with_bundle-IsWithin job.bundled own.bundle more x (within x h))

        least :
            {x : fl.F}
            → fl.below (fl.mul own.fallback job.base) x ≡ false
            → ((cfg : Names) (mult : fl.F)
                → Elem (cfg, mult) (sort (cheaper fl) own.configs)
                → feasible eco.modules cfg available ≡ ok true
                → fl.below (fl.mul mult job.base) x ≡ false)
            → (y : fl.F)
            → Offers fl eco.modules available job.base (fl.mul own.fallback job.base) own.configs y
            → fl.below y x ≡ false
        least first rest y fallback = first
        least first rest y (config cfg mult at fits) =
            rest cfg mult ((Elem-sort (cheaper fl) (cfg, mult) own.configs).1 at) fits
