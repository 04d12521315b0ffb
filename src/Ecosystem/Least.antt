-- ===== src/Ecosystem/Least.antt =====
-- What a job costs: the least of its options.
use lemma_xperiment.Common.{
  Floats, ◌≡◌, refl, sym, ◌∙◌, ap, subst, Bool, true, false, List, [], ◌∷◌, if◌then◌else◌, Elem,
  Bool-cases, inl, inr, ◌⊎◌, ok, ok_inj, >>=-elim,
}
use lemma_xperiment.Ecosystem.Graph.{Names, Modules, JobClass, Job, Ecosystem}
use lemma_xperiment.Ecosystem.Costs.{feasible, lesser, cheapest, class_of, cost}

module _ (fl : Floats) where
  -- What is relied on of `<` on floats: it is asymmetric, and of three floats with a number (no NaN)
  -- in the middle, the first is not above the last if neither pair is.
  pub record OrderLaws : Type 1 where
    pub IsNumber : fl.F → Type 0
    pub asym : (x y : fl.F) → fl.below x y ≡ true → fl.below y x ≡ false
    pub trans :
        (x y z : fl.F)
        → IsNumber y
        → fl.below y x ≡ false
        → fl.below z y ≡ false
        → fl.below z x ≡ false

  -- An option of a job: the fallback, or a configuration that is feasible.
  pub data Offers (ms : Modules) (available : Names) (base best : fl.F)
      (configs : List (Names × fl.F)) : fl.F → Type 0 where
    fallback : Offers ms available base best configs best
    config :
        (cfg : Names) (mult : fl.F)
        → Elem (cfg, mult) configs
        → feasible ms cfg available ≡ ok true
        → Offers ms available base best configs (fl.mul mult base)

  module _ (laws : OrderLaws) (ms : Modules) (available : Names) (base : fl.F) where
    -- One of the options, and no option is below it.
    pub record IsLeast (best : fl.F) (configs : List (Names × fl.F)) (x : fl.F) : Type 0 where
      pub offered : Offers ms available base best configs x
      pub least : (y : fl.F) → Offers ms available base best configs y → fl.below y x ≡ false

    self : (x : fl.F) → fl.below x x ≡ false
    self x = elim (Bool-cases (fl.below x x)) [ inl h ↦ laws.asym x x h | inr h ↦ h ]

    lesser_one_of : (best p : fl.F) → (lesser fl best p ≡ best) ⊎ (lesser fl best p ≡ p)
    lesser_one_of best p = elim (Bool-cases (fl.below p best)) [
      | inl h ↦ inr (rw h refl)
      | inr h ↦ inl (rw h refl)
    ]

    lesser-least :
        (best p : fl.F)
        → (fl.below best (lesser fl best p) ≡ false) × (fl.below p (lesser fl best p) ≡ false)
    lesser-least best p = elim (Bool-cases (fl.below p best)) [
      | inl h ↦ rw h (laws.asym p best h, self p)
      | inr h ↦ rw h (self best, h)
    ]

    -- The options of the rest are options of the whole.
    widen :
        {best' best x : fl.F} {configs : List (Names × fl.F)} (cfg : Names) (mult : fl.F)
        → (best' ≡ best) ⊎ ((feasible ms cfg available ≡ ok true) × (best' ≡ fl.mul mult base))
        → Offers ms available base best' configs x
        → Offers ms available base best ((cfg, mult) ∷ configs) x
    widen {best} {configs} cfg mult (inl e) fallback =
        subst (Offers ms available base best ((cfg, mult) ∷ configs)) (sym e) fallback
    widen {best} {configs} cfg mult (inr (fits, e)) fallback =
        subst (Offers ms available base best ((cfg, mult) ∷ configs)) (sym e)
          (config cfg mult (inl refl) fits)
    widen cfg mult either (config c m at fits) = config c m (inr at) fits

    -- One more configuration, feasible or not.
    next-IsLeast :
        (f : Bool) (best : fl.F) (cfg : Names) (mult : fl.F) (configs : List (Names × fl.F))
        {x : fl.F}
        → laws.IsNumber best
        → laws.IsNumber (fl.mul mult base)
        → feasible ms cfg available ≡ ok f
        → IsLeast (if f then lesser fl best (fl.mul mult base) else best) configs x
        → IsLeast best ((cfg, mult) ∷ configs) x
    next-IsLeast false best cfg mult configs {x} number number' fits ih = record {
      offered = widen cfg mult (inl refl) ih.offered;
      least = least;
    }
      where
        least :
            (y : fl.F)
            → Offers ms available base best ((cfg, mult) ∷ configs) y
            → fl.below y x ≡ false
        least y fallback = ih.least best fallback
        least y (config c m (inl e) fits') = absurd (
            false_fits
              (sym fits ∙ ap (λ (k : Names × fl.F). feasible ms k.0 available) (sym e) ∙ fits'))
          where
            false_fits : ok false ≡ ok true → ⊥
            false_fits h = cc
        least y (config c m (inr at) fits') = ih.least (fl.mul m base) (config c m at fits')
    next-IsLeast true best cfg mult configs {x} number number' fits ih = record {
      offered = widen cfg mult (origin (lesser_one_of best p)) ih.offered;
      least = least;
    }
      where
        p : fl.F
        p = fl.mul mult base

        origin :
            (lesser fl best p ≡ best) ⊎ (lesser fl best p ≡ p)
            → (lesser fl best p ≡ best)
              ⊎ ((feasible ms cfg available ≡ ok true) × (lesser fl best p ≡ p))
        origin (inl e) = inl e
        origin (inr e) = inr (fits, e)

        lesser-IsNumber : laws.IsNumber (lesser fl best p)
        lesser-IsNumber = elim (lesser_one_of best p) [
          | inl e ↦ subst laws.IsNumber (sym e) number
          | inr e ↦ subst laws.IsNumber (sym e) number'
        ]

        under : (z : fl.F) → fl.below z (lesser fl best p) ≡ false → fl.below z x ≡ false
        under z h =
            laws.trans x (lesser fl best p) z lesser-IsNumber (ih.least (lesser fl best p) fallback)
              h

        least :
            (y : fl.F)
            → Offers ms available base best ((cfg, mult) ∷ configs) y
            → fl.below y x ≡ false
        least y fallback = under best (lesser-least best p).0
        least y (config c m (inl e) fits') =
            subst (λ (k : Names × fl.F). fl.below (fl.mul k.1 base) x ≡ false) (sym e)
              (under p (lesser-least best p).1)
        least y (config c m (inr at) fits') = ih.least (fl.mul m base) (config c m at fits')

    pub cheapest-IsLeast :
        (best : fl.F) (configs : List (Names × fl.F)) {x : fl.F}
        → laws.IsNumber best
        → ((cfg : Names) (mult : fl.F)
            → Elem (cfg, mult) configs
            → laws.IsNumber (fl.mul mult base))
        → cheapest fl ms available base best configs ≡ ok x
        → IsLeast best configs x
    unfolding cheapest
    cheapest-IsLeast best [] number numbers done =
        subst (IsLeast best []) (ok_inj done) (record { offered = fallback; least = alone })
      where
        alone : (y : fl.F) → Offers ms available base best [] y → fl.below y best ≡ false
        alone y fallback = self best
        alone y (config c m at fits) = absurd at
    cheapest-IsLeast best ((cfg, mult) ∷ configs) number numbers done =
        >>=-elim (feasible ms cfg available) _ done λ f fits rest.
          next-IsLeast f best cfg mult configs number (numbers cfg mult (inl refl)) fits (
            cheapest-IsLeast (if f then lesser fl best (fl.mul mult base) else best) configs
              (chosen f) (λ c m at. numbers c m (inr at)) rest)
      where
        chosen : (f : Bool) → laws.IsNumber (if f then lesser fl best (fl.mul mult base) else best)
        chosen false = number
        chosen true = elim (lesser_one_of best (fl.mul mult base)) [
          | inl e ↦ subst laws.IsNumber (sym e) number
          | inr e ↦ subst laws.IsNumber (sym e) (numbers cfg mult (inl refl))
        ]

  -- All prices of a job are numbers.
  pub record IsPriced (laws : OrderLaws) (eco : Ecosystem fl) (job : Job fl) : Type 0 where
    pub own : JobClass fl
    pub found : class_of fl eco job ≡ ok own
    pub alone : laws.IsNumber (fl.mul own.fallback job.base)
    pub configured :
        (cfg : Names) (mult : fl.F)
        → Elem (cfg, mult) own.configs
        → laws.IsNumber (fl.mul mult job.base)

  module _ (laws : OrderLaws) (eco : Ecosystem fl) (job : Job fl)
      (priced : IsPriced laws eco job) where
    -- Where the prices of a job are numbers, what the job costs is the price of one of its options
    -- (the fallback, or a configuration that is feasible), and no option has a lower price.
    pub cost-IsLeast :
        (available : Names) {x : fl.F}
        → cost fl eco job available ≡ ok x
        → IsLeast laws eco.modules available job.base
            (fl.mul priced.own.fallback job.base)
            priced.own.configs
            x
    unfolding cost
    cost-IsLeast available done =
        cheapest-IsLeast laws eco.modules available job.base _ priced.own.configs priced.alone
          priced.configured (rw (priced.found, cost) at done)
