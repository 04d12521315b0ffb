-- ===== src/Paired/Decision/Origins.antt =====
-- What the rows of the acceptance computation say of the executions.
use lemma_xperiment.Common.{
  Floats, ℕ, ◌≡◌, refl, sym, subst, true, false, List, [], ◌∷◌, map, Option, none, some, ok,
  >>=-elim, Bool-cases, inl, inr, ◌⊎◌, All, Elem, ok_inj, Option-cases, filter, ◌≢◌, ◌==◌, ==_iff,
  ap,
}
use lemma_xperiment.Paired.{
  Execution, Variant, baseline, candidate, alternative, Measured, PerBlock, measured_at, per_block,
  measure_all, blocks_of,
}
use lemma_xperiment.Paired.Reached.{IsMeasured, measure-IsMeasured, measure_all-measured_at}
use lemma_xperiment.Paired.Decision.{
  Policy, improvement, improvement_on, least, Row, row_of, all_rows, gains, is_paired,
}

module _ (fl : Floats) (policy : Policy) where
  -- The gain of a candidate: its improvement on the baseline, or the one on the alternative where
  -- the alternative reached the block and that one is smaller.
  IsImprovement : (base cand : ℕ) → fl.F → Type 0
  IsImprovement base cand z =
      (base ≢ 0) × (z ≡ fl.div (fl.mul (fl.of_nat 100) (fl.difference base cand)) (fl.of_nat base))

  improvement-IsImprovement :
      (base cand : ℕ) (z : fl.F)
      → improvement fl policy base cand ≡ ok z
      → IsImprovement base cand z
  unfolding improvement IsImprovement
  improvement-IsImprovement base cand z done = elim (Bool-cases (base == 0)) [
    | inl none_ ↦ absurd (cc (rw none_ at done))
    | inr some_ ↦ (λ e. cc (some_, (==_iff base 0).1 e), sym (ok_inj (rw some_ at done)))
  ]

  pub IsGain : (a b : Measured) → Option Measured → fl.F → Type 0
  IsGain a b none z = IsImprovement a.pgu b.pgu z
  IsGain a b (some c) z =
      (x : fl.F) × (y : fl.F) × IsImprovement a.pgu b.pgu x
      × IsImprovement c.pgu b.pgu y
      × ((z ≡ x) × (fl.below y x ≡ false) ⊎ (z ≡ y) × (fl.below y x ≡ true))

  -- A row against the executions.
  pub record IsRowOf (execs : List Execution) (r : Row fl policy) : Type 0 where
    pub a_measured : IsMeasured execs r.block baseline r.a
    pub b_measured : IsMeasured execs r.block candidate r.b
    pub gained :
        (a b : Measured)
        → r.a ≡ some a
        → r.b ≡ some b
        → (c : Option Measured) × IsMeasured execs r.block alternative c
          × ((z : fl.F) × (r.gain ≡ some z) × IsGain a b c z)

  least-IsGain :
      (a b : Measured) (c : Option Measured) (x : fl.F) (y : Option fl.F)
      → improvement fl policy a.pgu b.pgu ≡ ok x
      → improvement_on fl policy c b ≡ ok y
      → IsGain a b c (least fl policy x y)
  unfolding IsGain improvement_on least
  least-IsGain a b none x y on_a on_c =
      let same : none ≡ y = ok_inj on_c in
      subst (λ w. IsImprovement a.pgu b.pgu (least fl policy x w)) same
        (improvement-IsImprovement a.pgu b.pgu x on_a)
  least-IsGain a b (some c) x y on_a on_c =
      >>=-elim (improvement fl policy c.pgu b.pgu) _ on_c λ w on_c' h1.
        let same : some w ≡ y = ok_inj h1 in
        subst (λ o. IsGain a b (some c) (least fl policy x o)) same
          (
            x,
            w,
            improvement-IsImprovement a.pgu b.pgu x on_a,
            improvement-IsImprovement c.pgu b.pgu w on_c',
            smaller w,
          )
    where
      smaller :
          (w : fl.F)
          → (least fl policy x (some w) ≡ x) × (fl.below w x ≡ false)
            ⊎ (least fl policy x (some w) ≡ w) × (fl.below w x ≡ true)
      smaller w = elim (Bool-cases (fl.below w x)) [
        | inl lower ↦ inr (rw (lower, least) refl, lower)
        | inr other ↦ inl (rw (other, least) refl, other)
      ]

  row_of-IsRowOf :
      (execs : List Execution) (blk : ℕ) (a b c : Option Measured) (r : Row fl policy)
      → IsMeasured execs blk baseline a
      → IsMeasured execs blk candidate b
      → IsMeasured execs blk alternative c
      → row_of fl policy blk a b c ≡ ok r
      → IsRowOf execs r × (r.block ≡ blk)
  unfolding row_of
  row_of-IsRowOf execs blk (some a) (some b) c r ma mb mc done =
      >>=-elim (improvement fl policy a.pgu b.pgu) _ done λ x on_a h1.
        >>=-elim (improvement_on fl policy c b) _ h1 λ y on_c h2.
          subst (λ (z : Row fl policy). IsRowOf execs z × (z.block ≡ blk)) (ok_inj h2)
            (
              record {
                a_measured = ma;
                b_measured = mb;
                gained = λ a' b' e f. (
                  c,
                  mc,
                  (
                    least fl policy x y,
                    refl,
                    subst (λ n. IsGain n b' c (least fl policy x y)) (some_inj e)
                        (subst (λ n. IsGain a n c (least fl policy x y)) (some_inj f)
                          (least-IsGain a b c x y on_a on_c)),
                  ),
                );
              },
              refl,
            )
    where
      some_inj : {n m : Measured} → some n ≡ some m → n ≡ m
      some_inj e = cc
  row_of-IsRowOf execs blk none b c r ma mb mc done =
      subst (λ (z : Row fl policy). IsRowOf execs z × (z.block ≡ blk)) (ok_inj done)
        (record { a_measured = ma; b_measured = mb; gained = λ a' b' e f. cc }, refl)
  row_of-IsRowOf execs blk (some a) none c r ma mb mc done =
      subst (λ (z : Row fl policy). IsRowOf execs z × (z.block ≡ blk)) (ok_inj done)
        (record { a_measured = ma; b_measured = mb; gained = λ a' b' e f. cc }, refl)

  pub all_rows-IsRowOf :
      (execs : List Execution) (a b c : PerBlock) (blks : List ℕ) (rs : List (Row fl policy))
      → ((blk : ℕ)
          → Elem blk blks
          → IsMeasured execs blk baseline (measured_at a blk)
            × IsMeasured execs blk candidate (measured_at b blk)
            × IsMeasured execs blk alternative (measured_at c blk))
      → all_rows fl policy a b c blks ≡ ok rs
      → All (IsRowOf execs) rs × (map (λ (r : Row fl policy). r.block) rs ≡ blks)
  unfolding all_rows
  all_rows-IsRowOf execs a b c [] rs known done =
      subst
        (λ (l : List (Row fl policy)).
          All (IsRowOf execs) l × (map (λ (r : Row fl policy). r.block) l ≡ []))
        (ok_inj done) (tt, refl)
  all_rows-IsRowOf execs a b c (blk ∷ blks) rs known done =
      >>=-elim (row_of fl policy blk (measured_at a blk) (measured_at b blk) (measured_at c blk)) _
        done
        λ r one h1. >>=-elim (all_rows fl policy a b c blks) _ h1 λ rest others h2.
          let (ma, mb, mc) = known blk (inl refl) in
          let (here, at) = row_of-IsRowOf execs blk _ _ _ r ma mb mc one in
          let (later, blocks) =
            all_rows-IsRowOf execs a b c blks rest (λ k m. known k (inr m)) others in
          subst
            (λ (l : List (Row fl policy)).
              All (IsRowOf execs) l × (map (λ (q : Row fl policy). q.block) l ≡ blk ∷ blks))
            (ok_inj h2) ((here, later), rw (at, blocks) refl)

  -- A row for every block.
  pub row_at :
      (blk : ℕ) (rs : List (Row fl policy))
      → Elem blk (map (λ (r : Row fl policy). r.block) rs)
      → (r : Row fl policy) × Elem r rs × (r.block ≡ blk)
  row_at blk [] m = absurd m
  row_at blk (r ∷ rs) (inl e) = (r, inl refl, sym e)
  row_at blk (r ∷ rs) (inr m) = let (q, at, e) = row_at blk rs m in (q, inr at, e)

  -- The rows of an evaluation: one for each block, in order.
  pub rows-IsRowOf :
      (execs : List Execution) (a b c : PerBlock) (rs : List (Row fl policy))
      → per_block execs baseline ≡ ok a
      → per_block execs candidate ≡ ok b
      → per_block execs alternative ≡ ok c
      → all_rows fl policy a b c (blocks_of execs) ≡ ok rs
      → All (IsRowOf execs) rs × (map (λ (r : Row fl policy). r.block) rs ≡ blocks_of execs)
  unfolding per_block
  rows-IsRowOf execs a b c rs on_a on_b on_c listed =
      all_rows-IsRowOf execs a b c (blocks_of execs) rs
        (λ blk m.
          (told baseline a blk on_a m, told candidate b blk on_b m, told alternative c blk on_c m))
        listed
    where
      told :
          (v : Variant) (d : PerBlock) (blk : ℕ)
          → measure_all execs v (blocks_of execs) ≡ ok d
          → Elem blk (blocks_of execs)
          → IsMeasured execs blk v (measured_at d blk)
      told v d blk made m =
          measure-IsMeasured execs blk v (measured_at d blk)
            (measure_all-measured_at execs v (blocks_of execs) d blk made m)

  -- The gains of the paired rows: each of them has one.
  pub gains-paired :
      (execs : List Execution) (rs : List (Row fl policy))
      → All (IsRowOf execs) rs
      → map some (gains fl policy (filter (is_paired fl policy) rs))
        ≡ map (λ (r : Row fl policy). r.gain) (filter (is_paired fl policy) rs)
  unfolding gains filter is_paired
  gains-paired execs [] told = refl
  gains-paired execs (r ∷ rs) (here, told) = elim (Option-cases r.a) [
    | inl missing ↦ rw missing (gains-paired execs rs told)
    | inr (a, on_a) ↦ elim (Option-cases r.b) [
      | inl missing ↦ rw (on_a, missing) (gains-paired execs rs told)
      | inr (b, on_b) ↦
          let (c, _, (z, gain, _)) = here.gained a b on_a on_b in
          rw (on_a, on_b, gain) (ap (λ l. some z ∷ l) (gains-paired execs rs told))
    ]
  ]
