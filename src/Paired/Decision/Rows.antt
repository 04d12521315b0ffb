-- ===== src/Paired/Decision/Rows.antt =====
-- What the rows of the acceptance computation hold of their blocks.
use lemma_xperiment.Common.{
  Floats, ℕ, ◌≡◌, refl, sym, ◌∙◌, ap, subst, Bool, true, false, List, [], ◌∷◌, Option, none, some,
  Outcome, ok, err, >>=-elim, Bool-cases, Option-cases, inl, inr, All, Elem, filter,
}
use lemma_xperiment.Paired.{Measured, PerBlock, measured_at}
use lemma_xperiment.Paired.Decision.{
  is_empty, Policy, beyond, row_of, improvement, improvement_on, least, Row, all_rows, is_paired,
  is_failed,
}

pub filter-none :
    {A : Type 0} (keep : A → Bool) (xs : List A)
    → is_empty (filter keep xs) ≡ true
    → All (λ x. keep x ≡ false) xs
unfolding filter
filter-none keep [] h = tt
filter-none keep (x ∷ xs) h = elim (Bool-cases (keep x)) [
  | inl kept ↦ absurd (cc (rw kept at h))
  | inr left ↦ (left, filter-none keep xs (rw left at h))
]

pub filter-some :
    {A : Type 0} (keep : A → Bool) (xs : List A) (x : A)
    → Elem x xs
    → keep x ≡ true
    → is_empty (filter keep xs) ≡ false
unfolding filter
filter-some keep [] x m h = absurd m
filter-some keep (y ∷ ys) x (inl e) h = rw (ap keep (sym e) ∙ h) refl
filter-some keep (y ∷ ys) x (inr m) h = elim (Bool-cases (keep y)) [
  | inl kept ↦ rw kept refl
  | inr left ↦ rw left (filter-some keep ys x m h)
]

module _ (fl : Floats) (policy : Policy) where
  -- Where the baseline reached the row's block, the candidate did too, within the cap.
  abbrev pub IsSound : Row fl policy → Type 0
  IsSound r =
      (a : Measured)
      → r.a ≡ some a
      → (b : Measured) × (r.b ≡ some b)
        × (fl.above b.pgu (
              fl.mul
                (fl.add (fl.of_nat 1)
                  (fl.div (fl.of_nat policy.maximum_regression) (fl.of_nat 100)))
                (fl.of_nat a.pgu))
            ≡ false)

  abbrev row_a : Outcome (Row fl policy) → Option Measured
  row_a (ok r) = r.a
  row_a (err e) = none

  abbrev row_b : Outcome (Row fl policy) → Option Measured
  row_b (ok r) = r.b
  row_b (err e) = none

  pub IsTold : Row fl policy → Type 0
  IsTold r =
      (a b : Measured) → r.a ≡ some a → r.b ≡ some b → r.regression ≡ beyond fl policy b.pgu a.pgu

  row_of-IsTold :
      (blk : ℕ) (a b c : Option Measured) (r : Row fl policy)
      → row_of fl policy blk a b c ≡ ok r
      → IsTold r
  unfolding row_of IsTold
  row_of-IsTold blk (some a) (some b) c r done a' b' e f =
      >>=-elim (improvement fl policy a.pgu b.pgu) _ done λ x _ h1.
        >>=-elim (improvement_on fl policy c b) _ h1 λ y _ h2.
          let made : record {
            block = blk;
            a = some a;
            b = some b;
            gain = some (least fl policy x y);
            regression = beyond fl policy b.pgu a.pgu;
          }
              ≡ r =
            cc h2 in
          let same_a : a ≡ a' = cc (ap (λ (z : Row fl policy). z.a) made ∙ e) in
          let same_b : b ≡ b' = cc (ap (λ (z : Row fl policy). z.b) made ∙ f) in
          sym (ap (λ (z : Row fl policy). z.regression) made)
          ∙ ap (λ (z : Measured). beyond fl policy z.pgu a.pgu) same_b
          ∙ ap (λ (z : Measured). beyond fl policy b'.pgu z.pgu) same_a
  row_of-IsTold blk none b c r done a' b' e f =
      let was : none ≡ r.a = ap (λ (z : Outcome (Row fl policy)). row_a z) done in
      absurd (cc (was, e))
  row_of-IsTold blk (some a) none c r done a' b' e f =
      let was : none ≡ r.b = ap (λ (z : Outcome (Row fl policy)). row_b z) done in
      absurd (cc (was, f))

  pub all_rows-IsTold :
      (a b c : PerBlock) (blks : List ℕ) (rs : List (Row fl policy))
      → all_rows fl policy a b c blks ≡ ok rs
      → All IsTold rs
  unfolding all_rows
  all_rows-IsTold a b c [] rs done = let made : [] ≡ rs = cc done in subst (All IsTold) made tt
  all_rows-IsTold a b c (blk ∷ blks) rs done =
      >>=-elim (row_of fl policy blk (measured_at a blk) (measured_at b blk) (measured_at c blk)) _
        done
        λ r one h1. >>=-elim (all_rows fl policy a b c blks) _ h1 λ rest others h2.
          let made : r ∷ rest ≡ rs = cc h2 in
          subst (All IsTold) made
            (row_of-IsTold blk _ _ _ r one, all_rows-IsTold a b c blks rest others)

  pub rows_hold :
      (rs : List (Row fl policy))
      → All IsTold rs
      → All (λ r. is_failed fl policy r ≡ false) rs
      → is_empty (filter (λ (r : Row fl policy). r.regression) (filter (is_paired fl policy) rs))
        ≡ true
      → All IsSound rs
  unfolding filter is_failed is_paired IsTold beyond
  rows_hold [] told failed regressions = tt
  rows_hold (r ∷ rs) (says, told) (here, failed) regressions = elim (Option-cases r.a) [
    | inl missing ↦
        (λ a h. absurd (cc (missing, h)), rows_hold rs told failed (rw missing at regressions))
    | inr (a, reached) ↦ elim (Option-cases r.b) [
      | inl lost ↦ absurd (cc (rw (reached, lost) at here))
      | inr (b, both) ↦ elim (Bool-cases r.regression) [
        | inl worse ↦ absurd (cc (rw (reached, both, worse) at regressions))
        | inr fine ↦ (
          λ a' h. (b, both, sym (says a' b h both) ∙ fine),
          rows_hold rs told failed (rw (reached, both, fine) at regressions),
        )
      ]
    ]
  ]
