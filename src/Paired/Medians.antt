-- ===== src/Paired/Medians.antt =====
-- The medians of evaluation/analysis/paired.py, `statistics.median`, described by their ranks.
use lemma_xperiment.Common.{
  Floats, ℕ, ◌+◌, ◌-◌, ◌*◌, ◌/◌, ◌%◌, ◌<◌, ◌≡◌, sym, subst, Bool, true, false, not, List, some,
  ◌==◌, ==_iff, leb, length, get_elem?, get_elem?-lt, sort, length-sort, ok, ok_inj, value_error,
  or_raise, or_raise-eq-ok, >>=-elim, Bool-cases, inl, inr, arith,
}
use lemma_xperiment.Paired.{median_nat}
use lemma_xperiment.Paired.Decision.{Policy, median_of}

-- The middle one of the sorted values, or what is between the two in the middle.
pub data IsMedian {A : Type 0} (le : A → A → Bool) (between : A → A → A) (xs : List A) (m : A)
    : Type 0 where
  middle :
      (k : ℕ) → length xs ≡ 2 * k + 1 → get_elem? (sort le xs) k ≡ some m → IsMedian le between xs m
  middle_two :
      (k : ℕ) (a b : A)
      → length xs ≡ 2 * k + 2
      → get_elem? (sort le xs) k ≡ some a
      → get_elem? (sort le xs) (k + 1) ≡ some b
      → m ≡ between a b
      → IsMedian le between xs m

module _ {A : Type 0} (le : A → A → Bool) (between : A → A → A) (xs : List A) (m : A) where
  odd-IsMedian :
      (length xs % 2 == 1) ≡ true
      → get_elem? (sort le xs) (length xs / 2) ≡ some m
      → IsMedian le between xs m
  odd-IsMedian odd at =
      let rest : length xs % 2 ≡ 1 = (==_iff _ _).0 odd in
      IsMedian.middle (length xs / 2) (omega arith) at

  even-IsMedian :
      (a b : A)
      → (length xs % 2 == 1) ≡ false
      → get_elem? (sort le xs) (length xs / 2 - 1) ≡ some a
      → get_elem? (sort le xs) (length xs / 2) ≡ some b
      → m ≡ between a b
      → IsMedian le between xs m
  even-IsMedian a b even at_a at_b same =
      let inside = get_elem?-lt (sort le xs) (length xs / 2) at_b in
      let size = length-sort le xs in
      IsMedian.middle_two (length xs / 2 - 1) a b (whole even inside size) at_a
        (subst (λ k. get_elem? (sort le xs) k ≡ some b) (next even inside size) at_b) same
    where
      whole :
          (length xs % 2 == 1) ≡ false
          → length xs / 2 < length (sort le xs)
          → length (sort le xs) ≡ length xs
          → length xs ≡ 2 * (length xs / 2 - 1) + 2
      whole even inside size = ground arith

      next :
          (length xs % 2 == 1) ≡ false
          → length xs / 2 < length (sort le xs)
          → length (sort le xs) ≡ length xs
          → length xs / 2 ≡ length xs / 2 - 1 + 1
      next even inside size = ground arith

abbrev pub IsMedianNat : List ℕ → ℕ → Type 0
IsMedianNat = IsMedian leb (λ a b. (a + b) / 2)

pub median_nat-IsMedian : (xs : List ℕ) (m : ℕ) → median_nat xs ≡ ok m → IsMedianNat xs m
unfolding median_nat
median_nat-IsMedian xs m done = elim (Bool-cases (length xs % 2 == 1)) [
  | inl odd ↦ odd-IsMedian leb _ xs m odd (or_raise-eq-ok _ _ (rw odd at done))
  | inr even ↦
      >>=-elim (or_raise (get_elem? (sort leb xs) (length xs / 2 - 1)) value_error) _
        (rw even at done)
        λ a at_a h1.
          >>=-elim (or_raise (get_elem? (sort leb xs) (length xs / 2)) value_error) _ h1
            λ b at_b h2.
              even-IsMedian leb _ xs m a b even (or_raise-eq-ok _ _ at_a) (or_raise-eq-ok _ _ at_b)
                (sym (ok_inj h2))
]

module _ (fl : Floats) (policy : Policy) where
  abbrev pub IsMedianOf : List fl.F → fl.F → Type 0
  IsMedianOf = IsMedian (λ x y. not (fl.below y x)) (λ a b. fl.div (fl.add a b) (fl.of_nat 2))

  pub median_of-IsMedian :
      (xs : List fl.F) (m : fl.F) → median_of fl policy xs ≡ ok m → IsMedianOf xs m
  unfolding median_of
  median_of-IsMedian xs m done =
      let le = λ (x : fl.F) (y : fl.F). not (fl.below y x) in
      elim (Bool-cases (length xs % 2 == 1)) [
        | inl odd ↦ odd-IsMedian le _ xs m odd (or_raise-eq-ok _ _ (rw odd at done))
        | inr even ↦
            >>=-elim (or_raise (get_elem? (sort le xs) (length xs / 2 - 1)) value_error) _
              (rw even at done)
              λ a at_a h1.
                >>=-elim (or_raise (get_elem? (sort le xs) (length xs / 2)) value_error) _ h1
                  λ b at_b h2.
                    even-IsMedian le _ xs m a b even (or_raise-eq-ok _ _ at_a)
                      (or_raise-eq-ok _ _ at_b) (sym (ok_inj h2))
      ]
