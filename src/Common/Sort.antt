-- ===== src/Common/Sort.antt =====
-- Python's `sorted` by an order given as a test: a stable insertion sort.
use Prim.Native.Nat.{ℕ, zero, suc, ◌+◌, ◌≤◌, ◌<◌}
use mathlib.Core.Path.{◌≡◌, refl, subst}
use mathlib.Core.Logic.{◌↔◌, ◌⊎◌, inl, inr}
use mathlib.Core.Bool.{Bool, true, false, not}
use mathlib.Core.Option.{some}
use mathlib.Core.List.{List, [], ◌∷◌}
use native.Mathlib.Omega.{arith}
use lemma_xperiment.Common.Tests.{if◌then◌else◌, Bool-cases}
use lemma_xperiment.Common.Lists.{Elem, length, get_elem?, All, All-map, All-get_elem?}

module _ {A : Type 0} where
  -- How many elements pass a test.
  abbrev pub tally : (A → Bool) → List A → ℕ
  tally p [] = 0
  tally p (x ∷ xs) = (if p x then 1 else 0) + tally p xs

  unfoldable pub place : (A → A → Bool) → A → List A → List A
  place le x [] = x ∷ []
  place le x (y ∷ ys) = if le x y then x ∷ y ∷ ys else y ∷ place le x ys

  unfoldable pub sort : (A → A → Bool) → List A → List A
  unfolding place
  sort le [] = []
  sort le (x ∷ xs) = place le x (sort le xs)

module _ {A : Type 0} (le : A → A → Bool) where
  tally-place : (p : A → Bool) (x : A) (ys : List A) → tally p (place le x ys) ≡ tally p (x ∷ ys)
  unfolding place
  tally-place p x [] = refl
  tally-place p x (y ∷ ys) = ground (arith, tally-place p x ys)

  -- A sorted list has the same elements, as often: every test passes as many of them.
  pub tally-sort : (p : A → Bool) (xs : List A) → tally p (sort le xs) ≡ tally p xs
  unfolding sort
  tally-sort p [] = refl
  tally-sort p (x ∷ xs) = omega (arith, tally-place p x (sort le xs), tally-sort p xs)

  pub tally_none : (p : A → Bool) (xs : List A) → All (λ x. p x ≡ false) xs → tally p xs ≡ 0
  tally_none p [] all = refl
  tally_none p (x ∷ xs) all = rw all.0 (omega (arith, tally_none p xs all.1))

  length-place : (x : A) (ys : List A) → length (place le x ys) ≡ suc (length ys)
  unfolding place
  length-place x [] = refl
  length-place x (y ∷ ys) = ground (arith, length-place x ys)

  pub length-sort : (xs : List A) → length (sort le xs) ≡ length xs
  unfolding sort
  length-sort [] = refl
  length-sort (x ∷ xs) = omega (arith, length-place x (sort le xs), length-sort xs)

  -- Every element is before or beside every later one.
  abbrev pub IsSorted : List A → Type 0
  IsSorted [] = Unit
  IsSorted (x ∷ xs) = All (λ y. le x y ≡ true) xs × IsSorted xs

  pub All-place : (P : A → Type 0) (x : A) (ys : List A) → P x → All P ys → All P (place le x ys)
  unfolding place
  All-place P x [] px all = (px, tt)
  All-place P x (y ∷ ys) px all = elim (Bool-cases (le x y)) [
    | inl h ↦ rw h (px, all)
    | inr h ↦ rw h (all.0, All-place P x ys px all.1)
  ]

  pub All-sort : (P : A → Type 0) (xs : List A) → All P xs → All P (sort le xs)
  unfolding sort
  All-sort P [] all = tt
  All-sort P (x ∷ xs) all = All-place P x (sort le xs) all.0 (All-sort P xs all.1)

  Elem-place : (a x : A) (ys : List A) → Elem a (place le x ys) ↔ ((a ≡ x) ⊎ Elem a ys)
  unfolding place
  Elem-place a x [] = (λ h. h, λ h. h)
  Elem-place a x (y ∷ ys) = elim (Bool-cases (le x y)) [
    | inl h ↦ rw h (λ p. p, λ p. p)
    | inr h ↦
        let (out, into) = Elem-place a x ys in
        rw h (
          λ p. elim p [
            | inl e ↦ inr (inl e)
            | inr at ↦ elim (out at) [ inl e ↦ inl e | inr there ↦ inr (inr there) ]
          ],
          λ p. elim p [
            | inl e ↦ inr (into (inl e))
            | inr (inl e) ↦ inl e
            | inr (inr there) ↦ inr (into (inr there))
          ],
        )
  ]

  -- Sorting keeps the elements.
  pub Elem-sort : (a : A) (xs : List A) → Elem a (sort le xs) ↔ Elem a xs
  unfolding sort
  Elem-sort a [] = (λ h. h, λ h. h)
  Elem-sort a (x ∷ xs) =
      let (out, into) = Elem-place a x (sort le xs) in
      let (later, back) = Elem-sort a xs in
      (
        λ h. elim (out h) [ inl e ↦ inl e | inr at ↦ inr (later at) ],
        λ h. into (elim h [ inl e ↦ inl e | inr at ↦ inr (back at) ]),
      )

  module _ (total : (x y : A) → le x y ≡ false → le y x ≡ true)
      (trans : (x y z : A) → le x y ≡ true → le y z ≡ true → le x z ≡ true) where
    place-IsSorted : (x : A) (ys : List A) → IsSorted ys → IsSorted (place le x ys)
    unfolding place
    place-IsSorted x [] sorted = (tt, tt)
    place-IsSorted x (y ∷ ys) sorted = elim (Bool-cases (le x y)) [
      | inl h ↦ rw h ((h, All-map _ _ ys (λ z. trans x y z h) sorted.0), sorted)
      | inr h ↦
          rw h (
            All-place (λ z. le y z ≡ true) x ys (total x y h) sorted.0,
            place-IsSorted x ys sorted.1,
          )
    ]

    pub sort-IsSorted : (xs : List A) → IsSorted (sort le xs)
    unfolding sort
    sort-IsSorted [] = tt
    sort-IsSorted (x ∷ xs) = place-IsSorted x (sort le xs) (sort-IsSorted xs)

    -- Of a sorted list at most `i` elements stand strictly before the one at `i`, and more than
    -- `i` are before or beside it.
    pub rank :
        (xs : List A) (i : ℕ) {m : A}
        → ((x : A) → le x x ≡ true)
        → IsSorted xs
        → get_elem? xs i ≡ some m
        → (tally (λ x. not (le m x)) xs ≤ i) × (i < tally (λ x. le x m) xs)
    rank [] i self sorted at = cc
    rank (x ∷ xs) zero self sorted at =
        let same = some_inj at in
        subst (λ m. (tally (λ y. not (le m y)) (x ∷ xs) ≤ 0) × (0 < tally (λ y. le y m) (x ∷ xs)))
          same
          (
            rw (self x) (
                omega (
                  arith,
                  tally_none (λ y. not (le x y)) xs (All-map _ _ xs (λ y h. rw h refl) sorted.0),
                )),
            rw (self x) (omega arith),
          )
      where
        some_inj : {a b : A} → some a ≡ some b → a ≡ b
        some_inj h = cc
    rank (x ∷ xs) (suc i) {m} self sorted at =
        let (before, upto) = rank xs i self sorted.1 at in
        let first = All-get_elem? (λ y. le x y ≡ true) xs i sorted.0 at in
        (ground arith, rw first (omega arith))
