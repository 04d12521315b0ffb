-- ===== src/Common/Filters.antt =====
-- Python's `in`, sets without order, comprehensions with a test, and `all`.
use mathlib.Core.Path.{◌≡◌, refl}
use mathlib.Core.Logic.{inl, inr}
use mathlib.Core.Bool.{Bool, true, false, ◌&&◌, ◌||◌}
use mathlib.Core.List.{List, [], ◌∷◌}
use Prim.Native.Nat.{ℕ}
use native.Mathlib.Omega.{arith}
use lemma_xperiment.Common.Tests.{if◌then◌else◌, Bool-cases}
use lemma_xperiment.Common.Lists.{Elem, eq_list, eq_list→eq, eq_list_refl}

module _ {ℓ} {A : Type ℓ} (same : A → A → Bool) where
  unfoldable pub member : A → List A → Bool
  member x [] = false
  member x (y ∷ ys) = same x y || member x ys

  -- A set: each element once.
  unfoldable pub distinct : List A → List A
  distinct [] = []
  distinct (x ∷ xs) = if member x xs then distinct xs else x ∷ distinct xs

module _ {ℓ} {A : Type ℓ} (keep : A → Bool) where
  unfoldable pub filter : List A → List A
  filter [] = []
  filter (x ∷ xs) = if keep x then x ∷ filter xs else filter xs

  unfoldable pub every : List A → Bool
  every [] = true
  every (x ∷ xs) = keep x && every xs

-- Strings are their code points.
abbrev pub has : List ℕ → List (List ℕ) → Bool
has x xs = member eq_list x xs

pub has→Elem : (x : List ℕ) (xs : List (List ℕ)) → has x xs ≡ true → Elem x xs
unfolding member
has→Elem x [] h = cc
has→Elem x (y ∷ ys) h = elim (Bool-cases (eq_list x y)) [
  | inl same ↦ inl (eq_list→eq x y same)
  | inr other ↦ inr (has→Elem x ys (rw other at h))
]

pub Elem→has : (x : List ℕ) (xs : List (List ℕ)) → Elem x xs → has x xs ≡ true
unfolding member
Elem→has x [] h = absurd h
Elem→has x (y ∷ ys) (inl e) = rw (e, eq_list_refl y) refl
Elem→has x (y ∷ ys) (inr h) = rw (Elem→has x ys h) (ground arith)

module _ {A : Type 0} (keep : A → Bool) where
  pub filter-Elem : (x : A) (xs : List A) → Elem x (filter keep xs) → Elem x xs × (keep x ≡ true)
  unfolding filter
  filter-Elem x [] h = absurd h
  filter-Elem x (y ∷ ys) h = elim (Bool-cases (keep y)) [
    | inl kept ↦ elim (rw kept at h) [
      | inl e ↦ (inl e, rw e kept)
      | inr later ↦ let (at, good) = filter-Elem x ys later in (inr at, good)
    ]
    | inr dropped ↦ let (at, good) = filter-Elem x ys (rw dropped at h) in (inr at, good)
  ]

  pub Elem-filter : (x : A) (xs : List A) → Elem x xs → keep x ≡ true → Elem x (filter keep xs)
  unfolding filter
  Elem-filter x [] h good = absurd h
  Elem-filter x (y ∷ ys) (inl e) good = rw (← e, good) (inl refl)
  Elem-filter x (y ∷ ys) (inr h) good = elim (Bool-cases (keep y)) [
    | inl kept ↦ rw kept (inr (Elem-filter x ys h good))
    | inr dropped ↦ rw dropped (Elem-filter x ys h good)
  ]

  pub every-Elem : (x : A) (xs : List A) → every keep xs ≡ true → Elem x xs → keep x ≡ true
  unfolding every
  every-Elem x [] h at = absurd at
  every-Elem x (y ∷ ys) h (inl e) = ground arith
  every-Elem x (y ∷ ys) h (inr at) = every-Elem x ys (ground arith) at

  pub every_all : (xs : List A) → ((x : A) → Elem x xs → keep x ≡ true) → every keep xs ≡ true
  unfolding every
  every_all [] all = refl
  every_all (x ∷ xs) all = rw (all x (inl refl), every_all xs (λ y at. all y (inr at))) refl
