-- ===== src/Common/Dicts.antt =====
-- Dictionaries with byte strings for keys, in insertion order.
use mathlib.Core.Path.{◌≡◌, refl, ap, sym, subst}
use mathlib.Core.Logic.{inl, inr}
use mathlib.Core.Bool.{true, false}
use mathlib.Core.Option.{Option, none, some}
use mathlib.Core.List.{List, [], ◌∷◌}
use Prim.Native.Nat.{ℕ}
use lemma_xperiment.Common.Tests.{if◌then◌else◌, Bool-cases}
use lemma_xperiment.Common.Lists.{eq_list, eq_list→eq, eq_list_refl, All, All-map}

module _ {V : Type 0} where
  unfoldable pub lookup : List ℕ → List (List ℕ × V) → Option V
  lookup k [] = none
  lookup k ((j, v) ∷ d) = if eq_list j k then some v else lookup k d

  unfoldable pub insert : List ℕ → V → List (List ℕ × V) → List (List ℕ × V)
  insert k v [] = (k, v) ∷ []
  insert k v ((j, w) ∷ d) = if eq_list j k then (j, v) ∷ d else (j, w) ∷ insert k v d

  pub lookup-insert :
      (k j : List ℕ) (v : V) (d : List (List ℕ × V))
      → lookup j (insert k v d) ≡ (if eq_list k j then some v else lookup j d)
  unfolding lookup insert
  lookup-insert k j v [] = refl
  lookup-insert k j v ((i, w) ∷ d) = elim (Bool-cases (eq_list i k)) [
    | inl same ↦ rw same (
        rw (eq_list→eq i k same)
          (elim (Bool-cases (eq_list k j)) [ inl e ↦ rw e refl | inr e ↦ rw e refl ]))
    | inr other ↦
        rw (other, lookup-insert k j v d)
          (elim (Bool-cases (eq_list i j)) [
            | inl e ↦ rw (e, not_both i k j other e) refl
            | inr e ↦ rw e refl
          ])
  ]
    where
      not_both : (i k j : List ℕ) → eq_list i k ≡ false → eq_list i j ≡ true → eq_list k j ≡ false
      not_both i k j other e = elim (Bool-cases (eq_list k j)) [
        | inl f ↦ absurd (cc (other, subst (λ t. eq_list i t ≡ true) (sym (eq_list→eq k j f)) e))
        | inr f ↦ f
      ]

  pub lookup-cons_self :
      (k : List ℕ) (v : V) (d : List (List ℕ × V)) → lookup k ((k, v) ∷ d) ≡ some v
  unfolding lookup
  lookup-cons_self k v d = rw (eq_list_refl k) refl

  -- No key stands twice.
  abbrev pub HasUniqueKeys : List (List ℕ × V) → Type 0
  HasUniqueKeys [] = Unit
  HasUniqueKeys ((k, v) ∷ d) = (lookup k d ≡ none) × HasUniqueKeys d

  -- In a dictionary with unique keys every entry is found.
  pub own_entries :
      (d : List (List ℕ × V))
      → HasUniqueKeys d
      → All (λ (e : List ℕ × V). lookup e.0 d ≡ some e.1) d
  unfolding lookup
  own_entries [] unique = tt
  own_entries ((k, v) ∷ d) (fresh, unique) =
      (lookup-cons_self k v d, All-map _ _ d later (own_entries d unique))
    where
      later : (e : List ℕ × V) → lookup e.0 d ≡ some e.1 → lookup e.0 ((k, v) ∷ d) ≡ some e.1
      later e found = elim (Bool-cases (eq_list k e.0)) [
        | inl same ↦ absurd (cc (fresh, ap (λ t. lookup t d) (eq_list→eq k e.0 same)))
        | inr other ↦ rw other found
      ]
