-- ===== src/Overlay/Allowed.antt =====
-- The paths that the script allows.
use lemma_xperiment.Common.{
  ℕ, zero, suc, ◌-◌, ◌≡◌, refl, sym, ap, ◌∙◌, subst, Bool, true, false, not, ◌&&◌, ◌||◌, List, [],
  ◌∷◌, ◌++◌, some, leb, Elem, length, take, drop, eq_list, eq_list→eq, has, has→Elem, Bool-cases,
  Option-cases, inl, inr, ◌⊎◌, arith,
}
use mathlib.Core.List.{append_assoc}
use lemma_xperiment.Holdout.Derive.{codes}
use lemma_xperiment.Overlay.{
  Text, Tree, starts_with, contains, parts, directory_of, exists_in, is_new_crate, new_crate,
  matches_pattern, matches, reviewed, is_allowed, denied,
}

take-append-drop : (n : ℕ) (s : Text) → take n s ++ drop n s ≡ s
take-append-drop zero s = refl
take-append-drop (suc n) [] = refl
take-append-drop (suc n) (c ∷ s) = ap (λ t. c ∷ t) (take-append-drop n s)

starts_with-append :
    (prefix s : Text) → starts_with prefix s ≡ true → (rest : Text) × (s ≡ prefix ++ rest)
unfolding starts_with
starts_with-append prefix s h = (
  drop (length prefix) s,
  sym (take-append-drop (length prefix) s)
      ∙ ap (λ t. t ++ drop (length prefix) s) (eq_list→eq _ _ h),
)

some_inj : {A : Type 0} {x y : A} → some x ≡ some y → x ≡ y
some_inj h = cc

both : (a b : Bool) → (a && b) ≡ true → (a ≡ true) × (b ≡ true)
both a b h = ground arith

either : (a b : Bool) → (a || b) ≡ true → (a ≡ true) ⊎ (b ≡ true)
either true b h = inl refl
either false b h = inr h

is_false : {b : Bool} → not b ≡ true → b ≡ false
is_false h = ground arith

module _ (fnmatchcase : Text → Text → Bool) (rsp : Tree) where
  -- The ways in which a pattern allows a path.
  pub data Allows : (pat path : Text) → Type 0 where
    crate :
        (pat path name third : Text) (rest : List Text)
        → contains (codes "<new-module-crate>") pat ≡ true
        → parts path ≡ codes "crates" ∷ name ∷ third ∷ rest
        → exists_in rsp (codes "crates/" ++ name) ≡ false
        → Allows pat path
    under : (directory rest : Text) → Allows (directory ++ codes "/**") (directory ++ 47 ∷ rest)
    glob : (pat path : Text) → fnmatchcase path pat ≡ true → Allows pat path
    itself : (path : Text) → Allows path path

  pub data IsAllowed (patterns : List Text) (path : Text) : Type 0 where
    by_review : Elem path reviewed → IsAllowed patterns path
    by_pattern : (pat : Text) → Elem pat patterns → Allows pat path → IsAllowed patterns path

  directory_of-append :
      (pat directory : Text) → directory_of pat ≡ some directory → pat ≡ directory ++ codes "/**"
  unfolding directory_of
  directory_of-append pat directory h =
      elim (Bool-cases (leb 3 (length pat) && eq_list (drop (length pat - 3) pat) (codes "/**"))) [
        | inr other ↦ absurd (cc (rw (other, directory_of) at h))
        | inl ends ↦
            sym (take-append-drop (length pat - 3) pat)
            ∙ ap (λ t. t ++ drop (length pat - 3) pat) (some_inj (rw (ends, directory_of) at h))
            ∙ ap (λ t. directory ++ t) (eq_list→eq _ _ (both _ _ ends).1)
      ]

  new_crate-Allows :
      (pat path : Text)
      → contains (codes "<new-module-crate>") pat ≡ true
      → new_crate rsp path ≡ true
      → Allows pat path
  unfolding new_crate is_new_crate
  new_crate-Allows pat path marked h = go (parts path) refl h
    where
      go : (ps : List Text) → parts path ≡ ps → is_new_crate rsp ps ≡ true → Allows pat path
      go [] e h = cc
      go (p ∷ []) e h = cc
      go (p ∷ q ∷ []) e h = cc
      go (first ∷ name ∷ third ∷ rest) e h =
          let (there, absent) = both (eq_list first (codes "crates")) _ h in
          crate pat path name third rest marked
            (e ∙ ap (λ f. f ∷ name ∷ third ∷ rest) (eq_list→eq first (codes "crates") there))
            (is_false absent)

  matches_pattern-Allows :
      (pat path : Text) → matches_pattern fnmatchcase rsp pat path ≡ true → Allows pat path
  unfolding matches_pattern
  matches_pattern-Allows pat path h =
      elim (Bool-cases (contains (codes "<new-module-crate>") pat)) [
        | inl marked ↦ new_crate-Allows pat path marked (rw (marked, matches_pattern) at h)
        | inr plain ↦ elim (Option-cases (directory_of pat)) [
          | inl whole ↦
              elim (either (fnmatchcase path pat) _ (rw (plain, whole, matches_pattern) at h)) [
                | inl fits ↦ glob pat path fits
                | inr same ↦ subst (λ q. Allows q path) (eq_list→eq path pat same) (itself path)
              ]
          | inr (directory, e) ↦
              let (rest, split) =
                starts_with-append (directory ++ 47 ∷ []) path
                  (rw (plain, e, matches_pattern) at h) in
              subst (λ q. Allows q path) (sym (directory_of-append pat directory e))
                (subst (Allows (directory ++ codes "/**"))
                  (sym (split ∙ append_assoc directory (47 ∷ []) rest)) (under directory rest))
        ]
      ]

  matches-IsAllowed :
      (patterns : List Text) (path : Text)
      → matches fnmatchcase rsp patterns path ≡ true
      → IsAllowed patterns path
  unfolding matches
  matches-IsAllowed [] path h = cc
  matches-IsAllowed (pat ∷ patterns) path h =
      elim (either (matches_pattern fnmatchcase rsp pat path) _ h) [
        | inl here ↦ by_pattern pat (inl refl) (matches_pattern-Allows pat path here)
        | inr later ↦ wider (matches-IsAllowed patterns path later)
      ]
    where
      wider : IsAllowed patterns path → IsAllowed (pat ∷ patterns) path
      wider (by_review r) = by_review r
      wider (by_pattern p at a) = by_pattern p (inr at) a

  pub is_allowed-IsAllowed :
      (patterns : List Text) (path : Text)
      → is_allowed fnmatchcase rsp patterns path ≡ true
      → IsAllowed patterns path
  unfolding is_allowed
  is_allowed-IsAllowed patterns path h = elim (either (has path reviewed) _ h) [
    | inl there ↦ by_review (has→Elem path reviewed there)
    | inr later ↦ matches-IsAllowed patterns path later
  ]

  pub denied-nil :
      (patterns : List Text) (files : Tree) (path content : Text)
      → denied fnmatchcase rsp patterns files ≡ []
      → Elem (path, content) files
      → is_allowed fnmatchcase rsp patterns path ≡ true
  unfolding denied
  denied-nil patterns [] path content h at = absurd at
  denied-nil patterns ((rel, c) ∷ files) path content h at =
      elim (Bool-cases (is_allowed fnmatchcase rsp patterns rel)) [
        | inr bad ↦ absurd (cc (rw (bad, denied) at h))
        | inl good ↦ elim at [
          | inl e ↦
              subst (λ (f : Text × Text). is_allowed fnmatchcase rsp patterns f.0 ≡ true) (sym e)
                good
          | inr later ↦ denied-nil patterns files path content (rw (good, denied) at h) later
        ]
      ]
