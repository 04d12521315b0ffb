-- ===== src/Tests/Overlay.antt =====
-- Tests of evaluation/overlay.py.
use lemma_xperiment.Common.{
  ◌≡◌, refl, Bool, true, false, List, [], ◌∷◌, some, Elem, lookup, inl, inr, ◌⊎◌, ok, err,
  system_exit, eq_list, member, sort, place,
}
use lemma_xperiment.Holdout.Derive.{codes}
use lemma_xperiment.Overlay.{
  Text, Tree, starts_with, contains, before, lstrip, rstrip_spaces, pattern_of, parts, directory_of,
  exists_in, is_new_crate, new_crate, matches_pattern, matches, reviewed, is_allowed, denied,
  clashes, copy_all, patterns_of, by_name, apply_overlay,
}
use lemma_xperiment.Overlay.Allowed.{IsAllowed}
use lemma_xperiment.Overlay.Applied.{
  apply_overlay-IsAllowed, apply_overlay-refused, apply_overlay-copied,
}

-- Only the path itself.
abbrev same_text : Text → Text → Bool
same_text path pat = eq_list path pat

abbrev entries : List Text
entries = codes "crates/cache/** (reviewed)" ∷ codes "crates/<new-module-crate>/**" ∷ []

abbrev checkout : Tree
checkout = (codes "crates/core/lib.rs", 1 ∷ []) ∷ (codes "Cargo.toml", 2 ∷ []) ∷ []

abbrev added : Text
added = codes "crates/added/lib.rs"

abbrev cache : Text
cache = codes "crates/cache/a.rs"

abbrev fine : Tree
fine = (cache, 4 ∷ []) ∷ (added, 3 ∷ []) ∷ []

abbrev outside : Text
outside = codes "crates/core/lib.rs"

unmarks_entry : pattern_of (codes "crates/cache/** (reviewed)") ≡ codes "crates/cache/**"
unfolding pattern_of before starts_with lstrip rstrip_spaces codes
unmarks_entry = refl

-- A new crate is allowed, and the crate of the checkout is not.
allows_added : is_allowed same_text checkout (patterns_of entries) added ≡ true
unfolding is_allowed patterns_of pattern_of before starts_with lstrip rstrip_spaces codes member
    matches matches_pattern contains new_crate is_new_crate parts directory_of exists_in reviewed
allows_added = refl

refuses_core : is_allowed same_text checkout (patterns_of entries) outside ≡ false
unfolding is_allowed patterns_of pattern_of before starts_with lstrip rstrip_spaces codes member
    matches matches_pattern contains new_crate is_new_crate parts directory_of exists_in reviewed
refuses_core = refl

apply_overlay-refused_example :
    apply_overlay same_text entries ((outside, 5 ∷ []) ∷ fine) checkout
    ≡ (err system_exit, checkout)
apply_overlay-refused_example =
    apply_overlay-refused same_text entries ((outside, 5 ∷ []) ∷ fine) checkout outside (5 ∷ [])
      (inl refl) refuses_core

apply_overlay-IsAllowed_example :
    (lookup added (apply_overlay same_text entries fine checkout).1 ≡ lookup added checkout)
    ⊎ ((content : Text) × Elem (added, content) fine
        × (lookup added (apply_overlay same_text entries fine checkout).1 ≡ some content)
        × IsAllowed same_text checkout (patterns_of entries) added)
apply_overlay-IsAllowed_example = apply_overlay-IsAllowed same_text entries fine checkout added

abbrev just_added : Tree
just_added = (added, 3 ∷ []) ∷ []

single : (path x y : Text) → Elem (path, x) just_added → Elem (path, y) just_added → x ≡ y
single path x y (inl e) (inl f) = cc
single path x y (inl e) (inr b) = absurd b
single path x y (inr b) f = absurd b

ends_well : (apply_overlay same_text entries just_added checkout).0 ≡ ok tt
unfolding apply_overlay by_name sort place denied copy_all clashes is_allowed patterns_of pattern_of
    before starts_with lstrip rstrip_spaces codes member matches matches_pattern contains new_crate
    is_new_crate parts directory_of exists_in reviewed
ends_well = refl

apply_overlay-copied_example :
    lookup added (apply_overlay same_text entries just_added checkout).1 ≡ some (3 ∷ [])
apply_overlay-copied_example =
    apply_overlay-copied same_text entries just_added checkout single ends_well added (3 ∷ [])
      (inl refl)
