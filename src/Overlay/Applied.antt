-- ===== src/Overlay/Applied.antt =====
-- What the script writes, and where it writes nothing.
use lemma_xperiment.Common.{
  ◌≡◌, refl, sym, ap, ◌∙◌, subst, Bool, false, List, [], ◌∷◌, some, Elem, Elem-sort, eq_list,
  eq_list→eq, eq_list_refl, lookup, lookup-insert, insert, sort, Bool-cases, inl, inr, ◌⊎◌, ok, err,
  system_exit,
}
use lemma_xperiment.Overlay.{
  Text, Tree, is_allowed, denied, clashes, copy_all, patterns_of, by_name, apply_overlay,
}
use lemma_xperiment.Overlay.Allowed.{IsAllowed, is_allowed-IsAllowed, denied-nil}

-- What copying does to a path: nothing, or it puts a file of the list there.
copy_all-lookup :
    (files rsp : Tree) (path : Text)
    → (lookup path (copy_all files rsp).1 ≡ lookup path rsp)
      ⊎ ((content : Text) × Elem (path, content) files
          × (lookup path (copy_all files rsp).1 ≡ some content))
unfolding copy_all
copy_all-lookup [] rsp path = inl refl
copy_all-lookup ((rel, content) ∷ files) rsp path = elim (Bool-cases (clashes rsp rel)) [
  | inl clash ↦ rw (clash, copy_all) (inl refl)
  | inr free ↦
      rw (free, copy_all)
        (elim (copy_all-lookup files (insert rel content rsp) path) [
          | inr (x, at, e) ↦ inr (x, inr at, e)
          | inl same ↦ elim (Bool-cases (eq_list rel path)) [
            | inl here ↦ inr (
              content,
              inl (ap (λ p. (p, content)) (sym (eq_list→eq rel path here))),
              same ∙ lookup-insert rel path content rsp ∙ rw here refl,
            )
            | inr other ↦ inl (same ∙ lookup-insert rel path content rsp ∙ rw other refl)
          ]
        ])
]

copy_all-copied :
    (files rsp : Tree)
    → ((path x y : Text) → Elem (path, x) files → Elem (path, y) files → x ≡ y)
    → (copy_all files rsp).0 ≡ ok tt
    → (path content : Text) → Elem (path, content) files
    → lookup path (copy_all files rsp).1 ≡ some content
unfolding copy_all
copy_all-copied [] rsp single done path content at = absurd at
copy_all-copied ((rel, c) ∷ files) rsp single done path content at =
    elim (Bool-cases (clashes rsp rel)) [
      | inl clash ↦ absurd (cc (rw (clash, copy_all) at done))
      | inr free ↦
          let done' = rw (free, copy_all) at done in
          let put = insert rel c rsp in
          rw (free, copy_all)
            (elim at [
              | inr later ↦
                  copy_all-copied files put (λ p x y h k. single p x y (inr h) (inr k)) done' path
                    content later
              | inl e ↦ elim (copy_all-lookup files put path) [
                | inr (x, there, found) ↦
                    found ∙ ap some (single path x content (inr there) (inl e))
                | inl same ↦
                    same
                    ∙ subst (λ (f : Text × Text). lookup f.0 put ≡ some f.1) (sym e)
                        (lookup-insert rel rel c rsp ∙ rw (eq_list_refl rel) refl)
              ]
            ])
    ]

module _ (fnmatchcase : Text → Text → Bool) (entries : List Text) (overlay rsp : Tree) where
  -- However the script ends, a path of the checkout holds what it held, or it is the path of an
  -- overlay file, holds that file's content, and is allowed: one of the two reviewed files, or a path
  -- that a pattern of the specification allows.
  pub apply_overlay-IsAllowed :
      (path : Text)
      → (lookup path (apply_overlay fnmatchcase entries overlay rsp).1 ≡ lookup path rsp)
        ⊎ ((content : Text) × Elem (path, content) overlay
            × (lookup path (apply_overlay fnmatchcase entries overlay rsp).1 ≡ some content)
            × IsAllowed fnmatchcase rsp (patterns_of entries) path)
  unfolding apply_overlay
  apply_overlay-IsAllowed path = go (denied fnmatchcase rsp (patterns_of entries) files) refl
    where
      files : Tree
      files = sort by_name overlay

      go :
          (bad : List Text)
          → denied fnmatchcase rsp (patterns_of entries) files ≡ bad
          → (lookup path (apply_overlay fnmatchcase entries overlay rsp).1 ≡ lookup path rsp)
            ⊎ ((content : Text) × Elem (path, content) overlay
                × (lookup path (apply_overlay fnmatchcase entries overlay rsp).1 ≡ some content)
                × IsAllowed fnmatchcase rsp (patterns_of entries) path)
      go (b ∷ bad) e = rw (e, apply_overlay) (inl refl)
      go [] e =
          rw (e, apply_overlay)
            (elim (copy_all-lookup files rsp path) [
              | inl same ↦ inl same
              | inr (content, at, put) ↦ inr (
                content,
                (Elem-sort by_name (path, content) overlay).0 at,
                put,
                is_allowed-IsAllowed fnmatchcase rsp (patterns_of entries) path
                    (denied-nil fnmatchcase rsp (patterns_of entries) files path content e at),
              )
            ])

  -- With one file outside the allowed paths the script exits, and copies nothing.
  pub apply_overlay-refused :
      (path content : Text)
      → Elem (path, content) overlay
      → is_allowed fnmatchcase rsp (patterns_of entries) path ≡ false
      → apply_overlay fnmatchcase entries overlay rsp ≡ (err system_exit, rsp)
  unfolding apply_overlay
  apply_overlay-refused path content at outside =
      go (denied fnmatchcase rsp (patterns_of entries) files) refl
    where
      files : Tree
      files = sort by_name overlay

      go :
          (bad : List Text)
          → denied fnmatchcase rsp (patterns_of entries) files ≡ bad
          → apply_overlay fnmatchcase entries overlay rsp ≡ (err system_exit, rsp)
      go (b ∷ bad) e = rw (e, apply_overlay) refl
      go [] e = absurd (
          cc (
            outside,
            denied-nil fnmatchcase rsp (patterns_of entries) files path content e
                ((Elem-sort by_name (path, content) overlay).1 at),
          ))

  -- Where it ends well, every file of the overlay is in the checkout, if the overlay has one content
  -- for each path.
  pub apply_overlay-copied :
      ((path x y : Text) → Elem (path, x) overlay → Elem (path, y) overlay → x ≡ y)
      → (apply_overlay fnmatchcase entries overlay rsp).0 ≡ ok tt
      → (path content : Text) → Elem (path, content) overlay
      → lookup path (apply_overlay fnmatchcase entries overlay rsp).1 ≡ some content
  unfolding apply_overlay
  apply_overlay-copied single done path content at =
      go (denied fnmatchcase rsp (patterns_of entries) files) refl
    where
      files : Tree
      files = sort by_name overlay

      back : (f : Text × Text) → Elem f files → Elem f overlay
      back f there = (Elem-sort by_name f overlay).0 there

      go :
          (bad : List Text)
          → denied fnmatchcase rsp (patterns_of entries) files ≡ bad
          → lookup path (apply_overlay fnmatchcase entries overlay rsp).1 ≡ some content
      go (b ∷ bad) e = absurd (cc (rw (e, apply_overlay) at done))
      go [] e =
          rw (e, apply_overlay)
            (copy_all-copied files rsp (λ p x y h k. single p x y (back (p, x) h) (back (p, y) k))
              (rw (e, apply_overlay) at done) path content
              ((Elem-sort by_name (path, content) overlay).1 at))
