-- ===== src/Trie/Walk/Meaning.antt =====
-- What the end of Trie.path_proof's walk says about the trie: an independent description of where
-- the leaf of a key stands, and the tags measured against it.
use lemma_xperiment.Common.{
  ℕ, ◌+◌, ◌≡◌, ◌∙◌, sym, ◌↔◌, ap, Bool, true, false, List, ◌∷◌, ◌++◌, some, ◌==◌, length, get_elem?,
  take, drop, eq_list, eq_list_refl, ok, arith, drop-eq-cons, drop-drop, eq_list-take,
  take-append_self, drop-append_self,
}
use lemma_xperiment.Trie.Nibbles.{Bytes}
use lemma_xperiment.Trie.Walk.{
  Item, str, node, Items, count, item_at, Library, Store, End, empty_trie, branch_value,
  branch_empty_slot, leaf, leaf_mismatch, extension_mismatch, short_path, descend,
}

module _ (lib : Library) (db : Store) where
  abbrev pub Resolves : Item → Items → Type 0
  Resolves child ys =
      (inline : Bool) × (more : List Bytes) × (descend lib db child ≡ ok (node ys, inline, more))

  -- The trie below the node has a leaf for the rest of a key.
  pub data HasLeaf : Items → List ℕ → Type 0 where
    here :
        {xs : Items} {path ks : List ℕ}
        → (count xs == 17) ≡ false
        → short_path xs ≡ ok (path, true)
        → ks ≡ path
        → HasLeaf xs ks
    below_extension :
        {xs ys : Items} {path ks rest : List ℕ} {child : Item}
        → (count xs == 17) ≡ false
        → short_path xs ≡ ok (path, false)
        → item_at xs 1 ≡ some child
        → Resolves child ys
        → ks ≡ path ++ rest
        → HasLeaf ys rest
        → HasLeaf xs ks
    below_branch :
        {xs ys : Items} {i : ℕ} {ks rest : List ℕ} {child : Item}
        → (count xs == 17) ≡ true
        → item_at xs i ≡ some child
        → Resolves child ys
        → ks ≡ i ∷ rest
        → HasLeaf ys rest
        → HasLeaf xs ks

  abbrev pub LeafAt : Item → List ℕ → Type 0
  LeafAt (str b) ks = ⊥
  LeafAt (node xs) ks = HasLeaf xs ks

-- What a tag claims of the statement that the key has a leaf. A branch at the end of the key says
-- nothing, and the empty trie is known by its root.
abbrev pub Claims : End → Type 0 → Type 0
Claims empty_trie P = Unit
Claims branch_value P = Unit
Claims (leaf _) P = P
Claims (branch_empty_slot _) P = ¬ P
Claims (leaf_mismatch _) P = ¬ P
Claims (extension_mismatch _) P = ¬ P

pub Claims-iff : (e : End) {P Q : Type 0} → P ↔ Q → Claims e Q → Claims e P
Claims-iff empty_trie h c = tt
Claims-iff branch_value h c = tt
Claims-iff (leaf _) h c = h.1 c
Claims-iff (branch_empty_slot _) h c = λ p. c (h.0 p)
Claims-iff (leaf_mismatch _) h c = λ p. c (h.0 p)
Claims-iff (extension_mismatch _) h c = λ p. c (h.0 p)

module _ (lib : Library) (db : Store) (nibs : List ℕ) (pos : ℕ) (inline : Bool) (xs : Items) where
  pub branch_inv :
      {ks : List ℕ}
      → (count xs == 17) ≡ true
      → HasLeaf lib db xs ks
      → (i : ℕ) × (rest : List ℕ) × (child : Item) × (ys : Items) × (item_at xs i ≡ some child)
        × Resolves lib db child ys
        × (ks ≡ i ∷ rest)
        × HasLeaf lib db ys rest
  branch_inv full (here short _ _) = cc
  branch_inv full (below_extension short _ _ _ _ _) = cc
  branch_inv full (below_branch {ys = ys} {i = i} {rest = rest} {child = child} _ at r e l) =
      (i, rest, child, ys, at, r, e, l)

  module _ (i : ℕ) (child : Item) (full : (count xs == 17) ≡ true)
      (at_pos : get_elem? nibs pos ≡ some i) (at_i : item_at xs i ≡ some child) where
    -- In a branch, the leaf of the key stands below the child that the next nibble chooses.
    pub branch_down :
        HasLeaf lib db xs (drop pos nibs)
        → (ys : Items) × Resolves lib db child ys × HasLeaf lib db ys (drop (pos + 1) nibs)
    branch_down l =
        let (i', rest, child', ys, at, (b, more, r), e, l') = branch_inv full l in
        let split : i' ∷ rest ≡ i ∷ drop (pos + 1) nibs = sym e ∙ drop-eq-cons nibs pos at_pos in
        let same_rest : rest ≡ drop (pos + 1) nibs = cc in
        let same_child : child' ≡ child = ground (arith, ap (item_at xs) (first split)) in
        (ys, (b, more, rw same_child at r), rw same_rest at l')
      where
        first : {a c : ℕ} {l m : List ℕ} → a ∷ l ≡ c ∷ m → a ≡ c
        first h = cc

    pub branch_up :
        (ys : Items)
        → Resolves lib db child ys
        → HasLeaf lib db ys (drop (pos + 1) nibs)
        → HasLeaf lib db xs (drop pos nibs)
    branch_up ys r l = below_branch full at_i r (drop-eq-cons nibs pos at_pos) l

  pub leaf_inv :
      {ks path : List ℕ}
      → (count xs == 17) ≡ false
      → short_path xs ≡ ok (path, true)
      → HasLeaf lib db xs ks
      → ks ≡ path
  leaf_inv short p (here _ q e) = cc
  leaf_inv short p (below_extension _ q _ _ _ _) = cc
  leaf_inv short p (below_branch full _ _ _ _) = cc

  extension_inv :
      {ks path : List ℕ}
      → (count xs == 17) ≡ false
      → short_path xs ≡ ok (path, false)
      → HasLeaf lib db xs ks
      → (rest : List ℕ) × (child : Item) × (ys : Items) × (item_at xs 1 ≡ some child)
        × Resolves lib db child ys
        × (ks ≡ path ++ rest)
        × HasLeaf lib db ys rest
  extension_inv short p (here _ q e) = cc
  extension_inv short p (below_extension {ys = ys} {rest = rest} {child = child} _ q at r e l) =
      (rest, child, ys, at, r, (cc), l)
  extension_inv short p (below_branch full _ _ _ _) = cc

  module _ (path : List ℕ) (child : Item) (short : (count xs == 17) ≡ false)
      (parsed : short_path xs ≡ ok (path, false)) (at_1 : item_at xs 1 ≡ some child) where
    pub extension_down :
        HasLeaf lib db xs (drop pos nibs)
        → (ys : Items) × Resolves lib db child ys
          × HasLeaf lib db ys (drop (pos + length path) nibs)
    extension_down l =
        let (rest, child', ys, at, (b, more, r), e, l') = extension_inv short parsed l in
        let same_child : child' ≡ child = cc in
        let same_rest : rest ≡ drop (pos + length path) nibs =
          sym (drop-append_self path rest)
          ∙ ap (drop (length path)) (sym e)
          ∙ drop-drop pos (length path) nibs in
        (ys, (b, more, rw same_child at r), rw same_rest at l')

    pub extension_up :
        (ys : Items)
        → eq_list (take (length path) (drop pos nibs)) path ≡ true
        → Resolves lib db child ys
        → HasLeaf lib db ys (drop (pos + length path) nibs)
        → HasLeaf lib db xs (drop pos nibs)
    extension_up ys fits r l =
        below_extension short parsed at_1 r
          (rw (drop-drop pos (length path) nibs) at (eq_list-take path (drop pos nibs) fits)) l

  pub extension_fits :
      (path : List ℕ)
      → (count xs == 17) ≡ false
      → short_path xs ≡ ok (path, false)
      → HasLeaf lib db xs (drop pos nibs)
      → eq_list (take (length path) (drop pos nibs)) path ≡ true
  extension_fits path short parsed l =
      let (rest, _, _, _, _, e, _) = extension_inv short parsed l in
      rw (e, take-append_self path rest) (eq_list_refl path)
