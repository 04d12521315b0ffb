-- ===== src/Trie/Walk/Rounds.antt =====
-- One round of Trie.path_proof's loop, and then the whole walk, against the description of
-- `Meaning`.
use lemma_xperiment.Common.{
  ℕ, ◌+◌, ◌≡◌, ◌↔◌, Bool, true, false, List, ◌∷◌, ◌++◌, some, ◌==◌, length, get_elem?, take, drop,
  eq_list, eq_list_refl, ok, arith, index_error, or_raise, >>=-eq-ok, or_raise-eq-ok, Bool-cases,
  Outcome-cases, [], inl, inr, subst, eq_list→eq, zero, suc,
}
use lemma_xperiment.Trie.Nibbles.{Bytes, nibbles}
use lemma_xperiment.Trie.Walk.{
  is_empty, branch_step, short_step, extension_step, short_end, string_step, string_child, step,
  walk, path_proof, empty_root, stop, follow, Place, Item, str, node, Items, count, item_at,
  Library, Store, End, empty_trie, branch_value, branch_empty_slot, extension_mismatch, short_path,
  descend, Trie,
}
use lemma_xperiment.Trie.Walk.Meaning.{
  Resolves, HasLeaf, here, LeafAt, Claims, Claims-iff, leaf_inv, extension_fits, branch_down,
  branch_up, extension_down, extension_up,
}

module _ (lib : Library) (db : Store) (nibs : List ℕ) (pos : ℕ) (inline : Bool) (xs : Items) where
  empty-Resolves : (child : Item) {ys : Items} → is_empty child ≡ true → ¬ Resolves lib db child ys
  unfolding descend
  empty-Resolves (str []) h (b, more, r) = cc
  empty-Resolves (str (x ∷ l)) h r = cc
  empty-Resolves (node zs) h r = cc

  branch_stop :
      (e : End)
      → (count xs == 17) ≡ true
      → branch_step nibs pos inline xs ≡ ok (stop e)
      → Claims e (HasLeaf lib db xs (drop pos nibs))
  unfolding branch_step
  branch_stop e full h = elim (Bool-cases (pos == 64)) [
    | inl top ↦
        subst (λ t. Claims t (HasLeaf lib db xs (drop pos nibs))) {x = branch_value}
          (cc (rw top at h)) tt
    | inr more ↦
        let (i, at_pos, h1) =
          >>=-eq-ok (or_raise (get_elem? nibs pos) index_error) _ (rw more at h) in
        let (child, at_i, h2) = >>=-eq-ok (or_raise (item_at xs i) index_error) _ h1 in
        let none_left : ¬ HasLeaf lib db xs (drop pos nibs) = λ l.
          let (ys, r, _) =
            branch_down lib db nibs pos inline xs i child full (or_raise-eq-ok _ _ at_pos)
              (or_raise-eq-ok _ _ at_i) l in
          empty-Resolves child (ground arith) r in
        subst (λ t. Claims t (HasLeaf lib db xs (drop pos nibs))) {x = branch_empty_slot inline}
          (ground arith) none_left
  ]

  short_end_claims :
      (path : List ℕ)
      → (count xs == 17) ≡ false
      → short_path xs ≡ ok (path, true)
      → Claims (short_end nibs pos inline path) (HasLeaf lib db xs (drop pos nibs))
  unfolding short_end
  short_end_claims path short parsed = elim (Bool-cases (eq_list (drop pos nibs) path)) [
    | inl same ↦ rw same (here short parsed (eq_list→eq _ _ same))
    | inr other ↦ rw other λ l.
        let same : eq_list (drop pos nibs) path ≡ true =
          rw (leaf_inv lib db nibs pos inline xs short parsed l) (eq_list_refl path) in
        cc
  ]

  extension_stop :
      (path : List ℕ) (e : End)
      → (count xs == 17) ≡ false
      → short_path xs ≡ ok (path, false)
      → extension_step nibs pos inline xs path ≡ ok (stop e)
      → Claims e (HasLeaf lib db xs (drop pos nibs))
  unfolding extension_step
  extension_stop path e short parsed h =
      elim (Bool-cases (eq_list (take (length path) (drop pos nibs)) path)) [
        | inl same ↦
            let (child, _, h1) = >>=-eq-ok (or_raise (item_at xs 1) index_error) _ (rw same at h) in
            absurd (ground arith)
        | inr other ↦
            subst (λ t. Claims t (HasLeaf lib db xs (drop pos nibs)))
              {x = extension_mismatch inline} (cc (rw other at h))
              (λ l. cc (other, extension_fits lib db nibs pos inline xs path short parsed l))
      ]

  -- What a round that stops says.
  node_stop :
      (e : End)
      → step nibs pos inline (node xs) ≡ ok (stop e)
      → Claims e (HasLeaf lib db xs (drop pos nibs))
  unfolding step short_step
  node_stop e h = elim (Bool-cases (count xs == 17)) [
    | inl full ↦ branch_stop e full (rw full at h)
    | inr short ↦ elim (Outcome-cases (short_path xs)) [
      | inr (bad, parsed) ↦ absurd (cc (rw (short, parsed) at h))
      | inl ((path, true), parsed) ↦
          subst (λ t. Claims t (HasLeaf lib db xs (drop pos nibs))) (cc (rw (short, parsed) at h))
            (short_end_claims path short parsed)
      | inl ((path, false), parsed) ↦ extension_stop path e short parsed (rw (short, parsed) at h)
    ]
  ]

  -- What a round that goes on says: the leaf of the key stands below the child, for what is left
  -- of the key.
  abbrev Descends : ℕ → Item → Type 0
  Descends pos' child =
      (HasLeaf lib db xs (drop pos nibs)
        → (ys : Items) × Resolves lib db child ys × HasLeaf lib db ys (drop pos' nibs))
      × ((ys : Items)
          → Resolves lib db child ys
          → HasLeaf lib db ys (drop pos' nibs)
          → HasLeaf lib db xs (drop pos nibs))

  branch_follow :
      (pos' : ℕ) (child : Item)
      → (count xs == 17) ≡ true
      → branch_step nibs pos inline xs ≡ ok (follow pos' child)
      → Descends pos' child
  unfolding branch_step
  branch_follow pos' child full h = elim (Bool-cases (pos == 64)) [
    | inl top ↦ absurd (cc (rw top at h))
    | inr more ↦
        let (i, at_pos, h1) =
          >>=-eq-ok (or_raise (get_elem? nibs pos) index_error) _ (rw more at h) in
        let (child', at_i, h2) = >>=-eq-ok (or_raise (item_at xs i) index_error) _ h1 in
        let same : child' ≡ child = ground arith in
        let moved : pos + 1 ≡ pos' = ground arith in
        let p = or_raise-eq-ok _ _ at_pos in
        let q = or_raise-eq-ok _ _ at_i in
        subst (λ c. Descends pos' c) same
          (subst (λ n. Descends n child') moved
            (
              branch_down lib db nibs pos inline xs i child' full p q,
              branch_up lib db nibs pos inline xs i child' full p q,
            ))
  ]

  extension_follow :
      (path : List ℕ) (pos' : ℕ) (child : Item)
      → (count xs == 17) ≡ false
      → short_path xs ≡ ok (path, false)
      → extension_step nibs pos inline xs path ≡ ok (follow pos' child)
      → Descends pos' child
  unfolding extension_step
  extension_follow path pos' child short parsed h =
      elim (Bool-cases (eq_list (take (length path) (drop pos nibs)) path)) [
        | inl fits ↦
            let (child', at_1, h1) =
              >>=-eq-ok (or_raise (item_at xs 1) index_error) _ (rw fits at h) in
            let same : child' ≡ child = ground arith in
            let moved : pos + length path ≡ pos' = ground arith in
            let q = or_raise-eq-ok _ _ at_1 in
            subst (λ c. Descends pos' c) same
              (subst (λ n. Descends n child') moved
                (
                  extension_down lib db nibs pos inline xs path child' short parsed q,
                  λ ys. extension_up lib db nibs pos inline xs path child' short parsed q ys fits,
                ))
        | inr other ↦ absurd (cc (rw other at h))
      ]

  node_follow :
      (pos' : ℕ) (child : Item)
      → step nibs pos inline (node xs) ≡ ok (follow pos' child)
      → Descends pos' child
  unfolding step short_step
  node_follow pos' child h = elim (Bool-cases (count xs == 17)) [
    | inl full ↦ branch_follow pos' child full (rw full at h)
    | inr short ↦ elim (Outcome-cases (short_path xs)) [
      | inr (bad, parsed) ↦ absurd (cc (rw (short, parsed) at h))
      | inl ((path, true), parsed) ↦ absurd (cc (rw (short, parsed) at h))
      | inl ((path, false), parsed) ↦
          extension_follow path pos' child short parsed (rw (short, parsed) at h)
    ]
  ]

  descend-node :
      (child item : Item) {b : Bool} {more : List Bytes} (ks : List ℕ)
      → descend lib db child ≡ ok (item, b, more)
      → ((ys : Items) × Resolves lib db child ys × HasLeaf lib db ys ks) ↔ LeafAt lib db item ks
  descend-node child (str _) ks d = (λ (ys, (b, more, r), l). cc, λ l. absurd l)
  descend-node child (node zs) ks d = (
    λ (ys, (b, more, r), l). subst (λ (v : Items). HasLeaf lib db v ks) (node_inj (cc)) l,
    λ l. (zs, (_, _, d), l),
  )
    where
      node_inj : {v w : Items} → node v ≡ node w → v ≡ w
      node_inj h = cc

module _ (lib : Library) (db : Store) (nibs : List ℕ) (pos : ℕ) (inline : Bool) where
  item_stop :
      (it : Item) (e : End)
      → step nibs pos inline it ≡ ok (stop e)
      → Claims e (LeafAt lib db it (drop pos nibs))
  unfolding step string_step string_child
  item_stop (str b) e h = subst (λ t. Claims t ⊥) {x = branch_value} (ground arith) tt
  item_stop (node xs) e h = node_stop lib db nibs pos inline xs e h

  item_follow :
      (it : Item) (pos' : ℕ) (child item : Item) {b : Bool} {more : List Bytes}
      → step nibs pos inline it ≡ ok (follow pos' child)
      → descend lib db child ≡ ok (item, b, more)
      → LeafAt lib db it (drop pos nibs) ↔ LeafAt lib db item (drop pos' nibs)
  unfolding step string_step string_child
  item_follow (str _) pos' child item h d = absurd (ground arith)
  item_follow (node xs) pos' child item h d =
      let (down, up) = node_follow lib db nibs pos inline xs pos' child h in
      let (to, from) = descend-node lib db nibs pos inline xs child item (drop pos' nibs) d in
      (λ l. to (down l), λ l. let (ys, r, l') = from l in up ys r l')

module _ (lib : Library) (db : Store) (nibs : List ℕ) where
  walk-Claims :
      (fuel : ℕ) (p : Place) (proof final : List Bytes) (e : End)
      → walk lib db fuel nibs p proof ≡ ok (final, e)
      → Claims e (LeafAt lib db p.at (drop p.pos nibs))
  unfolding walk
  walk-Claims zero p proof final e h = cc
  walk-Claims (suc fuel) p proof final e h = elim (Outcome-cases (step nibs p.pos p.inline p.at)) [
    | inr (bad, s) ↦ absurd (cc (rw s at h))
    | inl (stop e', s) ↦
        subst (λ t. Claims t (LeafAt lib db p.at (drop p.pos nibs))) (cc (rw s at h))
          (item_stop lib db nibs p.pos p.inline p.at e' s)
    | inl (follow pos child, s) ↦ elim (Outcome-cases (descend lib db child)) [
      | inr (bad, d) ↦ absurd (cc (rw (s, d) at h))
      | inl ((item, inline, more), d) ↦
          Claims-iff e (item_follow lib db nibs p.pos p.inline p.at pos child item s d) (
            walk-Claims fuel (record { pos = pos; inline = inline; at = item }) (proof ++ more)
              final e (rw (s, d) at h))
    ]
  ]

-- Where the root node is found and decodes: the tag of a finished walk tells the truth about the trie below the root node: "leaf" says that
-- the trie has a leaf for the key, and an empty slot, a leaf mismatch and an extension mismatch
-- say that it has none.
pub path_proof-Claims :
    (lib : Library) (t : Trie) (key bytes : Bytes) (item : Item) (proof : List Bytes) (e : End)
    → t.db t.root ≡ some bytes
    → lib.decode bytes ≡ some item
    → path_proof lib t key ≡ ok (proof, e)
    → Claims e (LeafAt lib t.db item (nibbles key))
unfolding path_proof
path_proof-Claims lib t key bytes item proof e found decoded h =
    elim (Bool-cases (eq_list t.root (empty_root lib))) [
      | inl empty ↦
          subst (λ x. Claims x (LeafAt lib t.db item (nibbles key))) {x = empty_trie}
            (cc (rw empty at h)) tt
      | inr some_node ↦
          walk-Claims lib t.db (nibbles key) _ _ (bytes ∷ []) proof e
            (rw (some_node, found, decoded) at h)
    ]
