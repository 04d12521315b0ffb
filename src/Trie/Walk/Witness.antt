-- ===== src/Trie/Walk/Witness.antt =====
-- The nodes that Trie.path_proof lists are enough to walk the key again without the database.
use lemma_xperiment.Common.{
  ℕ, zero, suc, ◌≡◌, subst, ◌∙◌, sym, refl, ap, Bool, true, false, List, [], ◌∷◌, ◌++◌, none, some,
  if◌then◌else◌, length, eq_list, eq_list→eq, eq_list_refl, ok, arith, ◌⊎◌, inl, inr, Bool-cases,
  Option-cases, Outcome-cases, All, Elem, All-append, Elem-append_left, Elem-append_right,
}
use mathlib.Core.List.{append_assoc, append-nil}
use lemma_xperiment.Trie.Nibbles.{Bytes, nibbles}
use lemma_xperiment.Trie.Walk.{
  Item, str, node, Library, Store, Trie, End, stop, follow, Place, step, descend, walk, path_proof,
  empty_root,
}

-- Every entry of the database stands under the hash of its bytes.
abbrev pub IsKeyed : Library → Store → Type 0
IsKeyed lib db = (ref bytes : Bytes) → db ref ≡ some bytes → lib.keccak bytes ≡ ref

-- The database that holds a list of nodes alone, as a verifier builds it.
unfoldable pub of_nodes : Library → List Bytes → Store
of_nodes lib [] ref = none
of_nodes lib (bytes ∷ nodes) ref =
    if eq_list (lib.keccak bytes) ref then some bytes else of_nodes lib nodes ref

abbrev IsStored : Library → Store → Bytes → Type 0
IsStored lib db bytes = db (lib.keccak bytes) ≡ some bytes

module _ (lib : Library) (db : Store) where
  descend-parts :
      (child item : Item) (inline : Bool) (more : List Bytes)
      → descend lib db child ≡ ok (item, inline, more)
      → ((db' : Store) → descend lib db' child ≡ ok (item, inline, more)) × (more ≡ [])
        ⊎ ((ref : Bytes) × (bytes : Bytes) × (more ≡ bytes ∷ [])
            × (db ref ≡ some bytes)
            × ((db' : Store)
                → db' ref ≡ some bytes
                → descend lib db' child ≡ ok (item, inline, more)))
  unfolding descend
  descend-parts (node xs) item inline more h = inl (λ db'. h, ground arith)
  descend-parts (str ref) item inline more h = elim (Option-cases (db ref)) [
    | inl missing ↦ absurd (ground arith)
    | inr (bytes, found) ↦
        inr (ref, bytes, ground arith, found, λ db' e. rw (e, descend) (rw (found, descend) at h))
  ]

  of_nodes-found :
      (nodes : List Bytes) (ref bytes : Bytes)
      → IsKeyed lib db
      → All (IsStored lib db) nodes
      → Elem bytes nodes
      → db ref ≡ some bytes
      → of_nodes lib nodes ref ≡ some bytes
  unfolding of_nodes
  of_nodes-found [] ref bytes keyed stored m e = absurd m
  of_nodes-found (x ∷ xs) ref bytes keyed stored m e =
      elim (Bool-cases (eq_list (lib.keccak x) ref)) [
        | inl same ↦
            rw same (let to : lib.keccak x ≡ ref = eq_list→eq _ _ same in cc (stored.0, ap db to))
        | inr other ↦ rw other (elim m [
          | inl here ↦
              let self : eq_list (lib.keccak x) ref ≡ true =
                subst (λ r. eq_list r ref ≡ true)
                  (sym (ap lib.keccak (sym here) ∙ keyed ref bytes e)) (eq_list_refl ref) in
              absurd (ground arith)
          | inr later ↦ of_nodes-found xs ref bytes keyed stored.1 later e
        ])
      ]

  module _ (child item : Item) (inline : Bool) (more : List Bytes) (keyed : IsKeyed lib db)
      (done : descend lib db child ≡ ok (item, inline, more)) where
    descend-IsStored : All (IsStored lib db) more
    descend-IsStored = elim (descend-parts child item inline more done) [
      | inl (_, none_new) ↦ subst (All (IsStored lib db)) (sym none_new) tt
      | inr (ref, bytes, new, found, _) ↦
          subst (All (IsStored lib db)) (sym new) (rw (keyed ref bytes found) found, tt)
    ]

    descend-again :
        (final : List Bytes)
        → All (IsStored lib db) final
        → ((b : Bytes) → Elem b more → Elem b final)
        → descend lib (of_nodes lib final) child ≡ ok (item, inline, more)
    descend-again final stored listed = elim (descend-parts child item inline more done) [
      | inl (again, _) ↦ again (of_nodes lib final)
      | inr (ref, bytes, new, found, again) ↦ again (of_nodes lib final) (
          of_nodes-found final ref bytes keyed stored
            (listed bytes (subst (Elem bytes) (sym new) (inl refl))) found)
    ]

  -- What holds of a walk that returned `final`, the nodes that it started with included.
  record Replays (fuel : ℕ) (nibs : List ℕ) (p : Place) (proof final : List Bytes) (e : End)
      : Type 0 where
    stored : All (IsStored lib db) final
    rest : List Bytes
    longer : final ≡ proof ++ rest
    again : walk lib (of_nodes lib final) fuel nibs p proof ≡ ok (final, e)

  walk-Replays :
      (fuel : ℕ) (nibs : List ℕ) (p : Place) (proof final : List Bytes) (e : End)
      → IsKeyed lib db
      → All (IsStored lib db) proof
      → walk lib db fuel nibs p proof ≡ ok (final, e)
      → Replays fuel nibs p proof final e
  unfolding walk
  walk-Replays zero nibs p proof final e keyed stored h = cc
  walk-Replays (suc fuel) nibs p proof final e keyed stored h =
      elim (Outcome-cases (step nibs p.pos p.inline p.at)) [
        | inl (stop e', s) ↦
            let same : proof ≡ final = cc (rw s at h) in
            record {
              stored = subst (All (IsStored lib db)) same stored;
              rest = [];
              longer = sym same ∙ sym (append-nil proof);
              again = rw s (rw s at h);
            }
        | inl (follow pos child, s) ↦ elim (Outcome-cases (descend lib db child)) [
          | inl ((item, inline, more), d) ↦
              let new = descend-IsStored child item inline more keyed d in
              let r =
                walk-Replays fuel nibs (record { pos = pos; inline = inline; at = item })
                  (proof ++ more) final e keyed (All-append _ proof more stored new)
                  (rw (s, d) at h) in
              let listed = λ (b : Bytes) (m : Elem b more).
                subst (Elem b) (sym r.longer)
                  (Elem-append_left b (proof ++ more) r.rest (Elem-append_right b proof more m)) in
              record {
                stored = r.stored;
                rest = more ++ r.rest;
                longer = r.longer ∙ append_assoc proof more r.rest;
                again =
                    rw (s, descend-again child item inline more keyed d final r.stored listed)
                      r.again;
              }
          | inr (bad, d) ↦ absurd (cc (rw (s, d) at h))
        ]
        | inr (bad, s) ↦ absurd (cc (rw s at h))
      ]

-- A walk over a database whose entries stand under their hashes lists every hashed node that it
-- reads: walking the same key in the database of the listed nodes alone gives the same proof and
-- the same end.
pub path_proof_witness :
    (lib : Library) (t : Trie) (key : Bytes) (proof : List Bytes) (e : End)
    → IsKeyed lib t.db
    → path_proof lib t key ≡ ok (proof, e)
    → path_proof lib (record t { db = of_nodes lib proof }) key ≡ ok (proof, e)
unfolding path_proof
path_proof_witness lib t key proof e keyed h = elim (Bool-cases (eq_list t.root (empty_root lib))) [
  | inl empty ↦ rw empty (rw empty at h)
  | inr some_node ↦ elim (Option-cases (t.db t.root)) [
    | inl missing ↦ absurd (cc (rw (some_node, missing) at h))
    | inr (bytes, found) ↦ elim (Option-cases (lib.decode bytes)) [
      | inl bad ↦ absurd (cc (rw (some_node, found, bad) at h))
      | inr (item, decoded) ↦
          let r =
            walk-Replays lib t.db (suc (length (nibbles key))) (nibbles key)
              (record { pos = 0; inline = false; at = item }) (bytes ∷ []) proof e keyed
              (rw (keyed t.root bytes found) found, tt) (rw (some_node, found, decoded) at h) in
          let top =
            of_nodes-found lib t.db proof t.root bytes keyed r.stored
              (subst (Elem bytes) (sym r.longer) (inl refl)) found in
          rw (some_node, top, decoded) r.again
    ]
  ]
]
