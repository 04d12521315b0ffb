-- ===== src/Trie/Walk/Bounds.antt =====
-- The loop of Trie.path_proof ends: each round moves along the key.
use lemma_xperiment.Common.{
  ℕ, zero, suc, ◌-◌, ◌≤◌, ◌<◌, ◌≡◌, subst, ◌≢◌, Bool, false, List, [], ◌∷◌, ◌++◌, some, ◌==◌,
  length, take, drop, eq_list, eq_list→eq, ok, err, out_of_fuel, arith, inl, inr, Bool-cases,
  Option-cases, Outcome-cases, >>=-eq-ok, get_elem?-lt, length-take, length-drop, err-cast,
}
use lemma_xperiment.Trie.Nibbles.{Bytes, nibbles}
use lemma_xperiment.Trie.Nibbles.RoundTrip.{compact_decode-ne-out_of_fuel}
use lemma_xperiment.Trie.Walk.{
  Item, str, node, Items, nil, cons, count, item_at, Library, Store, Trie, stop, follow, Place,
  short_path, branch_step, extension_step, short_step, string_step, string_child, step, descend,
  walk, path_proof, empty_root, as_bytes,
}

-- No two-item node below the item is an extension with an empty path.
abbrev mutual
  pub IsProper : Item → Type 0
  IsProper (str b) = Unit
  IsProper (node xs) =
      ((path : List ℕ) → short_path xs ≡ ok (path, false) → 0 < length path) × AreProper xs

  pub AreProper : Items → Type 0
  AreProper nil = Unit
  AreProper (cons x xs) = IsProper x × AreProper xs

-- So it is for every node of the database.
abbrev pub IsProperStore : Library → Store → Type 0
IsProperStore lib db =
    (ref bytes : Bytes) (item : Item)
    → db ref ≡ some bytes
    → lib.decode bytes ≡ some item
    → IsProper item

item_at-IsProper :
    (xs : Items) (i : ℕ) {x : Item} → AreProper xs → item_at xs i ≡ some x → IsProper x
item_at-IsProper nil i h e = cc
item_at-IsProper (cons y ys) zero h e = subst IsProper (cc) h.0
item_at-IsProper (cons y ys) (suc i) h e = item_at-IsProper ys i h.1 e

record Moved (nibs : List ℕ) (pos pos' : ℕ) (child : Item) : Type 0 where
  later : pos < pos'
  within : pos' ≤ length nibs
  proper : IsProper child

module _ (nibs : List ℕ) (pos : ℕ) (inline : Bool) (xs : Items) (proper : AreProper xs) {pos' : ℕ}
    {child : Item} where
  branch_step-Moved :
      branch_step nibs pos inline xs ≡ ok (follow pos' child) → Moved nibs pos pos' child
  unfolding branch_step
  branch_step-Moved h = grind (arith, get_elem?-lt nibs pos, item_at-IsProper xs)

  extension_step-Moved :
      (path : List ℕ)
      → 0 < length path
      → extension_step nibs pos inline xs path ≡ ok (follow pos' child)
      → Moved nibs pos pos' child
  unfolding extension_step
  extension_step-Moved path some_path h = grind (
    arith,
    eq_list→eq (take (length path) (drop pos nibs)) path,
    length-take (length path) (drop pos nibs),
    length-drop pos nibs,
    item_at-IsProper xs 1,
  )

short_step-Moved :
    (nibs : List ℕ) (pos : ℕ) (inline : Bool) (xs : Items) {pos' : ℕ} {child : Item}
    → IsProper (node xs)
    → short_step nibs pos inline xs ≡ ok (follow pos' child)
    → Moved nibs pos pos' child
unfolding short_step
short_step-Moved nibs pos inline xs proper h =
    let (parsed, e, h') = >>=-eq-ok (short_path xs) _ h in
    elim (Bool-cases parsed.1) [
      | inl is_leaf ↦ absurd (cc (rw is_leaf at h'))
      | inr longer ↦
          extension_step-Moved nibs pos inline xs proper.1 parsed.0 (proper.0 parsed.0 (cc))
            (rw longer at h')
    ]

-- A round that goes on to a child has moved along the key, and not past its end.
step-Moved :
    (nibs : List ℕ) (pos : ℕ) (inline : Bool) (it : Item) {pos' : ℕ} {child : Item}
    → IsProper it
    → step nibs pos inline it ≡ ok (follow pos' child)
    → Moved nibs pos pos' child
unfolding step string_step string_child
step-Moved nibs pos inline (str b) proper h = ground arith
step-Moved nibs pos inline (node xs) proper h = elim (Bool-cases (count xs == 17)) [
  | inl full ↦ branch_step-Moved nibs pos inline xs proper.1 (rw full at h)
  | inr short ↦ short_step-Moved nibs pos inline xs proper (rw short at h)
]

descend-IsProper :
    (lib : Library) (db : Store) (child : Item) {item : Item} {b : Bool} {more : List Bytes}
    → IsProperStore lib db
    → IsProper child
    → descend lib db child ≡ ok (item, b, more)
    → IsProper item
unfolding descend
descend-IsProper lib db (node xs) all proper h = subst IsProper {x = node xs} (cc) proper
descend-IsProper lib db (str ref) all proper h = grind (arith, all)

descend-ne-out_of_fuel :
    (lib : Library) (db : Store) (child : Item) → descend lib db child ≢ err out_of_fuel
unfolding descend
descend-ne-out_of_fuel lib db (node xs) h = cc
descend-ne-out_of_fuel lib db (str ref) h = ground arith

pub short_path-ne-out_of_fuel : (xs : Items) → short_path xs ≢ err out_of_fuel
unfolding short_path as_bytes
short_path-ne-out_of_fuel nil = λ h. cc
short_path-ne-out_of_fuel (cons (str b) xs) = compact_decode-ne-out_of_fuel b
short_path-ne-out_of_fuel (cons (node nil) xs) = compact_decode-ne-out_of_fuel []
short_path-ne-out_of_fuel (cons (node (cons y ys)) xs) = λ h. cc

step-ne-out_of_fuel :
    (nibs : List ℕ) (pos : ℕ) (inline : Bool) (it : Item)
    → step nibs pos inline it ≢ err out_of_fuel
unfolding step short_step string_step string_child branch_step extension_step
step-ne-out_of_fuel nibs pos inline (str b) h = ground arith
step-ne-out_of_fuel nibs pos inline (node xs) h = ground (arith, short_path-ne-out_of_fuel xs)

module _ (lib : Library) (db : Store) (all : IsProperStore lib db) (nibs : List ℕ) where
  walk-ends :
      (fuel : ℕ) (p : Place) (proof : List Bytes)
      → IsProper p.at
      → p.pos ≤ length nibs
      → length nibs - p.pos < fuel
      → walk lib db fuel nibs p proof ≢ err out_of_fuel
  unfolding walk
  walk-ends zero p proof proper within enough = absurd (omega arith)
  walk-ends (suc fuel) p proof proper within enough =
      elim (Outcome-cases (step nibs p.pos p.inline p.at)) [
        | inl (stop e, s) ↦ rw s (λ h. cc)
        | inl (follow pos child, s) ↦
            let moved = step-Moved nibs p.pos p.inline p.at proper s in
            elim (Outcome-cases (descend lib db child)) [
              | inl ((item, inline, more), d) ↦
                  rw (s, d)
                    (walk-ends fuel (record { pos = pos; inline = inline; at = item })
                      (proof ++ more) (descend-IsProper lib db child all moved.proper d)
                      moved.within (omega (arith, moved.later, moved.within)))
              | inr (e, d) ↦ rw (s, d) (λ h. descend-ne-out_of_fuel lib db child (err-cast d h))
            ]
        | inr (e, s) ↦ rw s (λ h. step-ne-out_of_fuel nibs p.pos p.inline p.at (err-cast s h))
      ]

-- Where no extension of the database has an empty path, the walk along any key ends within one
-- round for each nibble of the key and one more, whatever nodes are missing or malformed.
pub path_proof_ends :
    (lib : Library) (t : Trie) (key : Bytes)
    → IsProperStore lib t.db
    → path_proof lib t key ≢ err out_of_fuel
unfolding path_proof
path_proof_ends lib t key all = elim (Bool-cases (eq_list t.root (empty_root lib))) [
  | inl empty ↦ rw empty (λ h. cc)
  | inr some_node ↦ elim (Option-cases (t.db t.root)) [
    | inl missing ↦ rw (some_node, missing) (λ h. cc)
    | inr (bytes, found) ↦ elim (Option-cases (lib.decode bytes)) [
      | inl bad ↦ rw (some_node, found, bad) (λ h. cc)
      | inr (item, decoded) ↦
          rw (some_node, found, decoded)
            (walk-ends lib t.db all (nibbles key) (suc (length (nibbles key)))
              (record { pos = 0; inline = false; at = item }) (bytes ∷ [])
              (all t.root bytes item found decoded) (omega arith) (omega arith))
    ]
  ]
]
