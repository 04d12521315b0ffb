-- ===== src/Trie/Chain/Loop.antt =====
-- The inner loop of walk_positions ends: it goes down into the inline nodes of one hashed node.
use lemma_xperiment.Common.{
  ℕ, zero, suc, ◌+◌, ◌<◌, ◌≤◌, ◌≡◌, ◌≢◌, ◌∙◌, refl, subst, ap, true, false, List, [], ◌∷◌, none,
  some, ◌==◌, inl, inr, get_elem?, ok, err, index_error, arith, err-cast, out_of_fuel, or_raise,
  >>=-eq-ok, or_raise-eq-ok, Bool-cases, Outcome-cases, Option-cases,
}
use lemma_xperiment.Trie.Nibbles.{Bytes, nibbles}
use lemma_xperiment.Trie.Walk.{
  Item, str, node, Items, nil, cons, count, item_at, Library, short_path,
}
use lemma_xperiment.Trie.Walk.Bounds.{short_path-ne-out_of_fuel}
use lemma_xperiment.Trie.Chain.{
  size, sizes, Cursor, inline_of, position_step, positions_in, string_position, position_of,
  positions_from, walk_positions,
}

size-item_at-le : (xs : Items) (i : ℕ) (x : Item) → item_at xs i ≡ some x → size x ≤ sizes xs
unfolding size
size-item_at-le nil i x h = cc
size-item_at-le (cons y ys) zero x h =
    subst (λ v. size v ≤ size y + sizes ys) {x = y} (cc) (omega arith)
size-item_at-le (cons y ys) (suc i) x h = omega (arith, size-item_at-le ys i x h)

inline_of-eq : (x : Item) {ys : Items} → inline_of x ≡ some ys → x ≡ node ys
inline_of-eq (str b) h = cc
inline_of-eq (node zs) h = cc

-- A round that goes on takes an inline node of the current one.
position_step-smaller :
    (nibs : List ℕ) (cur : Items) (c : Cursor) {ys : Items} {c' : Cursor}
    → position_step nibs cur c ≡ ok (some ys, c')
    → size (node ys) ≤ sizes cur
unfolding position_step
position_step-smaller nibs cur (pos, item) h = elim (Bool-cases (count cur == 17)) [
  | inl full ↦ elim (Bool-cases (pos == 64)) [
    | inl top ↦ absurd (cc (rw (full, top) at h))
    | inr more ↦
        let (idx, _, h1) =
          >>=-eq-ok (or_raise (get_elem? nibs pos) index_error) _ (rw (full, more) at h) in
        let (child, at, h2) = >>=-eq-ok (or_raise (item_at cur idx) index_error) _ h1 in
        size-item_at-le cur idx _
          (or_raise-eq-ok _ _ at ∙ ap some (inline_of-eq child (ground arith)))
  ]
  | inr short ↦ elim (Outcome-cases (short_path cur)) [
    | inr (bad, p) ↦ absurd (cc (rw (short, p) at h))
    | inl ((path, true), p) ↦ absurd (cc (rw (short, p) at h))
    | inl ((path, false), p) ↦
        let (child, at, h2) =
          >>=-eq-ok (or_raise (item_at cur 1) index_error) _ (rw (short, p) at h) in
        size-item_at-le cur 1 _
          (or_raise-eq-ok _ _ at ∙ ap some (inline_of-eq child (ground arith)))
  ]
]

position_step-ne-out_of_fuel :
    (nibs : List ℕ) (cur : Items) (c : Cursor) → position_step nibs cur c ≢ err out_of_fuel
unfolding position_step
position_step-ne-out_of_fuel nibs cur (pos, item) h = ground (arith, short_path-ne-out_of_fuel cur)

size-node : (ys : Items) → size (node ys) ≡ suc (sizes ys)
unfolding size
size-node ys = refl

positions_in-ends :
    (fuel : ℕ) (nibs : List ℕ) (cur : Items) (c : Cursor)
    → sizes cur < fuel
    → positions_in fuel nibs cur c ≢ err out_of_fuel
unfolding positions_in
positions_in-ends zero nibs cur c enough = absurd (omega arith)
positions_in-ends (suc fuel) nibs cur c enough = elim (Outcome-cases (position_step nibs cur c)) [
  | inr (bad, s) ↦ rw s (λ h. position_step-ne-out_of_fuel nibs cur c (err-cast s h))
  | inl ((none, c'), s) ↦ rw s (λ h. cc)
  | inl ((some ys, c'), s) ↦ rw s (positions_in-ends fuel nibs ys c' (smaller ys c' s))
]
  where
    smaller :
        (ys : Items) (c' : Cursor) → position_step nibs cur c ≡ ok (some ys, c') → sizes ys < fuel
    smaller ys c' s = omega (arith, position_step-smaller nibs cur c s, size-node ys)

position_of-ne-out_of_fuel :
    (nibs : List ℕ) (pos : ℕ) (x : Item) → position_of nibs pos x ≢ err out_of_fuel
unfolding position_of string_position size
position_of-ne-out_of_fuel nibs pos (str b) h = ground arith
position_of-ne-out_of_fuel nibs pos (node xs) h =
    positions_in-ends (suc (sizes xs)) nibs xs (pos, none) (omega arith) h

positions_from-ne-out_of_fuel :
    (lib : Library) (nibs : List ℕ) (pos : ℕ) (proof : List Bytes)
    → positions_from lib nibs pos proof ≢ err out_of_fuel
unfolding positions_from
positions_from-ne-out_of_fuel lib nibs pos [] = λ h. cc
positions_from-ne-out_of_fuel lib nibs pos (bytes ∷ proof) =
    elim (Option-cases (lib.decode bytes)) [
      | inl bad ↦ rw bad (λ h. cc)
      | inr (x, decoded) ↦ elim (Outcome-cases (position_of nibs pos x)) [
        | inr (bad, s) ↦ rw (decoded, s) (λ h. position_of-ne-out_of_fuel nibs pos x (err-cast s h))
        | inl ((pos', item), s) ↦ elim (Outcome-cases (positions_from lib nibs pos' proof)) [
          | inr (bad, r) ↦
              rw (decoded, s, r)
                (λ h. positions_from-ne-out_of_fuel lib nibs pos' proof (err-cast r h))
          | inl (out, r) ↦ rw (decoded, s, r) (λ h. cc)
        ]
      ]
    ]

-- walk_positions ends on every proof and key, whatever the nodes hold.
pub walk_positions_ends :
    (lib : Library) (proof : List Bytes) (key : Bytes)
    → walk_positions lib proof key ≢ err out_of_fuel
unfolding walk_positions
walk_positions_ends lib proof key = positions_from-ne-out_of_fuel lib (nibbles key) 0 proof
