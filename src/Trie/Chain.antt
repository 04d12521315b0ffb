-- ===== src/Trie/Chain.antt =====
-- evaluation/fixtures/trie/gen.py: walk_positions and rebuild_chain, with which the generator
-- forges proofs whose ancestors are consistent.
pub mod Linked
pub mod Loop
use lemma_xperiment.Common.{
  ℕ, zero, suc, ◌+◌, ◌≡◌, Bool, true, false, List, [], ◌∷◌, ◌++◌, Option, none, some, ◌==◌, leb,
  if◌then◌else◌, length, get_elem?, drop, Outcome, ok, err, index_error, type_error, value_error,
  assertion_error, out_of_fuel, or_raise, require, ◌>>=◌, ◌>>◌,
}
use lemma_xperiment.Trie.Nibbles.{Bytes, nibbles}
use lemma_xperiment.Trie.Walk.{
  Item, str, node, Items, nil, cons, count, item_at, Library, short_path,
}

-- How many lists an item holds, itself included: a bound on the inline nodes below a node.
unfoldable mutual
  pub size : Item → ℕ
  size (str b) = 1
  size (node xs) = suc (sizes xs)

  pub sizes : Items → ℕ
  sizes nil = 0
  sizes (cons x xs) = size x + sizes xs

-- `item = idx` unless it is set.
abbrev pub or_else : Option ℕ → ℕ → Option ℕ
or_else none i = some i
or_else (some j) i = some j

-- The position along the key, and the item of the hashed node.
abbrev pub Cursor : Type 0
Cursor = ℕ × Option ℕ

-- `isinstance(child, list)`
abbrev inline_of : Item → Option Items
inline_of (str b) = none
inline_of (node ys) = some ys

-- One round of the inner loop: where it goes on, if it does.
unfoldable pub position_step : List ℕ → Items → Cursor → Outcome (Option Items × Cursor)
position_step nibs cur (pos, item) =
    if count cur == 17
    then (if pos == 64
        then ok (none, (pos, item))
        else or_raise (get_elem? nibs pos) index_error >>= λ idx.
            or_raise (item_at cur idx) index_error >>= λ child.
            ok (inline_of child, (pos + 1, or_else item idx)))
    else short_path cur >>= λ (path, is_leaf).
        if is_leaf
        then ok (none, (pos, item))
        else or_raise (item_at cur 1) index_error >>= λ child.
            ok (inline_of child, (pos + length path, or_else item 1))

-- The inner loop, on fuel: `Chain/Loop.antt` shows that the size of the node is enough.
unfoldable pub positions_in : ℕ → List ℕ → Items → Cursor → Outcome Cursor
positions_in zero nibs cur c = err out_of_fuel
positions_in (suc fuel) nibs cur c = position_step nibs cur c >>= λ (next, c'). elim next [
  | none ↦ ok c'
  | some ys ↦ positions_in fuel nibs ys c'
]

-- The inner loop on a byte string: `cur[idx]` is a number, which is no list.
unfoldable pub string_position : List ℕ → ℕ → Bytes → Outcome Cursor
string_position nibs pos b =
    if length b == 17
    then (if pos == 64
        then ok (pos, none)
        else or_raise (get_elem? nibs pos) index_error >>= λ idx.
            or_raise (get_elem? b idx) index_error >>= λ _. ok (pos + 1, some idx))
    else or_raise (get_elem? b 0) index_error >>= λ _. err type_error

unfoldable pub position_of : List ℕ → ℕ → Item → Outcome Cursor
position_of nibs pos (str b) = string_position nibs pos b
position_of nibs pos (node xs) = positions_in (size (node xs)) nibs xs (pos, none)

-- `node[idx] = ref`
unfoldable pub assign : Items → ℕ → Item → Outcome Items
assign nil i ref = err index_error
assign (cons x xs) zero ref = ok (cons ref xs)
assign (cons x xs) (suc i) ref = assign xs i ref >>= λ ys. ok (cons x ys)

unfoldable pub assign_item : Item → ℕ → Item → Outcome Item
assign_item (str b) i ref = err type_error
assign_item (node xs) i ref = assign xs i ref >>= λ ys. ok (node ys)

module _ (lib : Library) where
  unfoldable pub positions_from : List ℕ → ℕ → List Bytes → Outcome (List (Option ℕ))
  positions_from nibs pos [] = ok []
  positions_from nibs pos (bytes ∷ proof) = do
    decoded ← or_raise (lib.decode bytes) value_error
    (pos', item) ← position_of nibs pos decoded
    out ← positions_from nibs pos' proof
    ok (elim proof [ [] ↦ none | _ ∷ _ ↦ item ] ∷ out)

  unfoldable pub walk_positions : List Bytes → Bytes → Outcome (List (Option ℕ))
  walk_positions proof key = positions_from (nibbles key) 0 proof

  -- `keccak(child)`, or the decoded child where it is embedded.
  unfoldable pub reference : Bytes → Outcome Item
  reference child =
      if leb 32 (length child)
      then ok (str (lib.keccak child))
      else or_raise (lib.decode child) value_error

  unfoldable pub relink : Bytes → Option ℕ → Bytes → Outcome Bytes
  relink bytes position child = do
    item ← or_raise (lib.decode bytes) value_error
    idx ← or_raise position assertion_error
    ref ← reference child
    item' ← assign_item item idx ref
    ok (lib.encode item')

  -- The loop from the last ancestor to the root; the child's bytes are the head of what is built.
  unfoldable pub relink_all : List Bytes → List (Option ℕ) → Bytes → Outcome (List Bytes × Bytes)
  relink_all [] positions new_last = err index_error
  relink_all (bytes ∷ []) positions new_last = ok (new_last ∷ [], new_last)
  relink_all (bytes ∷ next ∷ proof) positions new_last = do
    (built, child) ← relink_all (next ∷ proof) (drop 1 positions) new_last
    position ← or_raise (get_elem? positions 0) index_error
    top ← relink bytes position child
    ok (top ∷ built, top)

  unfoldable pub rebuild_chain : List Bytes → Bytes → Bytes → Outcome (List Bytes × Bytes)
  rebuild_chain proof key new_last = do
    positions ← walk_positions proof key
    (built, top) ← relink_all proof positions new_last
    ok (built, lib.keccak top)
