-- ===== src/Trie/Walk.antt =====
-- evaluation/fixtures/trie/gen.py: Trie.path_proof, the EIP-1186 walk over the node database.
-- `keccak` (eth_hash), `encode` and `decode` (rlp) and the node database that py-trie fills are
-- parameters. Every other call of the walk is a definition of this development.
pub mod Bounds
pub mod Witness
pub mod Meaning
pub mod Rounds
use lemma_xperiment.Common.{
  ℕ, zero, suc, ◌+◌, Bool, true, false, List, [], ◌∷◌, ◌++◌, Option, none, some, ◌==◌,
  if◌then◌else◌, length, get_elem?, take, drop, eq_list, Outcome, ok, err, key_error, index_error,
  type_error, value_error, assertion_error, out_of_fuel, or_raise, require, ◌>>=◌, ◌>>◌,
}
use lemma_xperiment.Trie.Nibbles.{Bytes, nibbles, compact_decode}

-- What rlp.decode returns: a byte string or a list.
mutual
  pub data Item : Type 0 where
    str : Bytes → Item
    node : Items → Item

  pub data Items : Type 0 where
    nil : Items
    cons : Item → Items → Items

abbrev pub count : Items → ℕ
count nil = 0
count (cons x xs) = suc (count xs)

abbrev pub item_at : Items → ℕ → Option Item
item_at nil i = none
item_at (cons x xs) zero = some x
item_at (cons x xs) (suc i) = item_at xs i

-- The libraries that the generator calls. `decode` is `none` where rlp.decode raises.
pub record Library : Type 0 where
  pub keccak : Bytes → Bytes
  pub encode : Item → Bytes
  pub decode : Bytes → Option Item
  -- The byte string as which rlp.encode encodes a number.
  pub int_bytes : ℕ → Bytes

-- The node database, by hash.
abbrev pub Store : Type 0
Store = Bytes → Option Bytes

pub record Trie : Type 0 where
  pub db : Store
  pub root : Bytes

-- The tag naming where the walk ended; the flag is its "-inline" suffix.
pub data End : Type 0 where
  empty_trie branch_value : End
  branch_empty_slot leaf leaf_mismatch extension_mismatch : (inline : Bool) → End

pub data Next : Type 0 where
  stop : End → Next
  follow : (pos : ℕ) → Item → Next

pub record Place : Type 0 where
  pub pos : ℕ
  pub inline : Bool
  pub at : Item

-- A two-item node's first item, as the bytes that `nibbles` iterates over.
abbrev pub as_bytes : Item → Outcome Bytes
as_bytes (str b) = ok b
as_bytes (node nil) = ok []
as_bytes (node (cons _ _)) = err type_error

-- `compact_decode(node[0])`
unfoldable pub short_path : Items → Outcome (List ℕ × Bool)
short_path xs = do head ← or_raise (item_at xs 0) index_error; b ← as_bytes head; compact_decode b

abbrev pub is_empty : Item → Bool
is_empty (str []) = true
is_empty _ = false

module _ (nibs : List ℕ) (pos : ℕ) (inline : Bool) where
  unfoldable pub branch_step : Items → Outcome Next
  branch_step xs = if pos == 64 then ok (stop branch_value) else do
    i ← or_raise (get_elem? nibs pos) index_error
    child ← or_raise (item_at xs i) index_error
    ok (if is_empty child then stop (branch_empty_slot inline) else follow (pos + 1) child)

  unfoldable pub short_end : List ℕ → End
  short_end path = if eq_list (drop pos nibs) path then leaf inline else leaf_mismatch inline

  unfoldable pub extension_step : Items → List ℕ → Outcome Next
  extension_step xs path =
      if eq_list (take (length path) (drop pos nibs)) path
      then or_raise (item_at xs 1) index_error >>= (λ child. ok (follow (pos + length path) child))
      else ok (stop (extension_mismatch inline))

  unfoldable pub short_step : Items → Outcome Next
  short_step xs = do
    (path, is_leaf) ← short_path xs
    if is_leaf then ok (stop (short_end path)) else extension_step xs path

  -- `node[i]` of a byte string is a number, which has no length and cannot be iterated.
  unfoldable pub string_child : Bytes → ℕ → Outcome Next
  string_child b i = or_raise (get_elem? b i) index_error >>= λ x. err type_error

  -- A byte string where a list is expected.
  unfoldable pub string_step : Bytes → Outcome Next
  string_step b =
      if length b == 17
      then (if pos == 64
          then ok (stop branch_value)
          else or_raise (get_elem? nibs pos) index_error >>= string_child b)
      else string_child b 0

  -- One round of the loop, up to the choice of the child.
  unfoldable pub step : Item → Outcome Next
  step (str b) = string_step b
  step (node xs) = if count xs == 17 then branch_step xs else short_step xs

module _ (lib : Library) (db : Store) where
  -- The node that a child stands for, whether it is inline, and the nodes that the proof gains.
  unfoldable pub descend : Item → Outcome (Item × Bool × List Bytes)
  descend (node xs) = ok (node xs, true, [])
  descend (str ref) = do
    require (length ref == 32) assertion_error
    bytes ← or_raise (db ref) key_error
    item ← or_raise (lib.decode bytes) value_error
    ok (item, false, bytes ∷ [])

  unfoldable pub walk : ℕ → List ℕ → Place → List Bytes → Outcome (List Bytes × End)
  walk zero nibs p proof = err out_of_fuel
  walk (suc fuel) nibs p proof = step nibs p.pos p.inline p.at >>= λ next. elim next [
    | stop e ↦ ok (proof, e)
    | follow pos child ↦ descend child >>= λ (item, inline, more).
        walk fuel nibs (record { pos = pos; inline = inline; at = item }) (proof ++ more)
  ]

unfoldable pub empty_root : Library → Bytes
empty_root lib = lib.keccak (lib.encode (str []))

module _ (lib : Library) where
  -- The loop of the source has no bound; `Walk/Bounds.antt` shows that this one is never met.
  unfoldable pub path_proof : Trie → Bytes → Outcome (List Bytes × End)
  path_proof t key = if eq_list t.root (empty_root lib) then ok ([], empty_trie) else do
    let nibs = nibbles key
    bytes ← or_raise (t.db t.root) key_error
    item ← or_raise (lib.decode bytes) value_error
    walk lib t.db (suc (length nibs)) nibs (record { pos = 0; inline = false; at = item })
        (bytes ∷ [])
