-- ===== src/Tests/Tries.antt =====
-- Tests of evaluation/fixtures/trie/gen.py: a trie with a branch and two leaves.
use lemma_xperiment.Common.{
  ℕ, ◌≡◌, ◌≢◌, refl, ◌+◌, ◌<◌, sym, ◌∙◌, subst, get_elem?, false, List, [], ◌∷◌, some, ok, err,
  out_of_fuel, replicate, arith,
}
use lemma_xperiment.Trie.Nibbles.{Bytes, nibbles, compact_parts, compact_decode}
use lemma_xperiment.Trie.Walk.{
  Item, str, node, Items, nil, cons, Trie, leaf, short_path, branch_step, short_end, extension_step,
  short_step, string_child, string_step, step, descend, walk, empty_root, path_proof,
}
use lemma_xperiment.Trie.Walk.Bounds.{IsProper, IsProperStore, path_proof_ends}
use lemma_xperiment.Trie.Walk.Witness.{of_nodes, path_proof_witness}
use lemma_xperiment.Trie.Walk.Meaning.{Claims, LeafAt}
use lemma_xperiment.Trie.Walk.Rounds.{path_proof-Claims}
use lemma_xperiment.Trie.Chain.{
  size, sizes, position_step, positions_in, string_position, position_of, assign, assign_item,
  positions_from, walk_positions, reference, relink, relink_all, rebuild_chain,
}
use lemma_xperiment.Trie.Chain.Linked.{IsChain, rebuild_chain-IsChain}
use lemma_xperiment.Trie.Chain.Loop.{walk_positions_ends}
use lemma_xperiment.Tests.Rlp.{small_library, small_laws, of_nodes-IsKeyed, of_nodes-IsProperStore}

abbrev leaf_at : ℕ → Item
leaf_at x = node (cons (str ((48 + x) ∷ [])) (cons (str (7 ∷ [])) nil))

abbrev branch_of : List Item → Items
branch_of [] = nil
branch_of (x ∷ xs) = cons x (branch_of xs)

abbrev leaf_ref : ℕ → Item
leaf_ref x = str (small_library.keccak (small_library.encode (leaf_at x)))

abbrev none_left : Item
none_left = str []

abbrev branch_node : Items
branch_node =
    cons none_left (cons (leaf_ref 2) (cons (leaf_ref 3) (branch_of (replicate 14 none_left))))

abbrev top_bytes : Bytes
top_bytes = small_library.encode (node branch_node)

abbrev leaf_bytes : Bytes
leaf_bytes = small_library.encode (leaf_at 2)

abbrev small_trie : Trie
small_trie = record {
  db = of_nodes small_library (top_bytes ∷ leaf_bytes ∷ small_library.encode (leaf_at 3) ∷ []);
  root = small_library.keccak top_bytes;
}

walked :
    path_proof small_library small_trie (18 ∷ []) ≡ ok (top_bytes ∷ leaf_bytes ∷ [], leaf false)
unfolding path_proof walk step branch_step short_end extension_step short_step string_child
    string_step short_path descend empty_root nibbles compact_decode compact_parts of_nodes
walked = refl

path_proof_witness_example :
    path_proof small_library
      (record small_trie { db = of_nodes small_library (top_bytes ∷ leaf_bytes ∷ []) })
      (18 ∷ [])
    ≡ ok (top_bytes ∷ leaf_bytes ∷ [], leaf false)
path_proof_witness_example =
    path_proof_witness small_library small_trie (18 ∷ []) (top_bytes ∷ leaf_bytes ∷ []) (leaf false)
      (of_nodes-IsKeyed small_library
        (top_bytes ∷ leaf_bytes ∷ small_library.encode (leaf_at 3) ∷ []))
      walked

path_proof-Claims_example :
    Claims (leaf false) (LeafAt small_library small_trie.db (node branch_node) (nibbles (18 ∷ [])))
unfolding of_nodes
path_proof-Claims_example =
    path_proof-Claims small_library small_trie (18 ∷ []) top_bytes (node branch_node)
      (top_bytes ∷ leaf_bytes ∷ []) (leaf false) refl refl walked

some_inj : {x y : Item} → some x ≡ some y → x ≡ y
some_inj h = cc

is_proper :
    (known : Item)
    → IsProper known
    → (item : Item) → small_library.decode (small_library.encode known) ≡ some item
    → IsProper item
is_proper known proper item now =
    subst IsProper (some_inj (sym (small_laws.decode-encode known) ∙ now)) proper

leaf_at-IsProper : (x : ℕ) → x < 16 → IsProper (leaf_at x)
unfolding short_path nibbles compact_decode compact_parts
leaf_at-IsProper x small = (λ path h. ground arith, (tt, (tt, tt)))

all_proper : IsProperStore small_library small_trie.db
unfolding short_path nibbles compact_decode compact_parts
all_proper = of_nodes-IsProperStore small_library _ (
  is_proper (node branch_node) (
    λ path h. cc,
    (
      tt,
      (
        tt,
        (
          tt,
          (tt, (tt, (tt, (tt, (tt, (tt, (tt, (tt, (tt, (tt, (tt, (tt, (tt, (tt, tt)))))))))))))),
        ),
      ),
    ),
  ),
  (
    is_proper (leaf_at 2) (leaf_at-IsProper 2 (omega arith)),
    (is_proper (leaf_at 3) (leaf_at-IsProper 3 (omega arith)), tt),
  ),
)

path_proof_ends_example : path_proof small_library small_trie (35 ∷ []) ≢ err out_of_fuel
path_proof_ends_example = path_proof_ends small_library small_trie (35 ∷ []) all_proper

abbrev new_leaf : ℕ → Item
new_leaf n = node (cons (str (50 ∷ [])) (cons (str (replicate n 9)) nil))

-- The branch with another reference to its first leaf, and the leaf.
abbrev rebuilt : Item → Item → List Bytes
rebuilt ref new =
    small_library.encode
      (node (cons none_left (cons ref (cons (leaf_ref 3) (branch_of (replicate 14 none_left))))))
    ∷ small_library.encode new
    ∷ []

-- A leaf with a short value is embedded.
rebuilds_embedded :
    (root : Bytes) × (rebuild_chain small_library
        (top_bytes ∷ leaf_bytes ∷ [])
        (18 ∷ [])
        (small_library.encode (new_leaf 1))
      ≡ ok (rebuilt (new_leaf 1) (new_leaf 1), root))
unfolding rebuild_chain relink_all relink reference assign assign_item walk_positions positions_from
    position_of position_step positions_in string_position size sizes short_path nibbles
    compact_decode compact_parts
rebuilds_embedded = (_, refl)

-- One with forty bytes is referenced by its hash.
abbrev rebuilt_hashed : List Bytes
rebuilt_hashed =
    rebuilt (str (small_library.keccak (small_library.encode (new_leaf 40)))) (new_leaf 40)

abbrev hashed_root : Bytes
hashed_root = elim rebuilt_hashed [ [] ↦ [] | b ∷ _ ↦ small_library.keccak b ]

rebuild_chain-IsChain_example :
    IsChain small_library
      (small_library.encode (new_leaf 40))
      (top_bytes ∷ leaf_bytes ∷ [])
      rebuilt_hashed
    × ((top : Bytes) × (get_elem? rebuilt_hashed 0 ≡ some top)
        × (hashed_root ≡ small_library.keccak top))
unfolding rebuild_chain relink_all relink reference assign assign_item walk_positions positions_from
    position_of position_step positions_in string_position size sizes short_path nibbles
    compact_decode compact_parts
rebuild_chain-IsChain_example =
    rebuild_chain-IsChain small_library (top_bytes ∷ leaf_bytes ∷ []) (18 ∷ [])
      (small_library.encode (new_leaf 40)) rebuilt_hashed hashed_root small_laws.decode-encode refl

walk_positions_ends_example :
    walk_positions small_library (top_bytes ∷ leaf_bytes ∷ []) (18 ∷ []) ≢ err out_of_fuel
walk_positions_ends_example =
    walk_positions_ends small_library (top_bytes ∷ leaf_bytes ∷ []) (18 ∷ [])
