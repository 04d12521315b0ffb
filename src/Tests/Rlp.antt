-- ===== src/Tests/Rlp.antt =====
-- Test data: small libraries for evaluation/fixtures/trie/gen.py, with the laws that the theorems
-- rely on. The encoding is a program for a stack machine.
use mathlib.Core.List.{append_assoc, append-nil}
use lemma_xperiment.Common.{
  ℕ, zero, suc, ◌+◌, ◌*◌, ◌≡◌, ◌≢◌, refl, ◌∙◌, ap, sym, arith, List, [], ◌∷◌, ◌++◌, Option, none,
  some, if◌then◌else◌, eq_list, eq_list→eq, replicate, All, Bool-cases, inl, inr,
}
use lemma_xperiment.Trie.Nibbles.{Bytes}
use lemma_xperiment.Trie.Walk.{Item, str, node, Items, nil, cons, Library}
use lemma_xperiment.Trie.Accounts.{RlpLaws, HexaryTrie, HexaryLaws, from_bytes}
use lemma_xperiment.Trie.Walk.Bounds.{IsProper, IsProperStore}
use lemma_xperiment.Trie.Walk.Witness.{of_nodes, IsKeyed}

abbrev chars : Bytes → Bytes → Bytes
chars [] rest = rest
chars (x ∷ b) rest = suc (suc (suc x)) ∷ chars b rest

abbrev mutual
  encoded : Item → Bytes → Bytes
  encoded (str b) rest = 0 ∷ chars b rest
  encoded (node xs) rest = all_encoded xs rest

  all_encoded : Items → Bytes → Bytes
  all_encoded nil rest = 1 ∷ rest
  all_encoded (cons x xs) rest = all_encoded xs (encoded x (2 ∷ rest))

abbrev run : Bytes → List Item → Option Item
run [] (x ∷ []) = some x
run [] _ = none
run (zero ∷ b) stack = run b (str [] ∷ stack)
run (suc zero ∷ b) stack = run b (node nil ∷ stack)
run (suc (suc zero) ∷ b) (x ∷ node xs ∷ stack) = run b (node (cons x xs) ∷ stack)
run (suc (suc zero) ∷ b) _ = none
run (suc (suc (suc x)) ∷ b) (str a ∷ stack) = run b (str (a ++ x ∷ []) ∷ stack)
run (suc (suc (suc x)) ∷ b) _ = none

run-chars :
    (b a rest : Bytes) (stack : List Item)
    → run (chars b rest) (str a ∷ stack) ≡ run rest (str (a ++ b) ∷ stack)
run-chars [] a rest stack = ap (λ t. run rest (str t ∷ stack)) (sym (append-nil a))
run-chars (x ∷ b) a rest stack =
    run-chars b (a ++ x ∷ []) rest stack
    ∙ ap (λ t. run rest (str t ∷ stack)) (append_assoc a (x ∷ []) b)

mutual
  run-encoded :
      (x : Item) (rest : Bytes) (stack : List Item)
      → run (encoded x rest) stack ≡ run rest (x ∷ stack)
  run-encoded (str b) rest stack = run-chars b [] rest stack
  run-encoded (node xs) rest stack = run-all_encoded xs rest stack

  run-all_encoded :
      (xs : Items) (rest : Bytes) (stack : List Item)
      → run (all_encoded xs rest) stack ≡ run rest (node xs ∷ stack)
  run-all_encoded nil rest stack = refl
  run-all_encoded (cons x xs) rest stack =
      run-all_encoded xs (encoded x (2 ∷ rest)) stack ∙ run-encoded x (2 ∷ rest) (node xs ∷ stack)

mutual
  encoded_ne : (x : Item) (rest : Bytes) → encoded x rest ≢ []
  encoded_ne (str b) rest h = cc
  encoded_ne (node xs) rest h = all_encoded_ne xs rest h

  all_encoded_ne : (xs : Items) (rest : Bytes) → all_encoded xs rest ≢ []
  all_encoded_ne nil rest h = cc
  all_encoded_ne (cons x xs) rest h = all_encoded_ne xs (encoded x (2 ∷ rest)) h

abbrev mixed : Bytes → ℕ → ℕ
mixed [] n = n
mixed (x ∷ b) n = mixed b (n * 7 + x + 1)

abbrev pub small_library : Library
small_library = record {
  keccak = λ b. mixed b 0 ∷ replicate 31 0;
  encode = λ x. encoded x [];
  decode = λ b. run b [];
  int_bytes = λ n. n ∷ [];
}

pub small_laws : RlpLaws small_library
unfolding from_bytes
small_laws = record {
  decode-encode = λ x. run-encoded x [] [];
  encode_ne = λ x. encoded_ne x [];
  from_bytes-int = λ n. omega arith;
}

abbrev small_get : List (Bytes × Bytes) → Bytes → Bytes
small_get [] j = []
small_get ((k, v) ∷ t) j = if eq_list k j then v else small_get t j

abbrev small_hash : List (Bytes × Bytes) → ℕ → ℕ
small_hash [] n = n
small_hash ((k, v) ∷ t) n = small_hash t (mixed v (mixed k n))

-- A trie that keeps its writes in a list.
abbrev pub small_tries : HexaryTrie
small_tries = record {
  T = List (Bytes × Bytes);
  empty = [];
  set = λ t k v. (k, v) ∷ t;
  delete = λ t k. (k, []) ∷ t;
  get = small_get;
  view = λ t. record { db = λ ref. none; root = small_hash t 0 ∷ replicate 31 0 };
}

pub small_tries_laws : HexaryLaws small_tries
small_tries_laws = record {
  get-empty = λ k. refl;
  get-set = λ t k v j ne. refl;
  get-delete = λ t k j. refl;
}

pub of_nodes-IsKeyed : (lib : Library) (nodes : List Bytes) → IsKeyed lib (of_nodes lib nodes)
unfolding of_nodes
of_nodes-IsKeyed lib [] ref bytes h = cc
of_nodes-IsKeyed lib (x ∷ nodes) ref bytes h = elim (Bool-cases (eq_list (lib.keccak x) ref)) [
  | inl same ↦ let e : x ≡ bytes = cc (rw same at h) in ap lib.keccak (sym e) ∙ eq_list→eq _ _ same
  | inr other ↦ of_nodes-IsKeyed lib nodes ref bytes (rw other at h)
]

pub of_nodes-IsProperStore :
    (lib : Library) (nodes : List Bytes)
    → All (λ b. (item : Item) → lib.decode b ≡ some item → IsProper item) nodes
    → IsProperStore lib (of_nodes lib nodes)
unfolding of_nodes
of_nodes-IsProperStore lib [] proper ref bytes item h d = cc
of_nodes-IsProperStore lib (x ∷ nodes) proper ref bytes item h d =
    elim (Bool-cases (eq_list (lib.keccak x) ref)) [
      | inl same ↦ let e : x ≡ bytes = cc (rw same at h) in proper.0 item (ap lib.decode e ∙ d)
      | inr other ↦ of_nodes-IsProperStore lib nodes proper.1 ref bytes item (rw other at h) d
    ]
