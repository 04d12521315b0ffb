-- ===== src/Trie/Accounts.antt =====
-- evaluation/fixtures/trie/gen.py: account_rlp, account_fields, u256_rlp, account_proof_entry. A
-- value that the source renders as hexadecimal text (`hx`) is kept as its bytes.
pub mod Encoding
use lemma_xperiment.Common.{
  ℕ, zero, suc, ◌+◌, ◌*◌, ◌<◌, ◌≡◌, ◌≢◌, Bool, true, false, List, [], ◌∷◌, ◌++◌, Option, none, some,
  if◌then◌else◌, ltb, eq_list, Outcome, ok, err, value_error, type_error, assertion_error, or_raise,
  require, ◌>>=◌, ◌>>◌, length, ◌==◌,
}
use mathlib.Core.List.{foldl}
use lemma_xperiment.Trie.Nibbles.{Bytes}
use lemma_xperiment.Trie.Walk.{
  Item, str, node, Items, nil, cons, Library, as_bytes, Trie, End, path_proof, empty_root,
}

-- `int.from_bytes(b, "big")`
unfoldable pub from_bytes : Bytes → ℕ
from_bytes = foldl (λ n x. n * 256 + x) 0

-- What the generator relies on of rlp: decoding undoes encoding, for numbers too, and no encoding
-- is empty.
pub record RlpLaws (lib : Library) : Type 0 where
  pub decode-encode : (x : Item) → lib.decode (lib.encode x) ≡ some x
  pub encode_ne : (x : Item) → lib.encode x ≢ []
  pub from_bytes-int : (n : ℕ) → from_bytes (lib.int_bytes n) ≡ n

pub record AccountFields : Type 0 where
  pub nonce : ℕ
  pub balance : Bytes
  pub storage_root : Bytes
  pub code_hash : Bytes

module _ (lib : Library) where
  unfoldable pub account_rlp : (nonce balance : ℕ) (storage_root code_hash : Bytes) → Bytes
  account_rlp nonce balance storage_root code_hash = lib.encode (
      node (
        cons (str (lib.int_bytes nonce)) (
          cons (str (lib.int_bytes balance)) (cons (str storage_root) (cons (str code_hash) nil)))))

  -- Unpacking into four names: another number of items is a ValueError. The four numbers of a
  -- byte string are not iterable.
  unfoldable pub unpack : Item → Outcome AccountFields
  unpack (str b) = if length b == 4 then err type_error else err value_error
  unpack (node (cons a (cons b (cons c (cons d nil))))) = do
    nonce ← as_bytes a
    balance ← as_bytes b
    storage_root ← as_bytes c
    code_hash ← as_bytes d
    ok (record {
      nonce = from_bytes nonce;
      balance = balance;
      storage_root = storage_root;
      code_hash = code_hash;
    })
  unpack (node _) = err value_error

  unfoldable pub account_fields : Bytes → Outcome AccountFields
  account_fields value = do x ← or_raise (lib.decode value) value_error; unpack x

  unfoldable pub u256_rlp : ℕ → Outcome Bytes
  u256_rlp v = do require (ltb 0 v) assertion_error; ok (lib.encode (str (lib.int_bytes v)))

-- py-trie's HexaryTrie: `view` is its node database and root hash, and `get` is b"" where the key
-- is absent.
pub record HexaryTrie : Type 1 where
  pub T : Type 0
  pub empty : T
  pub set : T → Bytes → Bytes → T
  pub delete : T → Bytes → T
  pub get : T → Bytes → Bytes
  pub view : T → Trie

-- What the generator relies on of it: a dictionary with byte strings for keys.
pub record HexaryLaws (h : HexaryTrie) : Type 0 where
  pub get-empty : (k : Bytes) → h.get h.empty k ≡ []
  pub get-set :
      (t : h.T) (k v j : Bytes)
      → v ≢ []
      → h.get (h.set t k v) j ≡ (if eq_list k j then v else h.get t j)
  pub get-delete :
      (t : h.T) (k j : Bytes) → h.get (h.delete t k) j ≡ (if eq_list k j then [] else h.get t j)

pub record SlotProof : Type 0 where
  pub hashed_slot : Bytes
  pub value : ℕ
  pub proof : List Bytes
  pub path_ends : End

-- `path_ends` is `none` where the source writes "omitted".
pub record Entry : Type 0 where
  pub address : Bytes
  pub hashed_address : Bytes
  pub fields : AccountFields
  pub account_proof : List Bytes
  pub path_ends : Option End
  pub storage_proof : List SlotProof

abbrev pub keccak_empty : Library → Bytes
keccak_empty lib = lib.keccak []

module _ (lib : Library) (h : HexaryTrie) where
  -- The fields of an absent account; its balance is written "0x0".
  pub absent_fields : AccountFields
  absent_fields = record {
    nonce = 0;
    balance = [];
    storage_root = empty_root lib;
    code_hash = keccak_empty lib;
  }

  pub fields_or_absent : Bytes → Outcome AccountFields
  fields_or_absent [] = ok absent_fields
  fields_or_absent (x ∷ value) = account_fields lib (x ∷ value)

  -- `int.from_bytes(rlp.decode(v), "big") if v else 0`
  pub slot_value : Bytes → Outcome ℕ
  slot_value [] = ok 0
  slot_value (x ∷ v) = do
    item ← or_raise (lib.decode (x ∷ v)) value_error
    b ← as_bytes item
    ok (from_bytes b)

  slot_proof : h.T → Bytes → Outcome SlotProof
  slot_proof storage hashed_slot = do
    (proof, path_ends) ← path_proof lib (h.view storage) hashed_slot
    value ← slot_value (h.get storage hashed_slot)
    ok (record { hashed_slot = hashed_slot; value = value; proof = proof; path_ends = path_ends })

  slot_proofs : Option h.T → List Bytes → Outcome (List SlotProof)
  slot_proofs storage [] = ok []
  slot_proofs storage (hs ∷ slots) = do
    t ← or_raise storage assertion_error
    p ← slot_proof t hs
    ps ← slot_proofs storage slots
    ok (p ∷ ps)

  account_path : h.T → Bytes → Bool → Outcome (List Bytes × Option End)
  account_path state key include_account_path =
      if include_account_path
      then path_proof lib (h.view state) key >>= (λ (proof, e). ok (proof, some e))
      else ok ([], none)

  pub account_proof_entry : h.T → Bytes → Option h.T → List Bytes → Bool → Outcome Entry
  account_proof_entry state address storage slots include_account_path = do
    let key = lib.keccak address
    fields ← fields_or_absent (h.get state key)
    (proof, ended) ← account_path state key include_account_path
    slot_entries ← slot_proofs storage slots
    ok (record {
      address = address;
      hashed_address = key;
      fields = fields;
      account_proof = proof;
      path_ends = ended;
      storage_proof = slot_entries;
    })
