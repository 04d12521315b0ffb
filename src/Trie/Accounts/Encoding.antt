-- ===== src/Trie/Accounts/Encoding.antt =====
-- Accounts survive the encoding.
use lemma_xperiment.Common.{ℕ, ◌≡◌, ◌≢◌, ok, refl, ◌==◌, false, lt→ltb, arith, []}
use lemma_xperiment.Trie.Nibbles.{Bytes}
use lemma_xperiment.Trie.Walk.{Library, str}
use lemma_xperiment.Trie.Accounts.{account_rlp, account_fields, unpack, u256_rlp, RlpLaws}

-- With the laws of rlp: `account_fields` reads back what `account_rlp` wrote: the nonce as a number, the balance as its
-- bytes.
pub account_fields-account_rlp :
    (lib : Library) (nonce balance : ℕ) (storage_root code_hash : Bytes)
    → RlpLaws lib
    → account_fields lib (account_rlp lib nonce balance storage_root code_hash)
      ≡ ok (record {
        nonce = nonce;
        balance = lib.int_bytes balance;
        storage_root = storage_root;
        code_hash = code_hash;
      })
unfolding account_fields account_rlp unpack
account_fields-account_rlp lib nonce balance storage_root code_hash laws =
    rw (laws.decode-encode, laws.from_bytes-int nonce) refl

-- The assertion of `u256_rlp` holds of every value but zero.
pub u256_rlp-pos :
    (lib : Library) (v : ℕ)
    → (v == 0) ≡ false
    → u256_rlp lib v ≡ ok (lib.encode (str (lib.int_bytes v)))
unfolding u256_rlp
u256_rlp-pos lib v h = rw (lt→ltb 0 v (ground arith)) refl

pub account_rlp_ne :
    (lib : Library) (nonce balance : ℕ) (storage_root code_hash : Bytes)
    → RlpLaws lib
    → account_rlp lib nonce balance storage_root code_hash ≢ []
unfolding account_rlp
account_rlp_ne lib nonce balance storage_root code_hash laws = laws.encode_ne _
