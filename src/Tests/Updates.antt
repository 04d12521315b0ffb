-- ===== src/Tests/Updates.antt =====
-- Tests of evaluation/fixtures/trie/gen.py: paths, accounts and a batch of updates.
use lemma_xperiment.Common.{
  ℕ, ◌≡◌, ◌≢◌, refl, true, List, [], ◌∷◌, none, some, ok, err, All, ◌⊎◌, lookup, insert, arith,
  HasUniqueKeys, length, assertion_error, false,
}
use lemma_xperiment.Trie.Nibbles.{Bytes, nibbles, compact_encode, compact_decode, key_from_nibbles}
use lemma_xperiment.Trie.Nibbles.RoundTrip.{compact_decode-encode, nibbles-key_from_nibbles}
use lemma_xperiment.Trie.Accounts.{account_rlp, account_fields, u256_rlp}
use lemma_xperiment.Trie.Walk.{empty_root}
use lemma_xperiment.Trie.Accounts.Encoding.{account_fields-account_rlp}
use lemma_xperiment.Trie.Updates.{
  Batch, State, apply_slots, fresh_storage, known_or_fresh, storage_of, apply_account,
  apply_accounts, roots_of, apply_updates,
}
use lemma_xperiment.Trie.Updates.Effect.{Effect}
use lemma_xperiment.Trie.Updates.Roots.{
  CarriesRoot, apply_updates-Effect, apply_updates-CarriesRoot,
}
use lemma_xperiment.Tests.Rlp.{small_library, small_laws, small_tries, small_tries_laws}

compact_decode-encode_example :
    (b : Bytes) × (compact_encode (5 ∷ 6 ∷ 7 ∷ []) true ≡ ok b)
    × (compact_decode b ≡ ok (5 ∷ 6 ∷ 7 ∷ [], true))
compact_decode-encode_example =
    compact_decode-encode (5 ∷ 6 ∷ 7 ∷ []) true (omega arith, (omega arith, (omega arith, tt)))

abbrev pair : List ℕ
pair = 1 ∷ 2 ∷ []

nibbles-key_from_nibbles_example :
    (length pair ≡ 64)
      × ((key : Bytes) × (key_from_nibbles (1 ∷ 2 ∷ []) ≡ ok key) × (nibbles key ≡ 1 ∷ 2 ∷ []))
    ⊎ (length pair ≢ 64) × (key_from_nibbles (1 ∷ 2 ∷ []) ≡ err assertion_error)
nibbles-key_from_nibbles_example =
    nibbles-key_from_nibbles (1 ∷ 2 ∷ []) (omega arith, (omega arith, tt))

account_fields-account_rlp_example :
    account_fields small_library (account_rlp small_library 1 5 (9 ∷ []) (8 ∷ []))
    ≡ ok (record {
      nonce = 1;
      balance = small_library.int_bytes 5;
      storage_root = 9 ∷ [];
      code_hash = 8 ∷ [];
    })
account_fields-account_rlp_example =
    account_fields-account_rlp small_library 1 5 (9 ∷ []) (8 ∷ []) small_laws

abbrev batch : Batch
batch = record {
  accounts =
      (1 ∷ [], some (record { nonce = 3; balance = 10; code_hash = none })) ∷ (2 ∷ [], none) ∷ [];
  storages = (1 ∷ [], record { wiped = true; slots = (7 ∷ [], 4) ∷ (6 ∷ [], 0) ∷ [] }) ∷ [];
}

abbrev nothing_yet : State small_library small_tries
nothing_yet = record { state = []; tries = [] }

abbrev storage : small_tries.T
storage =
    (6 ∷ [], []) ∷ (7 ∷ [], small_library.encode (lemma_xperiment.Trie.Walk.str (4 ∷ []))) ∷ []

abbrev state_after : small_tries.T
state_after =
    (2 ∷ [], [])
    ∷ (
      1 ∷ [],
      account_rlp small_library 3 10 (small_tries.view storage).root (small_library.keccak []),
    )
    ∷ []

abbrev root_after : Bytes
root_after = (small_tries.view state_after).root

abbrev roots_after : List (Bytes × Bytes)
roots_after = (1 ∷ [], (small_tries.view storage).root) ∷ []

applied : apply_updates small_library small_tries nothing_yet batch ≡ ok (root_after, roots_after)
unfolding apply_updates apply_accounts apply_account roots_of storage_of known_or_fresh
    fresh_storage apply_slots u256_rlp lookup insert
applied = refl

two_accounts : HasUniqueKeys batch.accounts
unfolding lookup
two_accounts = (refl, (refl, tt))

-- The same batch without the wipe, on an account whose storage is known.
abbrev kept_batch : Batch
kept_batch = record batch {
  storages = (1 ∷ [], record { wiped = false; slots = (7 ∷ [], 4) ∷ (6 ∷ [], 0) ∷ [] }) ∷ [];
}

abbrev old_storage : small_tries.T
old_storage = (8 ∷ [], small_library.encode (lemma_xperiment.Trie.Walk.str (9 ∷ []))) ∷ []

abbrev known_before : State small_library small_tries
known_before = record {
  state =
      (
        1 ∷ [],
        account_rlp small_library 2 10 (small_tries.view old_storage).root
            (small_library.keccak []),
      )
      ∷ [];
  tries = (1 ∷ [], old_storage) ∷ [];
}

abbrev kept_storage : small_tries.T
kept_storage =
    (6 ∷ [], [])
    ∷ (7 ∷ [], small_library.encode (lemma_xperiment.Trie.Walk.str (4 ∷ [])))
    ∷ old_storage

abbrev kept_after : small_tries.T
kept_after =
    (2 ∷ [], [])
    ∷ (
      1 ∷ [],
      account_rlp small_library 3 10 (small_tries.view kept_storage).root (small_library.keccak []),
    )
    ∷ known_before.state

abbrev kept_roots : List (Bytes × Bytes)
kept_roots = (1 ∷ [], (small_tries.view kept_storage).root) ∷ []

applied_known :
    apply_updates small_library small_tries known_before kept_batch
    ≡ ok ((small_tries.view kept_after).root, kept_roots)
unfolding apply_updates apply_accounts apply_account roots_of storage_of known_or_fresh
    fresh_storage apply_slots u256_rlp lookup insert
applied_known = refl

apply_updates-Effect_example :
    (s' : State small_library small_tries) × (apply_accounts small_library small_tries kept_batch
        known_before kept_batch.accounts
      ≡ ok s')
    × ((small_tries.view kept_after).root ≡ (small_tries.view s'.state).root)
    × ((k : Bytes)
        → Effect small_library small_tries kept_batch known_before s' k
            (lookup k kept_batch.accounts))
apply_updates-Effect_example =
    apply_updates-Effect small_library small_tries known_before kept_batch
      (small_tries.view kept_after).root kept_roots small_laws small_tries_laws two_accounts
      applied_known

apply_updates-CarriesRoot_example :
    (s' : State small_library small_tries) × (apply_accounts small_library small_tries batch
        nothing_yet batch.accounts
      ≡ ok s')
    × (root_after ≡ (small_tries.view s'.state).root)
    × All (CarriesRoot small_library small_tries s') roots_after
apply_updates-CarriesRoot_example =
    apply_updates-CarriesRoot small_library small_tries nothing_yet batch root_after roots_after
      small_laws small_tries_laws two_accounts applied
