-- ===== src/Trie/Updates.antt =====
-- evaluation/fixtures/trie/gen.py: apply_updates, the oracle of the update fixtures. Keys that the
-- source writes as hexadecimal text are their bytes here.
pub mod Slots
pub mod Effect
pub mod Roots
use lemma_xperiment.Common.{
  ℕ, ◌≡◌, Bool, true, false, List, [], ◌∷◌, Option, none, some, ◌==◌, if◌then◌else◌, eq_list,
  Outcome, ok, err, key_error, assertion_error, or_raise, require, ◌>>=◌, ◌>>◌, lookup, insert,
}
use lemma_xperiment.Trie.Nibbles.{Bytes}
use lemma_xperiment.Trie.Walk.{Library, Trie, empty_root}
use lemma_xperiment.Trie.Accounts.{HexaryTrie, account_rlp, account_fields, u256_rlp, keccak_empty}

pub record Account : Type 0 where
  pub nonce : ℕ
  pub balance : ℕ
  pub code_hash : Option Bytes

pub record StorageUpdate : Type 0 where
  pub wiped : Bool
  pub slots : List (Bytes × ℕ)

-- `none` deletes the account.
pub record Batch : Type 0 where
  pub accounts : List (Bytes × Option Account)
  pub storages : List (Bytes × StorageUpdate)

abbrev pub code_of : Library → Account → Bytes
code_of lib a = elim a.code_hash [ none ↦ keccak_empty lib | some c ↦ c ]

abbrev pub update_of : Batch → Bytes → StorageUpdate
update_of batch ha = elim (lookup ha batch.storages) [
  | none ↦ record { wiped = false; slots = [] }
  | some u ↦ u
]

module _ (lib : Library) (h : HexaryTrie) where
  -- The copies of the tries that the batch is applied to.
  pub record State : Type 0 where
    pub state : h.T
    pub tries : List (Bytes × h.T)

  unfoldable pub apply_slots : h.T → List (Bytes × ℕ) → Outcome h.T
  apply_slots t [] = ok t
  apply_slots t ((hs, v) ∷ slots) =
      if v == 0
      then apply_slots (h.delete t hs) slots
      else u256_rlp lib v >>= (λ bytes. apply_slots (h.set t hs bytes) slots)

  -- The storage trie of an account that has none yet.
  unfoldable pub fresh_storage : Bytes → Outcome h.T
  fresh_storage [] = ok h.empty
  fresh_storage (x ∷ existing) = do
    fields ← account_fields lib (x ∷ existing)
    require (eq_list fields.storage_root (empty_root lib)) assertion_error
    ok h.empty

  unfoldable pub known_or_fresh : Option h.T → Bytes → Outcome h.T
  known_or_fresh (some t) existing = ok t
  known_or_fresh none existing = fresh_storage existing

  unfoldable pub storage_of : State → Bytes → Outcome h.T
  storage_of s ha = known_or_fresh (lookup ha s.tries) (h.get s.state ha)

  unfoldable pub apply_account : Batch → State → Bytes → Option Account → Outcome State
  apply_account batch s ha none = ok (record s { state = h.delete s.state ha })
  apply_account batch s ha (some a) = do
    t ← storage_of s ha
    t' ← apply_slots (if (update_of batch ha).wiped then h.empty else t) (update_of batch ha).slots
    ok (record {
      state = h.set s.state ha (account_rlp lib a.nonce a.balance (h.view t').root (code_of lib a));
      tries = insert ha t' s.tries;
    })

  unfoldable pub apply_accounts : Batch → State → List (Bytes × Option Account) → Outcome State
  apply_accounts batch s [] = ok s
  apply_accounts batch s ((ha, acct) ∷ accounts) = do
    s' ← apply_account batch s ha acct
    apply_accounts batch s' accounts

  -- The storage roots of the accounts that the batch writes.
  unfoldable pub roots_of : State → List (Bytes × Option Account) → Outcome (List (Bytes × Bytes))
  roots_of s [] = ok []
  roots_of s ((ha, none) ∷ accounts) = roots_of s accounts
  roots_of s ((ha, some a) ∷ accounts) = do
    t ← or_raise (lookup ha s.tries) key_error
    roots ← roots_of s accounts
    ok ((ha, (h.view t).root) ∷ roots)

  unfoldable pub apply_updates : State → Batch → Outcome (Bytes × List (Bytes × Bytes))
  apply_updates s batch = do
    s' ← apply_accounts batch s batch.accounts
    roots ← roots_of s' batch.accounts
    ok ((h.view s'.state).root, roots)
