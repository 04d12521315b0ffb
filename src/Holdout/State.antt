-- ===== src/Holdout/State.antt =====
-- evaluation/holdout/holdout.py: commitment.json, the sealed manifest and the files that the
-- commands read and write. Fixed texts, the times of day and the git references are left out; a
-- digest or a hash that the source writes in hexadecimal is its bytes.
use lemma_xperiment.Common.{
  ℕ, Bool, true, false, ◌&&◌, List, [], ◌∷◌, Option, none, some, ◌==◌, Outcome, ok, err, file_error,
}
use lemma_xperiment.Blocks.{Value, Header}
use lemma_xperiment.Holdout.Derive.{Bytes, Attempt}

pub data Phase : Type 0 where
  precommit sealed : Phase

pub record Signed : Type 0 where
  pub message : Bytes
  pub signer : Bytes
  pub signature : Bytes

pub record Seal : Type 0 where
  pub commitment : Bytes
  pub beacon_block : ℕ
  pub beacon_hash : Bytes
  pub beacon_timestamp : Value
  pub finalized_at_read : ℕ
  pub signed : Option Signed

pub record Commitment : Type 0 where
  pub set_id : ℕ
  pub phase : Phase
  pub rule_hash : Bytes
  pub selector_hash : Bytes
  pub presalt_hash : Bytes
  pub beacon_block : ℕ
  pub head_number : ℕ
  pub seal : Option Seal

pub record Manifest : Type 0 where
  pub set_id : ℕ
  pub rule_hash : Bytes
  pub selector_hash : Bytes
  pub presalt : Bytes
  pub beacon_block : ℕ
  pub beacon_hash : Bytes
  pub beacon_timestamp : Value
  pub finalized_at_read : ℕ
  pub salt : Bytes
  pub attempts : List Attempt
  pub start : ℕ
  pub blocks : List Header

-- RULE.md and holdout.py themselves, and the three files that the commands write.
pub record Disk : Type 0 where
  pub rule : Bytes
  pub selector : Bytes
  pub presalt : Option Bytes
  pub commitment : Option Commitment
  pub manifest : Option Bytes

-- Hashing, JSON and eth_keys. `sign` exits where the key is not set; `recover` is `none` where
-- eth_keys is not installed.
pub record Host : Type 0 where
  pub sha256 : Bytes → Bytes
  pub serialize : Manifest → Bytes
  pub parse : Bytes → Option Manifest
  pub sign : Bytes → Outcome (Bytes × Bytes)
  pub recover : Option (Bytes → Bytes → Outcome Bytes)

-- A command: what it ends in, and the files that it leaves, on an exit too.
abbrev pub Action : Type 0 → Type 0
Action A = Disk → Outcome A × Disk

module _ {A : Type 0} where
  abbrev pub pure : A → Action A
  pure a d = (ok a, d)

  abbrev pub lift : Outcome A → Action A
  lift m d = (m, d)

abbrev pub get : Action Disk
get d = (ok d, d)

abbrev pub put : Disk → Action (Unit {0})
put d' d = (ok tt, d')

infixl 5 ◌>>=◌ ◌>>◌
abbrev pub and_then : {A B : Type 0} → Outcome A → (A → Action B) → Action B
and_then (ok a) f d = f a d
and_then (err e) f d = (err e, d)

abbrev pub ◌>>=◌ : {A B : Type 0} → Action A → (A → Action B) → Action B
◌>>=◌ m f d = let (r, d') = m d in and_then r f d'

abbrev pub ◌>>◌ : {B : Type 0} → Action (Unit {0}) → Action B → Action B
m >> k = m >>= λ _. k

abbrev pub read_file : {A : Type 0} → Option A → Action A
read_file none d = (err file_error, d)
read_file (some a) d = (ok a, d)

abbrev pub eq_option_ℕ : Option ℕ → Option ℕ → Bool
eq_option_ℕ none none = true
eq_option_ℕ (some m) (some n) = m == n
eq_option_ℕ _ _ = false

abbrev pub eq_attempts : List Attempt → List Attempt → Bool
eq_attempts [] [] = true
eq_attempts (a ∷ l) (b ∷ m) =
    (a.k == b.k && a.start == b.start && eq_option_ℕ a.rejected b.rejected) && eq_attempts l m
eq_attempts _ _ = false
