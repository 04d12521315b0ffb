-- ===== src/Holdout/Commands.antt =====
-- evaluation/holdout/holdout.py: cmd_precommit and cmd_seal, which write files.
pub mod Ends
pub mod Life
pub mod RoundTrip
use lemma_xperiment.Common.{
  ℕ, ◌+◌, Bool, true, false, Option, none, some, require, system_exit, if◌then◌else◌,
}
use lemma_xperiment.Holdout.Derive.{Bytes}
use lemma_xperiment.Holdout.Chain.{Net, latest, header, number_of}
use lemma_xperiment.Holdout.State.{
  precommit, sealed, Signed, Seal, Commitment, Manifest, Disk, Host, Action, pure, lift, get, put,
  ◌>>=◌, ◌>>◌,
}
use lemma_xperiment.Holdout.Manifest.{seal_manifest, message_of}

abbrev pub is_absent {ℓ} : {A : Type ℓ} → Option A → Bool
is_absent none = true
is_absent (some _) = false

unfoldable pub precommitted : Host → Disk → (urandom : Bytes) → (set_id ahead head : ℕ) → Commitment
precommitted host d urandom set_id ahead head = record {
  set_id = set_id;
  phase = precommit;
  rule_hash = host.sha256 d.rule;
  selector_hash = host.sha256 d.selector;
  presalt_hash = host.sha256 urandom;
  beacon_block = head + ahead;
  head_number = head;
  seal = none;
}

-- The option --ahead is taken as a natural number, as its default of 30 is, and every command is
-- given the same --sealed-dir.
unfoldable pub cmd_precommit :
    Host → Net → (urandom : Bytes) → (set_id ahead : ℕ) → Action (Unit {0})
unfolding precommitted
cmd_precommit host net urandom set_id ahead = do
  d ← get
  lift (require (is_absent d.presalt) system_exit)
  lift (require (is_absent d.commitment) system_exit)
  put (record d { presalt = some urandom })
  head ← lift (header net.public latest)
  n ← lift (number_of head)
  put (record d {
    presalt = some urandom;
    commitment = some (precommitted host d urandom set_id ahead n);
  })

-- `sign(msg)`, if asked for.
unfoldable pub signed_of : Host → Bool → Bytes → Action (Option Signed)
signed_of host with_signature commitment =
    if with_signature
    then lift (host.sign (message_of commitment)) >>= (λ (signer, signature).
      pure
        (some (record { message = message_of commitment; signer = signer; signature = signature })))
    else pure none

unfoldable pub seal_of : Manifest → Bytes → Option Signed → Seal
seal_of m commitment signed = record {
  commitment = commitment;
  beacon_block = m.beacon_block;
  beacon_hash = m.beacon_hash;
  beacon_timestamp = m.beacon_timestamp;
  finalized_at_read = m.finalized_at_read;
  signed = signed;
}

-- The manifest file is written before the signature is asked for, and the commitment after it.
unfoldable pub cmd_seal : Host → Net → (with_signature : Bool) → Action (Unit {0})
unfolding signed_of seal_of
cmd_seal host net with_signature = do
  d ← get
  (c, m) ← lift (seal_manifest host net d)
  lift (require (is_absent d.manifest) system_exit)
  let file = host.serialize m
  put (record d { manifest = some file })
  let commitment = host.sha256 file
  signed ← signed_of host with_signature commitment
  put (record d {
    manifest = some file;
    commitment = some (record c { phase = sealed; seal = some (seal_of m commitment signed) });
  })
