-- ===== src/Holdout/Manifest/Reads.antt =====
-- What cmd_verify reports, from what it reads.
use lemma_xperiment.Common.{ℕ, ◌≡◌, refl, List, some, eq_list_refl, ok}
use lemma_xperiment.Blocks.{Header}
use lemma_xperiment.Holdout.Derive.{Bytes, Attempt, derive}
use lemma_xperiment.Holdout.Chain.{Net, at_block, agreed_header, hash_of}
use lemma_xperiment.Holdout.State.{sealed, Seal, Commitment, Manifest, Disk, Host}
use lemma_xperiment.Holdout.Manifest.{
  Report, salt_of, hash_for, header_checks, signature_checks, cmd_verify,
}
use lemma_xperiment.Holdout.Manifest.Sound.{report_of}

pub hash_for_own :
    (host : Host) (file : Bytes) → hash_for host (host.sha256 file) file ≡ host.sha256 file
unfolding hash_for
hash_for_own host file = rw (eq_list_refl (host.sha256 file)) refl

module _ (host : Host) (net : Net) (d : Disk) (file presalt : Bytes) (c : Commitment) (s : Seal)
    (m : Manifest) (beacon : Header) (beacon_hash : Bytes) (attempts : List Attempt) (start : ℕ)
    (headers signatures : Report) where
  pub cmd_verify-report :
      d.commitment ≡ some c
      → c.phase ≡ sealed
      → c.seal ≡ some s
      → host.parse file ≡ some m
      → agreed_header net (at_block m.beacon_block) ≡ ok beacon
      → hash_of beacon ≡ ok beacon_hash
      → derive host.sha256 (salt_of host presalt beacon_hash) ≡ ok (attempts, start)
      → header_checks net m.blocks ≡ ok headers
      → signature_checks host s ≡ ok signatures
      → cmd_verify host net d file presalt
        ≡ ok (report_of host d file presalt c s m beacon_hash attempts start headers signatures)
  unfolding cmd_verify
  cmd_verify-report committed phase seal parsed read named derived listed checked =
      rw (committed, phase, seal, parsed, read, named, derived, listed, checked) refl
