-- ===== src/Holdout/Commands/Ends.antt =====
-- How cmd_precommit and cmd_seal end, and the files that each end leaves.
use lemma_xperiment.Common.{
  ℕ, ◌≡◌, refl, sym, subst, Bool, true, false, Option, none, some, inl, inr, Outcome, ok, err,
  Fault, system_exit, Outcome-cases, Option-cases,
}
use lemma_xperiment.Holdout.Derive.{Bytes}
use lemma_xperiment.Holdout.Chain.{Net, latest, header, number_of}
use lemma_xperiment.Holdout.State.{sealed, Signed, Commitment, Manifest, Disk, Host}
use lemma_xperiment.Holdout.Manifest.{seal_manifest, message_of}
use lemma_xperiment.Holdout.Manifest.Passing.{SignedBy}
use lemma_xperiment.Holdout.Commands.{precommitted, cmd_precommit, signed_of, seal_of, cmd_seal}

abbrev pub Ending : Type 0
Ending = Outcome (Unit {0}) × Disk

abbrev pub drawn : Disk → Bytes → Disk
drawn d urandom = record d { presalt = some urandom }

pub data PrecommitEnds (host : Host) (net : Net) (urandom : Bytes) (set_id ahead : ℕ) (d : Disk)
    : Ending → Type 0 where
  has_presalt :
      (p : Bytes)
      → d.presalt ≡ some p
      → PrecommitEnds host net urandom set_id ahead d (err system_exit, d)
  has_commitment :
      (c : Commitment)
      → d.commitment ≡ some c
      → PrecommitEnds host net urandom set_id ahead d (err system_exit, d)
  no_head :
      (e : Fault)
      → d.presalt ≡ none
      → d.commitment ≡ none
      → PrecommitEnds host net urandom set_id ahead d (err e, drawn d urandom)
  committed :
      (n : ℕ)
      → d.presalt ≡ none
      → d.commitment ≡ none
      → PrecommitEnds host net urandom set_id ahead d (
        ok tt,
        record d {
          presalt = some urandom;
          commitment = some (precommitted host d urandom set_id ahead n);
        },
      )

pub cmd_precommit-PrecommitEnds :
    (host : Host) (net : Net) (urandom : Bytes) (set_id ahead : ℕ) (d : Disk)
    → PrecommitEnds host net urandom set_id ahead d (cmd_precommit host net urandom set_id ahead d)
unfolding cmd_precommit
cmd_precommit-PrecommitEnds host net urandom set_id ahead d = elim (Option-cases d.presalt) [
  | inr (p, there) ↦
      subst (PrecommitEnds host net urandom set_id ahead d) (sym (rw there refl))
        (has_presalt p there)
  | inl fresh ↦ elim (Option-cases d.commitment) [
    | inr (c, there) ↦
        subst (PrecommitEnds host net urandom set_id ahead d) (sym (rw (fresh, there) refl))
          (has_commitment c there)
    | inl unmade ↦ elim (Outcome-cases (header net.public latest)) [
      | inr (e, failed) ↦
          subst (PrecommitEnds host net urandom set_id ahead d)
            (sym (rw (fresh, unmade, failed) refl)) (no_head e fresh unmade)
      | inl (head, read) ↦ elim (Outcome-cases (number_of head)) [
        | inr (e, failed) ↦
            subst (PrecommitEnds host net urandom set_id ahead d)
              (sym (rw (fresh, unmade, read, failed) refl)) (no_head e fresh unmade)
        | inl (n, numbered) ↦
            subst (PrecommitEnds host net urandom set_id ahead d)
              (sym (rw (fresh, unmade, read, numbered) refl)) (committed n fresh unmade)
      ]
    ]
  ]
]

abbrev pub written : Host → Disk → Manifest → Disk
written host d m = record d { manifest = some (host.serialize m) }

abbrev pub sealed_as : Host → Commitment → Manifest → Option Signed → Commitment
sealed_as host c m signed = record c {
  phase = sealed;
  seal = some (seal_of m (host.sha256 (host.serialize m)) signed);
}

pub data SealEnds (host : Host) (net : Net) (d : Disk) : Ending → Type 0 where
  refused : (e : Fault) → SealEnds host net d (err e, d)
  unsigned :
      (e : Fault) (c : Commitment) (m : Manifest)
      → seal_manifest host net d ≡ ok (c, m)
      → d.manifest ≡ none
      → SealEnds host net d (err e, written host d m)
  done :
      (c : Commitment) (m : Manifest) (signed : Option Signed)
      → seal_manifest host net d ≡ ok (c, m)
      → d.manifest ≡ none
      → SignedBy host (host.sha256 (host.serialize m)) signed
      → SealEnds host net d
          (ok tt, record (written host d m) { commitment = some (sealed_as host c m signed) })

module _ (host : Host) (net : Net) (d : Disk) (c : Commitment) (m : Manifest)
    (made : seal_manifest host net d ≡ ok (c, m)) (fresh : d.manifest ≡ none) where
  seal_with : (with_signature : Bool) → SealEnds host net d (cmd_seal host net with_signature d)
  unfolding cmd_seal signed_of SignedBy
  seal_with false =
      subst (SealEnds host net d) (sym (rw (made, fresh) refl)) (done c m none made fresh tt)
  seal_with true = elim (Outcome-cases (host.sign (message_of (host.sha256 (host.serialize m))))) [
    | inr (e, failed) ↦
        subst (SealEnds host net d) (sym (rw (made, fresh, failed) refl))
          (unsigned e c m made fresh)
    | inl ((signer, signature), signed) ↦
        subst (SealEnds host net d) (sym (rw (made, fresh, signed) refl)) (
          done c m
            (some (record {
              message = message_of (host.sha256 (host.serialize m));
              signer = signer;
              signature = signature;
            }))
            made fresh (refl, signed))
  ]

pub cmd_seal-SealEnds :
    (host : Host) (net : Net) (with_signature : Bool) (d : Disk)
    → SealEnds host net d (cmd_seal host net with_signature d)
unfolding cmd_seal
cmd_seal-SealEnds host net with_signature d = elim (Outcome-cases (seal_manifest host net d)) [
  | inr (e, failed) ↦ subst (SealEnds host net d) (sym (rw failed refl)) (refused e)
  | inl ((c, m), made) ↦ elim (Option-cases d.manifest) [
    | inr (f, there) ↦
        subst (SealEnds host net d) (sym (rw (made, there) refl)) (refused system_exit)
    | inl fresh ↦ seal_with host net d c m made fresh with_signature
  ]
]
