-- ===== src/Holdout/Commands/Life.antt =====
-- The life of a holdout set: the files of the evaluator through any run of commands.
use lemma_xperiment.Common.{
  ℕ, ◌≡◌, refl, sym, subst, Bool, true, Option, none, some, ok, err, Fault,
}
use lemma_xperiment.Holdout.Derive.{Bytes}
use lemma_xperiment.Holdout.Chain.{Net}
use lemma_xperiment.Holdout.State.{precommit, sealed, Seal, Commitment, Manifest, Disk, Host}
use lemma_xperiment.Holdout.Manifest.{seal_manifest, message_of}
use lemma_xperiment.Holdout.Manifest.Facts.{seal_manifest-Facts}
use lemma_xperiment.Holdout.Commands.{precommitted, cmd_precommit, signed_of, seal_of, cmd_seal}
use lemma_xperiment.Holdout.Commands.Ends.{
  Ending, PrecommitEnds, has_presalt, has_commitment, no_head, committed,
  cmd_precommit-PrecommitEnds, SealEnds, refused, unsigned, done, cmd_seal-SealEnds, written,
}

-- A command, with any endpoints, or an edit of the rule or the script.
pub data Step (host : Host) : Disk → Disk → Type 0 where
  precommits :
      (net : Net) (urandom : Bytes) (set_id ahead : ℕ) (d : Disk)
      → Step host d (cmd_precommit host net urandom set_id ahead d).1
  seals :
      (net : Net) (with_signature : Bool) (d : Disk)
      → Step host d (cmd_seal host net with_signature d).1
  edits :
      (rule selector : Bytes) (d : Disk)
      → Step host d (record d { rule = rule; selector = selector })

pub data Run (host : Host) : Disk → Disk → Type 0 where
  stay : (d : Disk) → Run host d d
  next : {d d' d'' : Disk} → Step host d d' → Run host d' d'' → Run host d d''

-- The commitment is of the preSalt on the disk, and a sealed one records the hash of the manifest
-- file.
abbrev pub IsKept : Host → Option Bytes → Option Bytes → Option Commitment → Type 0
IsKept host presalt manifest none = manifest ≡ none
IsKept host presalt manifest (some c) =
    ((p : Bytes) × (presalt ≡ some p) × (host.sha256 p ≡ c.presalt_hash))
    × (c.phase ≡ sealed
        → (f : Bytes) × (s : Seal) × (manifest ≡ some f)
          × (c.seal ≡ some s)
          × (s.commitment ≡ host.sha256 f))

abbrev pub IsConsistent : Host → Disk → Type 0
IsConsistent host d = IsKept host d.presalt d.manifest d.commitment

precommit-IsConsistent :
    (host : Host) (net : Net) (urandom : Bytes) (set_id ahead : ℕ) (d : Disk) {end : Ending}
    → PrecommitEnds host net urandom set_id ahead d end
    → IsConsistent host d
    → IsConsistent host end.1
unfolding precommitted
precommit-IsConsistent host net urandom set_id ahead d (has_presalt p there) i = i
precommit-IsConsistent host net urandom set_id ahead d (has_commitment c there) i = i
precommit-IsConsistent host net urandom set_id ahead d (no_head e fresh unmade) i =
    subst (IsKept host (some urandom) d.manifest) (sym unmade)
      (subst (IsKept host d.presalt d.manifest) unmade i)
precommit-IsConsistent host net urandom set_id ahead d (committed n fresh unmade) i =
    ((urandom, refl, refl), λ h. cc)

seal-IsConsistent :
    (host : Host) (net : Net) (d : Disk) {end : Ending}
    → SealEnds host net d end
    → IsConsistent host d
    → IsConsistent host end.1
unfolding seal_of
seal-IsConsistent host net d (refused e) i = i
seal-IsConsistent host net d (unsigned e c m made fresh) i =
    let f = seal_manifest-Facts host net d c m made in
    subst (IsKept host d.presalt (some (host.serialize m))) (sym f.committed)
      ((m.presalt, f.presalt, f.presalt_hash), λ h. absurd (cc (f.phase, h)))
seal-IsConsistent host net d (done c m signed made fresh _) i =
    let f = seal_manifest-Facts host net d c m made in
    (
      (m.presalt, f.presalt, f.presalt_hash),
      λ h. (host.serialize m, seal_of m (host.sha256 (host.serialize m)) signed, refl, refl, refl),
    )

Step-IsConsistent :
    (host : Host) {d d' : Disk} → Step host d d' → IsConsistent host d → IsConsistent host d'
Step-IsConsistent host (precommits net urandom set_id ahead d) i =
    precommit-IsConsistent host net urandom set_id ahead d
      (cmd_precommit-PrecommitEnds host net urandom set_id ahead d) i
Step-IsConsistent host (seals net with_signature d) i =
    seal-IsConsistent host net d (cmd_seal-SealEnds host net with_signature d) i
Step-IsConsistent host (edits rule selector d) i = i

-- Whatever commands run, with whatever endpoints, faults and edits of the rule between them, a
-- consistent disk stays so: the commitment is the hash of the preSalt that is kept, a sealed
-- commitment records the hash of the manifest file that is kept, and without a commitment there is
-- no manifest.
pub Run-IsConsistent :
    (host : Host) {d d' : Disk} → Run host d d' → IsConsistent host d → IsConsistent host d'
Run-IsConsistent host (stay d) i = i
Run-IsConsistent host (next step run) i = Run-IsConsistent host run (Step-IsConsistent host step i)

-- The three files, which commands may no longer change.
pub record IsFixed (c : Commitment) (p f : Bytes) (d : Disk) : Type 0 where
  pub commitment : d.commitment ≡ some c
  pub presalt : d.presalt ≡ some p
  pub manifest : d.manifest ≡ some f

precommit-IsFixed :
    (host : Host) (net : Net) (urandom : Bytes) (set_id ahead : ℕ) (d : Disk) {end : Ending}
    {c : Commitment} {p f : Bytes}
    → PrecommitEnds host net urandom set_id ahead d end
    → IsFixed c p f d
    → IsFixed c p f end.1
precommit-IsFixed host net urandom set_id ahead d (has_presalt p there) x = x
precommit-IsFixed host net urandom set_id ahead d (has_commitment c there) x = x
precommit-IsFixed host net urandom set_id ahead d (no_head e fresh unmade) x =
    absurd (cc (fresh, x.presalt))
precommit-IsFixed host net urandom set_id ahead d (committed n fresh unmade) x =
    absurd (cc (fresh, x.presalt))

seal-IsFixed :
    (host : Host) (net : Net) (d : Disk) {end : Ending} {c : Commitment} {p f : Bytes}
    → SealEnds host net d end
    → IsFixed c p f d
    → IsFixed c p f end.1
seal-IsFixed host net d (refused e) x = x
seal-IsFixed host net d (unsigned e c m made fresh) x = absurd (cc (fresh, x.manifest))
seal-IsFixed host net d (done c m signed made fresh _) x = absurd (cc (fresh, x.manifest))

Step-IsFixed :
    (host : Host) {d d' : Disk} {c : Commitment} {p f : Bytes}
    → Step host d d'
    → IsFixed c p f d
    → IsFixed c p f d'
Step-IsFixed host (precommits net urandom set_id ahead d) x =
    precommit-IsFixed host net urandom set_id ahead d
      (cmd_precommit-PrecommitEnds host net urandom set_id ahead d) x
Step-IsFixed host (seals net with_signature d) x =
    seal-IsFixed host net d (cmd_seal-SealEnds host net with_signature d) x
Step-IsFixed host (edits rule selector d) x = record {
  commitment = x.commitment;
  presalt = x.presalt;
  manifest = x.manifest;
}

-- From the moment when all three files stand, no run of commands changes any of them.
pub Run-IsFixed :
    (host : Host) {d d' : Disk} {c : Commitment} {p f : Bytes}
    → Run host d d'
    → IsFixed c p f d
    → IsFixed c p f d'
Run-IsFixed host (stay d) x = x
Run-IsFixed host (next step run) x = Run-IsFixed host run (Step-IsFixed host step x)

-- A seal whose signature cannot be made, after the manifest was written, is final: its commitment
-- is in the precommit phase after every run of further commands.
pub cmd_seal-interrupted :
    (host : Host) (net : Net) (d d' : Disk) (c : Commitment) (m : Manifest) (e : Fault)
    → seal_manifest host net d ≡ ok (c, m)
    → d.manifest ≡ none
    → host.sign (message_of (host.sha256 (host.serialize m))) ≡ err e
    → Run host (cmd_seal host net true d).1 d'
    → (d'.commitment ≡ some c) × (c.phase ≡ precommit)
unfolding cmd_seal signed_of
cmd_seal-interrupted host net d d' c m e made fresh failed run =
    let f = seal_manifest-Facts host net d c m made in
    let left : (cmd_seal host net true d).1 ≡ written host d m = rw (made, fresh, failed) refl in
    let fixed = Run-IsFixed host run (
      subst (IsFixed c m.presalt (host.serialize m)) (sym left)
        (record { commitment = f.committed; presalt = f.presalt; manifest = refl })) in
    (fixed.commitment, f.phase)
