-- ===== src/Tests/Seals.antt =====
-- Tests of evaluation/holdout/holdout.py: the commands.
use lemma_xperiment.Common.{
  ℕ, zero, suc, ◌+◌, ◌≡◌, refl, sym, ◌∙◌, ap, subst, true, List, [], ◌∷◌, none, some, Outcome, ok,
  err, system_exit, arith,
}
use lemma_xperiment.Blocks.{timestamp, Header, Raw, eq_header, eq_fields}
use lemma_xperiment.Holdout.Derive.{
  Bytes, candidate, derive_from, derive, near, any_near, hits, interval, from_bytes, to_bytes4,
  domain, codes,
}
use lemma_xperiment.Holdout.Chain.{
  result, Which, at_block, latest, finalized, Source, Net, rpc, rpc_from, kept, header,
  agreed_header, number_of, hash_of,
}
use lemma_xperiment.Holdout.Chain.Agreement.{agreed_header-both}
use lemma_xperiment.Holdout.State.{precommit, Commitment, Manifest, Disk, Host}
use lemma_xperiment.Holdout.Manifest.{
  Report, passes, agreed_headers, seal_manifest, message_of, rstrip, strip_step, hash_for,
  numbers_match, header_checks, signature_checks, cmd_verify,
}
use lemma_xperiment.Holdout.Manifest.Sound.{IsVerified, cmd_verify-IsVerified}
use lemma_xperiment.Holdout.Manifest.Passing.{IsNumbered, SignLaw}
use lemma_xperiment.Holdout.Commands.{precommitted, cmd_precommit, signed_of, seal_of, cmd_seal}
use lemma_xperiment.Holdout.Commands.RoundTrip.{ParseLaw, IsAccepted, cmd_seal-cmd_verify}
use lemma_xperiment.Holdout.Commands.Life.{
  Run, stay, next, precommits, seals, IsConsistent, IsFixed, Run-IsConsistent, Run-IsFixed,
  cmd_seal-interrupted,
}

abbrev number_at : Which → ℕ
number_at latest = 100
number_at finalized = 200
number_at (at_block n) = n

abbrev raw_at : Which → Raw
raw_at which = record {
  quantity_of = λ f. some (number_at which);
  text_of = λ f. some (4 ∷ []);
  transactions = 3;
}

abbrev source : Source
source which attempt = result (some (raw_at which))

abbrev net : Net
net = record { archive = some source; public = source }

abbrev block : ℕ → Header
block n = kept (raw_at (at_block n))

abbrev blocks : ℕ → ℕ → List Header
blocks n zero = []
blocks n (suc k) = block n ∷ blocks (n + 1) k

abbrev manifest : Manifest
manifest = record {
  set_id = 1;
  rule_hash = 5 ∷ [];
  selector_hash = 5 ∷ [];
  presalt = 6 ∷ [];
  beacon_block = 130;
  beacon_hash = 4 ∷ [];
  beacon_timestamp = block 130 timestamp;
  finalized_at_read = 200;
  salt = 5 ∷ [];
  attempts = record { k = 0; start = 19_426_592; rejected = none } ∷ [];
  start = 19_426_592;
  blocks = blocks 19_426_592 10;
}

abbrev same_signer : Bytes → Bytes → Outcome Bytes
same_signer message signature = ok (9 ∷ [])

abbrev host : Host
host = record {
  sha256 = λ b. 5 ∷ [];
  serialize = λ m. 7 ∷ 10 ∷ [];
  parse = λ f. some manifest;
  sign = λ b. ok (9 ∷ [], 8 ∷ []);
  recover = some same_signer;
}

abbrev no_key : Host
no_key = record host { sign = λ b. err system_exit }

abbrev fresh : Disk
fresh = record {
  rule = 1 ∷ [];
  selector = 2 ∷ [];
  presalt = none;
  commitment = none;
  manifest = none;
}

abbrev commitment : Commitment
commitment = record {
  set_id = 1;
  phase = precommit;
  rule_hash = 5 ∷ [];
  selector_hash = 5 ∷ [];
  presalt_hash = 5 ∷ [];
  beacon_block = 130;
  head_number = 100;
  seal = none;
}

abbrev committed : Disk
committed = record fresh { presalt = some (6 ∷ []); commitment = some commitment }

precommitting : cmd_precommit host net (6 ∷ []) 1 30 fresh ≡ (ok tt, committed)
unfolding cmd_precommit precommitted header rpc rpc_from kept number_of
precommitting = refl

IsSealable : (h : Host) → Type 0
IsSealable h = seal_manifest h net committed ≡ ok (commitment, manifest)

can_seal : IsSealable host × IsSealable no_key
unfolding IsSealable seal_manifest agreed_headers agreed_header header rpc rpc_from kept number_of
    hash_of eq_header eq_fields derive derive_from candidate near any_near hits interval from_bytes
    to_bytes4 domain codes
can_seal = (refl, refl)

abbrev after_seal : Disk
after_seal = (cmd_seal host net true committed).1

sealing : cmd_seal host net true committed ≡ (ok tt, after_seal)
unfolding cmd_seal signed_of seal_of seal_manifest agreed_headers agreed_header header rpc rpc_from
    kept number_of hash_of eq_header eq_fields derive derive_from candidate near any_near hits
    interval from_bytes to_bytes4 domain codes message_of
sealing = refl

parses : ParseLaw host net committed
unfolding IsSealable
parses c m made =
    let same : (commitment, manifest) ≡ (c, m) = cc (can_seal.0, made) in
    ap (λ (z : Commitment × Manifest). some z.1) same

signs : SignLaw host
signs message signer signature recover made found =
    let who : ◌≡◌ {A = Bytes} (9 ∷ []) signer = cc in
    let by : same_signer ≡ recover = cc in
    ap (λ (r : Bytes → Bytes → Outcome Bytes). r message signature) (sym by) ∙ ap ok who

numbered : IsNumbered net
unfolding header rpc rpc_from kept number_of
numbered n h agreed =
    let (archive, set, read, _) = agreed_header-both net (at_block n) h agreed in
    let from : source ≡ archive = cc in
    let own : header source (at_block n) ≡ ok h =
      ap (λ (a : Source). header a (at_block n)) from ∙ read in
    let made : kept (raw_at (at_block n)) ≡ h = cc own in ap number_of (sym made)

cmd_seal-cmd_verify_example :
    (file : Bytes) × (presalt : Bytes) × (after_seal.manifest ≡ some file)
    × (after_seal.presalt ≡ some presalt)
    × IsAccepted host net after_seal file presalt
cmd_seal-cmd_verify_example =
    cmd_seal-cmd_verify host net net true committed after_seal commitment parses signs numbered
      (λ n h agreed. agreed) refl (omega arith) sealing

verified : Report
verified = elim (cmd_verify host net after_seal (7 ∷ 10 ∷ []) (6 ∷ [])) [
  | ok report ↦ report
  | err e ↦ []
]

passing :
    (cmd_verify host net after_seal (7 ∷ 10 ∷ []) (6 ∷ []) ≡ ok verified) × (passes verified ≡ true)
unfolding verified cmd_verify header_checks numbers_match hash_for strip_step rstrip
    signature_checks cmd_seal signed_of seal_of seal_manifest agreed_headers agreed_header header
    rpc rpc_from kept number_of hash_of eq_header eq_fields derive derive_from candidate near
    any_near hits interval from_bytes to_bytes4 domain codes message_of
passing = (refl, refl)

cmd_verify-IsVerified_example : IsVerified host net after_seal (7 ∷ 10 ∷ []) (6 ∷ [])
cmd_verify-IsVerified_example =
    cmd_verify-IsVerified host net after_seal (7 ∷ 10 ∷ []) (6 ∷ []) verified passing.0 passing.1

whole_life : Run host fresh after_seal
whole_life =
    subst (λ z. Run host fresh z)
      {x = (cmd_seal host net true (cmd_precommit host net (6 ∷ []) 1 30 fresh).1).1}
      (ap (λ (z : Outcome (Unit {0}) × Disk). (cmd_seal host net true z.1).1) precommitting)
      (next (precommits net (6 ∷ []) 1 30 fresh) (
        next (seals net true (cmd_precommit host net (6 ∷ []) 1 30 fresh).1)
          (stay (cmd_seal host net true (cmd_precommit host net (6 ∷ []) 1 30 fresh).1).1)))

Run-IsConsistent_example : IsConsistent host after_seal
Run-IsConsistent_example = Run-IsConsistent host whole_life refl

abbrev left_over : Disk
left_over = record committed { manifest = some (7 ∷ []) }

Run-IsFixed_example : IsFixed commitment (6 ∷ []) (7 ∷ []) (cmd_seal host net true left_over).1
Run-IsFixed_example =
    Run-IsFixed host (next (seals net true left_over) (stay (cmd_seal host net true left_over).1))
      (record { commitment = refl; presalt = refl; manifest = refl })

cmd_seal-interrupted_example :
    ((cmd_seal no_key net true committed).1.commitment ≡ some commitment)
    × (commitment.phase ≡ precommit)
unfolding IsSealable
cmd_seal-interrupted_example =
    cmd_seal-interrupted no_key net committed (cmd_seal no_key net true committed).1 commitment
      manifest system_exit can_seal.1 refl refl (stay (cmd_seal no_key net true committed).1)
