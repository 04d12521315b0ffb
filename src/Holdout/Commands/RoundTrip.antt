-- ===== src/Holdout/Commands/RoundTrip.antt =====
-- cmd_verify accepts what cmd_seal wrote.
use lemma_xperiment.Common.{
  ℕ, ◌<◌, ◌≡◌, refl, sym, ◌∙◌, ap, subst, Bool, true, false, ◌&&◌, [], ◌∷◌, ◌++◌, Option, some,
  ◌==◌, ==_iff, lt→ltb, eq_list, eq_list_refl, ok,
}
use lemma_xperiment.Holdout.Derive.{Bytes, interval, window_size, derive}
use lemma_xperiment.Holdout.Chain.{Net, at_block, agreed_header}
use lemma_xperiment.Holdout.State.{Signed, Seal, Commitment, Manifest, Disk, Host}
use lemma_xperiment.Holdout.Manifest.{Report, passes, seal_manifest, cmd_verify, salt_of}
use lemma_xperiment.Holdout.Manifest.Sound.{report_of}
use lemma_xperiment.Holdout.Manifest.Reads.{hash_for_own, cmd_verify-report}
use lemma_xperiment.Holdout.Manifest.Facts.{Facts, seal_manifest-Facts}
use lemma_xperiment.Holdout.Manifest.Passing.{
  Extends, IsNumbered, SignLaw, SignedBy, eq_attempts_refl, agreed_headers-numbers_match,
  agreed_headers-header_checks, signature_checks-pass,
}
use lemma_xperiment.Holdout.Commands.{cmd_seal, seal_of}
use lemma_xperiment.Holdout.Commands.Ends.{
  Ending, SealEnds, refused, unsigned, done, cmd_seal-SealEnds, sealed_as, written,
}

-- The JSON of the manifest that is sealed reads back as the manifest.
abbrev pub ParseLaw : Host → Net → Disk → Type 0
ParseLaw host net d =
    (c : Commitment) (m : Manifest)
    → seal_manifest host net d ≡ ok (c, m)
    → host.parse (host.serialize m) ≡ some m

pub passes-rest : (r s : Report) → passes r ≡ true → passes s ≡ true → passes (r ++ s) ≡ true
passes-rest [] s h k = k
passes-rest ((c, true) ∷ r) s h k = passes-rest r s h k
passes-rest ((c, false) ∷ r) s h k = cc

both : {a b : Bool} → a ≡ true → b ≡ true → (a && b) ≡ true
both h k = rw (h, k) refl

own : (b : Bytes) {a : Bytes} → a ≡ b → eq_list a b ≡ true
own b e = subst (λ t. eq_list t b ≡ true) (sym e) (eq_list_refl b)

same_number : {a b : ℕ} → a ≡ b → (a == b) ≡ true
same_number e = (==_iff _ _).1 e

abbrev pub IsAccepted : Host → Net → Disk → Bytes → Bytes → Type 0
IsAccepted host net d file presalt =
    (report : Report) × (cmd_verify host net d file presalt ≡ ok report) × (passes report ≡ true)

module _ (host : Host) (net net' : Net) (d : Disk) (c : Commitment) (m : Manifest)
    (signed : Option Signed) (parses : host.parse (host.serialize m) ≡ some m)
    (signs : SignLaw host) (numbered : IsNumbered net) (later : Extends net net')
    (after : c.head_number < c.beacon_block) (f : Facts host net d c m)
    (by : SignedBy host (host.sha256 (host.serialize m)) signed) where
  abbrev after_seal : Disk
  after_seal = record (written host d m) { commitment = some (sealed_as host c m signed) }

  abbrev own_seal : Seal
  own_seal = seal_of m (host.sha256 (host.serialize m)) signed

  all-pass :
      (headers signatures : Report)
      → passes headers ≡ true
      → passes signatures ≡ true
      → passes (
          report_of host after_seal
            (host.serialize m)
            m.presalt
            (sealed_as host c m signed)
            own_seal
            m
            m.beacon_hash
            m.attempts
            m.start
            headers
            signatures)
        ≡ true
  unfolding seal_of
  all-pass headers signatures headers_pass signatures_pass =
      both (own _ (hash_for_own host (host.serialize m))) (
        both (eq_list_refl m.presalt) (
          both (own _ f.presalt_hash) (
            both (same_number f.same_beacon) (
              both (lt→ltb _ _ (subst (λ n. c.head_number < n) (sym f.same_beacon) after)) (
                both (eq_list_refl m.beacon_hash) (
                  both (own _ (sym f.salted)) (
                    both (both (same_number refl) (eq_attempts_refl m.attempts)) (
                      both
                        (agreed_headers-numbers_match net (interval m.start window_size) m.blocks
                          numbered f.blocks)
                        (passes-rest headers _ headers_pass (
                          both (both (own _ f.same_rule) (own _ (sym f.rule))) (
                            both (both (own _ f.same_selector) (own _ (sym f.selector)))
                              signatures_pass)))))))))))

  sealed-IsAccepted : IsAccepted host net' after_seal (host.serialize m) m.presalt
  unfolding seal_of
  sealed-IsAccepted =
      let (headers, listed, headers_pass) =
        agreed_headers-header_checks net net' (interval m.start window_size) m.blocks numbered later
          f.blocks in
      let (signatures, checked, signatures_pass) = signature_checks-pass host own_seal signs by in
      let read : agreed_header net' (at_block m.beacon_block) ≡ ok f.beacon =
        ap (λ n. agreed_header net' (at_block n)) f.same_beacon
        ∙ later c.beacon_block f.beacon f.beacon_read in
      let derived : derive host.sha256 (salt_of host m.presalt m.beacon_hash)
          ≡ ok (m.attempts, m.start) =
        ap (derive host.sha256) (sym f.salted) ∙ f.derived in
      (
        report_of host after_seal (host.serialize m) m.presalt (sealed_as host c m signed) own_seal
            m m.beacon_hash m.attempts m.start headers signatures,
        cmd_verify-report host net' after_seal (host.serialize m) m.presalt
            (sealed_as host c m signed) own_seal m f.beacon m.beacon_hash m.attempts m.start headers
            signatures refl refl refl parses read f.beacon_hash derived listed checked,
        all-pass headers signatures headers_pass signatures_pass,
      )

verdict :
    (host : Host) (net net' : Net) (d : Disk) {end : Ending} (d' : Disk) (c : Commitment)
    → ParseLaw host net d
    → SignLaw host
    → IsNumbered net
    → Extends net net'
    → SealEnds host net d end
    → end ≡ (ok tt, d')
    → d.commitment ≡ some c
    → c.head_number < c.beacon_block
    → (file : Bytes) × (presalt : Bytes) × (d'.manifest ≡ some file)
      × (d'.presalt ≡ some presalt)
      × IsAccepted host net' d' file presalt
verdict host net net' d d' c parses signs numbered later (refused e) e' committed after = cc
verdict host net net' d d' c parses signs numbered later (unsigned e c' m made fresh) e' committed
      after =
    cc
verdict host net net' d d' c parses signs numbered later (done c' m signed made fresh by) e'
      committed after =
    let f = seal_manifest-Facts host net d c' m made in
    let same : c ≡ c' = cc (committed, f.committed) in
    subst
      (λ (z : Disk).
        (file : Bytes) × (presalt : Bytes) × (z.manifest ≡ some file)
        × (z.presalt ≡ some presalt)
        × IsAccepted host net' z file presalt)
      (ap (λ (z : Ending). z.1) e')
      (
        host.serialize m,
        m.presalt,
        refl,
        f.presalt,
        sealed-IsAccepted host net net' d c' m signed (parses c' m made) signs numbered later
            (subst (λ (x : Commitment). x.head_number < x.beacon_block) same after) f by,
      )

-- What cmd_seal wrote, cmd_verify accepts: after a seal of a commitment whose beacon block lies
-- above its head, the manifest file and the preSalt on the disk pass every check, at the time of
-- the seal or whenever the endpoints still say the same of the blocks. The JSON has to read back,
-- signatures have to be recovered to their signer, and headers have to carry their own numbers.
pub cmd_seal-cmd_verify :
    (host : Host) (net net' : Net) (with_signature : Bool) (d d' : Disk) (c : Commitment)
    → ParseLaw host net d
    → SignLaw host
    → IsNumbered net
    → Extends net net'
    → d.commitment ≡ some c
    → c.head_number < c.beacon_block
    → cmd_seal host net with_signature d ≡ (ok tt, d')
    → (file : Bytes) × (presalt : Bytes) × (d'.manifest ≡ some file)
      × (d'.presalt ≡ some presalt)
      × IsAccepted host net' d' file presalt
cmd_seal-cmd_verify host net net' with_signature d d' c parses signs numbered later committed after
      sealing =
    verdict host net net' d d' c parses signs numbered later
      (cmd_seal-SealEnds host net with_signature d) sealing committed after
