-- ===== src/Holdout/Manifest/Sound.antt =====
-- What a verification that passes establishes.
use lemma_xperiment.Common.{
  ℕ, ◌<◌, ◌≡◌, refl, sym, ◌∙◌, ap, subst, Bool, true, false, ◌&&◌, List, [], ◌∷◌, ◌++◌, none, some,
  ◌==◌, ==_iff, ltb, ltb→lt, eq_list, eq_list→eq, Outcome, ok, err, require, or_raise, >>=-elim,
  or_raise-eq-ok, require-eq-ok, system_exit, file_error, type_error, value_error, if◌then◌else◌,
}
use lemma_xperiment.Blocks.{Field, number, Value, Header, eq_header, eq_header→eq}
use lemma_xperiment.Holdout.Derive.{Bytes, Attempt, interval, window_size, derive}
use lemma_xperiment.Holdout.Chain.{Net, at_block, agreed_header, number_of, hash_of}
use lemma_xperiment.Holdout.State.{
  Phase, precommit, sealed, Seal, Commitment, Manifest, Disk, Host, eq_attempts,
}
use lemma_xperiment.Holdout.Manifest.Newlines.{IsDigest, hash_for-IsDigest}
use lemma_xperiment.Holdout.Manifest.{
  Check, Report, passes, is_precommit, salt_of, hash_for, number_matches, numbers_match,
  header_checks, signature_checks, same_file, cmd_verify,
}

-- The blocks of a manifest are what both endpoints say of the blocks of a list of numbers.
pub AreOnChain : Net → List Header → List ℕ → Type 0
AreOnChain net [] [] = Unit
AreOnChain net (b ∷ bs) (n ∷ ns) =
    ((h : Header) × (agreed_header net (at_block n) ≡ ok h) × ((f : Field) → h f ≡ b f))
    × AreOnChain net bs ns
AreOnChain net _ _ = ⊥

pub record IsVerified (host : Host) (net : Net) (d : Disk) (file presalt : Bytes) : Type 0 where
  pub c : Commitment
  pub s : Seal
  pub m : Manifest
  pub committed : d.commitment ≡ some c
  pub phase : c.phase ≡ sealed
  pub seal : c.seal ≡ some s
  pub parsed : host.parse file ≡ some m
  pub hashed : IsDigest host.sha256 file s.commitment
  pub presalt_hash : host.sha256 presalt ≡ c.presalt_hash
  pub beacon_block : m.beacon_block ≡ c.beacon_block
  pub after_head : c.head_number < c.beacon_block
  pub beacon : Header
  pub beacon_hash : Bytes
  pub beacon_read : agreed_header net (at_block c.beacon_block) ≡ ok beacon
  pub beacon_named : hash_of beacon ≡ ok beacon_hash
  pub attempts : List Attempt
  pub derived : derive host.sha256 (salt_of host presalt beacon_hash) ≡ ok (attempts, m.start)
  pub blocks : AreOnChain net m.blocks (interval m.start window_size)
  pub rule : host.sha256 d.rule ≡ c.rule_hash
  pub selector : host.sha256 d.selector ≡ c.selector_hash

pub and-true : (a b : Bool) → (a && b) ≡ true → (a ≡ true) × (b ≡ true)
and-true true b h = (refl, h)
and-true false b h = cc

pub passes-append : (r s : Report) → passes (r ++ s) ≡ true → (passes r ≡ true) × (passes s ≡ true)
passes-append [] s h = (refl, h)
passes-append ((c, b) ∷ r) s h =
    let (first, rest) = and-true b _ h in
    let (left, right) = passes-append r s rest in (rw (first, left) refl, right)

number_matches-number_of :
    (b : Header) (n m : ℕ) → number_matches b n ≡ true → number_of b ≡ ok m → m ≡ n
unfolding number_of
number_matches-number_of b n m h e = go (b number) h e
  where
    go :
        (v : Value)
        → (elim v [
          | Value.quantity (some k) ↦ k == n
          | Value.quantity none ↦ false
          | Value.text _ ↦ false
        ])
          ≡ true
        → (elim v as (λ w. Outcome ℕ) [
          | Value.quantity k ↦ or_raise k type_error
          | Value.text _ ↦ err type_error
        ])
          ≡ ok m
        → m ≡ n
    go (Value.quantity (some k)) h e = let same : k ≡ m = cc in sym same ∙ (==_iff k n).0 h
    go (Value.quantity none) h e = cc
    go (Value.text t) h e = cc

header_checks-AreOnChain :
    (net : Net) (bs : List Header) (ns : List ℕ) (report : Report)
    → numbers_match bs ns ≡ true
    → header_checks net bs ≡ ok report
    → passes report ≡ true
    → AreOnChain net bs ns
unfolding numbers_match header_checks AreOnChain
header_checks-AreOnChain net [] [] report same done pass = tt
header_checks-AreOnChain net [] (n ∷ ns) report same done pass = cc
header_checks-AreOnChain net (b ∷ bs) [] report same done pass = cc
header_checks-AreOnChain net (b ∷ bs) (n ∷ ns) report same done pass =
    let (this, others) = and-true (number_matches b n) _ same in
    >>=-elim (number_of b) _ done λ k numbered h1.
      >>=-elim (agreed_header net (at_block k)) _ h1 λ h read h2.
        >>=-elim (header_checks net bs) _ h2 λ rest listed h3.
          let made : (Check.header_of k, eq_header h b) ∷ rest ≡ report = cc h3 in
          let (equal, below) =
            and-true (eq_header h b) (passes rest) (subst (λ r. passes r ≡ true) (sym made) pass) in
          (
            (
              h,
              ap (λ j. agreed_header net (at_block j))
                    (sym (number_matches-number_of b n k this numbered))
                  ∙ read,
              λ f. eq_header→eq h b f equal,
            ),
            header_checks-AreOnChain net bs ns rest others listed below,
          )

sealed_phase : (p : Phase) → (if is_precommit p then false else true) ≡ true → p ≡ sealed
sealed_phase precommit h = cc
sealed_phase sealed h = refl

-- The report of a verification, from what it read.
abbrev pub report_of :
    Host
    → Disk
    → (file presalt : Bytes) → Commitment
    → Seal
    → Manifest
    → Bytes
    → List Attempt
    → ℕ
    → Report
    → Report
    → Report
report_of host d file presalt c s m beacon_hash attempts start headers signatures =
    (Check.commitment, eq_list (hash_for host s.commitment file) s.commitment)
      ∷ (Check.presalt_in_manifest, eq_list m.presalt presalt)
      ∷ (Check.presalt_matches, eq_list (host.sha256 presalt) c.presalt_hash)
      ∷ (Check.beacon_number, m.beacon_block == c.beacon_block)
      ∷ (Check.beacon_above_head, ltb c.head_number m.beacon_block)
      ∷ (Check.beacon_hash, eq_list beacon_hash m.beacon_hash)
      ∷ (Check.salt, eq_list (salt_of host presalt beacon_hash) m.salt)
      ∷ (Check.derivation, start == m.start && eq_attempts attempts m.attempts)
      ∷ (Check.consecutive, numbers_match m.blocks (interval start window_size))
      ∷ headers
    ++ (Check.rule_hash, same_file m.rule_hash c.rule_hash (host.sha256 d.rule))
      ∷ (Check.selector_hash, same_file m.selector_hash c.selector_hash (host.sha256 d.selector))
      ∷ signatures

same_file→eq : (a b c : Bytes) → same_file a b c ≡ true → c ≡ b
same_file→eq a b c h = sym (eq_list→eq b c (and-true (eq_list a b) _ h).1)

module _ (host : Host) (net : Net) (d : Disk) (file presalt : Bytes) (c : Commitment) (s : Seal)
    (m : Manifest) (beacon : Header) (beacon_hash : Bytes) (attempts : List Attempt) (start : ℕ)
    (headers signatures : Report) (committed : d.commitment ≡ some c) (phase : c.phase ≡ sealed)
    (seal : c.seal ≡ some s) (parsed : host.parse file ≡ some m)
    (read : agreed_header net (at_block m.beacon_block) ≡ ok beacon)
    (named : hash_of beacon ≡ ok beacon_hash)
    (derived : derive host.sha256 (salt_of host presalt beacon_hash) ≡ ok (attempts, start))
    (listed : header_checks net m.blocks ≡ ok headers) where
  passing-IsVerified :
      passes (report_of host d file presalt c s m beacon_hash attempts start headers signatures)
        ≡ true
      → IsVerified host net d file presalt
  passing-IsVerified pass =
      let (p1, h1) = and-true _ _ pass in
      let (p2, h2) = and-true _ _ h1 in
      let (p3, h3) = and-true _ _ h2 in
      let (p4, h4) = and-true _ _ h3 in
      let (p5, h5) = and-true _ _ h4 in
      let (p6, h6) = and-true _ _ h5 in
      let (p7, h7) = and-true _ _ h6 in
      let (p8, h8) = and-true _ _ h7 in
      let (p9, h9) = and-true _ _ h8 in
      let (p10, h10) = passes-append headers _ h9 in
      let (p11, h11) = and-true _ _ h10 in
      let (p12, _) = and-true _ _ h11 in
      let beacon_same : m.beacon_block ≡ c.beacon_block = (==_iff _ _).0 p4 in
      let start_same : start ≡ m.start = (==_iff _ _).0 (and-true _ _ p8).0 in
      record {
        c = c;
        s = s;
        m = m;
        committed = committed;
        phase = phase;
        seal = seal;
        parsed = parsed;
        hashed = hash_for-IsDigest host file s.commitment (eq_list→eq _ _ p1);
        presalt_hash = eq_list→eq _ _ p3;
        beacon_block = beacon_same;
        after_head = subst (λ n. c.head_number < n) beacon_same (ltb→lt _ _ p5);
        beacon = beacon;
        beacon_hash = beacon_hash;
        beacon_read = subst (λ n. agreed_header net (at_block n) ≡ ok beacon) beacon_same read;
        beacon_named = named;
        attempts = attempts;
        derived =
            subst (λ n. derive host.sha256 (salt_of host presalt beacon_hash) ≡ ok (attempts, n))
              start_same derived;
        blocks =
            subst (λ n. AreOnChain net m.blocks (interval n window_size)) start_same
              (header_checks-AreOnChain net m.blocks (interval start window_size) headers p9 listed
                p10);
        rule = same_file→eq _ _ _ p11;
        selector = same_file→eq _ _ _ p12;
      }

-- A verification whose checks all pass has read a sealed commitment: sha256 of the file, or, where
-- the file ends in newlines, sha256 of the file without all of these, is the hash that the commitment
-- records, the preSalt has its hash, the beacon block is the committed one and
-- above the head at the precommit, the start of the window is the one derived from the preSalt
-- and the hash on which both endpoints agree for the beacon block, the blocks of the manifest are
-- field by field what both endpoints say of the ten blocks from there, and the rule and the script
-- have the hashes that the commitment records.
pub cmd_verify-IsVerified :
    (host : Host) (net : Net) (d : Disk) (file presalt : Bytes) (report : Report)
    → cmd_verify host net d file presalt ≡ ok report
    → passes report ≡ true
    → IsVerified host net d file presalt
unfolding cmd_verify
cmd_verify-IsVerified host net d file presalt report done pass =
    >>=-elim (or_raise d.commitment file_error) _ done λ c committed h1.
      >>=-elim (require (if is_precommit c.phase then false else true) system_exit) _ h1
        λ _ phase h2. >>=-elim (or_raise c.seal type_error) _ h2 λ s seal h3.
          >>=-elim (or_raise (host.parse file) value_error) _ h3 λ m parsed h4.
            >>=-elim (agreed_header net (at_block m.beacon_block)) _ h4 λ beacon read h5.
              >>=-elim (hash_of beacon) _ h5 λ beacon_hash named h6.
                >>=-elim (derive host.sha256 (salt_of host presalt beacon_hash)) _ h6
                  λ draw derived h7. >>=-elim (header_checks net m.blocks) _ h7 λ headers listed h8.
                    >>=-elim (signature_checks host s) _ h8 λ signatures signed h9.
                      let made : report_of host d file presalt c s m beacon_hash draw.0 draw.1
                            headers signatures
                          ≡ report =
                        cc h9 in
                      passing-IsVerified host net d file presalt c s m beacon beacon_hash draw.0
                        draw.1 headers signatures (or_raise-eq-ok _ _ committed)
                        (sealed_phase _ (require-eq-ok _ _ phase)) (or_raise-eq-ok _ _ seal)
                        (or_raise-eq-ok _ _ parsed) read named derived listed
                        (subst (λ r. passes r ≡ true) (sym made) pass)
