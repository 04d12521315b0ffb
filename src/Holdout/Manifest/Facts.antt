-- ===== src/Holdout/Manifest/Facts.antt =====
-- What holds of a manifest that cmd_seal is about to write.
use lemma_xperiment.Common.{
  ◌≤◌, ◌≡◌, refl, subst, true, some, leb, leb→le, eq_list, eq_list→eq, Outcome, ok, err, require,
  or_raise, >>=-elim, or_raise-eq-ok, require-eq-ok, system_exit, file_error,
}
use lemma_xperiment.Blocks.{Header}
use lemma_xperiment.Holdout.Derive.{interval, window_size, derive}
use lemma_xperiment.Holdout.Chain.{Net, at_block, finalized, agreed_header, number_of, hash_of}
use lemma_xperiment.Holdout.State.{Phase, precommit, sealed, Commitment, Manifest, Disk, Host}
use lemma_xperiment.Holdout.Manifest.{is_precommit, agreed_headers, salt_of, seal_manifest}

-- The manifest follows from the commitment, the preSalt and the chain.
pub record Facts (host : Host) (net : Net) (d : Disk) (c : Commitment) (m : Manifest) : Type 0 where
  pub committed : d.commitment ≡ some c
  pub phase : c.phase ≡ precommit
  pub rule : host.sha256 d.rule ≡ c.rule_hash
  pub selector : host.sha256 d.selector ≡ c.selector_hash
  pub presalt : d.presalt ≡ some m.presalt
  pub presalt_hash : host.sha256 m.presalt ≡ c.presalt_hash
  pub same_rule : m.rule_hash ≡ c.rule_hash
  pub same_selector : m.selector_hash ≡ c.selector_hash
  pub same_beacon : m.beacon_block ≡ c.beacon_block
  pub final : c.beacon_block ≤ m.finalized_at_read
  pub beacon : Header
  pub beacon_read : agreed_header net (at_block c.beacon_block) ≡ ok beacon
  pub beacon_hash : hash_of beacon ≡ ok m.beacon_hash
  pub salted : m.salt ≡ salt_of host m.presalt m.beacon_hash
  pub derived : derive host.sha256 m.salt ≡ ok (m.attempts, m.start)
  pub blocks : agreed_headers net (interval m.start window_size) ≡ ok m.blocks

is_precommit→eq : (p : Phase) → is_precommit p ≡ true → p ≡ precommit
is_precommit→eq precommit h = refl
is_precommit→eq sealed h = cc

abbrev Sealing : Host → Net → Disk → Outcome (Commitment × Manifest) → Type 0
Sealing host net d (ok (c, m)) = Facts host net d c m
Sealing host net d (err e) = Unit

pub seal_manifest-Facts :
    (host : Host) (net : Net) (d : Disk) (c : Commitment) (m : Manifest)
    → seal_manifest host net d ≡ ok (c, m)
    → Facts host net d c m
unfolding seal_manifest
seal_manifest-Facts host net d c m done =
    >>=-elim (or_raise d.commitment file_error) _ done λ c' committed h1.
      >>=-elim (require (is_precommit c'.phase) system_exit) _ h1 λ _ phase h2.
        >>=-elim (require (eq_list (host.sha256 d.rule) c'.rule_hash) system_exit) _ h2 λ _ rule h3.
          >>=-elim (require (eq_list (host.sha256 d.selector) c'.selector_hash) system_exit) _ h3
            λ _ selector h4. >>=-elim (or_raise d.presalt file_error) _ h4 λ presalt drawn h5.
              >>=-elim (require (eq_list (host.sha256 presalt) c'.presalt_hash) system_exit) _ h5
                λ _ hashed h6. >>=-elim (agreed_header net finalized) _ h6 λ fin _ h7.
                  >>=-elim (number_of fin) _ h7 λ fin_number _ h8.
                    >>=-elim (require (leb c'.beacon_block fin_number) system_exit) _ h8
                      λ _ final h9.
                        >>=-elim (agreed_header net (at_block c'.beacon_block)) _ h9
                          λ beacon read h10.
                            >>=-elim (hash_of beacon) _ h10 λ beacon_hash named h11.
                              >>=-elim (derive host.sha256 (salt_of host presalt beacon_hash)) _ h11
                                λ draw derived h12.
                                  >>=-elim (agreed_headers net (interval draw.1 window_size)) _ h12
                                    λ blocks listed h13.
                                      subst
                                        (λ (z : Outcome (Commitment × Manifest)).
                                          Sealing host net d z)
                                        h13
                                        (record {
                                          committed = or_raise-eq-ok _ _ committed;
                                          phase = is_precommit→eq _ (require-eq-ok _ _ phase);
                                          rule = eq_list→eq _ _ (require-eq-ok _ _ rule);
                                          selector = eq_list→eq _ _ (require-eq-ok _ _ selector);
                                          presalt = or_raise-eq-ok _ _ drawn;
                                          presalt_hash = eq_list→eq _ _ (require-eq-ok _ _ hashed);
                                          same_rule = refl;
                                          same_selector = refl;
                                          same_beacon = refl;
                                          final = leb→le _ _ (require-eq-ok _ _ final);
                                          beacon = beacon;
                                          beacon_read = read;
                                          beacon_hash = named;
                                          salted = refl;
                                          derived = derived;
                                          blocks = listed;
                                        })
