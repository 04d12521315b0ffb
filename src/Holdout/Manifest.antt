-- ===== src/Holdout/Manifest.antt =====
-- evaluation/holdout/holdout.py: what cmd_seal reads and checks before it writes, and the checks
-- of cmd_verify. The endpoints (`net`) and the libraries (`host`) are parameters.
pub mod Facts
pub mod Reads
pub mod Newlines
pub mod Passing
pub mod Sound
use lemma_xperiment.Common.{
  ℕ, Bool, true, false, ◌&&◌, List, [], ◌∷◌, ◌++◌, none, some, ◌==◌, ltb, leb, if◌then◌else◌,
  eq_list, length, drop, ◌-◌, Outcome, ok, system_exit, value_error, type_error, file_error,
  require, or_raise, ◌>>=◌, ◌>>◌,
}
use lemma_xperiment.Blocks.{number, timestamp, Value, Header, eq_header}
use lemma_xperiment.Holdout.Derive.{Bytes, codes, interval, window_size, derive}
use lemma_xperiment.Holdout.Chain.{Net, finalized, at_block, agreed_header, number_of, hash_of}
use lemma_xperiment.Holdout.State.{
  Phase, precommit, sealed, Seal, Commitment, Manifest, Disk, Host, eq_attempts,
}

abbrev pub is_precommit : Phase → Bool
is_precommit precommit = true
is_precommit sealed = false

-- `[agreed_header(n) for n in range(start, start + WINDOW)]`
unfoldable pub agreed_headers : Net → List ℕ → Outcome (List Header)
agreed_headers net [] = ok []
agreed_headers net (n ∷ ns) = do
  h ← agreed_header net (at_block n)
  hs ← agreed_headers net ns
  ok (h ∷ hs)

abbrev pub salt_of : Host → Bytes → Bytes → Bytes
salt_of host presalt beacon_hash = host.sha256 (presalt ++ beacon_hash)

-- cmd_seal up to the manifest: all of it before the first write.
unfoldable pub seal_manifest : Host → Net → Disk → Outcome (Commitment × Manifest)
seal_manifest host net d = do
  c ← or_raise d.commitment file_error
  require (is_precommit c.phase) system_exit
  require (eq_list (host.sha256 d.rule) c.rule_hash) system_exit
  require (eq_list (host.sha256 d.selector) c.selector_hash) system_exit
  presalt ← or_raise d.presalt file_error
  require (eq_list (host.sha256 presalt) c.presalt_hash) system_exit
  fin ← agreed_header net finalized
  fin_number ← number_of fin
  require (leb c.beacon_block fin_number) system_exit
  beacon ← agreed_header net (at_block c.beacon_block)
  beacon_hash ← hash_of beacon
  (attempts, start) ← derive host.sha256 (salt_of host presalt beacon_hash)
  blocks ← agreed_headers net (interval start window_size)
  ok (
    c,
    record {
      set_id = c.set_id;
      rule_hash = c.rule_hash;
      selector_hash = c.selector_hash;
      presalt = presalt;
      beacon_block = c.beacon_block;
      beacon_hash = beacon_hash;
      beacon_timestamp = beacon timestamp;
      finalized_at_read = fin_number;
      salt = salt_of host presalt beacon_hash;
      attempts = attempts;
      start = start;
      blocks = blocks;
    },
  )

-- f"lemma-holdout/1 commitment {commitment}"
unfoldable pub message_of : Bytes → Bytes
message_of commitment = codes "lemma-holdout/1 commitment " ++ commitment

-- The names of the checks.
pub data Check : Type 0 where
  commitment presalt_in_manifest presalt_matches beacon_number beacon_above_head beacon_hash salt
        derivation consecutive rule_hash selector_hash signature signed_message :
      Check
  header_of : ℕ → Check

-- What verify prints: each check, and whether it passed.
abbrev pub Report : Type 0
Report = List (Check × Bool)

abbrev pub passes : Report → Bool
passes [] = true
passes ((c, b) ∷ report) = b && passes report

-- `data.rstrip(b"\n")` and `data.endswith(b"\n")`
unfoldable pub strip_step : ℕ → Bytes → Bytes
strip_step x [] = if x == 10 then [] else x ∷ []
strip_step x (y ∷ ys) = x ∷ y ∷ ys

unfoldable pub rstrip : Bytes → Bytes
unfolding strip_step
rstrip [] = []
rstrip (x ∷ xs) = strip_step x (rstrip xs)

abbrev pub ends_with_newline : Bytes → Bool
ends_with_newline [] = false
ends_with_newline (x ∷ []) = x == 10
ends_with_newline (x ∷ y ∷ ys) = ends_with_newline (y ∷ ys)

-- The hash that is compared with the commitment.
unfoldable pub hash_for : Host → Bytes → Bytes → Bytes
unfolding rstrip
hash_for host committed file =
    if eq_list (host.sha256 file) committed
    then host.sha256 file
    else if ends_with_newline file
    then host.sha256 (rstrip file)
    else host.sha256 file

abbrev pub number_matches : Header → ℕ → Bool
number_matches h n = elim (h number) [
  | Value.quantity (some m) ↦ m == n
  | Value.quantity none ↦ false
  | Value.text _ ↦ false
]

-- `[b["number"] for b in m["blocks"]] == list(range(start, start + WINDOW))`
unfoldable pub numbers_match : List Header → List ℕ → Bool
numbers_match [] [] = true
numbers_match (h ∷ hs) (n ∷ ns) = number_matches h n && numbers_match hs ns
numbers_match _ _ = false

-- The loop over the blocks of the manifest.
unfoldable pub header_checks : Net → List Header → Outcome Report
header_checks net [] = ok []
header_checks net (b ∷ bs) = do
  n ← number_of b
  h ← agreed_header net (at_block n)
  rest ← header_checks net bs
  ok ((header_of n, eq_header h b) ∷ rest)

-- `text.endswith(end)`
abbrev pub ends_with : Bytes → Bytes → Bool
ends_with text end = eq_list (drop (length text - length end) text) end

unfoldable pub signature_checks : Host → Seal → Outcome Report
signature_checks host s = elim s.signed [
  | none ↦ ok []
  | some g ↦ elim host.recover [
    | none ↦ ok []
    | some recover ↦ recover g.message g.signature >>= λ signer. ok (
        (signature, eq_list signer g.signer)
        ∷ (signed_message, ends_with g.message s.commitment)
        ∷ [])
  ]
]

-- `rule["sha256"] == c["rule"]["sha256"] == sha256_file(path)`
abbrev pub same_file : Bytes → Bytes → Bytes → Bool
same_file in_manifest committed now = eq_list in_manifest committed && eq_list committed now

-- cmd_verify on the bytes of a manifest file and a preSalt. It exits with 0 exactly when every
-- check of the report passed.
unfoldable pub cmd_verify : Host → Net → Disk → (file presalt : Bytes) → Outcome Report
unfolding signature_checks
cmd_verify host net d file presalt = do
  c ← or_raise d.commitment file_error
  require (if is_precommit c.phase then false else true) system_exit
  s ← or_raise c.seal type_error
  m ← or_raise (host.parse file) value_error
  beacon ← agreed_header net (at_block m.beacon_block)
  beacon_hash' ← hash_of beacon
  let salt' = salt_of host presalt beacon_hash'
  (attempts, start) ← derive host.sha256 salt'
  headers ← header_checks net m.blocks
  signatures ← signature_checks host s
  ok (
      (commitment, eq_list (hash_for host s.commitment file) s.commitment)
        ∷ (presalt_in_manifest, eq_list m.presalt presalt)
        ∷ (presalt_matches, eq_list (host.sha256 presalt) c.presalt_hash)
        ∷ (beacon_number, m.beacon_block == c.beacon_block)
        ∷ (beacon_above_head, ltb c.head_number m.beacon_block)
        ∷ (beacon_hash, eq_list beacon_hash' m.beacon_hash)
        ∷ (salt, eq_list salt' m.salt)
        ∷ (derivation, start == m.start && eq_attempts attempts m.attempts)
        ∷ (consecutive, numbers_match m.blocks (interval start window_size))
        ∷ headers
      ++ (rule_hash, same_file m.rule_hash c.rule_hash (host.sha256 d.rule))
        ∷ (selector_hash, same_file m.selector_hash c.selector_hash (host.sha256 d.selector))
        ∷ signatures)
