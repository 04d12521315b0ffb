-- ===== src/Holdout/Chain.antt =====
-- evaluation/holdout/holdout.py: rpc, header, sources, agreed_header. What an endpoint does at
-- each attempt is a parameter.
pub mod Agreement
use lemma_xperiment.Common.{
  ℕ, zero, suc, ◌+◌, Bool, true, false, List, [], ◌∷◌, Option, none, some, ◌==◌, if◌then◌else◌,
  Outcome, ok, err, system_exit, type_error, value_error, key_error, out_of_fuel, or_raise, require,
  ◌>>=◌, ◌>>◌,
}
use lemma_xperiment.Blocks.{
  Field, number, hash, timestamp, transaction_count, Value, quantity, text, Raw, Header,
  is_quantity, eq_header,
}

-- What one request comes to: a result (null where the block is unknown), an error of the endpoint,
-- no answer, or an answer that is no JSON, no object, or an object without a result.
pub data Attempted : Type 0 where
  result : Option Raw → Attempted
  rpc_error : Attempted
  network_error : Attempted
  not_json not_object no_result : Attempted

pub data Which : Type 0 where
  latest finalized : Which
  at_block : ℕ → Which

abbrev pub Source : Type 0
Source = Which → ℕ → Attempted

-- Four attempts; an error of the endpoint is final, and so is an answer that cannot be read.
unfoldable pub rpc_from : (left attempt : ℕ) → (ℕ → Attempted) → Outcome (Option Raw)
rpc_from zero attempt attempts = err out_of_fuel
rpc_from (suc left) attempt attempts = elim (attempts attempt) [
  | result b ↦ ok b
  | rpc_error ↦ err system_exit
  | not_json ↦ err value_error
  | not_object ↦ err type_error
  | no_result ↦ err key_error
  | network_error ↦ elim (attempt == 3) [
    | true ↦ err system_exit
    | false ↦ rpc_from left (attempt + 1) attempts
  ]
]

unfoldable pub rpc : (ℕ → Attempted) → Outcome (Option Raw)
rpc attempts = rpc_from 4 0 attempts

-- The values kept of a block.
unfoldable pub kept : Raw → Header
kept b transaction_count = quantity (some b.transactions)
kept b f = if is_quantity f then quantity (b.quantity_of f) else text (b.text_of f)

unfoldable pub header : Source → Which → Outcome Header
header source which = do b ← rpc (source which); raw ← or_raise b system_exit; ok (kept raw)

-- The archive endpoint is `none` where RPC_1 is not set.
pub record Net : Type 0 where
  pub archive : Option Source
  pub public : Source

unfoldable pub agreed_header : Net → Which → Outcome Header
agreed_header net which = do
  archive ← or_raise net.archive system_exit
  h ← header archive which
  g ← header net.public which
  require (eq_header h g) system_exit
  ok h

-- `h["number"]` where a number is wanted, and a hash where bytes are: null is a TypeError.
unfoldable pub number_of : Header → Outcome ℕ
number_of h = elim (h number) [ quantity v ↦ or_raise v type_error | text _ ↦ err type_error ]

unfoldable pub hash_of : Header → Outcome (List ℕ)
hash_of h = elim (h hash) [ text v ↦ or_raise v type_error | quantity _ ↦ err type_error ]
