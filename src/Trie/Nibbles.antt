-- ===== src/Trie/Nibbles.antt =====
-- evaluation/fixtures/trie/gen.py: nibbles, compact_encode, compact_decode, key_from_nibbles.
pub mod RoundTrip
use Prim.Native.Nat.{bit_or}
use lemma_xperiment.Common.{
  ℕ, zero, suc, ◌+◌, ◌*◌, ◌/◌, ◌%◌, ◌^◌, ◌<◌, ◌≡◌, refl, Bool, true, false, List, [], ◌∷◌, ◌++◌,
  arith, ltb, leb, ◌==◌, if◌then◌else◌, length, drop, Outcome, ok, err, index_error, value_error,
  assertion_error, require, ◌>>=◌, ◌>>◌,
}

abbrev pub Bytes : Type 0
Bytes = List ℕ

-- `x >> 4` and `x & 15` of each byte.
unfoldable pub nibbles : Bytes → List ℕ
nibbles [] = []
nibbles (x ∷ b) = x / 2 ^ 4 ∷ x % 2 ^ 4 ∷ nibbles b

-- `bytes(ns[i] << 4 | ns[i + 1] for i in range(0, len(ns), 2))`, which raises on a missing second
-- nibble and on a value that is no byte.
unfoldable pub join_nibbles : List ℕ → Outcome Bytes
join_nibbles [] = ok []
join_nibbles (a ∷ []) = err index_error
join_nibbles (a ∷ b ∷ ns) = do
  let x = bit_or (a * 2 ^ 4) b
  rest ← join_nibbles ns
  require (ltb x 256) value_error
  ok (x ∷ rest)

unfoldable pub compact_encode : List ℕ → Bool → Outcome Bytes
compact_encode nibs is_leaf =
    let flag = if is_leaf then 2 else 0 in
    if length nibs % 2 == 1
    then join_nibbles ((flag + 1) ∷ nibs)
    else join_nibbles (flag ∷ 0 ∷ nibs)

unfoldable pub compact_parts : List ℕ → Outcome (List ℕ × Bool)
compact_parts [] = err index_error
compact_parts (flag ∷ nibs) =
    let is_leaf = leb 2 flag in
    if flag % 2 == 1 then ok (nibs, is_leaf) else ok (drop 1 nibs, is_leaf)

unfoldable pub compact_decode : Bytes → Outcome (List ℕ × Bool)
compact_decode b = compact_parts (nibbles b)

unfoldable pub key_from_nibbles : List ℕ → Outcome Bytes
key_from_nibbles nibs = do require (length nibs == 64) assertion_error; join_nibbles nibs
