-- ===== src/Trie/Nibbles/RoundTrip.antt =====
-- The round trips of evaluation/fixtures/trie/gen.py between nibbles and bytes.
use Prim.Native.Nat.{bit_or}
use lemma_xperiment.Common.{
  ℕ, zero, suc, ◌+◌, ◌*◌, ◌/◌, ◌%◌, ◌<◌, ◌≡◌, ◌≢◌, refl, Bool, true, false, List, [], ◌∷◌, ◌⊎◌, inl,
  inr, arith, ◌&&◌, ◌==◌, ==_iff, if◌then◌else◌, length, All, ok, err, assertion_error, out_of_fuel,
  Bool-cases, lt→ltb,
}
use lemma_xperiment.Trie.Nibbles.{
  Bytes, nibbles, join_nibbles, compact_encode, compact_parts, compact_decode, key_from_nibbles,
}

abbrev pub AreNibbles : List ℕ → Type 0
AreNibbles ns = All (λ n. n < 16) ns

abbrev pub AreBytes : Bytes → Type 0
AreBytes b = All (λ x. x < 256) b

-- The sixteen values of `b` for one `a`, and the rows of the table below `a`.
row : (a n : ℕ) → Bool
row a zero = true
row a (suc b) = bit_or (a * 16) b == (a * 16 + b) && row a b

rows : ℕ → Bool
rows zero = true
rows (suc a) = row a 16 && rows a

row-at : (a n b : ℕ) → row a n ≡ true → b < n → (bit_or (a * 16) b == (a * 16 + b)) ≡ true
unfolding row
row-at a zero b full below = absurd (omega arith)
row-at a (suc n) b full below = ground (arith, row-at a n b)

rows-at : (m a : ℕ) → rows m ≡ true → a < m → row a 16 ≡ true
unfolding rows
rows-at zero a full below = absurd (omega arith)
rows-at (suc m) a full below = ground (arith, rows-at m a)

table : rows 16 ≡ true
unfolding rows row
table = refl

-- On nibbles `a << 4 | b` is a sum.
bit_or-eq-add : (a b : ℕ) → a < 16 → b < 16 → bit_or (a * 16) b ≡ a * 16 + b
bit_or-eq-add a b ha hb = (==_iff _ _).0 (row-at a 16 b (rows-at 16 a table ha) hb)

-- An even number of nibbles joins to bytes that split into the same nibbles.
pub nibbles-join_nibbles :
    (ns : List ℕ)
    → AreNibbles ns
    → length ns % 2 ≡ 0
    → (b : Bytes) × (join_nibbles ns ≡ ok b) × (nibbles b ≡ ns)
unfolding join_nibbles nibbles
nibbles-join_nibbles [] small even = ([], refl, refl)
nibbles-join_nibbles (a ∷ []) small even = absurd (omega arith)
nibbles-join_nibbles (a ∷ c ∷ ns) small even =
    let (b, joined, split) = nibbles-join_nibbles ns small.1.1 (omega arith) in
    (
      (a * 16 + c) ∷ b,
      rw (bit_or-eq-add a c small.0 small.1.0, joined, lt→ltb (a * 16 + c) 256 (omega arith)) refl,
      ground arith,
    )

-- Splitting a byte string and joining the nibbles again gives it back.
pub join_nibbles-nibbles : (b : Bytes) → AreBytes b → join_nibbles (nibbles b) ≡ ok b
unfolding join_nibbles nibbles
join_nibbles-nibbles [] small = refl
join_nibbles-nibbles (x ∷ b) small =
    let byte : x / 16 * 16 + x % 16 ≡ x = omega arith in
    rw
      (
        bit_or-eq-add (x / 16) (x % 16) (omega arith) (omega arith),
        byte,
        join_nibbles-nibbles b small.1,
        lt→ltb x 256 small.0,
      )
      refl

pub length-nibbles : (b : Bytes) → length (nibbles b) ≡ 2 * length b
unfolding nibbles
length-nibbles [] = refl
length-nibbles (x ∷ b) = omega (arith, length-nibbles b)

pub nibbles-AreNibbles : (b : Bytes) → AreBytes b → AreNibbles (nibbles b)
unfolding nibbles
nibbles-AreNibbles [] small = tt
nibbles-AreNibbles (x ∷ b) small = (omega arith, (omega arith, nibbles-AreNibbles b small.1))

abbrev flag : Bool → ℕ
flag is_leaf = if is_leaf then 2 else 0

flag_small : (is_leaf : Bool) (n : ℕ) → n < 2 → flag is_leaf + n < 16
flag_small is_leaf n h = ground arith

flag_odd :
    (is_leaf : Bool) (nibs : List ℕ)
    → compact_parts ((flag is_leaf + 1) ∷ nibs) ≡ ok (nibs, is_leaf)
unfolding compact_parts
flag_odd true nibs = refl
flag_odd false nibs = refl

flag_even :
    (is_leaf : Bool) (nibs : List ℕ) → compact_parts (flag is_leaf ∷ 0 ∷ nibs) ≡ ok (nibs, is_leaf)
unfolding compact_parts
flag_even true nibs = refl
flag_even false nibs = refl

-- `compact_encode` of a path of nibbles never raises, and `compact_decode` gives back the path and
-- the leaf flag.
pub compact_decode-encode :
    (nibs : List ℕ) (is_leaf : Bool)
    → AreNibbles nibs
    → (b : Bytes) × (compact_encode nibs is_leaf ≡ ok b) × (compact_decode b ≡ ok (nibs, is_leaf))
unfolding compact_encode compact_decode
compact_decode-encode nibs is_leaf small = elim (Bool-cases (length nibs % 2 == 1)) [
  | inl odd ↦
      let (b, joined, split) =
        nibbles-join_nibbles ((flag is_leaf + 1) ∷ nibs) (flag_small is_leaf 1 (omega arith), small)
          (ground arith) in
      (b, rw odd joined, rw split (flag_odd is_leaf nibs))
  | inr even ↦
      let (b, joined, split) =
        nibbles-join_nibbles (flag is_leaf ∷ 0 ∷ nibs) (ground arith, (omega arith, small))
          (ground arith) in
      (b, rw even joined, rw split (flag_even is_leaf nibs))
]

-- A 32-byte key splits into 64 nibbles, from which `key_from_nibbles` makes the same key.
pub key_from_nibbles-nibbles :
    (key : Bytes) → AreBytes key → length key ≡ 32 → key_from_nibbles (nibbles key) ≡ ok key
unfolding key_from_nibbles
key_from_nibbles-nibbles key small size =
    let full : length (nibbles key) ≡ 64 = omega (arith, length-nibbles key) in
    rw (full, join_nibbles-nibbles key small) refl

-- Of any 64 nibbles `key_from_nibbles` makes a key that splits into them; of any other number of
-- them it makes none.
pub nibbles-key_from_nibbles :
    (nibs : List ℕ)
    → AreNibbles nibs
    → (length nibs ≡ 64) × ((key : Bytes) × (key_from_nibbles nibs ≡ ok key) × (nibbles key ≡ nibs))
      ⊎ (length nibs ≢ 64) × (key_from_nibbles nibs ≡ err assertion_error)
unfolding key_from_nibbles
nibbles-key_from_nibbles nibs small = elim (Bool-cases (length nibs == 64)) [
  | inl full ↦
      let size : length nibs ≡ 64 = ground arith in
      let (key, joined, split) = nibbles-join_nibbles nibs small (omega arith) in
      inl (size, (key, rw full joined, split))
  | inr other ↦ inr (ground arith, rw other refl)
]

pub compact_decode-ne-out_of_fuel : (b : Bytes) → compact_decode b ≢ err out_of_fuel
unfolding compact_decode compact_parts
compact_decode-ne-out_of_fuel b = elim (nibbles b) as (λ ns. compact_parts ns ≢ err out_of_fuel) [
  | [] ↦ λ h. cc
  | n ∷ ns ↦ λ h. ground arith
]
