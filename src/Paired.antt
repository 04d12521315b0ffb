-- ===== src/Paired.antt =====
-- evaluation/analysis/paired.py: the acceptance computation over paired executions. Floating-point
-- numbers, the random generator and the seed's hash are parameters. A median of whole numbers is
-- taken exactly, as Python's is below 2 ^ 53.

pub mod Decision
pub mod Reached
pub mod Medians
use lemma_xperiment.Common.{
  Floats, ℕ, zero, suc, ◌+◌, ◌-◌, ◌*◌, ◌/◌, ◌%◌, Bool, true, false, not, ◌&&◌, ◌||◌, List, [], ◌∷◌,
  map, Option, none, some, ◌==◌, ltb, leb, if◌then◌else◌, length, get_elem?, eq_list, sort, Outcome,
  ok, err, index_error, type_error, value_error, zero_division_error, or_raise, require, ◌>>=◌,
  ◌>>◌, member, distinct, filter, every,
}
use Prim.Native.Nat.{min}

pub data Variant : Type 0 where
  baseline candidate alternative : Variant

abbrev pub eq_variant : Variant → Variant → Bool
eq_variant baseline baseline = true
eq_variant candidate candidate = true
eq_variant alternative alternative = true
eq_variant _ _ = false

pub record Execution : Type 0 where
  pub block : ℕ
  pub variant : Variant
  pub stdin_sha256 : List ℕ
  pub pgu : ℕ
  pub reached : Bool
  pub public_values : Option (List ℕ)

pub record Measured : Type 0 where
  pub executions : ℕ
  pub pgu : ℕ
  pub same_stdin : Bool
  pub identical_pgu : Bool
  pub public_values : List (Option (List ℕ))

abbrev pub is_single {ℓ} : {A : Type ℓ} → List A → Bool
is_single (x ∷ []) = true
is_single _ = false

abbrev pub eq_public : Option (List ℕ) → Option (List ℕ) → Bool
eq_public none none = true
eq_public (some a) (some b) = eq_list a b
eq_public _ _ = false

unfoldable pub leb_bytes : List ℕ → List ℕ → Bool
leb_bytes [] b = true
leb_bytes (x ∷ a) [] = false
leb_bytes (x ∷ a) (y ∷ b) = ltb x y || x == y && leb_bytes a b

abbrev pub leb_public : Option (List ℕ) → Option (List ℕ) → Bool
leb_public (some a) (some b) = leb_bytes a b
leb_public _ _ = true

abbrev pub is_null : Option (List ℕ) → Bool
is_null none = true
is_null (some _) = false

-- `sorted` compares null with a text only where the set holds both, which is a TypeError.
unfoldable pub sorted_public : List (Option (List ℕ)) → Outcome (List (Option (List ℕ)))
sorted_public vs =
    if every (λ v. not (is_null v)) vs || is_single vs
    then ok (sort leb_public vs)
    else err type_error

-- `int(statistics.median(...))` of whole numbers.
unfoldable pub median_nat : List ℕ → Outcome ℕ
median_nat xs =
    let sorted = sort leb xs in
    if length xs % 2 == 1 then or_raise (get_elem? sorted (length xs / 2)) value_error else do
      a ← or_raise (get_elem? sorted (length xs / 2 - 1)) value_error
      b ← or_raise (get_elem? sorted (length xs / 2)) value_error
      ok ((a + b) / 2)

abbrev pub pgu_of : Execution → ℕ
pgu_of e = e.pgu

unfoldable pub rows_of : List Execution → ℕ → Variant → List Execution
rows_of execs b v = filter (λ (e : Execution). e.block == b && eq_variant e.variant v) execs

-- `not rows or not all(r["reached"] for r in rows)`
unfoldable pub is_unreached : List Execution → Bool
is_unreached [] = true
is_unreached (r ∷ rows) = not (every (λ (e : Execution). e.reached) (r ∷ rows))

unfoldable pub measure : List Execution → Outcome (Option Measured)
measure rows = if is_unreached rows then ok none else do
  m ← median_nat (map pgu_of rows)
  values ← sorted_public (distinct eq_public (map (λ (e : Execution). e.public_values) rows))
  ok (
      some (record {
        executions = length rows;
        pgu = m;
        same_stdin = is_single (distinct eq_list (map (λ (e : Execution). e.stdin_sha256) rows));
        identical_pgu = is_single (distinct (λ x y. x == y) (map pgu_of rows));
        public_values = values;
      }))

-- A dictionary from blocks, in their order.
abbrev pub PerBlock : Type 0
PerBlock = List (ℕ × Option Measured)

unfoldable pub blocks_of : List Execution → List ℕ
blocks_of execs = sort leb (distinct (λ x y. x == y) (map (λ (e : Execution). e.block) execs))

unfoldable pub measure_all : List Execution → Variant → List ℕ → Outcome PerBlock
measure_all execs v [] = ok []
measure_all execs v (b ∷ bs) = do
  m ← measure (rows_of execs b v)
  rest ← measure_all execs v bs
  ok ((b, m) ∷ rest)

unfoldable pub per_block : List Execution → Variant → Outcome PerBlock
per_block execs v = measure_all execs v (blocks_of execs)

-- `d.get(blk)`
unfoldable pub measured_at : PerBlock → ℕ → Option Measured
measured_at [] blk = none
measured_at ((b, m) ∷ d) blk = if b == blk then m else measured_at d blk
