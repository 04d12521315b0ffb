-- ===== src/Paired/Decision.antt =====
-- evaluation/analysis/paired.py: improvement, bootstrap and evaluate. What the record only copies
-- for the reader (the policy, the hashes, the determinism of the pairs) is left out, but for the
-- rows.

pub mod Rows
pub mod Resamples
pub mod Origins
pub mod Verdicts
pub mod Failures
use lemma_xperiment.Common.{
  Floats, ℕ, zero, suc, ◌+◌, ◌-◌, ◌/◌, ◌%◌, Bool, true, false, not, ◌&&◌, ◌||◌, List, [], ◌∷◌, map,
  Option, none, some, ◌==◌, ltb, leb, if◌then◌else◌, length, get_elem?, sort, Outcome, ok, err,
  index_error, value_error, zero_division_error, or_raise, require, ◌>>=◌, ◌>>◌, member, distinct,
  filter, every,
}
use Prim.Native.Nat.{min}
use lemma_xperiment.Paired.{
  Execution, Variant, baseline, candidate, alternative, Measured, PerBlock, per_block, measured_at,
  blocks_of,
}

-- `low_rank` and `high_rank` are what `int((1 - confidence) / 2 * resamples)` and
-- `int((1 + confidence) / 2 * resamples)` come to.
pub record Policy : Type 0 where
  pub minimum_improvement : ℕ
  pub maximum_regression : ℕ
  pub minimum_blocks : ℕ
  pub resamples : ℕ
  pub low_rank : ℕ
  pub high_rank : ℕ

-- POLICY
abbrev pub frozen : Policy
frozen = record {
  minimum_improvement = 5;
  maximum_regression = 10;
  minimum_blocks = 8;
  resamples = 10_000;
  low_rank = 250;
  high_rank = 9750;
}

pub data Verdict : Type 0 where
  pass fail inconclusive : Verdict

abbrev pub is_pass : Verdict → Bool
is_pass pass = true
is_pass _ = false

abbrev pub is_some {ℓ} : {A : Type ℓ} → Option A → Bool
is_some none = false
is_some (some _) = true

abbrev pub is_empty {ℓ} : {A : Type ℓ} → List A → Bool
is_empty [] = true
is_empty (_ ∷ _) = false

module _ (fl : Floats) (policy : Policy) where
  unfoldable pub improvement : (base cand : ℕ) → Outcome fl.F
  improvement base cand =
      if base == 0
      then err zero_division_error
      else ok (fl.div (fl.mul (fl.of_nat 100) (fl.difference base cand)) (fl.of_nat base))

  -- `statistics.median`
  unfoldable pub median_of : List fl.F → Outcome fl.F
  median_of xs =
      let sorted = sort (λ x y. not (fl.below y x)) xs in
      if length xs % 2 == 1 then or_raise (get_elem? sorted (length xs / 2)) value_error else do
        a ← or_raise (get_elem? sorted (length xs / 2 - 1)) value_error
        b ← or_raise (get_elem? sorted (length xs / 2)) value_error
        ok (fl.div (fl.add a b) (fl.of_nat 2))

  -- `draw i j n` is what `randrange(n)` gives for place `j` of sample `i`.
  unfoldable pub sample : (ℕ → ℕ → ℕ) → List fl.F → (j left : ℕ) → Outcome (List fl.F)
  sample draw values j zero = ok []
  sample draw values j (suc left) = do
    x ← or_raise (get_elem? values (draw j (length values))) index_error
    rest ← sample draw values (j + 1) left
    ok (x ∷ rest)

  unfoldable pub sampled : (ℕ → ℕ → ℕ → ℕ) → List fl.F → (i left : ℕ) → Outcome (List fl.F)
  sampled draw values i zero = ok []
  sampled draw values i (suc left) = do
    chosen ← sample (draw i) values 0 (length values)
    m ← median_of chosen
    rest ← sampled draw values (i + 1) left
    ok (m ∷ rest)

  unfoldable pub bootstrap : (ℕ → ℕ → ℕ → ℕ) → List fl.F → Outcome (fl.F × fl.F)
  bootstrap draw values = do
    stats ← sampled draw values 0 policy.resamples
    let sorted = sort (λ x y. not (fl.below y x)) stats
    lo ← or_raise (get_elem? sorted policy.low_rank) index_error
    hi ← or_raise (get_elem? sorted (min (policy.resamples - 1) policy.high_rank)) index_error
    ok (lo, hi)

  -- `gain` is "improvement", and is set where both variants reached the block.
  pub record Row : Type 0 where
    pub block : ℕ
    pub a : Option Measured
    pub b : Option Measured
    pub gain : Option fl.F
    pub regression : Bool

  -- `min` of the improvements: the first of the smallest.
  unfoldable pub least : fl.F → Option fl.F → fl.F
  least x none = x
  least x (some y) = if fl.below y x then y else x

  unfoldable pub improvement_on : Option Measured → Measured → Outcome (Option fl.F)
  improvement_on none b = ok none
  improvement_on (some c) b = improvement c.pgu b.pgu >>= λ x. ok (some x)

  -- b > (1 + maximum / 100) * a
  unfoldable pub beyond : (b a : ℕ) → Bool
  beyond b a = fl.above b (
      fl.mul (fl.add (fl.of_nat 1) (fl.div (fl.of_nat policy.maximum_regression) (fl.of_nat 100)))
        (fl.of_nat a))

  unfoldable pub row_of : ℕ → (a b c : Option Measured) → Outcome Row
  row_of blk (some a) (some b) c = do
    against_a ← improvement a.pgu b.pgu
    against_c ← improvement_on c b
    ok (record {
      block = blk;
      a = some a;
      b = some b;
      gain = some (least against_a against_c);
      regression = beyond b.pgu a.pgu;
    })
  row_of blk a b c = ok (record { block = blk; a = a; b = b; gain = none; regression = false })

  unfoldable pub all_rows : (a b c : PerBlock) → List ℕ → Outcome (List Row)
  all_rows a b c [] = ok []
  all_rows a b c (blk ∷ blks) = do
    r ← row_of blk (measured_at a blk) (measured_at b blk) (measured_at c blk)
    rest ← all_rows a b c blks
    ok (r ∷ rest)

  -- policy.json also asks a paired block for identical public values, which the script records for
  -- the reader and does not compare.
  unfoldable pub is_paired : Row → Bool
  is_paired r = is_some r.a && is_some r.b

  -- The baseline reached the block and the candidate did not.
  unfoldable pub is_failed : Row → Bool
  is_failed r = is_some r.a && not (is_some r.b)

  unfoldable pub gains : List Row → List fl.F
  gains [] = []
  gains (r ∷ rs) = elim r.gain [ none ↦ gains rs | some x ↦ x ∷ gains rs ]

  pub record Statistics : Type 0 where
    pub statistic : fl.F
    pub low : fl.F
    pub high : fl.F

  pub record Record : Type 0 where
    pub rows : List Row
    pub statistics : Option Statistics
    pub performance : Verdict
    pub verdict : Verdict

  -- The four conditions.
  unfoldable pub conditions : Statistics → List Row → Bool
  conditions s rs =
      is_empty (filter is_failed rs)
      && (not (fl.below s.statistic (fl.of_nat policy.minimum_improvement))
          && (fl.below (fl.of_nat 0) s.low
              && is_empty (filter (λ (r : Row). r.regression) (filter is_paired rs))))

  unfoldable pub verdict_of : (performance : Verdict) (correctness formal : Bool) → Verdict
  verdict_of inconclusive correctness formal = if correctness && formal then inconclusive else fail
  verdict_of performance correctness formal =
      if correctness && formal && is_pass performance then pass else fail

  unfoldable pub performance_of : (ℕ → ℕ → ℕ → ℕ) → List Row → Outcome (Verdict × Option Statistics)
  performance_of draw rs =
      if ltb (length (filter is_paired rs)) policy.minimum_blocks
      then ok (if is_empty (filter is_failed rs) then inconclusive else fail, none)
      else do
        let values = gains (filter is_paired rs)
        stat ← median_of values
        (lo, hi) ← bootstrap draw values
        let s : Statistics = record { statistic = stat; low = lo; high = hi }
        ok (if conditions s rs then pass else fail, some s)

  unfoldable pub evaluate :
      (ℕ → ℕ → ℕ → ℕ) → List Execution → (correctness formal : Bool) → Outcome Record
  evaluate draw execs correctness formal = do
    a ← per_block execs baseline
    b ← per_block execs candidate
    c ← per_block execs alternative
    rs ← all_rows a b c (blocks_of execs)
    (performance, s) ← performance_of draw rs
    ok (record {
      rows = rs;
      statistics = s;
      performance = performance;
      verdict = verdict_of performance correctness formal;
    })
