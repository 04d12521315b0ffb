-- ===== src/Reuse.antt =====
-- reuse/input.py: the choice of the fresh block for the reuse job. The two endpoints and the
-- development blocks of demand/spec.json are parameters.
pub mod Disjoint
use lemma_xperiment.Common.{
  ℕ, zero, suc, ◌+◌, ◌-◌, ◌≡◌, Bool, true, false, not, ◌&&◌, ◌||◌, List, [], ◌∷◌, ◌++◌, Option,
  none, some, ◌==◌, ltb, leb, if◌then◌else◌, sort, Outcome, ok, err, index_error, assertion_error,
  system_exit, out_of_fuel, require, ◌>>=◌, ◌>>◌,
}
use Prim.Native.Nat.{min}
use lemma_xperiment.Blocks.{Header, eq_header}
use lemma_xperiment.Holdout.Derive.{range_low, range_high, margin, excluded, interval, near}

abbrev pub baseline : ℕ
baseline = 20_600_066

-- A row of the scan: the gas used, and the number.
abbrev pub Scanned : Type 0
Scanned = ℕ × ℕ

-- What the first endpoint says of a batch of block numbers, and each of a header.
pub record Endpoints : Type 0 where
  pub batch : List ℕ → Outcome (List Scanned)
  pub first : ℕ → Outcome Header
  pub second : ℕ → Outcome Header

-- `for s in range(lo, hi + 1, 50)`, on fuel: a step of fifty for each.
unfoldable pub scan_from : Endpoints → (fuel s hi : ℕ) → Outcome (List Scanned)
scan_from e zero s hi = if leb s hi then err out_of_fuel else ok []
scan_from e (suc fuel) s hi = elim (leb s hi) [
  | false ↦ ok []
  | true ↦ do
    answers ← e.batch (interval s (min (s + 50) (hi + 1) - s))
    rest ← scan_from e fuel (s + 50) hi
    ok (answers ++ rest)
]

-- Rows are compared by gas used and then by number.
unfoldable pub comes_before : Scanned → Scanned → Bool
comes_before (g, n) (h, m) = ltb g h || g == h && leb n m

unfoldable pub listed : ℕ → List ℕ → Bool
listed n [] = false
listed n (x ∷ xs) = n == x || listed n xs

-- `any(abs(chosen - x) <= MARGIN for x in EXECUTED)`
unfoldable pub in_margin : ℕ → List ℕ → Bool
in_margin n [] = false
in_margin n (x ∷ xs) = near x n || in_margin n xs

unfoldable pub lowest : List Scanned → Outcome Scanned
lowest [] = err index_error
lowest (r ∷ rs) = ok r

unfoldable pub choose : (development : List ℕ) → List Scanned → Outcome Scanned
choose development scan = do
  (gas, chosen) ← lowest (sort comes_before scan)
  require (not (listed chosen development) && not (listed chosen excluded)) assertion_error
  require (in_margin chosen excluded) assertion_error
  ok (gas, chosen)

pub record Input : Type 0 where
  pub gas : ℕ
  pub chosen : ℕ
  pub header : Header
  pub parent : Header

unfoldable pub select_input : Endpoints → (development : List ℕ) → Outcome Input
select_input e development = do
  require (leb (range_low + margin) (baseline + 1) && leb (baseline + margin) range_high)
      assertion_error
  scan ← scan_from e 20 (baseline + 1) (baseline + margin)
  (gas, chosen) ← choose development scan
  h ← e.first chosen
  g ← e.second chosen
  require (eq_header h g) system_exit
  parent ← e.first (chosen - 1)
  ok (record { gas = gas; chosen = chosen; header = h; parent = parent })
