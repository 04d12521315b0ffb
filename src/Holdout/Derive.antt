-- ===== src/Holdout/Derive.antt =====
-- evaluation/holdout/holdout.py: derive, and the constants of RULE.md section 1. `sha256` is a
-- parameter.
pub mod Accepted
pub mod Bounds
use Prim.Native.String.{String}
use Prim.Native.Char.{code}
use mathlib.Core.List.{foldl}
use lemma_xperiment.Common.{
  ℕ, zero, suc, ◌+◌, ◌-◌, ◌*◌, ◌/◌, ◌%◌, ◌^◌, ◌≤◌, ◌<◌, Bool, true, false, ◌&&◌, ◌||◌, List, [],
  ◌∷◌, ◌++◌, Option, none, some, leb, if◌then◌else◌, Outcome, ok, err, overflow_error, out_of_fuel,
}

abbrev pub Bytes : Type 0
Bytes = List ℕ

abbrev pub range_low : ℕ
range_low = 19_426_587

abbrev pub range_high : ℕ
range_high = 22_431_083

abbrev pub window_size : ℕ
window_size = 10

-- RANGE[1] - RANGE[0] + 1 - (WINDOW - 1)
abbrev pub starts : ℕ
starts = range_high - range_low + 1 - (window_size - 1)

abbrev pub excluded : List ℕ
excluded =
    18_884_864 ∷ 20_600_000 ∷ 20_600_066 ∷ 22_441_128 ∷ 23_945_771 ∷ 23_985_839 ∷ 25_988_970
    ∷ 25_988_980 ∷ []

abbrev pub margin : ℕ
margin = 1000

unfoldable pub codes : String → Bytes
codes String.[] = []
codes (String.◌∷◌ c s) = code c ∷ codes s

unfoldable pub domain : Bytes
domain = codes "lemma-holdout/1"

-- `int.from_bytes(r, "big")`
unfoldable pub from_bytes : Bytes → ℕ
from_bytes = foldl (λ n x. n * 256 + x) 0

-- `k.to_bytes(4, "big")`, for a number that fits.
unfoldable pub to_bytes4 : ℕ → Bytes
to_bytes4 k = k / 2 ^ 24 % 256 ∷ k / 2 ^ 16 % 256 ∷ k / 2 ^ 8 % 256 ∷ k % 256 ∷ []

-- `range(start, start + n)`
unfoldable pub interval : (start n : ℕ) → List ℕ
interval start zero = []
interval start (suc n) = start ∷ interval (start + 1) n

-- `abs(b - x) <= MARGIN`
unfoldable pub near : ℕ → ℕ → Bool
near x b = leb b (x + margin) && leb x (b + margin)

unfoldable pub any_near : ℕ → List ℕ → Bool
any_near x [] = false
any_near x (b ∷ bs) = near x b || any_near x bs

-- The executed blocks that the window comes too close to.
unfoldable pub hits : List ℕ → List ℕ → List ℕ
hits window [] = []
hits window (x ∷ xs) = if any_near x window then x ∷ hits window xs else hits window xs

-- One draw; `rejected` is the block that the source names in its text.
pub record Attempt : Type 0 where
  pub k : ℕ
  pub start : ℕ
  pub rejected : Option ℕ

module _ (sha256 : Bytes → Bytes) (salt : Bytes) where
  unfoldable pub candidate : ℕ → ℕ
  candidate k = range_low + from_bytes (sha256 (domain ++ salt ++ to_bytes4 k)) % starts

  unfoldable pub derive_from : (fuel k : ℕ) → List Attempt → Outcome (List Attempt × ℕ)
  derive_from zero k attempts = err out_of_fuel
  derive_from (suc fuel) k attempts = elim (leb (2 ^ 32) k) [
    | true ↦ err overflow_error
    | false ↦ elim (hits (interval (candidate k) window_size) excluded) [
      | [] ↦
          ok (attempts ++ record { k = k; start = candidate k; rejected = none } ∷ [], candidate k)
      | x ∷ _ ↦
          derive_from fuel (k + 1)
            (attempts ++ record { k = k; start = candidate k; rejected = some x } ∷ [])
    ]
  ]

  -- A four-byte counter allows 2 ^ 32 draws, so the loop has a bound of its own.
  unfoldable pub derive : Outcome (List Attempt × ℕ)
  derive = derive_from (2 ^ 32 + 1) 0 []
