-- ===== src/Tests/Windows.antt =====
-- Tests of apparatus/fork_windows.py.
use lemma_xperiment.Common.{ℕ, ◌+◌, ◌*◌, ◌≡◌, refl, List, [], ◌∷◌, ok, err, index_error, ◌⊎◌, arith}
use lemma_xperiment.Windows.{Header, Endpoint, first_block_at_or_after, lower_median}
use lemma_xperiment.Windows.Search.{Serves, IsFirst, first_block_at_or_after-IsFirst}
use lemma_xperiment.Windows.Median.{IsLowerMedian, lower_median-IsLowerMedian}

abbrev block_time : ℕ → ℕ
block_time n = 100 + 12 * n

abbrev chain : Endpoint
chain = record {
  header = λ n. ok (record { number = n; timestamp = block_time n; gas_used = n; tx_count = 0 });
  finalized = ok (record { number = 50; timestamp = block_time 50; gas_used = 50; tx_count = 0 });
  batch = λ first count. ok [];
}

chain-Serves : Serves chain 10 50 block_time
chain-Serves = record {
  header = λ n low high.
      (record { number = n; timestamp = block_time n; gas_used = n; tx_count = 0 }, refl, refl);
  monotone = λ n m le. omega (arith, le);
}

first_block_at_or_after-IsFirst_example :
    (r : ℕ) × (first_block_at_or_after chain 301 10 50 ≡ ok r) × IsFirst block_time 301 10 50 r
first_block_at_or_after-IsFirst_example =
    first_block_at_or_after-IsFirst chain block_time 301 10 50 chain-Serves (omega arith)

abbrev rows : List Header
rows =
    record { number = 1; timestamp = 0; gas_used = 9; tx_count = 0 }
    ∷ record { number = 2; timestamp = 0; gas_used = 4; tx_count = 0 }
    ∷ record { number = 3; timestamp = 0; gas_used = 4; tx_count = 0 }
    ∷ []

lower_median-IsLowerMedian_example :
    (rows ≡ []) × (lower_median rows ≡ err index_error)
    ⊎ ((m : Header) × (lower_median rows ≡ ok m) × IsLowerMedian rows m)
lower_median-IsLowerMedian_example = lower_median-IsLowerMedian rows
