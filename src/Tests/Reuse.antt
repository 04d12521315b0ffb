-- ===== src/Tests/Reuse.antt =====
-- Tests of reuse/input.py.
use lemma_xperiment.Common.{
  ◌+◌, ◌%◌, ℕ, map, ◌≡◌, refl, none, List, [], ◌∷◌, ok, sort, place, arith,
}
use lemma_xperiment.Holdout.Derive.{near, interval}
use lemma_xperiment.Blocks.{Header, Value}
use lemma_xperiment.Reuse.{
  Scanned, Endpoints, baseline, scan_from, comes_before, listed, in_margin, lowest, choose,
}
use lemma_xperiment.Reuse.Disjoint.{IsChosen, choose-IsChosen, scan_from_interval}

abbrev scan : List Scanned
scan = (5, 20_600_100) ∷ (3, 20_600_200) ∷ (3, 20_600_150) ∷ []

choose-IsChosen_example : IsChosen (20_600_000 ∷ []) scan (3, 20_600_150)
unfolding choose lowest comes_before listed in_margin near sort place
choose-IsChosen_example = choose-IsChosen (20_600_000 ∷ []) scan (3, 20_600_150) refl

abbrev no_header : Header
no_header f = Value.quantity none

abbrev scanned_row : ℕ → Scanned
scanned_row n = (n % 7, n)

abbrev endpoints : Endpoints
endpoints = record {
  batch = λ ns. ok (map scanned_row ns);
  first = λ n. ok no_header;
  second = λ n. ok no_header;
}

scan_from_interval_example :
    scan_from endpoints 20 (baseline + 1) (baseline + 1000)
    ≡ ok (map scanned_row (interval (baseline + 1) 1000))
scan_from_interval_example =
    scan_from_interval endpoints scanned_row 20 (baseline + 1) (baseline + 1000) (λ ns. refl)
      (omega arith)
