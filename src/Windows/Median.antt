-- ===== src/Windows/Median.antt =====
-- The choice of a block inside a window.
use lemma_xperiment.Common.{
  ◌-◌, ◌*◌, ◌/◌, ◌≤◌, ◌≡◌, refl, true, false, not, ◌⊎◌, inl, inr, List, [], ◌∷◌, ok, err, arith,
  length, get_elem?-total, sort, tally, tally-sort, length-sort, sort-IsSorted, rank, index_error,
}
use lemma_xperiment.Windows.{Header, by_gas, lower_median}

by_gas_total : (r s : Header) → by_gas r s ≡ false → by_gas s r ≡ true
unfolding by_gas
by_gas_total r s h = ground arith

by_gas_trans : (r s t : Header) → by_gas r s ≡ true → by_gas s t ≡ true → by_gas r t ≡ true
unfolding by_gas
by_gas_trans r s t h k = ground arith

by_gas_self : (r : Header) → by_gas r r ≡ true
unfolding by_gas
by_gas_self r = ground arith

-- Among the rows, at most half are strictly before `m` in the order by gas and number, and at least
-- half, rounded up, are before or beside it.
pub record IsLowerMedian (rows : List Header) (m : Header) : Type 0 where
  pub before : tally (λ r. not (by_gas m r)) rows ≤ (length rows - 1) / 2
  pub upto : length rows ≤ 2 * tally (λ r. by_gas r m) rows

-- Of any rows but none, `lower_median` returns a lower median in the order by gas used and then by
-- number; of no rows it raises an IndexError.
pub lower_median-IsLowerMedian :
    (rows : List Header)
    → (rows ≡ []) × (lower_median rows ≡ err index_error)
      ⊎ ((m : Header) × (lower_median rows ≡ ok m) × IsLowerMedian rows m)
unfolding lower_median
lower_median-IsLowerMedian [] = inl (refl, refl)
lower_median-IsLowerMedian (r ∷ rows) =
    let all = r ∷ rows in
    let (m, at) =
      get_elem?-total (sort by_gas all) ((length all - 1) / 2)
        (omega (arith, length-sort by_gas all)) in
    let (before, upto) =
      rank by_gas by_gas_total by_gas_trans (sort by_gas all) ((length all - 1) / 2) by_gas_self
        (sort-IsSorted by_gas by_gas_total by_gas_trans all) at in
    inr (
      m,
      rw at refl,
      record {
        before = rw (tally-sort by_gas (λ s. not (by_gas m s)) all) at before;
        upto = omega (arith, upto, tally-sort by_gas (λ s. by_gas s m) all);
      },
    )
