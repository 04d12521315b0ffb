-- ===== src/Reuse/Disjoint.antt =====
-- The block that is chosen lies in no window that a holdout can take.
use lemma_xperiment.Common.{
  ℕ, zero, suc, ◌+◌, ◌-◌, ◌≤◌, ◌<◌, ◌≡◌, refl, subst, true, false, not, ◌&&◌, List, [], ◌∷◌, some,
  leb, get_elem?, sort, tally, tally-sort, rank, sort-IsSorted, ok, ◌++◌, ◌*◌, assertion_error,
  require, >>=-elim, require-eq-ok, ok_inj, ap, ◌∙◌, sym, map, Elem-sort, Bool-cases, inl, inr,
  Elem, arith,
}
use Prim.Native.Nat.{min}
use lemma_xperiment.Holdout.Derive.{window_size, interval, excluded, near}
use lemma_xperiment.Holdout.Derive.Accepted.{IsFar, IsAccepted}
use lemma_xperiment.Reuse.{
  Scanned, Endpoints, scan_from, comes_before, listed, in_margin, lowest, choose,
}

in_margin-near :
    (n : ℕ) (xs : List ℕ) → in_margin n xs ≡ true → (x : ℕ) × Elem x xs × (near x n ≡ true)
unfolding in_margin
in_margin-near n [] h = cc
in_margin-near n (x ∷ xs) h = elim (Bool-cases (near x n)) [
  | inl close ↦ (x, inl refl, close)
  | inr far ↦ let (y, m, c) = in_margin-near n xs (rw far at h) in (y, inr m, c)
]

near-not-IsFar : (x n : ℕ) → near x n ≡ true → ¬ IsFar x n
unfolding near
near-not-IsFar x n h far = ground arith

comes_before_total : (r s : Scanned) → comes_before r s ≡ false → comes_before s r ≡ true
unfolding comes_before
comes_before_total (g, n) (h, m) e = ground arith

comes_before_trans :
    (r s t : Scanned) → comes_before r s ≡ true → comes_before s t ≡ true → comes_before r t ≡ true
unfolding comes_before
comes_before_trans (g, n) (h, m) (k, l) p q = ground arith

comes_before_self : (r : Scanned) → comes_before r r ≡ true
unfolding comes_before
comes_before_self (g, n) = ground arith

lowest-first : (rs : List Scanned) (r : Scanned) → lowest rs ≡ ok r → get_elem? rs 0 ≡ some r
unfolding lowest
lowest-first [] r h = cc
lowest-first (s ∷ rs) r h = cc

lowest-Elem : (rs : List Scanned) (r : Scanned) → lowest rs ≡ ok r → Elem r rs
unfolding lowest
lowest-Elem [] r h = cc
lowest-Elem (s ∷ rs) r h = inl (ok_inj (sym h))

lt→leb-false : (a b : ℕ) → b < a → leb a b ≡ false
lt→leb-false a b h = ground arith

-- A scanned row before which no scanned row comes.
pub record IsChosen (development : List ℕ) (scan : List Scanned) (r : Scanned) : Type 0 where
  pub present : Elem r scan
  pub least : tally (λ s. not (comes_before r s)) scan ≡ 0
  pub fresh : listed r.1 development ≡ false
  pub disjoint : (start : ℕ) → IsAccepted start → start ≤ r.1 → r.1 < start + window_size → ⊥

choice-IsChosen :
    (development : List ℕ) (scan : List Scanned) (r : Scanned)
    → lowest (sort comes_before scan) ≡ ok r
    → (not (listed r.1 development) && not (listed r.1 excluded)) ≡ true
    → in_margin r.1 excluded ≡ true
    → IsChosen development scan r
choice-IsChosen development scan r first clear close =
    let (none_before, _) =
      rank comes_before comes_before_total comes_before_trans (sort comes_before scan) 0
        comes_before_self (sort-IsSorted comes_before comes_before_total comes_before_trans scan)
        (lowest-first _ r first) in
    let (x, m, c) = in_margin-near r.1 excluded close in
    record {
      present = (Elem-sort comes_before r scan).0 (lowest-Elem (sort comes_before scan) r first);
      least =
          omega (arith, none_before, tally-sort comes_before (λ s. not (comes_before r s)) scan);
      fresh = ground arith;
      disjoint =
          λ start accepted low high. near-not-IsFar x r.1 c (accepted.clear r.1 x low high m);
    }

-- The row that `choose` returns is a row of the scan before which no row of it comes by gas used and
-- then by number, its block is no development block, and no window that the holdout rule accepts
-- contains it.
pub choose-IsChosen :
    (development : List ℕ) (scan : List Scanned) (r : Scanned)
    → choose development scan ≡ ok r
    → IsChosen development scan r
unfolding choose
choose-IsChosen development scan r done =
    >>=-elim (lowest (sort comes_before scan)) _ done λ (gas, chosen) first h1.
      >>=-elim
        (require (not (listed chosen development) && not (listed chosen excluded)) assertion_error)
        _ h1
        λ _ clear h2.
          >>=-elim (require (in_margin chosen excluded) assertion_error) _ h2 λ _ close h3.
            let same : (gas, chosen) ≡ r = cc h3 in
            subst (IsChosen development scan) same (
              choice-IsChosen development scan (gas, chosen) first (require-eq-ok _ _ clear)
                (require-eq-ok _ _ close))

module _ (e : Endpoints) (fuel s hi : ℕ) where
  scan_stop : leb s hi ≡ false → scan_from e (suc fuel) s hi ≡ ok []
  unfolding scan_from
  scan_stop past = ground arith

  scan_batch :
      (rows scan : List Scanned)
      → leb s hi ≡ true
      → e.batch (interval s (min (s + 50) (hi + 1) - s)) ≡ ok rows
      → scan_from e fuel (s + 50) hi ≡ ok scan
      → scan_from e (suc fuel) s hi ≡ ok (rows ++ scan)
  unfolding scan_from
  scan_batch rows scan inside answered rest = ground arith

interval_none : (s : ℕ) → interval s 0 ≡ []
unfolding interval
interval_none s = refl

interval-append : (s a b : ℕ) → interval s a ++ interval (s + a) b ≡ interval s (a + b)
unfolding interval
interval-append s zero b =
    let here : s + 0 ≡ s = omega arith in let size : 0 + b ≡ b = omega arith in rw (here, size) refl
interval-append s (suc a) b =
    let later : s + suc a ≡ s + 1 + a = omega arith in
    let size : suc a + b ≡ suc (a + b) = omega arith in
    rw (later, size) (ap (λ r. s ∷ r) (interval-append (s + 1) a b))

map-append : (row : ℕ → Scanned) (xs ys : List ℕ) → map row xs ++ map row ys ≡ map row (xs ++ ys)
map-append row [] ys = refl
map-append row (x ∷ xs) ys = ap (λ r. row x ∷ r) (map-append row xs ys)

-- A batch and the batches after it are an interval: the last batch is shorter.
batches :
    (s hi : ℕ)
    → s ≤ hi
    → interval s (min (s + 50) (hi + 1) - s) ++ interval (s + 50) (hi + 1 - (s + 50))
      ≡ interval s (hi + 1 - s)
batches s hi inside = elim (Bool-cases (leb (s + 50) (hi + 1))) [
  | inl full ↦
      ap (λ n. interval s n ++ interval (s + 50) (hi + 1 - (s + 50))) (full_size full)
      ∙ interval-append s 50 (hi + 1 - (s + 50))
      ∙ ap (interval s) (whole full)
  | inr last ↦ only_batch (last_size last) (none_left last) ∙ append_none (interval s (hi + 1 - s))
]
  where
    full_size : leb (s + 50) (hi + 1) ≡ true → min (s + 50) (hi + 1) - s ≡ 50
    full_size h = ground arith

    whole : leb (s + 50) (hi + 1) ≡ true → 50 + (hi + 1 - (s + 50)) ≡ hi + 1 - s
    whole h = ground arith

    last_size : leb (s + 50) (hi + 1) ≡ false → min (s + 50) (hi + 1) - s ≡ hi + 1 - s
    last_size h = ground arith

    none_left : leb (s + 50) (hi + 1) ≡ false → hi + 1 - (s + 50) ≡ 0
    none_left h = ground arith

    empty : (m : ℕ) → m ≡ 0 → interval (s + 50) m ≡ []
    empty m q = ap (interval (s + 50)) q ∙ interval_none (s + 50)

    only_batch :
        {n m k : ℕ} → n ≡ k → m ≡ 0 → interval s n ++ interval (s + 50) m ≡ interval s k ++ []
    only_batch {n} {m} {k} p q =
        ap (λ x. interval s x ++ interval (s + 50) m) p ∙ ap (λ x. interval s k ++ x) (empty m q)

    append_none : (xs : List ℕ) → xs ++ [] ≡ xs
    append_none [] = refl
    append_none (x ∷ xs) = ap (λ r. x ∷ r) (append_none xs)

no_interval : (s hi : ℕ) → hi < s → interval s (hi + 1 - s) ≡ []
no_interval s hi past =
    let none_left : hi + 1 - s ≡ 0 = omega arith in ap (interval s) none_left ∙ interval_none s

scan_none : (e : Endpoints) (s hi : ℕ) → leb s hi ≡ false → scan_from e zero s hi ≡ ok []
unfolding scan_from
scan_none e s hi past = ground arith

-- Where the endpoint answers every batch with the rows of its numbers, and the batches of fifty
-- reach past `hi`, the scan returns the row of every number from `s` to `hi`, in order.
pub scan_from_interval :
    (e : Endpoints) (row : ℕ → Scanned) (fuel s hi : ℕ)
    → ((ns : List ℕ) → e.batch ns ≡ ok (map row ns))
    → hi + 1 ≤ s + 50 * fuel
    → scan_from e fuel s hi ≡ ok (map row (interval s (hi + 1 - s)))
scan_from_interval e row zero s hi answers enough =
    scan_none e s hi (lt→leb-false s hi (omega arith))
    ∙ ap (λ xs. ok (map row xs)) (sym (no_interval s hi (omega arith)))
scan_from_interval e row (suc fuel) s hi answers enough = elim (Bool-cases (leb s hi)) [
  | inr past ↦
      scan_stop e fuel s hi past
      ∙ ap (λ xs. ok (map row xs)) (sym (no_interval s hi (ground arith)))
  | inl inside ↦
      scan_batch e fuel s hi _ _ inside (answers (interval s (min (s + 50) (hi + 1) - s)))
        (scan_from_interval e row fuel (s + 50) hi answers (omega arith))
      ∙ ap ok (
          map-append row (interval s (min (s + 50) (hi + 1) - s))
            (interval (s + 50) (hi + 1 - (s + 50)))
          ∙ ap (map row) (batches s hi (ground arith)))
]
