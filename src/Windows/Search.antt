-- ===== src/Windows/Search.antt =====
-- The search for an era's activation block, and the eras in order.
use lemma_xperiment.Common.{
  ℕ, zero, suc, ◌+◌, ◌-◌, ◌/◌, ◌≤◌, ◌<◌, ◌≡◌, ◌∙◌, sym, subst, true, false, ltb, leb, Bool-cases,
  ◌⊎◌, inl, inr, ok, arith, tests, ltb→lt, leb→le,
}
use lemma_xperiment.Windows.{Header, Endpoint, first_from, first_block_at_or_after}

-- The endpoint answers for every block of the range, and later blocks have later timestamps or the
-- same.
pub record Serves (e : Endpoint) (lo hi : ℕ) (time : ℕ → ℕ) : Type 0 where
  pub header :
      (n : ℕ) → lo ≤ n → n ≤ hi → (h : Header) × (e.header n ≡ ok h) × (h.timestamp ≡ time n)
  pub monotone : (n m : ℕ) → n ≤ m → time n ≤ time m

-- The smallest block from `lo` on that is not before `ts`; or `hi`, where none below it is.
pub record IsFirst (time : ℕ → ℕ) (ts lo hi r : ℕ) : Type 0 where
  pub low : lo ≤ r
  pub high : r ≤ hi
  pub earlier : (n : ℕ) → lo ≤ n → n < r → time n < ts
  pub reached : (r ≡ hi) ⊎ (ts ≤ time r)

module _ (e : Endpoint) (fuel ts lo hi : ℕ) (h : Header) (below : ltb lo hi ≡ true)
    (answered : e.header ((lo + hi) / 2) ≡ ok h) where
  go_left :
      leb ts h.timestamp ≡ true
      → first_from e (suc fuel) ts lo hi ≡ first_from e fuel ts lo ((lo + hi) / 2)
  unfolding first_from
  go_left reached = ground arith

  go_right :
      leb ts h.timestamp ≡ false
      → first_from e (suc fuel) ts lo hi ≡ first_from e fuel ts ((lo + hi) / 2 + 1) hi
  unfolding first_from
  go_right before = ground arith

first_from-IsFirst :
    (e : Endpoint) (time : ℕ → ℕ) (fuel ts lo hi : ℕ)
    → Serves e lo hi time
    → lo ≤ hi
    → hi - lo ≤ fuel
    → (r : ℕ) × (first_from e fuel ts lo hi ≡ ok r) × IsFirst time ts lo hi r
unfolding first_from
first_from-IsFirst e time zero ts lo hi serves range enough = elim (Bool-cases (ltb lo hi)) [
  | inl below ↦ absurd (omega tests)
  | inr done ↦ (
    lo,
    ground arith,
    record {
      low = omega arith;
      high = range;
      earlier = λ n a b. absurd (omega arith);
      reached = inl (omega arith);
    },
  )
]
first_from-IsFirst e time (suc fuel) ts lo hi serves range enough = elim (Bool-cases (ltb lo hi)) [
  | inr done ↦ (
    lo,
    ground arith,
    record {
      low = omega arith;
      high = range;
      earlier = λ n a b. absurd (omega arith);
      reached = inl (ground arith);
    },
  )
  | inl below ↦
      let mid = (lo + hi) / 2 in
      let lt : lo < hi = ltb→lt lo hi below in
      let (h, answered, at) = serves.header mid (omega arith) (omega arith) in
      elim (Bool-cases (leb ts h.timestamp)) [
        | inl reached ↦
            let (r, found, first) =
              first_from-IsFirst e time fuel ts lo mid (narrow lo mid (omega arith) (omega arith))
                (omega arith) (omega arith) in
            let late : ts ≤ time mid = omega (arith, leb→le ts h.timestamp reached) in
            (
              r,
              go_left e fuel ts lo hi h below answered reached ∙ found,
              record {
                low = first.low;
                high = omega (arith, first.high);
                earlier = first.earlier;
                reached = inr (elim first.reached [
                  | inl e ↦ subst (λ n. ts ≤ time n) (sym e) late
                  | inr l ↦ l
                ]);
              },
            )
        | inr before ↦
            let early : time mid < ts = ground arith in
            let (r, found, first) =
              first_from-IsFirst e time fuel ts (mid + 1) hi
                (narrow (mid + 1) hi (omega arith) (omega arith)) (omega arith) (omega arith) in
            (
              r,
              go_right e fuel ts lo hi h below answered before ∙ found,
              record {
                low = omega (arith, first.low);
                high = first.high;
                earlier = λ n a b. below_first mid r early first n b;
                reached = first.reached;
              },
            )
      ]
]
  where
    narrow : (a b : ℕ) → lo ≤ a → b ≤ hi → Serves e a b time
    narrow a b p q = record {
      header = λ n x y. serves.header n (omega arith) (omega arith);
      monotone = serves.monotone;
    }

    below_first :
        (mid r : ℕ) → time mid < ts → IsFirst time ts (mid + 1) hi r → (n : ℕ) → n < r → time n < ts
    below_first mid r early first n b = elim (Bool-cases (leb n mid)) [
      | inl h ↦ omega (arith, serves.monotone n mid (leb→le n mid h))
      | inr h ↦ first.earlier n (ground arith) b
    ]

-- On a chain whose timestamps never fall, the search over a range of blocks, not empty, that the endpoint
-- answers for returns a block of the range before which every block of the range is earlier than
-- `ts`, and which is not earlier itself unless it is the last of the range.
pub first_block_at_or_after-IsFirst :
    (e : Endpoint) (time : ℕ → ℕ) (ts lo hi : ℕ)
    → Serves e lo hi time
    → lo ≤ hi
    → (r : ℕ) × (first_block_at_or_after e ts lo hi ≡ ok r) × IsFirst time ts lo hi r
unfolding first_block_at_or_after
first_block_at_or_after-IsFirst e time ts lo hi serves range =
    first_from-IsFirst e time (hi - lo) ts lo hi serves range (omega arith)
