-- ===== src/Paired/Reached.antt =====
-- evaluation/analysis/paired.py, per_block: what the entry of a block says of the executions.
use lemma_xperiment.Common.{
  ℕ, ◌≡◌, refl, sym, ◌∙◌, ap, subst, Bool, true, false, not, ◌&&◌, List, [], ◌∷◌, map, Option, none,
  some, ◌==◌, ==_iff, leb, Outcome, ok, err, >>=-elim, Bool-cases, inl, inr, Elem, Elem-sort,
  member, distinct, filter-Elem, Elem-filter, every-Elem, every_all, ok_inj, ◌⊎◌,
}
use lemma_xperiment.Paired.Medians.{IsMedianNat, median_nat-IsMedian}
use lemma_xperiment.Paired.{
  Variant, baseline, candidate, alternative, eq_variant, Execution, Measured, rows_of, is_unreached,
  measure, PerBlock, blocks_of, measure_all, measured_at, pgu_of, median_nat, sorted_public,
  eq_public,
}

eq_variant→eq : (v w : Variant) → eq_variant v w ≡ true → v ≡ w
eq_variant→eq baseline baseline h = refl
eq_variant→eq baseline candidate h = cc
eq_variant→eq baseline alternative h = cc
eq_variant→eq candidate baseline h = cc
eq_variant→eq candidate candidate h = refl
eq_variant→eq candidate alternative h = cc
eq_variant→eq alternative baseline h = cc
eq_variant→eq alternative candidate h = cc
eq_variant→eq alternative alternative h = refl

eq_variant_refl : (v : Variant) → eq_variant v v ≡ true
eq_variant_refl baseline = refl
eq_variant_refl candidate = refl
eq_variant_refl alternative = refl

-- The executions list a run of the variant on the block.
pub record IsRun (execs : List Execution) (blk : ℕ) (v : Variant) (e : Execution) : Type 0 where
  pub listed : Elem e execs
  pub of_block : e.block ≡ blk
  pub of_variant : e.variant ≡ v

-- There is such a run, and every one of them reached its end.
pub record HasReached (execs : List Execution) (blk : ℕ) (v : Variant) : Type 0 where
  pub run : Execution
  pub is_run : IsRun execs blk v run
  pub all : (e : Execution) → IsRun execs blk v e → e.reached ≡ true

IsRun-rows_of :
    (execs : List Execution) (blk : ℕ) (v : Variant) (e : Execution)
    → IsRun execs blk v e
    → Elem e (rows_of execs blk v)
unfolding rows_of
IsRun-rows_of execs blk v e r =
    Elem-filter (λ (x : Execution). x.block == blk && eq_variant x.variant v) e execs r.listed
      (rw ((==_iff e.block blk).1 r.of_block, r.of_variant) (eq_variant_refl v))

rows_of-IsRun :
    (execs : List Execution) (blk : ℕ) (v : Variant) (e : Execution)
    → Elem e (rows_of execs blk v)
    → IsRun execs blk v e
unfolding rows_of
rows_of-IsRun execs blk v e m =
    let (at, good) =
      filter-Elem (λ (x : Execution). x.block == blk && eq_variant x.variant v) e execs m in
    let (same_block, same_variant) = both (e.block == blk) _ good in
    record {
      listed = at;
      of_block = (==_iff e.block blk).0 same_block;
      of_variant = eq_variant→eq e.variant v same_variant;
    }
  where
    both : (a b : Bool) → (a && b) ≡ true → (a ≡ true) × (b ≡ true)
    both true b h = (refl, h)
    both false b h = cc

abbrev has_reached : Execution → Bool
has_reached e = e.reached

not-false : (b : Bool) → not b ≡ false → b ≡ true
not-false true h = refl
not-false false h = cc

is_unreached-HasReached :
    (execs : List Execution) (blk : ℕ) (v : Variant) (rows : List Execution)
    → rows ≡ rows_of execs blk v
    → is_unreached rows ≡ false
    → HasReached execs blk v
unfolding is_unreached
is_unreached-HasReached execs blk v [] e h = cc
is_unreached-HasReached execs blk v (r ∷ rows) e h = record {
  run = r;
  is_run = rows_of-IsRun execs blk v r (subst (Elem r) e (inl refl));
  all = λ x run.
      every-Elem has_reached x (r ∷ rows) (not-false _ h)
        (subst (Elem x) (sym e) (IsRun-rows_of execs blk v x run));
}

HasReached-is_unreached :
    (execs : List Execution) (blk : ℕ) (v : Variant)
    → HasReached execs blk v
    → (rows : List Execution) → rows ≡ rows_of execs blk v
    → is_unreached rows ≡ false
unfolding is_unreached
HasReached-is_unreached execs blk v h [] e =
    absurd (subst (Elem h.run) (sym e) (IsRun-rows_of execs blk v h.run h.is_run))
HasReached-is_unreached execs blk v h (r ∷ rows) e = ap not (
    every_all has_reached (r ∷ rows)
      λ x m. h.all x (rows_of-IsRun execs blk v x (subst (Elem x) e m)))

measure_none : (rows : List Execution) → measure rows ≡ ok none → is_unreached rows ≡ true
unfolding measure
measure_none rows h = elim (Bool-cases (is_unreached rows)) [
  | inl missed ↦ missed
  | inr ran ↦ >>=-elim (median_nat (map pgu_of rows)) _ (rw ran at h) λ m _ h1.
      >>=-elim (sorted_public (distinct eq_public (map (λ (e : Execution). e.public_values) rows)))
        _ h1 λ values _ h2. absurd (cc h2)
]

measure_some :
    (rows : List Execution) (m : Measured) → measure rows ≡ ok (some m) → is_unreached rows ≡ false
unfolding measure
measure_some rows m h = elim (Bool-cases (is_unreached rows)) [
  | inl missed ↦ absurd (cc (rw missed at h))
  | inr ran ↦ ran
]

-- An entry is set where the variant reached the block.
measure-HasReached :
    (execs : List Execution) (blk : ℕ) (v : Variant) (m : Measured)
    → measure (rows_of execs blk v) ≡ ok (some m)
    → HasReached execs blk v
measure-HasReached execs blk v m h =
    is_unreached-HasReached execs blk v (rows_of execs blk v) refl (measure_some _ m h)

-- The median of the pgu of a variant's runs.
measure-median :
    (execs : List Execution) (blk : ℕ) (v : Variant) (m : Measured)
    → measure (rows_of execs blk v) ≡ ok (some m)
    → median_nat (map pgu_of (rows_of execs blk v)) ≡ ok m.pgu
unfolding measure
measure-median execs blk v m h =
    let rows = rows_of execs blk v in
    >>=-elim (median_nat (map pgu_of rows)) _ (rw (measure_some rows m h) at h) λ n median h1.
      >>=-elim (sorted_public (distinct eq_public (map (λ (e : Execution). e.public_values) rows)))
        _ h1
        λ values _ h2. let same : n ≡ m.pgu = pgu_same n (ap entry_pgu h2) in median ∙ ap ok same
  where
    entry_pgu : Outcome (Option Measured) → Option ℕ
    entry_pgu (err e) = none
    entry_pgu (ok none) = none
    entry_pgu (ok (some x)) = some x.pgu

    pgu_same : (n : ℕ) → some n ≡ some m.pgu → n ≡ m.pgu
    pgu_same n e = cc

-- What an entry of the dictionary of a variant stands for: the block was not reached, or it was and
-- the entry has the median.
pub IsMeasured : List Execution → ℕ → Variant → Option Measured → Type 0
IsMeasured execs blk v none = ¬ HasReached execs blk v
IsMeasured execs blk v (some m) =
    HasReached execs blk v × IsMedianNat (map pgu_of (rows_of execs blk v)) m.pgu

pub measure-IsMeasured :
    (execs : List Execution) (blk : ℕ) (v : Variant) (o : Option Measured)
    → measure (rows_of execs blk v) ≡ ok o
    → IsMeasured execs blk v o
unfolding IsMeasured
measure-IsMeasured execs blk v none h = λ reached. cc (
  measure_none (rows_of execs blk v) h,
  HasReached-is_unreached execs blk v reached (rows_of execs blk v) refl,
)
measure-IsMeasured execs blk v (some m) h =
    (measure-HasReached execs blk v m h, median_nat-IsMedian _ _ (measure-median execs blk v m h))

pub HasReached-some :
    (execs : List Execution) (blk : ℕ) (v : Variant) (o : Option Measured)
    → IsMeasured execs blk v o
    → HasReached execs blk v
    → (m : Measured) × (o ≡ some m)
unfolding IsMeasured
HasReached-some execs blk v none known reached = absurd (known reached)
HasReached-some execs blk v (some m) known reached = (m, refl)

pub IsMeasured-HasReached :
    (execs : List Execution) (blk : ℕ) (v : Variant) (m : Measured)
    → IsMeasured execs blk v (some m)
    → HasReached execs blk v
unfolding IsMeasured
IsMeasured-HasReached execs blk v m known = known.0

pub missed-none :
    (execs : List Execution) (blk : ℕ) (v : Variant) (o : Option Measured)
    → IsMeasured execs blk v o
    → ¬ HasReached execs blk v
    → o ≡ none
unfolding IsMeasured
missed-none execs blk v none known missed = refl
missed-none execs blk v (some m) known missed = absurd (missed known.0)

-- The dictionary of a variant, at a block of the list that it was made for.
pub measure_all-measured_at :
    (execs : List Execution) (v : Variant) (blks : List ℕ) (d : PerBlock) (blk : ℕ)
    → measure_all execs v blks ≡ ok d
    → Elem blk blks
    → measure (rows_of execs blk v) ≡ ok (measured_at d blk)
unfolding measure_all measured_at
measure_all-measured_at execs v [] d blk done m = absurd m
measure_all-measured_at execs v (b ∷ blks) d blk done m =
    >>=-elim (measure (rows_of execs b v)) _ done λ x one h1.
      >>=-elim (measure_all execs v blks) _ h1 λ rest others h2.
        subst (λ e. measure (rows_of execs blk v) ≡ ok (measured_at e blk)) (ok_inj h2)
          (elim (Bool-cases (b == blk)) [
            | inl same ↦
                rw same
                  (subst (λ k. measure (rows_of execs k v) ≡ ok x) ((==_iff b blk).0 same) one)
            | inr other ↦
                rw other (measure_all-measured_at execs v blks rest blk others (later m other))
          ])
  where
    later : (blk ≡ b) ⊎ Elem blk blks → (b == blk) ≡ false → Elem blk blks
    later (inl e) other = absurd (cc (other, (==_iff b blk).1 (sym e)))
    later (inr m) other = m

member-Elem : (x : ℕ) (xs : List ℕ) → member (λ a b. a == b) x xs ≡ true → Elem x xs
unfolding member
member-Elem x [] h = cc
member-Elem x (y ∷ ys) h = elim (Bool-cases (x == y)) [
  | inl same ↦ inl ((==_iff x y).0 same)
  | inr other ↦ inr (member-Elem x ys (rw other at h))
]

Elem-distinct : (x : ℕ) (xs : List ℕ) → Elem x xs → Elem x (distinct (λ a b. a == b) xs)
unfolding distinct
Elem-distinct x [] m = m
Elem-distinct x (y ∷ ys) (inl e) = elim (Bool-cases (member (λ a b. a == b) y ys)) [
  | inl again ↦
      rw again (Elem-distinct x ys (subst (λ z. Elem z ys) (sym e) (member-Elem y ys again)))
  | inr fresh ↦ rw fresh (inl e)
]
Elem-distinct x (y ∷ ys) (inr m) = elim (Bool-cases (member (λ a b. a == b) y ys)) [
  | inl again ↦ rw again (Elem-distinct x ys m)
  | inr fresh ↦ rw fresh (inr (Elem-distinct x ys m))
]

Elem-map :
    (execs : List Execution) (e : Execution)
    → Elem e execs
    → Elem e.block (map (λ (x : Execution). x.block) execs)
Elem-map [] e m = absurd m
Elem-map (x ∷ xs) e (inl same) = inl (ap (λ (z : Execution). z.block) same)
Elem-map (x ∷ xs) e (inr m) = inr (Elem-map xs e m)

-- The block of a run is among the blocks.
pub IsRun-blocks_of :
    (execs : List Execution) (blk : ℕ) (v : Variant) (e : Execution)
    → IsRun execs blk v e
    → Elem blk (blocks_of execs)
unfolding blocks_of
IsRun-blocks_of execs blk v e r = (Elem-sort leb blk _).1 (
    Elem-distinct blk _ (
      subst (λ k. Elem k (map (λ (x : Execution). x.block) execs)) r.of_block
        (Elem-map execs e r.listed)))
