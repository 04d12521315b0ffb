-- ===== src/Tests/Paired.antt =====
-- Tests of evaluation/analysis/paired.py: whole numbers in place of floats.
use lemma_xperiment.Common.{
  Floats, ℕ, ◌+◌, ◌-◌, ◌*◌, ◌/◌, ◌≡◌, refl, Bool, true, false, List, [], ◌∷◌, none, Outcome, ok,
  err, ltb, inl, sort, place, member, distinct, filter, every, Elem, inr, ap,
}
use lemma_xperiment.Paired.{
  Execution, Variant, baseline, candidate, leb_bytes, sorted_public, median_nat, rows_of,
  is_unreached, measure, blocks_of, measure_all, per_block, measured_at,
}
use lemma_xperiment.Paired.Decision.{
  Policy, pass, fail, Record, improvement, median_of, sample, sampled, bootstrap, least,
  improvement_on, beyond, row_of, all_rows, is_paired, is_failed, gains, conditions, verdict_of,
  performance_of, evaluate,
}
use lemma_xperiment.Paired.Reached.{HasReached}
use lemma_xperiment.Paired.Decision.Verdicts.{IsAcceptable, evaluate-IsAcceptable}
use lemma_xperiment.Paired.Decision.Failures.{evaluate-fails}
use mathlib.Core.List.{foldr}

abbrev whole : Floats
whole = record {
  F = ℕ;
  of_nat = λ n. n;
  difference = λ m n. m - n;
  add = λ x y. x + y;
  sub = λ x y. x - y;
  exp = λ x. x;
  exp_overflows = λ x. ltb 100 x;
  sqrt = λ x. x;
  truncate = λ x. x;
  sum = foldr (λ x y. x + y) 0;
  mul = λ x y. x * y;
  div = λ x y. x / y;
  below = ltb;
  above = λ n x. ltb x n;
}

abbrev policy : Policy
policy = record {
  minimum_improvement = 5;
  maximum_regression = 10;
  minimum_blocks = 1;
  resamples = 3;
  low_rank = 0;
  high_rank = 2;
}

abbrev draw : ℕ → ℕ → ℕ → ℕ
draw i j n = 0

abbrev execution : ℕ → Variant → ℕ → Bool → Execution
execution block variant pgu reached = record {
  block = block;
  variant = variant;
  stdin_sha256 = 1 ∷ [];
  pgu = pgu;
  reached = reached;
  public_values = none;
}

abbrev better : List Execution
better = execution 7 baseline 100 true ∷ execution 7 candidate 80 true ∷ []

abbrev lost : List Execution
lost = execution 7 baseline 100 true ∷ execution 7 candidate 80 false ∷ []

abbrev none_yet : Record whole policy
none_yet = record { rows = []; statistics = none; performance = fail; verdict = fail }

abbrev value : Outcome (Record whole policy) → Record whole policy
value (ok r) = r
value (err e) = none_yet

accepted : Record whole policy
accepted = value (evaluate whole policy draw better true true)

evaluated : (evaluate whole policy draw better true true ≡ ok accepted) × (accepted.verdict ≡ pass)
unfolding accepted evaluate improvement median_of sample sampled bootstrap least improvement_on
    beyond row_of all_rows is_paired is_failed gains conditions verdict_of performance_of member
    distinct filter every leb_bytes sorted_public median_nat rows_of is_unreached measure blocks_of
    measure_all per_block measured_at sort place
evaluated = (refl, refl)

evaluate-IsAcceptable_example :
    (true ≡ true) × (true ≡ true) × IsAcceptable whole policy better accepted
evaluate-IsAcceptable_example =
    evaluate-IsAcceptable whole policy draw better true true accepted evaluated.0 evaluated.1

rejected : Record whole policy
rejected = value (evaluate whole policy draw lost true true)

refused : evaluate whole policy draw lost true true ≡ ok rejected
unfolding rejected evaluate improvement median_of sample sampled bootstrap least improvement_on
    beyond row_of all_rows is_paired is_failed gains conditions verdict_of performance_of member
    distinct filter every leb_bytes sorted_public median_nat rows_of is_unreached measure blocks_of
    measure_all per_block measured_at sort place
refused = refl

baseline_reached : HasReached lost 7 baseline
baseline_reached = record {
  run = execution 7 baseline 100 true;
  is_run = record { listed = inl refl; of_block = refl; of_variant = refl };
  all = λ e r. reached e r.listed r.of_variant;
}
  where
    reached : (e : Execution) → Elem e lost → e.variant ≡ baseline → e.reached ≡ true
    reached e (inl same) variant = ap (λ (x : Execution). x.reached) same
    reached e (inr (inl same)) variant =
        absurd (cc (ap (λ (x : Execution). x.variant) same, variant))
    reached e (inr (inr m)) variant = absurd m

candidate_missed : ¬ HasReached lost 7 candidate
candidate_missed h =
    let bad : false ≡ true =
      h.all (execution 7 candidate 80 false)
        (record { listed = inr (inl refl); of_block = refl; of_variant = refl }) in
    cc

evaluate-fails_example : rejected.verdict ≡ fail
evaluate-fails_example =
    evaluate-fails whole policy draw lost true true rejected 7 refused baseline_reached
      candidate_missed
