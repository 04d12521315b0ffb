-- ===== src/Paired/Decision/Failures.antt =====
-- When the verdict of the acceptance computation is Fail.
use lemma_xperiment.Common.{
  Floats, ℕ, ◌≡◌, refl, ◌∙◌, ap, subst, Bool, true, false, List, Option, ltb, length, Outcome, ok,
  err, >>=-elim, Bool-cases, inl, inr, Elem, filter, All, sym, map, All-Elem,
}
use lemma_xperiment.Paired.{Execution, baseline, candidate, alternative, per_block, blocks_of}
use lemma_xperiment.Paired.Decision.{
  Verdict, fail, is_empty, Policy, median_of, bootstrap, Row, all_rows, is_paired, is_failed, gains,
  Statistics, Record, conditions, verdict_of, performance_of, evaluate,
}
use lemma_xperiment.Paired.Reached.{
  HasReached, IsMeasured, IsRun-blocks_of, HasReached-some, missed-none,
}
use lemma_xperiment.Paired.Decision.Origins.{IsRowOf, rows-IsRowOf, row_at}
use lemma_xperiment.Paired.Decision.Rows.{filter-some}

performance_of-failed :
    (fl : Floats) (policy : Policy) (draw : ℕ → ℕ → ℕ → ℕ) (rs : List (Row fl policy)) (v : Verdict)
    (s : Option (Statistics fl policy))
    → performance_of fl policy draw rs ≡ ok (v, s)
    → is_empty (filter (is_failed fl policy) rs) ≡ false
    → v ≡ fail
unfolding performance_of conditions
performance_of-failed fl policy draw rs v s done failed =
    elim (Bool-cases (ltb (length (filter (is_paired fl policy) rs)) policy.minimum_blocks)) [
      | inl few ↦ cc (rw (few, failed) at done)
      | inr many ↦
          >>=-elim (median_of fl policy (gains fl policy (filter (is_paired fl policy) rs))) _
            (rw many at done)
            λ stat _ h1.
              >>=-elim
                (bootstrap fl policy draw (gains fl policy (filter (is_paired fl policy) rs))) _ h1
                λ (lo, hi) _ h2. cc (rw failed at h2)
    ]

verdict_of-fail :
    (fl : Floats) (policy : Policy) (correctness formal : Bool)
    → verdict_of fl policy fail correctness formal ≡ fail
unfolding verdict_of
verdict_of-fail fl policy true true = refl
verdict_of-fail fl policy true false = refl
verdict_of-fail fl policy false formal = refl

-- A block that the baseline reached and the candidate did not has a row that says so.
lost_row :
    (fl : Floats) (policy : Policy) (execs : List Execution) (rs : List (Row fl policy)) (blk : ℕ)
    → All (IsRowOf fl policy execs) rs × (map (λ (r : Row fl policy). r.block) rs ≡ blocks_of execs)
    → HasReached execs blk baseline
    → ¬ HasReached execs blk candidate
    → (row : Row fl policy) × Elem row rs × (is_failed fl policy row ≡ true)
unfolding is_failed
lost_row fl policy execs rs blk (all, blocks) reached missed =
    let (row, at, here) = row_at fl policy blk rs (
      subst (Elem blk) (sym blocks)
        (IsRun-blocks_of execs blk baseline reached.run reached.is_run)) in
    let told = All-Elem (IsRowOf fl policy execs) row rs all at in
    let (m, a_set) =
      HasReached-some execs blk baseline row.a
        (subst (λ k. IsMeasured execs k baseline row.a) here told.a_measured) reached in
    let b_unset =
      missed-none execs blk candidate row.b
        (subst (λ k. IsMeasured execs k candidate row.b) here told.b_measured) missed in
    (row, at, rw (a_set, b_unset) refl)

Fails : (fl : Floats) (policy : Policy) → Outcome (Record fl policy) → Type 0
Fails fl policy (err e) = Unit
Fails fl policy (ok r) = r.verdict ≡ fail

-- Where every run of the baseline on a block reached its end, of which there is one, and the
-- candidate has no run on the block or one that did not reach its end, the verdict is Fail, however
-- many blocks are paired and whatever the statistic.
pub evaluate-fails :
    (fl : Floats) (policy : Policy) (draw : ℕ → ℕ → ℕ → ℕ) (execs : List Execution)
    (correctness formal : Bool) (r : Record fl policy) (blk : ℕ)
    → evaluate fl policy draw execs correctness formal ≡ ok r
    → HasReached execs blk baseline
    → ¬ HasReached execs blk candidate
    → r.verdict ≡ fail
unfolding evaluate Fails
evaluate-fails fl policy draw execs correctness formal r blk done reached missed =
    >>=-elim (per_block execs baseline) _ done λ a on_a h1.
      >>=-elim (per_block execs candidate) _ h1 λ b on_b h2.
        >>=-elim (per_block execs alternative) _ h2 λ c on_c h3.
          >>=-elim (all_rows fl policy a b c (blocks_of execs)) _ h3 λ rs listed h4.
            >>=-elim (performance_of fl policy draw rs) _ h4 λ (v, s) performed h5.
              let (row, at, failed) =
                lost_row fl policy execs rs blk
                  (rows-IsRowOf fl policy execs a b c rs on_a on_b on_c listed) reached missed in
              let lost = filter-some (is_failed fl policy) rs row at failed in
              subst (Fails fl policy) h5 (
                ap (λ w. verdict_of fl policy w correctness formal)
                  (performance_of-failed fl policy draw rs v s performed lost)
                ∙ verdict_of-fail fl policy correctness formal)
