-- ===== src/Simulation/Tallies.antt =====
-- The counts of `simulate` agree with one another in every state of a run.
use lemma_xperiment.Common.{
  ℕ, ◌+◌, ◌≤◌, ◌≡◌, refl, sym, ◌∙◌, ap, subst, Bool, true, false, not, [], ◌∷◌, some, ltb, leb,
  if◌then◌else◌, Floats, length, length-append, Bool-cases, Option-cases, inl, inr, arith, ok,
  ok_inj, >>=-elim,
}
use lemma_xperiment.Simulation.State.{
  Kind, arrive, done, hedge_due, kill_due, Setup, Job, State, push, start_of,
}
use lemma_xperiment.Simulation.Moves.{
  warm, try_dispatch, release_all, finalize, count_finished, wait_of,
}
use lemma_xperiment.Simulation.Loop.{
  complete, leave, on_done, on_hedge, on_kill, handle, start, empty_state,
}
use lemma_xperiment.Simulation.Capacity.{Reached, begins, takes}
use lemma_xperiment.Simulation.Silent.{
  IsSilent, try_dispatch-IsSilent, release_all-IsSilent, on_arrival-IsSilent, leave-IsSilent,
}

module _ (fl : Floats) (c : Setup fl) where
  -- No more jobs are in time, or have waited, than are counted; each of them has its wait in the
  -- list, and the count of finished jobs is theirs.
  pub record IsBalanced (s : State fl) : Type 0 where
    pub success : s.success ≤ s.n
    pub waited : s.waited ≤ s.n
    pub waits : length s.waits ≡ s.n
    pub finished : s.finished ≡ s.n

  silent-IsBalanced : {s s' : State fl} → IsSilent fl c s s' → IsBalanced s → IsBalanced s'
  silent-IsBalanced q b = record {
    success = omega (arith, q.success, q.n, b.success);
    waited = omega (arith, q.waited, q.n, b.waited);
    waits = ap length q.waits ∙ b.waits ∙ sym q.n;
    finished = q.finished ∙ b.finished ∙ sym q.n;
  }

  either-IsBalanced :
      (d : Bool) {x y : State fl} → IsBalanced x → IsBalanced y → IsBalanced (if d then x else y)
  either-IsBalanced true p q = p
  either-IsBalanced false p q = q

  at_most : (b : Bool) {x n : ℕ} → x ≤ n → (if b then x + 1 else x) ≤ n + 1
  at_most true h = omega arith
  at_most false h = omega arith

  counted-IsBalanced :
      (j : ℕ) (job : Job fl) (t : fl.F) (on_time : Bool) (s : State fl)
      → IsBalanced s
      → IsBalanced (count_finished fl c j t (finalize fl c j job t on_time s))
  unfolding count_finished finalize
  counted-IsBalanced j job t on_time s b = elim (Bool-cases (ltb j (warm fl c))) [
    | inl early ↦ let early' : leb (warm fl c) j ≡ false = ground arith in rw (early, early') b
    | inr counts ↦
        let counts' : leb (warm fl c) j ≡ true = ground arith in
        rw (counts, counts')
          (record {
            success = at_most on_time b.success;
            waited =
                at_most
                  (fl.below (fl.div (fl.of_nat 1) (fl.of_nat 1_000_000_000)) (wait_of fl c job))
                  b.waited;
            waits = omega (arith, length-append s.waits (wait_of fl c job ∷ []), b.waits);
            finished = omega (arith, b.finished);
          })
  ]

  ended-IsBalanced :
      (j : ℕ) (job job' : Job fl) (t : fl.F) (on_time : Bool) (s : State fl)
      → IsBalanced s
      → IsBalanced
          (count_finished fl c j t (finalize fl c j job t on_time (release_all fl c j job' t s)))
  ended-IsBalanced j job job' t on_time s b =
      counted-IsBalanced j job t on_time (release_all fl c j job' t s)
        (silent-IsBalanced (release_all-IsSilent fl c j job' t s) b)

  sent-IsBalanced : (t : fl.F) (s : State fl) → IsBalanced s → IsBalanced (try_dispatch fl c t s)
  sent-IsBalanced t s b = silent-IsBalanced (try_dispatch-IsSilent fl c t s) b

  handle-IsBalanced :
      (kind : Kind) (t : fl.F) (s s' : State fl)
      → handle fl c kind t s ≡ ok s'
      → IsBalanced s
      → IsBalanced s'
  unfolding handle on_hedge on_kill on_done complete
  handle-IsBalanced arrive t s s' h b =
      subst IsBalanced (ok_inj h) (silent-IsBalanced (on_arrival-IsSilent fl c t s) b)
  handle-IsBalanced (hedge_due j) t s s' h b = subst IsBalanced (ok_inj h) (
      either-IsBalanced (s.jobs j).is_done b (
        sent-IsBalanced t (record s { waitq = (j, 1) ∷ s.waitq })
          (silent-IsBalanced
            (record { n = refl; success = refl; waited = refl; waits = refl; finished = refl }) b)))
  handle-IsBalanced (kill_due j) t s s' h b = subst IsBalanced (ok_inj h) (
      either-IsBalanced (s.jobs j).is_done b (
        sent-IsBalanced t _
          (ended-IsBalanced j (s.jobs j) (record (s.jobs j) { is_done = true }) t false s b)))
  handle-IsBalanced (done j cid) t s s' h b =
      elim (Option-cases (start_of fl cid (s.jobs j).running)) [
        | inl cancelled ↦ subst IsBalanced (ok_inj (rw (cancelled, handle, on_done) at h)) b
        | inr (t0, running) ↦
            >>=-elim (leave fl c j cid t t0 s) _ (rw (running, handle, on_done) at h)
              λ left went same.
                let b' = silent-IsBalanced (leave-IsSilent fl c j cid t t0 s left went) b in
                subst IsBalanced (ok_inj same) (
                  sent-IsBalanced t _ (
                    either-IsBalanced (left.jobs j).is_done b' (
                      ended-IsBalanced j (left.jobs j)
                        (record (left.jobs j) { is_done = true; completion = some t }) t
                        (not (fl.below (left.jobs j).deadline t)) left b')))
      ]

  empty-IsBalanced : IsBalanced (empty_state fl c)
  unfolding empty_state
  empty-IsBalanced = record {
    success = omega arith;
    waited = omega arith;
    waits = refl;
    finished = refl;
  }

  -- In every state of a run, no more jobs are in time, or have waited, than are counted; each of
  -- them has its wait in the list, and the count of finished jobs is theirs.
  pub Reached-IsBalanced : (s : State fl) → Reached fl c s → IsBalanced s
  unfolding start push
  Reached-IsBalanced s begins =
      either-IsBalanced c.is_poisson
        (silent-IsBalanced
          (record { n = refl; success = refl; waited = refl; waits = refl; finished = refl })
          empty-IsBalanced)
        (silent-IsBalanced
          (record { n = refl; success = refl; waited = refl; waits = refl; finished = refl })
          empty-IsBalanced)
  Reached-IsBalanced last (takes {s} e events s' reached taken h) =
      handle-IsBalanced e.kind e.time (record s { events = events }) s' h
        (silent-IsBalanced
          (record { n = refl; success = refl; waited = refl; waits = refl; finished = refl })
          (Reached-IsBalanced s reached))
