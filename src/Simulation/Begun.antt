-- ===== src/Simulation/Begun.antt =====
-- Every state of a run keeps to `IsStarted`, so that no copy ends before the measured period.
use lemma_xperiment.Common.{
  ℕ, ◌+◌, ◌<◌, ◌≡◌, refl, sym, ◌∙◌, ap, true, false, not, [], ◌∷◌, some, ltb, ltb→lt, leb, leb→le,
  if◌then◌else◌, Floats, Bool-cases, Option-cases, inl, inr, arith, ok,
}
use lemma_xperiment.Simulation.State.{
  Kind, arrive, done, hedge_due, kill_due, Setup, Job, State, update, start_of, remove,
}
use lemma_xperiment.Simulation.Moves.{warm, later, try_dispatch}
use lemma_xperiment.Simulation.Loop.{
  new_job, on_arrival, complete, leave, on_done, on_hedge, on_kill, handle, start, empty_state,
  no_job,
}
use lemma_xperiment.Simulation.Started.{
  IsOwn, IsStarted, either-IsStarted, push-IsStarted, idle-update, try_dispatch-IsStarted,
  IsApart-IsStarted,
}
use lemma_xperiment.Simulation.Openings.{ended-IsStarted, on_arrival-IsStarted, raised}

module _ (fl : Floats) (c : Setup fl) where
  -- A job with a copy that runs is one of the first.
  runs-lt :
      (j cid : ℕ) (s : State fl) {t0 : fl.F}
      → IsStarted fl c s
      → start_of fl cid (s.jobs j).running ≡ some t0
      → j < s.jobs_created
  unfolding start_of
  runs-lt j cid s i found = elim (Bool-cases (ltb j s.jobs_created)) [
    | inl under ↦ ltb→lt j s.jobs_created under
    | inr over ↦ absurd (nothing (i.idle j (ground arith)) found)
  ]
    where
      nothing :
          {t0 : fl.F} → (s.jobs j).running ≡ [] → start_of fl cid (s.jobs j).running ≡ some t0 → ⊥
      nothing e h = cc (sym (ap (start_of fl cid) e) ∙ h)

  pub leave-ok :
      (j cid : ℕ) (t t0 : fl.F) (s : State fl)
      → IsStarted fl c s
      → start_of fl cid (s.jobs j).running ≡ some t0
      → (s' : State fl) × (leave fl c j cid t t0 s ≡ ok s') × IsStarted fl c s'
  unfolding leave
  leave-ok j cid t t0 s i found = elim (Bool-cases (leb (warm fl c) j)) [
    | inr early ↦ rw (early, leave) (left, refl, gone)
    | inl counted ↦
        let (m0, set) =
          i.begun (omega (arith, leb→le (warm fl c) j counted, runs-lt j cid s i found)) in
        rw (counted, leave)
          (
            record left { busy = fl.add s.busy (fl.sub t (later fl c t0 m0)) },
            raised s.measure_start m0 set _,
            IsApart-IsStarted fl c
                (record {
                  created = refl;
                  measure = refl;
                  waitq = refl;
                  events = refl;
                  jobs = refl;
                })
                gone,
          )
  ]
    where
      job : Job fl
      job = record (s.jobs j) { running = remove fl cid (s.jobs j).running }

      left : State fl
      left = record s { free = s.free + 1; jobs = update fl s.jobs j job }

      gone : IsStarted fl c left
      gone = record {
        begun = i.begun;
        idle = idle-update fl c s.jobs_created j s.jobs job i.idle (runs-lt j cid s i found);
        queued = i.queued;
        hedged = i.hedged;
      }

  -- Every event is handled without an exception, and keeps to `IsStarted`.
  pub handle-ok :
      (kind : Kind) (t : fl.F) (s : State fl)
      → IsOwn s.jobs_created kind
      → IsStarted fl c s
      → (s' : State fl) × (handle fl c kind t s ≡ ok s') × IsStarted fl c s'
  unfolding handle on_hedge on_kill on_done complete
  handle-ok arrive t s own i = (on_arrival fl c t s, refl, on_arrival-IsStarted fl c t s i)
  handle-ok (hedge_due j) t s own i = (
    on_hedge fl c j t s,
    refl,
    either-IsStarted fl c (s.jobs j).is_done i (
        try_dispatch-IsStarted fl c t (record s { waitq = (j, 1) ∷ s.waitq })
          (record { begun = i.begun; idle = i.idle; queued = (own, i.queued); hedged = i.hedged })),
  )
  handle-ok (kill_due j) t s own i = (
    on_kill fl c j t s,
    refl,
    either-IsStarted fl c (s.jobs j).is_done i (
        try_dispatch-IsStarted fl c t _
          (ended-IsStarted fl c j (s.jobs j) (record (s.jobs j) { is_done = true }) t false s i)),
  )
  handle-ok (done j cid) t s own i = elim (Option-cases (start_of fl cid (s.jobs j).running)) [
    | inl cancelled ↦ rw (cancelled, handle, on_done) (s, refl, i)
    | inr (t0, running) ↦
        let (left, went, i') = leave-ok j cid t t0 s i running in
        (
          try_dispatch fl c t
              (if (left.jobs j).is_done then left else complete fl c j (left.jobs j) t left),
          rw (running, went, handle, on_done) refl,
          try_dispatch-IsStarted fl c t _ (
              either-IsStarted fl c (left.jobs j).is_done i' (
                ended-IsStarted fl c j (left.jobs j)
                  (record (left.jobs j) { is_done = true; completion = some t }) t
                  (not (fl.below (left.jobs j).deadline t)) left i')),
        )
  ]

  pub start-IsStarted : IsStarted fl c (start fl c)
  unfolding start empty_state no_job new_job
  start-IsStarted =
      either-IsStarted fl c c.is_poisson
        (push-IsStarted fl c (c.expovariate 0) arrive (record (empty_state fl c) { drawn = 1 }) tt
          (IsApart-IsStarted fl c
            (record { created = refl; measure = refl; waitq = refl; events = refl; jobs = refl })
            fresh))
        (push-IsStarted fl c (fl.of_nat 0) arrive (empty_state fl c) tt fresh)
    where
      fresh : IsStarted fl c (empty_state fl c)
      fresh = record {
        begun = λ h. absurd (omega arith);
        idle = λ j h. refl;
        queued = tt;
        hedged = tt;
      }
