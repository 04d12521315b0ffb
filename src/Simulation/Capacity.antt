-- ===== src/Simulation/Capacity.antt =====
-- Never do more copies run than there are servers.
use lemma_xperiment.Common.{
  ℕ, zero, suc, ◌+◌, ◌≡◌, refl, ◌∙◌, ap, subst, Bool, true, false, not, List, [], ◌∷◌, some, ltb,
  leb, if◌then◌else◌, Floats, length, Bool-cases, Option-cases, inl, inr, arith, ok, ok_inj,
  type_error, or_raise, >>=-elim,
}
use lemma_xperiment.Simulation.State.{
  Kind, arrive, done, hedge_due, kill_due, Setup, Job, Event, State, update, start_of, remove,
}
use lemma_xperiment.Simulation.Moves.{
  warm, try_dispatch, measured, release, release_all, finalize, count_finished,
}
use lemma_xperiment.Simulation.Loop.{
  create, new_job, kill_later, next_arrival, on_arrival, complete, leave, on_done, on_hedge,
  on_kill, handle, start, empty_state, no_job,
}
use lemma_xperiment.Simulation.Running.{
  IsWithinCapacity, length-remove, moved, IsStill, IsStill-IsWithinCapacity,
  either-IsWithinCapacity, push-IsWithinCapacity, try_dispatch-IsWithinCapacity, total,
}

module _ (fl : Floats) (c : Setup fl) where
  either-IsStill :
      (b : Bool) {s x y : State fl}
      → IsStill fl c s x
      → IsStill fl c s y
      → IsStill fl c s (if b then x else y)
  either-IsStill true p q = p
  either-IsStill false p q = q

  measured-IsStill : (j : ℕ) (t t0 : fl.F) (s : State fl) → IsStill fl c s (measured fl c j t t0 s)
  unfolding measured
  measured-IsStill j t t0 s =
      either-IsStill (leb (warm fl c) j) (record { free = refl; jobs = refl })
        (record { free = refl; jobs = refl })

  -- All servers of a job are freed.
  release-free :
      (j : ℕ) (t : fl.F) (running : List (ℕ × fl.F)) (s : State fl)
      → ((release fl c j t running s).free ≡ s.free + length running)
        × ((release fl c j t running s).jobs ≡ s.jobs)
  unfolding release
  release-free j t [] s = (omega arith, refl)
  release-free j t ((cid, t0) ∷ running) s =
      let freed : State fl = record s { free = s.free + 1 } in
      let still = measured-IsStill j t t0 freed in
      let (count, same) = release-free j t running (measured fl c j t t0 freed) in
      (omega (arith, count, still.free), same ∙ still.jobs)

  -- A job ends: its copies leave their servers, and the counts change.
  ended-IsWithinCapacity :
      (j : ℕ) (job : Job fl) (t : fl.F) (s s' : State fl)
      → job.running ≡ (s.jobs j).running
      → IsStill fl c (release_all fl c j job t s) s'
      → IsWithinCapacity fl c s
      → IsWithinCapacity fl c s'
  unfolding release_all
  ended-IsWithinCapacity j job t s s' own still inv =
      let (count, same) = release-free j t job.running s in
      moved fl c s s' j (record job { running = [] })
        (still.jobs ∙ ap (λ jobs. update fl jobs j (record job { running = [] })) same)
        (omega (arith, count, still.free, ap length own)) inv

  counted-IsStill :
      (j : ℕ) (job : Job fl) (t : fl.F) (on_time : Bool) (s : State fl)
      → IsStill fl c s (count_finished fl c j t (finalize fl c j job t on_time s))
  unfolding count_finished finalize
  counted-IsStill j job t on_time s =
      let final : IsStill fl c s (finalize fl c j job t on_time s) =
        either-IsStill (ltb j (warm fl c)) (record { free = refl; jobs = refl })
          (record { free = refl; jobs = refl }) in
      either-IsStill (leb (warm fl c) j) (record { free = final.free; jobs = final.jobs }) final

  on_arrival-IsWithinCapacity :
      (t : fl.F) (s : State fl)
      → IsWithinCapacity fl c s
      → IsWithinCapacity fl c (on_arrival fl c t s)
  unfolding on_arrival next_arrival kill_later create new_job
  on_arrival-IsWithinCapacity t s inv =
      let made = create fl c t s in
      let created : IsWithinCapacity fl c made =
        moved fl c s made s.jobs_created (new_job fl c t (c.gauss s.drawn)) refl (omega arith)
          inv in
      let shut = kill_later fl c s.jobs_created t made in
      let sent = try_dispatch-IsWithinCapacity fl c t shut (
        either-IsWithinCapacity fl c c.kill
          (push-IsWithinCapacity fl c (fl.add t c.window) (kill_due s.jobs_created) created)
          created) in
      let out = try_dispatch fl c t shut in
      either-IsWithinCapacity fl c (ltb out.jobs_created c.n_jobs)
        (either-IsWithinCapacity fl c c.is_poisson
          (push-IsWithinCapacity fl c (fl.add t (c.expovariate out.drawn)) arrive
            (IsStill-IsWithinCapacity fl c (record { free = refl; jobs = refl }) sent))
          (push-IsWithinCapacity fl c (fl.add t (fl.div (fl.of_nat 1) c.lam)) arrive
            (IsStill-IsWithinCapacity fl c (record { free = refl; jobs = refl }) sent)))
        sent

  leave-IsWithinCapacity :
      (j cid : ℕ) (t t0 : fl.F) (s s' : State fl)
      → start_of fl cid (s.jobs j).running ≡ some t0
      → leave fl c j cid t t0 s ≡ ok s'
      → IsWithinCapacity fl c s
      → IsWithinCapacity fl c s'
  unfolding leave
  leave-IsWithinCapacity j cid t t0 s s' at h inv = elim (Bool-cases (leb (warm fl c) j)) [
    | inr early ↦ subst (IsWithinCapacity fl c) (ok_inj (rw (early, leave) at h)) left
    | inl counted ↦
        >>=-elim (or_raise s.measure_start type_error) _ (rw (counted, leave) at h) λ m0 set same.
          subst (IsWithinCapacity fl c) (ok_inj same)
            (IsStill-IsWithinCapacity fl c (record { free = refl; jobs = refl }) left)
  ]
    where
      job : Job fl
      job = record (s.jobs j) { running = remove fl cid (s.jobs j).running }

      after : State fl
      after = record s { free = s.free + 1; jobs = update fl s.jobs j job }

      left : IsWithinCapacity fl c after
      left =
          moved fl c s after j job refl (omega (arith, length-remove fl cid (s.jobs j).running at))
            inv

  complete-IsWithinCapacity :
      (j : ℕ) (t : fl.F) (s : State fl)
      → IsWithinCapacity fl c s
      → IsWithinCapacity fl c (complete fl c j (s.jobs j) t s)
  unfolding complete
  complete-IsWithinCapacity j t s inv =
      let ended : Job fl = record (s.jobs j) { is_done = true; completion = some t } in
      ended-IsWithinCapacity j ended t s _ refl
        (counted-IsStill j (s.jobs j) t (not (fl.below (s.jobs j).deadline t))
          (release_all fl c j ended t s))
        inv

  on_done-IsWithinCapacity :
      (j cid : ℕ) (t : fl.F) (s s' : State fl)
      → on_done fl c j cid t s ≡ ok s'
      → IsWithinCapacity fl c s
      → IsWithinCapacity fl c s'
  unfolding on_done
  on_done-IsWithinCapacity j cid t s s' h inv =
      elim (Option-cases (start_of fl cid (s.jobs j).running)) [
        | inl cancelled ↦ subst (IsWithinCapacity fl c) (ok_inj (rw (cancelled, on_done) at h)) inv
        | inr (t0, running) ↦
            >>=-elim (leave fl c j cid t t0 s) _ (rw (running, on_done) at h) λ left moved_ same.
              let inv' = leave-IsWithinCapacity j cid t t0 s left running moved_ inv in
              subst (IsWithinCapacity fl c) (ok_inj same) (
                try_dispatch-IsWithinCapacity fl c t _ (
                  either-IsWithinCapacity fl c (left.jobs j).is_done inv'
                    (complete-IsWithinCapacity j t left inv')))
      ]

  on_hedge-IsWithinCapacity :
      (j : ℕ) (t : fl.F) (s : State fl)
      → IsWithinCapacity fl c s
      → IsWithinCapacity fl c (on_hedge fl c j t s)
  unfolding on_hedge
  on_hedge-IsWithinCapacity j t s inv = either-IsWithinCapacity fl c (s.jobs j).is_done inv (
      try_dispatch-IsWithinCapacity fl c t (record s { waitq = (j, 1) ∷ s.waitq })
        (IsStill-IsWithinCapacity fl c (record { free = refl; jobs = refl }) inv))

  on_kill-IsWithinCapacity :
      (j : ℕ) (t : fl.F) (s : State fl)
      → IsWithinCapacity fl c s
      → IsWithinCapacity fl c (on_kill fl c j t s)
  unfolding on_kill
  on_kill-IsWithinCapacity j t s inv =
      let ended : Job fl = record (s.jobs j) { is_done = true } in
      either-IsWithinCapacity fl c (s.jobs j).is_done inv (
        try_dispatch-IsWithinCapacity fl c t _ (
          ended-IsWithinCapacity j ended t s _ refl
            (counted-IsStill j (s.jobs j) t false (release_all fl c j ended t s)) inv))

  pub handle-IsWithinCapacity :
      (kind : Kind) (t : fl.F) (s s' : State fl)
      → handle fl c kind t s ≡ ok s'
      → IsWithinCapacity fl c s
      → IsWithinCapacity fl c s'
  unfolding handle
  handle-IsWithinCapacity arrive t s s' h inv =
      subst (IsWithinCapacity fl c) (ok_inj h) (on_arrival-IsWithinCapacity t s inv)
  handle-IsWithinCapacity (done j cid) t s s' h inv = on_done-IsWithinCapacity j cid t s s' h inv
  handle-IsWithinCapacity (hedge_due j) t s s' h inv =
      subst (IsWithinCapacity fl c) (ok_inj h) (on_hedge-IsWithinCapacity j t s inv)
  handle-IsWithinCapacity (kill_due j) t s s' h inv =
      subst (IsWithinCapacity fl c) (ok_inj h) (on_kill-IsWithinCapacity j t s inv)

  -- The states of a run: the first, and those after each event.
  pub data Reached : State fl → Type 0 where
    begins : Reached (start fl c)
    takes :
        {s : State fl} (e : Event fl) (events : List (Event fl)) (s' : State fl)
        → Reached s
        → s.events ≡ e ∷ events
        → handle fl c e.kind e.time (record s { events = events }) ≡ ok s'
        → Reached s'

  empty-IsWithinCapacity : IsWithinCapacity fl c (empty_state fl c)
  unfolding empty_state no_job new_job total
  empty-IsWithinCapacity = record { fits = λ m. omega (arith, none_runs m) }
    where
      none_runs : (m : ℕ) → total fl m (empty_state fl c).jobs ≡ 0
      none_runs zero = refl
      none_runs (suc m) = omega (arith, none_runs m)

  -- In every state of a run, the free servers and the copies that run, of however many jobs, are
  -- together no more than the servers.
  pub Reached-IsWithinCapacity : (s : State fl) → Reached s → IsWithinCapacity fl c s
  unfolding start
  Reached-IsWithinCapacity s begins =
      either-IsWithinCapacity fl c c.is_poisson
        (push-IsWithinCapacity fl c (c.expovariate 0) arrive (
          IsStill-IsWithinCapacity fl c (record { free = refl; jobs = refl })
            empty-IsWithinCapacity))
        (push-IsWithinCapacity fl c (fl.of_nat 0) arrive empty-IsWithinCapacity)
  Reached-IsWithinCapacity last (takes {s} e events s' reached taken h) =
      handle-IsWithinCapacity e.kind e.time (record s { events = events }) s' h
        (IsStill-IsWithinCapacity fl c (record { free = refl; jobs = refl })
          (Reached-IsWithinCapacity s reached))
