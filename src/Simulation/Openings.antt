-- ===== src/Simulation/Openings.antt =====
-- `IsStarted` is kept where jobs arrive and where they end.
use lemma_xperiment.Common.{
  ℕ, zero, suc, ◌+◌, ◌≤◌, ◌<◌, ◌≡◌, refl, ◌∙◌, Bool, true, false, List, [], ◌∷◌, Option, some, ◌==◌,
  ltb, leb, if◌then◌else◌, Floats, All, All-map, All-append, Bool-cases, inl, inr, arith, Outcome,
  type_error, or_raise, ◌>>=◌, ◌||◌, is_zero,
}
use lemma_xperiment.Simulation.State.{
  Kind, arrive, done, hedge_due, kill_due, Setup, Job, Event, State, update,
}
use lemma_xperiment.Simulation.Moves.{
  warm, try_dispatch, measured, release, release_all, finalize, count_finished,
}
use lemma_xperiment.Simulation.Loop.{
  copies, enqueue, create, new_job, kill_later, next_arrival, on_arrival,
}
use lemma_xperiment.Simulation.Started.{
  IsOwn, IsStarted, either-IsStarted, push-IsStarted, try_dispatch-IsStarted, IsApart,
  IsApart-IsStarted,
}

pub raised :
    {A B : Type 0} (o : Option A) (a : A)
    → o ≡ some a
    → (rest : A → Outcome B) → (or_raise o type_error >>= rest) ≡ rest a
raised o a e rest = rw e refl

module _ (fl : Floats) (c : Setup fl) where
  either-IsApart :
      (b : Bool) {s x y : State fl}
      → IsApart fl c s x
      → IsApart fl c s y
      → IsApart fl c s (if b then x else y)
  either-IsApart true p q = p
  either-IsApart false p q = q

  IsApart-trans :
      {s s' s'' : State fl} → IsApart fl c s s' → IsApart fl c s' s'' → IsApart fl c s s''
  IsApart-trans p q = record {
    created = q.created ∙ p.created;
    measure = q.measure ∙ p.measure;
    waitq = q.waitq ∙ p.waitq;
    events = q.events ∙ p.events;
    jobs = q.jobs ∙ p.jobs;
  }

  release-IsApart :
      (j : ℕ) (t : fl.F) (running : List (ℕ × fl.F)) (s : State fl)
      → IsApart fl c s (release fl c j t running s)
  unfolding release measured
  release-IsApart j t [] s = (record {
    created = refl;
    measure = refl;
    waitq = refl;
    events = refl;
    jobs = refl;
  })
  release-IsApart j t ((cid, t0) ∷ running) s =
      IsApart-trans
        (either-IsApart (leb (warm fl c) j)
          (record { created = refl; measure = refl; waitq = refl; events = refl; jobs = refl })
          (record { created = refl; measure = refl; waitq = refl; events = refl; jobs = refl }))
        (release-IsApart j t running (measured fl c j t t0 (record s { free = s.free + 1 })))

  counted-IsApart :
      (j : ℕ) (job : Job fl) (t : fl.F) (on_time : Bool) (s : State fl)
      → IsApart fl c s (count_finished fl c j t (finalize fl c j job t on_time s))
  unfolding count_finished finalize
  counted-IsApart j job t on_time s =
      let final : IsApart fl c s (finalize fl c j job t on_time s) =
        either-IsApart (ltb j (warm fl c))
          (record { created = refl; measure = refl; waitq = refl; events = refl; jobs = refl })
          (record { created = refl; measure = refl; waitq = refl; events = refl; jobs = refl }) in
      IsApart-trans final (
        either-IsApart (leb (warm fl c) j)
          (record { created = refl; measure = refl; waitq = refl; events = refl; jobs = refl })
          (record { created = refl; measure = refl; waitq = refl; events = refl; jobs = refl }))

  -- A job ends: it runs no more.
  pub ended-IsStarted :
      (j : ℕ) (job job' : Job fl) (t : fl.F) (on_time : Bool) (s : State fl)
      → IsStarted fl c s
      → IsStarted fl c
          (count_finished fl c j t (finalize fl c j job t on_time (release_all fl c j job' t s)))
  unfolding release_all
  ended-IsStarted j job job' t on_time s i =
      IsApart-IsStarted fl c (counted-IsApart j job t on_time (release_all fl c j job' t s))
        (record { begun = r.begun; idle = idle; queued = r.queued; hedged = r.hedged })
    where
      s' : State fl
      s' = release fl c j t job'.running s

      r : IsStarted fl c s'
      r = IsApart-IsStarted fl c (release-IsApart j t job'.running s) i

      idle :
          (k : ℕ)
          → s'.jobs_created ≤ k
          → (update fl s'.jobs j (record job' { running = [] }) k).running ≡ []
      idle k over = elim (Bool-cases (j == k)) [
        | inl same ↦ rw same refl
        | inr other ↦ rw other (r.idle k over)
      ]

  enqueue-All :
      (j from left n : ℕ) → j < n → All (λ (w : ℕ × ℕ). w.0 < n) (enqueue fl c j from left)
  unfolding enqueue
  enqueue-All j from zero n h = tt
  enqueue-All j from (suc left) n h = (h, enqueue-All j (from + 1) left n h)

  IsOwn-suc : (n : ℕ) (kind : Kind) → IsOwn n kind → IsOwn (n + 1) kind
  IsOwn-suc n (hedge_due j) h = omega arith
  IsOwn-suc n arrive h = tt
  IsOwn-suc n (done j cid) h = tt
  IsOwn-suc n (kill_due j) h = tt

  create-IsStarted : (t : fl.F) (s : State fl) → IsStarted fl c s → IsStarted fl c (create fl c t s)
  unfolding create new_job
  create-IsStarted t s i = record {
    begun = begun;
    idle = λ j over.
        let other : (s.jobs_created == j) ≡ false = ground arith in
        rw other (i.idle j (omega arith));
    queued =
        All-append _ s.waitq (enqueue fl c s.jobs_created 0 (copies fl c))
          (All-map _ _ s.waitq (λ (w : ℕ × ℕ) h. up w.0 h) i.queued)
          (enqueue-All s.jobs_created 0 (copies fl c) (s.jobs_created + 1) (omega arith));
    hedged = All-map _ _ s.events (λ (e : Event fl) h. IsOwn-suc s.jobs_created e.kind h) i.hedged;
  }
    where
      up : (k : ℕ) → k < s.jobs_created → k < s.jobs_created + 1
      up k h = omega arith

      begun :
          warm fl c < s.jobs_created + 1
          → (m : fl.F) × ((if s.jobs_created == warm fl c then some t else s.measure_start)
              ≡ some m)
      begun h = elim (Bool-cases (s.jobs_created == warm fl c)) [
        | inl now ↦ rw now (t, refl)
        | inr other ↦ rw other (i.begun (ground arith))
      ]

  pub on_arrival-IsStarted :
      (t : fl.F) (s : State fl) → IsStarted fl c s → IsStarted fl c (on_arrival fl c t s)
  unfolding on_arrival next_arrival kill_later
  on_arrival-IsStarted t s i =
      let made = create fl c t s in
      let shut = kill_later fl c s.jobs_created t made in
      let created = create-IsStarted t s i in
      let sent = try_dispatch-IsStarted fl c t shut (
        either-IsStarted fl c c.kill
          (push-IsStarted fl c (fl.add t c.window) (kill_due s.jobs_created) made tt created)
          created) in
      let out = try_dispatch fl c t shut in
      either-IsStarted fl c (ltb out.jobs_created c.n_jobs)
        (either-IsStarted fl c c.is_poisson
          (push-IsStarted fl c (fl.add t (c.expovariate out.drawn)) arrive
            (record out { drawn = out.drawn + 1 }) tt
            (IsApart-IsStarted fl c
              (record { created = refl; measure = refl; waitq = refl; events = refl; jobs = refl })
              sent))
          (push-IsStarted fl c (fl.add t (fl.div (fl.of_nat 1) c.lam)) arrive
            (record out { undivided = out.undivided || is_zero fl c.lam }) tt
            (IsApart-IsStarted fl c
              (record { created = refl; measure = refl; waitq = refl; events = refl; jobs = refl })
              sent)))
        sent
