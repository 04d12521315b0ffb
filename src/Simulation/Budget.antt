-- ===== src/Simulation/Budget.antt =====
-- How many events can still come of a state of `simulate`, and that no part of a round adds any but
-- those it is charged for.
use lemma_xperiment.Common.{
  ℕ, ◌+◌, ◌-◌, ◌*◌, ◌≤◌, ◌≡◌, refl, ◌∙◌, Bool, true, false, ◌&&◌, List, [], ◌∷◌, ◌==◌, ltb, leb,
  if◌then◌else◌, Floats, Bool-cases, inl, inr, place, arith,
}
use lemma_xperiment.Simulation.State.{
  is_hedge, Kind, arrive, done, hedge_due, kill_due, Setup, Job, Event, State, push, comes_first,
}
use lemma_xperiment.Simulation.Moves.{
  warm, is_stale, on_server, hedge_later, start_copy, dispatch, try_dispatch, measured, release,
  release_all, finalize, count_finished, service,
}
use lemma_xperiment.Simulation.Loop.{copies}

-- A copy that waits brings the end of its run and, for the first copy, a hedge.
unfoldable pub toll : ℕ → ℕ
toll cid = if cid == 0 then 3 else 1

unfoldable pub tolls : List (ℕ × ℕ) → ℕ
tolls [] = 0
tolls ((j, cid) ∷ waitq) = toll cid + tolls waitq

module _ (fl : Floats) (c : Setup fl) where
  -- An arrival brings its copies and its deadline.
  unfoldable pub charge : Kind → ℕ
  charge arrive = 3 * copies fl c + 2
  charge (done _ _) = 1
  charge (hedge_due _) = 2
  charge (kill_due _) = 1

  unfoldable pub charges : List (Event fl) → ℕ
  charges [] = 0
  charges (e ∷ events) = charge e.kind + charges events

  unfoldable pub budget : State fl → ℕ
  budget s = charges s.events + tolls s.waitq + (c.n_jobs - s.jobs_created) * charge arrive

  charges-place :
      (e : Event fl) (events : List (Event fl))
      → charges (place (comes_first fl) e events) ≡ charge e.kind + charges events
  unfolding charges place
  charges-place e [] = refl
  charges-place e (f ∷ events) = elim (Bool-cases (comes_first fl e f)) [
    | inl first ↦ rw first refl
    | inr later ↦ rw later (omega (arith, charges-place e events))
  ]

  pub charges-push :
      (t : fl.F) (kind : Kind) (s : State fl)
      → charges (push fl t kind s).events ≡ charge kind + charges s.events
  unfolding push
  charges-push t kind s = charges-place (record { time = t; seq = s.seq + 1; kind = kind }) s.events

  -- What a part of a round leaves alone.
  pub record IsQuiet (s s' : State fl) : Type 0 where
    pub events : s'.events ≡ s.events
    pub waitq : s'.waitq ≡ s.waitq
    pub created : s'.jobs_created ≡ s.jobs_created

  pub IsQuiet-refl : (s : State fl) → IsQuiet s s
  IsQuiet-refl s = record { events = refl; waitq = refl; created = refl }

  pub IsQuiet-trans : {s s' s'' : State fl} → IsQuiet s s' → IsQuiet s' s'' → IsQuiet s s''
  IsQuiet-trans p q = record {
    events = q.events ∙ p.events;
    waitq = q.waitq ∙ p.waitq;
    created = q.created ∙ p.created;
  }

  pub either-IsQuiet :
      (b : Bool) {s x y : State fl} → IsQuiet s x → IsQuiet s y → IsQuiet s (if b then x else y)
  either-IsQuiet true p q = p
  either-IsQuiet false p q = q

  measured-IsQuiet : (j : ℕ) (t t0 : fl.F) (s : State fl) → IsQuiet s (measured fl c j t t0 s)
  unfolding measured
  measured-IsQuiet j t t0 s =
      either-IsQuiet (leb (warm fl c) j) (record { events = refl; waitq = refl; created = refl })
        (IsQuiet-refl s)

  release-IsQuiet :
      (j : ℕ) (t : fl.F) (running : List (ℕ × fl.F)) (s : State fl)
      → IsQuiet s (release fl c j t running s)
  unfolding release
  release-IsQuiet j t [] s = IsQuiet-refl s
  release-IsQuiet j t ((cid, t0) ∷ running) s =
      let freed : State fl = record s { free = s.free + 1 } in
      IsQuiet-trans {s' = freed} (record { events = refl; waitq = refl; created = refl })
        (IsQuiet-trans (measured-IsQuiet j t t0 freed)
          (release-IsQuiet j t running (measured fl c j t t0 freed)))

  pub release_all-IsQuiet :
      (j : ℕ) (job : Job fl) (t : fl.F) (s : State fl) → IsQuiet s (release_all fl c j job t s)
  unfolding release_all
  release_all-IsQuiet j job t s =
      IsQuiet-trans (release-IsQuiet j t job.running s)
        (record { events = refl; waitq = refl; created = refl })

  pub finalize-IsQuiet :
      (j : ℕ) (job : Job fl) (t : fl.F) (on_time : Bool) (s : State fl)
      → IsQuiet s (finalize fl c j job t on_time s)
  unfolding finalize
  finalize-IsQuiet j job t on_time s =
      either-IsQuiet (ltb j (warm fl c)) (IsQuiet-refl s)
        (record { events = refl; waitq = refl; created = refl })

  pub count_finished-IsQuiet :
      (j : ℕ) (t : fl.F) (s : State fl) → IsQuiet s (count_finished fl c j t s)
  unfolding count_finished
  count_finished-IsQuiet j t s =
      either-IsQuiet (leb (warm fl c) j) (record { events = refl; waitq = refl; created = refl })
        (IsQuiet-refl s)

  pub IsQuiet-budget : {s s' : State fl} → IsQuiet s s' → budget s' ≡ budget s
  unfolding budget
  IsQuiet-budget q = rw (q.events, q.waitq, q.created) refl

  -- The pushes of `start_copy` are paid by the toll of the copy.
  start_copy-charges :
      (j cid : ℕ) (t : fl.F) (s : State fl)
      → (charges (start_copy fl c j cid t s).events ≤ toll cid + charges s.events)
        × ((start_copy fl c j cid t s).jobs_created ≡ s.jobs_created)
  unfolding start_copy hedge_later on_server push charge toll
  start_copy-charges j cid t s = elim (Bool-cases (is_hedge c.policy && cid == 0)) [
    | inl hedged ↦ rw hedged (
      omega (
        arith,
        charges-push (fl.add t c.t_h) (hedge_due j) placed,
        charges-push ends (done j cid) (on_server fl c j cid t s),
        first_toll (is_hedge c.policy) hedged,
      ),
      refl,
    )
    | inr alone ↦
        rw alone (
          omega (arith, charges-push ends (done j cid) (on_server fl c j cid t s), some_toll),
          refl,
        )
  ]
    where
      ends : fl.F
      ends = fl.add t (service fl c (s.jobs j) (c.gauss s.drawn))

      placed : State fl
      placed = push fl ends (done j cid) (on_server fl c j cid t s)

      first_toll : (b : Bool) → (b && cid == 0) ≡ true → toll cid ≡ 3
      first_toll b h = ground arith

      some_toll : 1 ≤ toll cid
      some_toll = ground arith

  dispatch-budget :
      (t : fl.F) (waitq : List (ℕ × ℕ)) (s : State fl)
      → (charges (dispatch fl c t waitq s).events + tolls (dispatch fl c t waitq s).waitq
          ≤ charges s.events + tolls waitq)
        × ((dispatch fl c t waitq s).jobs_created ≡ s.jobs_created)
  unfolding dispatch tolls
  dispatch-budget t [] s = (omega arith, refl)
  dispatch-budget t ((j, cid) ∷ waitq) s = elim (Bool-cases (ltb 0 s.free)) [
    | inr full ↦ rw full (omega arith, refl)
    | inl room ↦ elim (Bool-cases (is_stale fl c (s.jobs j) t)) [
      | inl stale ↦
          let (spent, created) = dispatch-budget t waitq s in
          rw (room, stale) (omega (arith, spent), created)
      | inr fresh ↦
          let s' = start_copy fl c j cid t s in
          let (spent, created) = dispatch-budget t waitq s' in
          let (paid, same) = start_copy-charges j cid t s in
          rw (room, fresh) (omega (arith, spent, paid), created ∙ same)
    ]
  ]

  pub try_dispatch-budget : (t : fl.F) (s : State fl) → budget (try_dispatch fl c t s) ≤ budget s
  unfolding try_dispatch budget
  try_dispatch-budget t s =
      let (spent, created) = dispatch-budget t s.waitq s in rw created (omega (arith, spent))

  pub try_dispatch-created :
      (t : fl.F) (s : State fl) → (try_dispatch fl c t s).jobs_created ≡ s.jobs_created
  unfolding try_dispatch
  try_dispatch-created t s = (dispatch-budget t s.waitq s).1
