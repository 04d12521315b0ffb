-- ===== src/Simulation/Started.antt =====
-- Where a copy of a measured job runs, the measured period has begun.
use lemma_xperiment.Common.{
  ℕ, ◌≤◌, ◌<◌, ◌≡◌, refl, sym, subst, Bool, true, false, ◌&&◌, List, [], ◌∷◌, some, ◌==◌, ltb,
  if◌then◌else◌, Floats, All, All-place, Bool-cases, inl, inr, arith,
}
use lemma_xperiment.Simulation.State.{
  is_hedge, Kind, done, hedge_due, Setup, Job, Event, State, push, comes_first, update,
}
use lemma_xperiment.Simulation.Moves.{
  warm, is_stale, on_server, hedge_later, start_copy, dispatch, try_dispatch, service,
}

-- The job of a hedge is one of the first.
abbrev pub IsOwn : ℕ → Kind → Type 0
IsOwn n (hedge_due j) = j < n
IsOwn n _ = Unit

module _ (fl : Floats) (c : Setup fl) where
  pub record IsStarted (s : State fl) : Type 0 where
    pub begun : warm fl c < s.jobs_created → (m : fl.F) × (s.measure_start ≡ some m)
    pub idle : (j : ℕ) → s.jobs_created ≤ j → (s.jobs j).running ≡ []
    pub queued : All (λ (w : ℕ × ℕ). w.0 < s.jobs_created) s.waitq
    pub hedged : All (λ (e : Event fl). IsOwn s.jobs_created e.kind) s.events

  pub either-IsStarted :
      (b : Bool) {x y : State fl} → IsStarted x → IsStarted y → IsStarted (if b then x else y)
  either-IsStarted true p q = p
  either-IsStarted false p q = q

  pub push-IsStarted :
      (t : fl.F) (kind : Kind) (s : State fl)
      → IsOwn s.jobs_created kind
      → IsStarted s
      → IsStarted (push fl t kind s)
  unfolding push
  push-IsStarted t kind s own i = record {
    begun = i.begun;
    idle = i.idle;
    queued = i.queued;
    hedged =
        All-place (comes_first fl) (λ (e : Event fl). IsOwn s.jobs_created e.kind) _ s.events own
          i.hedged;
  }

  -- A job that is there may change.
  pub idle-update :
      (n j : ℕ) (jobs : ℕ → Job fl) (job : Job fl)
      → ((i : ℕ) → n ≤ i → (jobs i).running ≡ [])
      → j < n
      → (i : ℕ) → n ≤ i
      → (update fl jobs j job i).running ≡ []
  idle-update n j jobs job idle under i over =
      let other : (j == i) ≡ false = ground arith in rw other (idle i over)

  start_copy-IsStarted :
      (j cid : ℕ) (t : fl.F) (s : State fl)
      → j < s.jobs_created
      → IsStarted s
      → IsStarted (start_copy fl c j cid t s)
        × ((start_copy fl c j cid t s).jobs_created ≡ s.jobs_created)
  unfolding start_copy hedge_later on_server push
  start_copy-IsStarted j cid t s under i =
      (go (is_hedge c.policy && cid == 0), same (is_hedge c.policy && cid == 0))
    where
      ends : fl.F
      ends = fl.add t (service fl c (s.jobs j) (c.gauss s.drawn))

      placed : State fl
      placed = push fl ends (done j cid) (on_server fl c j cid t s)

      started : IsStarted placed
      started = push-IsStarted ends (done j cid) (on_server fl c j cid t s) tt (record {
        begun = i.begun;
        idle = idle-update s.jobs_created j s.jobs _ i.idle under;
        queued = i.queued;
        hedged = i.hedged;
      })

      go :
          (b : Bool)
          → IsStarted (if b then push fl (fl.add t c.t_h) (hedge_due j) placed else placed)
      go true = push-IsStarted (fl.add t c.t_h) (hedge_due j) placed under started
      go false = started

      same :
          (b : Bool)
          → (if b then push fl (fl.add t c.t_h) (hedge_due j) placed else placed).jobs_created
            ≡ s.jobs_created
      same true = refl
      same false = refl

  dispatch-IsStarted :
      (t : fl.F) (waitq : List (ℕ × ℕ)) (s : State fl)
      → All (λ (w : ℕ × ℕ). w.0 < s.jobs_created) waitq
      → IsStarted s
      → IsStarted (dispatch fl c t waitq s)
  unfolding dispatch
  dispatch-IsStarted t [] s all i = record {
    begun = i.begun;
    idle = i.idle;
    queued = tt;
    hedged = i.hedged;
  }
  dispatch-IsStarted t ((j, cid) ∷ waitq) s all i = elim (Bool-cases (ltb 0 s.free)) [
    | inr full ↦
        rw full (record { begun = i.begun; idle = i.idle; queued = all; hedged = i.hedged })
    | inl room ↦ elim (Bool-cases (is_stale fl c (s.jobs j) t)) [
      | inl stale ↦ rw (room, stale) (dispatch-IsStarted t waitq s all.1 i)
      | inr fresh ↦
          let (started, same) = start_copy-IsStarted j cid t s all.0 i in
          rw (room, fresh)
            (dispatch-IsStarted t waitq (start_copy fl c j cid t s)
              (subst (λ n. All (λ (w : ℕ × ℕ). w.0 < n) waitq) (sym same) all.1) started)
    ]
  ]

  pub try_dispatch-IsStarted :
      (t : fl.F) (s : State fl) → IsStarted s → IsStarted (try_dispatch fl c t s)
  unfolding try_dispatch
  try_dispatch-IsStarted t s i = dispatch-IsStarted t s.waitq s i.queued i

  -- What leaves these parts of the state alone.
  pub record IsApart (s s' : State fl) : Type 0 where
    pub created : s'.jobs_created ≡ s.jobs_created
    pub measure : s'.measure_start ≡ s.measure_start
    pub waitq : s'.waitq ≡ s.waitq
    pub events : s'.events ≡ s.events
    pub jobs : s'.jobs ≡ s.jobs

  pub IsApart-IsStarted : {s s' : State fl} → IsApart s s' → IsStarted s → IsStarted s'
  IsApart-IsStarted {s} {s'} a i = record {
    begun = λ h. rw a.measure (i.begun (subst (λ n. warm fl c < n) a.created h));
    idle = λ j h. rw a.jobs (i.idle j (subst (λ n. n ≤ j) a.created h));
    queued = rw (a.waitq, a.created) i.queued;
    hedged = rw (a.events, a.created) i.hedged;
  }
