-- ===== src/Simulation/Running.antt =====
-- The copies that run: how a step changes their number.
use lemma_xperiment.Common.{
  ℕ, zero, suc, ◌+◌, ◌≤◌, ◌<◌, ◌≡◌, refl, ap, Bool, true, false, ◌&&◌, List, [], ◌∷◌, some, ◌==◌,
  ltb, ltb→lt, if◌then◌else◌, Floats, length, Bool-cases, inl, inr, arith,
}
use lemma_xperiment.Simulation.State.{
  is_hedge, Kind, done, hedge_due, Setup, Job, State, push, update, put, start_of, remove,
}
use lemma_xperiment.Simulation.Moves.{
  is_stale, on_server, hedge_later, start_copy, dispatch, try_dispatch, service,
}

module _ (fl : Floats) where
  length-put :
      (cid : ℕ) (t : fl.F) (running : List (ℕ × fl.F))
      → length (put fl cid t running) ≤ suc (length running)
  unfolding put
  length-put cid t [] = omega arith
  length-put cid t ((d, u) ∷ running) = ground (arith, length-put cid t running)

  pub length-remove :
      (cid : ℕ) (running : List (ℕ × fl.F)) {t : fl.F}
      → start_of fl cid running ≡ some t
      → suc (length (remove fl cid running)) ≡ length running
  unfolding remove start_of
  length-remove cid [] h = cc
  length-remove cid ((d, u) ∷ running) h = elim (Bool-cases (d == cid)) [
    | inl same ↦ rw same refl
    | inr other ↦ rw other (ap suc (length-remove cid running (rw other at h)))
  ]

  -- The copies that run, of the first jobs.
  unfoldable pub total : ℕ → (ℕ → Job fl) → ℕ
  total zero jobs = 0
  total (suc m) jobs = length (jobs m).running + total m jobs

  total-beyond :
      (m j : ℕ) (jobs : ℕ → Job fl) (job : Job fl)
      → m ≤ j
      → total m (update fl jobs j job) ≡ total m jobs
  unfolding total
  total-beyond zero j jobs job h = refl
  total-beyond (suc m) j jobs job h =
      let other : (j == m) ≡ false = ground arith in
      rw other (ap (λ k. length (jobs m).running + k) (total-beyond m j jobs job (omega arith)))

  total-update :
      (m j : ℕ) (jobs : ℕ → Job fl) (job : Job fl)
      → j < m
      → total m (update fl jobs j job) + length (jobs j).running ≡ total m jobs + length job.running
  unfolding total
  total-update zero j jobs job h = absurd (omega arith)
  total-update (suc m) j jobs job h = elim (Bool-cases (j == m)) [
    | inl same ↦
        let e : j ≡ m = ground arith in
        rw same (
          omega
            (arith, total-beyond m j jobs job (omega arith), ap (λ i. length (jobs i).running) e))
    | inr other ↦
        let under : j < m = ground arith in
        rw other (omega (arith, total-update m j jobs job under))
  ]

  total-le-total : (m n : ℕ) (jobs : ℕ → Job fl) → m ≤ n → total m jobs ≤ total n jobs
  unfolding total
  total-le-total m zero jobs h = let e : m ≡ 0 = omega arith in rw e (omega arith)
  total-le-total m (suc n) jobs h = elim (Bool-cases (m == suc n)) [
    | inl same ↦ let e : m ≡ suc n = ground arith in rw e (omega arith)
    | inr other ↦ let below : m ≤ n = ground arith in omega (arith, total-le-total m n jobs below)
  ]

  module _ (c : Setup fl) where
    -- The free servers and the copies that run are no more than the servers.
    pub record IsWithinCapacity (s : State fl) : Type 0 where
      pub fits : (m : ℕ) → s.free + total m s.jobs ≤ c.servers

    -- One job changes, and frees what it no longer runs at most.
    pub moved :
        (s s' : State fl) (j : ℕ) (job : Job fl)
        → s'.jobs ≡ update fl s.jobs j job
        → s'.free + length job.running ≤ s.free + length (s.jobs j).running
        → IsWithinCapacity s
        → IsWithinCapacity s'
    unfolding total
    moved s s' j job e paid inv = record { fits = fits }
      where
        fits : (m : ℕ) → s'.free + total m s'.jobs ≤ c.servers
        fits m = elim (Bool-cases (ltb j m)) [
          | inl inside ↦
              rw e
                (omega (arith, paid, inv.fits m, total-update m j s.jobs job (ltb→lt j m inside)))
          | inr outside ↦
              let after : m ≤ j = ground arith in
              rw e (
                omega (
                  arith,
                  paid,
                  inv.fits (suc j),
                  total-beyond m j s.jobs job after,
                  total-le-total m j s.jobs after,
                ))
        ]

    -- What leaves the servers alone.
    pub record IsStill (s s' : State fl) : Type 0 where
      pub free : s'.free ≡ s.free
      pub jobs : s'.jobs ≡ s.jobs

    pub IsStill-IsWithinCapacity :
        {s s' : State fl} → IsStill s s' → IsWithinCapacity s → IsWithinCapacity s'
    IsStill-IsWithinCapacity {s} {s'} still inv = record { fits = fits }
      where
        fits : (m : ℕ) → s'.free + total m s'.jobs ≤ c.servers
        fits m = rw (still.free, still.jobs) (inv.fits m)

    pub either-IsWithinCapacity :
        (b : Bool) {s s' : State fl}
        → IsWithinCapacity s
        → IsWithinCapacity s'
        → IsWithinCapacity (if b then s else s')
    either-IsWithinCapacity true p q = p
    either-IsWithinCapacity false p q = q

    pub push-IsWithinCapacity :
        (t : fl.F) (kind : Kind) {s : State fl}
        → IsWithinCapacity s
        → IsWithinCapacity (push fl t kind s)
    unfolding push
    push-IsWithinCapacity t kind inv =
        IsStill-IsWithinCapacity (record { free = refl; jobs = refl }) inv

    on_server-IsWithinCapacity :
        (j cid : ℕ) (t : fl.F) (s : State fl)
        → 0 < s.free
        → IsWithinCapacity s
        → IsWithinCapacity (on_server fl c j cid t s)
    unfolding on_server
    on_server-IsWithinCapacity j cid t s room inv =
        moved s (on_server fl c j cid t s) j _ refl
          (omega (arith, length-put cid t (s.jobs j).running)) inv

    start_copy-IsWithinCapacity :
        (j cid : ℕ) (t : fl.F) (s : State fl)
        → 0 < s.free
        → IsWithinCapacity s
        → IsWithinCapacity (start_copy fl c j cid t s)
    unfolding start_copy hedge_later
    start_copy-IsWithinCapacity j cid t s room inv =
        let placed =
          push-IsWithinCapacity (fl.add t (service fl c (s.jobs j) (c.gauss s.drawn))) (done j cid)
            (on_server-IsWithinCapacity j cid t s room inv) in
        either-IsWithinCapacity (is_hedge c.policy && cid == 0)
          (push-IsWithinCapacity (fl.add t c.t_h) (hedge_due j) placed) placed

    dispatch-IsWithinCapacity :
        (t : fl.F) (waitq : List (ℕ × ℕ)) (s : State fl)
        → IsWithinCapacity s
        → IsWithinCapacity (dispatch fl c t waitq s)
    unfolding dispatch
    dispatch-IsWithinCapacity t [] s inv =
        IsStill-IsWithinCapacity (record { free = refl; jobs = refl }) inv
    dispatch-IsWithinCapacity t ((j, cid) ∷ waitq) s inv = elim (Bool-cases (ltb 0 s.free)) [
      | inr full ↦ rw full (IsStill-IsWithinCapacity (record { free = refl; jobs = refl }) inv)
      | inl room ↦ rw room (
          dispatch-IsWithinCapacity t waitq _ (
            either-IsWithinCapacity (is_stale fl c (s.jobs j) t) inv
              (start_copy-IsWithinCapacity j cid t s (ltb→lt 0 s.free room) inv)))
    ]

    pub try_dispatch-IsWithinCapacity :
        (t : fl.F) (s : State fl) → IsWithinCapacity s → IsWithinCapacity (try_dispatch fl c t s)
    unfolding try_dispatch
    try_dispatch-IsWithinCapacity t s inv = dispatch-IsWithinCapacity t s.waitq s inv
