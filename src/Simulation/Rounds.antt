-- ===== src/Simulation/Rounds.antt =====
-- One round of the event loop of `simulate` pays, by the event it takes, for all that it adds.
use lemma_xperiment.Common.{
  ok_inj, ℕ, zero, suc, ◌+◌, ◌-◌, ◌*◌, ◌≤◌, ◌<◌, ◌≡◌, refl, ◌∙◌, subst, Bool, true, false, not,
  List, [], ◌∷◌, ◌++◌, some, ltb, ltb→lt, leb, if◌then◌else◌, Floats, Bool-cases, Option-cases,
  Outcome-cases, inl, inr, arith, ok, ◌||◌, is_zero,
}
use lemma_xperiment.Simulation.State.{
  Kind, arrive, done, hedge_due, kill_due, Setup, Job, State, push, start_of,
}
use lemma_xperiment.Simulation.Moves.{warm, try_dispatch, release_all, finalize, count_finished}
use lemma_xperiment.Simulation.Loop.{
  copies, enqueue, create, kill_later, next_arrival, on_arrival, complete, leave, on_done, on_hedge,
  on_kill, handle,
}
use lemma_xperiment.Simulation.Budget.{
  toll, tolls, charge, charges, budget, charges-push, IsQuiet, IsQuiet-refl, IsQuiet-trans,
  either-IsQuiet, IsQuiet-budget, release_all-IsQuiet, finalize-IsQuiet, count_finished-IsQuiet,
  try_dispatch-budget, try_dispatch-created,
}

tolls-append : (v w : List (ℕ × ℕ)) → tolls (v ++ w) ≡ tolls v + tolls w
unfolding tolls
tolls-append [] w = omega arith
tolls-append ((j, cid) ∷ v) w = omega (arith, tolls-append v w)

pub one_more : (a m k : ℕ) → m ≡ 1 + k → m * a ≡ a + k * a
one_more a m k e = rw e (omega arith)

fewer : (a k m : ℕ) → k ≤ m → k * a ≤ m * a
fewer a k m h = grind arith

module _ (fl : Floats) (c : Setup fl) where
  tolls-enqueue : (j from left : ℕ) → tolls (enqueue fl c j from left) ≤ 3 * left
  unfolding enqueue tolls toll
  tolls-enqueue j from zero = omega arith
  tolls-enqueue j from (suc left) =
      let small : toll from ≤ 3 = ground arith in
      omega (arith, tolls-enqueue j (from + 1) left, small)

  -- What a new job adds, with its deadline: one less than an arrival is charged.
  kill_later-charges :
      (j : ℕ) (t : fl.F) (s : State fl)
      → (charges fl c (kill_later fl c j t s).events ≤ 1 + charges fl c s.events)
        × ((kill_later fl c j t s).waitq ≡ s.waitq)
        × ((kill_later fl c j t s).jobs_created ≡ s.jobs_created)
  unfolding kill_later push charge
  kill_later-charges j t s = go c.kill
    where
      killed : State fl
      killed = push fl (fl.add t c.window) (kill_due j) s

      go :
          (b : Bool)
          → (charges fl c (if b then killed else s).events ≤ 1 + charges fl c s.events)
            × ((if b then killed else s).waitq ≡ s.waitq)
            × ((if b then killed else s).jobs_created ≡ s.jobs_created)
      go true = (omega (arith, charges-push fl c (fl.add t c.window) (kill_due j) s), refl, refl)
      go false = (omega arith, refl, refl)

  next_arrival-budget :
      (t : fl.F) (s : State fl)
      → budget fl c (next_arrival fl c t s)
        ≤ budget fl c s + (if ltb s.jobs_created c.n_jobs then charge fl c arrive else 0)
  unfolding next_arrival budget push
  next_arrival-budget t s = elim (Bool-cases (ltb s.jobs_created c.n_jobs)) [
    | inr last ↦ rw last (omega arith)
    | inl more ↦ rw more (go c.is_poisson)
  ]
    where
      drawn : State fl
      drawn = record s { drawn = s.drawn + 1 }

      marked : State fl
      marked = record s { undivided = s.undivided || is_zero fl c.lam }

      go :
          (b : Bool)
          → budget fl c (
              if b
              then push fl (fl.add t (c.expovariate s.drawn)) arrive drawn
              else push fl (fl.add t (fl.div (fl.of_nat 1) c.lam)) arrive marked)
            ≤ budget fl c s + charge fl c arrive
      go true = omega (arith, charges-push fl c (fl.add t (c.expovariate s.drawn)) arrive drawn)
      go false =
          omega (arith, charges-push fl c (fl.add t (fl.div (fl.of_nat 1) c.lam)) arrive marked)

  -- One event pays for all that its handling adds.
  on_arrival-budget :
      (t : fl.F) (s : State fl)
      → budget fl c (on_arrival fl c t s) < charge fl c arrive + budget fl c s
  unfolding on_arrival create budget charge
  on_arrival-budget t s =
      let j = s.jobs_created in
      let made = create fl c t s in
      let (paid, same_waitq, same_created) = kill_later-charges j t made in
      let shut = kill_later fl c j t made in
      let queued : tolls shut.waitq ≤ tolls s.waitq + 3 * copies fl c = rw same_waitq (
        omega (
          arith,
          tolls-append s.waitq (enqueue fl c j 0 (copies fl c)),
          tolls-enqueue j 0 (copies fl c),
        )) in
      let sent = try_dispatch fl c t shut in
      let created : sent.jobs_created ≡ j + 1 = try_dispatch-created fl c t shut ∙ same_created in
      let spent = try_dispatch-budget fl c t shut in
      let next = next_arrival-budget t sent in
      settle j (charges fl c s.events) (tolls s.waitq) (charges fl c shut.events) (tolls shut.waitq)
        (budget fl c sent) (budget fl c (next_arrival fl c t sent)) paid queued
        (subst
          (λ k.
            budget fl c sent
            ≤ charges fl c shut.events + tolls shut.waitq + (c.n_jobs - k) * charge fl c arrive)
          same_created spent)
        (subst
          (λ k.
            budget fl c (next_arrival fl c t sent)
            ≤ budget fl c sent + (if ltb k c.n_jobs then charge fl c arrive else 0))
          created next)
    where
      settle :
          (j x y x' y' b b' : ℕ)
          → x' ≤ 1 + x
          → y' ≤ y + 3 * copies fl c
          → b ≤ x' + y' + (c.n_jobs - (j + 1)) * charge fl c arrive
          → b' ≤ b + (if ltb (j + 1) c.n_jobs then charge fl c arrive else 0)
          → b' < charge fl c arrive + (x + y + (c.n_jobs - j) * charge fl c arrive)
      settle j x y x' y' b b' p q r n = elim (Bool-cases (ltb (j + 1) c.n_jobs)) [
        | inr last ↦ omega (arith, p, q, r, rw last at n, fall, enough)
        | inl more ↦
            let split : (c.n_jobs - j) * charge fl c arrive
                ≡ charge fl c arrive + (c.n_jobs - (j + 1)) * charge fl c arrive =
              one_more (charge fl c arrive) (c.n_jobs - j) (c.n_jobs - (j + 1))
                (omega (arith, ltb→lt _ _ more)) in
            omega (arith, p, q, r, rw more at n, split, enough)
      ]
        where
          enough : charge fl c arrive ≡ 3 * copies fl c + 2
          enough = refl

          fall : (c.n_jobs - (j + 1)) * charge fl c arrive ≤ (c.n_jobs - j) * charge fl c arrive
          fall = fewer (charge fl c arrive) (c.n_jobs - (j + 1)) (c.n_jobs - j) (omega arith)

  leave-IsQuiet :
      (j cid : ℕ) (t t0 : fl.F) (s s' : State fl)
      → leave fl c j cid t t0 s ≡ ok s'
      → IsQuiet fl c s s'
  unfolding leave
  leave-IsQuiet j cid t t0 s s' h = elim (Bool-cases (leb (warm fl c) j)) [
    | inr early ↦
        subst (IsQuiet fl c s) (ok_inj (rw early at h))
          (record { events = refl; waitq = refl; created = refl })
    | inl counted ↦ elim (Option-cases s.measure_start) [
      | inl unset ↦ absurd (cc (rw (counted, unset) at h))
      | inr (m0, set) ↦
          subst (IsQuiet fl c s) (ok_inj (rw (counted, set) at h))
            (record { events = refl; waitq = refl; created = refl })
    ]
  ]

  complete-IsQuiet :
      (j : ℕ) (job : Job fl) (t : fl.F) (s : State fl) → IsQuiet fl c s (complete fl c j job t s)
  unfolding complete
  complete-IsQuiet j job t s =
      let ended : Job fl = record job { is_done = true; completion = some t } in
      let s1 = release_all fl c j ended t s in
      let on_time = not (fl.below job.deadline t) in
      IsQuiet-trans fl c (release_all-IsQuiet fl c j ended t s) (
        IsQuiet-trans fl c (finalize-IsQuiet fl c j job t on_time s1)
          (count_finished-IsQuiet fl c j t (finalize fl c j job t on_time s1)))

  on_done-budget :
      (j cid : ℕ) (t : fl.F) (s s' : State fl)
      → on_done fl c j cid t s ≡ ok s'
      → budget fl c s' ≤ budget fl c s
  unfolding on_done
  on_done-budget j cid t s s' h = elim (Option-cases (start_of fl cid (s.jobs j).running)) [
    | inl cancelled ↦ let same : s ≡ s' = cc (rw (cancelled, on_done) at h) in rw same (omega arith)
    | inr (t0, running) ↦ elim (Outcome-cases (leave fl c j cid t t0 s)) [
      | inr (bad, failed) ↦ absurd (cc (rw (running, failed, on_done) at h))
      | inl (left, moved) ↦
          let q = IsQuiet-trans fl c (leave-IsQuiet j cid t t0 s left moved) (
            either-IsQuiet fl c (left.jobs j).is_done (IsQuiet-refl fl c left)
              (complete-IsQuiet j (left.jobs j) t left)) in
          let after : State fl =
            if (left.jobs j).is_done then left else complete fl c j (left.jobs j) t left in
          let same : try_dispatch fl c t after ≡ s' = cc (rw (running, moved, on_done) at h) in
          rw (← same) (omega (arith, try_dispatch-budget fl c t after, IsQuiet-budget fl c q))
    ]
  ]

  on_hedge-budget :
      (j : ℕ) (t : fl.F) (s : State fl) → budget fl c (on_hedge fl c j t s) ≤ 1 + budget fl c s
  unfolding on_hedge budget tolls toll
  on_hedge-budget j t s = go (s.jobs j).is_done
    where
      s' : State fl
      s' = record s { waitq = (j, 1) ∷ s.waitq }

      grown : budget fl c s' ≡ 1 + budget fl c s
      grown = omega arith

      go : (b : Bool) → budget fl c (if b then s else try_dispatch fl c t s') ≤ 1 + budget fl c s
      go true = omega arith
      go false = omega (arith, try_dispatch-budget fl c t s', grown)

  on_kill-budget :
      (j : ℕ) (t : fl.F) (s : State fl) → budget fl c (on_kill fl c j t s) ≤ budget fl c s
  unfolding on_kill
  on_kill-budget j t s = go (s.jobs j).is_done
    where
      job : Job fl
      job = record (s.jobs j) { is_done = true }

      s1 : State fl
      s1 = release_all fl c j job t s

      s2 : State fl
      s2 = finalize fl c j (s.jobs j) t false s1

      s3 : State fl
      s3 = count_finished fl c j t s2

      quiet : IsQuiet fl c s s3
      quiet = IsQuiet-trans fl c (release_all-IsQuiet fl c j job t s) (
          IsQuiet-trans fl c (finalize-IsQuiet fl c j (s.jobs j) t false s1)
            (count_finished-IsQuiet fl c j t s2))

      go : (b : Bool) → budget fl c (if b then s else try_dispatch fl c t s3) ≤ budget fl c s
      go true = omega arith
      go false = omega (arith, try_dispatch-budget fl c t s3, IsQuiet-budget fl c quiet)

  pub handle-budget :
      (kind : Kind) (t : fl.F) (s s' : State fl)
      → handle fl c kind t s ≡ ok s'
      → budget fl c s' < charge fl c kind + budget fl c s
  unfolding handle charge
  handle-budget arrive t s s' h = rw (← ok_inj h) (on_arrival-budget t s)
  handle-budget (done j cid) t s s' h = omega (arith, on_done-budget j cid t s s' h)
  handle-budget (hedge_due j) t s s' h = rw (← ok_inj h) (omega (arith, on_hedge-budget j t s))
  handle-budget (kill_due j) t s s' h = rw (← ok_inj h) (omega (arith, on_kill-budget j t s))
