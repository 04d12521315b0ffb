-- ===== src/Simulation/Silent.antt =====
-- The parts of a round that leave the counts alone.
use lemma_xperiment.Common.{
  ℕ, ◌+◌, ◌≡◌, refl, ◌∙◌, subst, Bool, true, false, ◌&&◌, List, [], ◌∷◌, ◌==◌, ltb, leb,
  if◌then◌else◌, Floats, Bool-cases, inl, inr, ok, ok_inj, type_error, or_raise, >>=-elim,
}
use lemma_xperiment.Simulation.State.{is_hedge, Setup, Job, State, push}
use lemma_xperiment.Simulation.Moves.{
  warm, is_stale, on_server, hedge_later, start_copy, dispatch, try_dispatch, measured, release,
  release_all,
}
use lemma_xperiment.Simulation.Loop.{create, kill_later, next_arrival, on_arrival, leave}

module _ (fl : Floats) (c : Setup fl) where
  -- What leaves the counts alone.
  pub record IsSilent (s s' : State fl) : Type 0 where
    pub n : s'.n ≡ s.n
    pub success : s'.success ≡ s.success
    pub waited : s'.waited ≡ s.waited
    pub waits : s'.waits ≡ s.waits
    pub finished : s'.finished ≡ s.finished

  IsSilent-refl : (s : State fl) → IsSilent s s
  IsSilent-refl s = record {
    n = refl;
    success = refl;
    waited = refl;
    waits = refl;
    finished = refl;
  }

  IsSilent-trans : {s s' s'' : State fl} → IsSilent s s' → IsSilent s' s'' → IsSilent s s''
  IsSilent-trans p q = record {
    n = q.n ∙ p.n;
    success = q.success ∙ p.success;
    waited = q.waited ∙ p.waited;
    waits = q.waits ∙ p.waits;
    finished = q.finished ∙ p.finished;
  }

  either-IsSilent :
      (b : Bool) {s x y : State fl} → IsSilent s x → IsSilent s y → IsSilent s (if b then x else y)
  either-IsSilent true p q = p
  either-IsSilent false p q = q

  start_copy-IsSilent :
      (j cid : ℕ) (t : fl.F) (s : State fl) → IsSilent s (start_copy fl c j cid t s)
  unfolding start_copy hedge_later push on_server
  start_copy-IsSilent j cid t s =
      either-IsSilent (is_hedge c.policy && cid == 0)
        (record { n = refl; success = refl; waited = refl; waits = refl; finished = refl })
        (record { n = refl; success = refl; waited = refl; waits = refl; finished = refl })

  dispatch-IsSilent :
      (t : fl.F) (waitq : List (ℕ × ℕ)) (s : State fl) → IsSilent s (dispatch fl c t waitq s)
  unfolding dispatch
  dispatch-IsSilent t [] s = record {
    n = refl;
    success = refl;
    waited = refl;
    waits = refl;
    finished = refl;
  }
  dispatch-IsSilent t ((j, cid) ∷ waitq) s =
      either-IsSilent (ltb 0 s.free)
        (IsSilent-trans
          (either-IsSilent (is_stale fl c (s.jobs j) t) (IsSilent-refl s)
            (start_copy-IsSilent j cid t s))
          (dispatch-IsSilent t waitq
            (if is_stale fl c (s.jobs j) t then s else start_copy fl c j cid t s)))
        (record { n = refl; success = refl; waited = refl; waits = refl; finished = refl })

  pub try_dispatch-IsSilent : (t : fl.F) (s : State fl) → IsSilent s (try_dispatch fl c t s)
  unfolding try_dispatch
  try_dispatch-IsSilent t s = dispatch-IsSilent t s.waitq s

  measured-IsSilent :
      (j : ℕ) (t t0 : fl.F) (s : State fl)
      → IsSilent s (measured fl c j t t0 (record s { free = s.free + 1 }))
  unfolding measured
  measured-IsSilent j t t0 s =
      either-IsSilent (leb (warm fl c) j)
        (record { n = refl; success = refl; waited = refl; waits = refl; finished = refl })
        (record { n = refl; success = refl; waited = refl; waits = refl; finished = refl })

  release-IsSilent :
      (j : ℕ) (t : fl.F) (running : List (ℕ × fl.F)) (s : State fl)
      → IsSilent s (release fl c j t running s)
  unfolding release
  release-IsSilent j t [] s = IsSilent-refl s
  release-IsSilent j t ((cid, t0) ∷ running) s =
      IsSilent-trans (measured-IsSilent j t t0 s)
        (release-IsSilent j t running (measured fl c j t t0 (record s { free = s.free + 1 })))

  pub release_all-IsSilent :
      (j : ℕ) (job : Job fl) (t : fl.F) (s : State fl) → IsSilent s (release_all fl c j job t s)
  unfolding release_all
  release_all-IsSilent j job t s =
      IsSilent-trans (release-IsSilent j t job.running s)
        (record { n = refl; success = refl; waited = refl; waits = refl; finished = refl })

  kill_later-IsSilent : (j : ℕ) (t : fl.F) (s : State fl) → IsSilent s (kill_later fl c j t s)
  unfolding kill_later push
  kill_later-IsSilent j t s =
      either-IsSilent c.kill
        (record { n = refl; success = refl; waited = refl; waits = refl; finished = refl })
        (IsSilent-refl s)

  next_arrival-IsSilent : (t : fl.F) (s : State fl) → IsSilent s (next_arrival fl c t s)
  unfolding next_arrival push
  next_arrival-IsSilent t s =
      either-IsSilent (ltb s.jobs_created c.n_jobs)
        (either-IsSilent c.is_poisson
          (record { n = refl; success = refl; waited = refl; waits = refl; finished = refl })
          (record { n = refl; success = refl; waited = refl; waits = refl; finished = refl }))
        (IsSilent-refl s)

  pub on_arrival-IsSilent : (t : fl.F) (s : State fl) → IsSilent s (on_arrival fl c t s)
  unfolding on_arrival create
  on_arrival-IsSilent t s =
      let made = create fl c t s in
      let shut = kill_later fl c s.jobs_created t made in
      let sent = try_dispatch fl c t shut in
      IsSilent-trans {s' = made}
        (record { n = refl; success = refl; waited = refl; waits = refl; finished = refl })
        (IsSilent-trans (kill_later-IsSilent s.jobs_created t made)
          (IsSilent-trans (try_dispatch-IsSilent t shut) (next_arrival-IsSilent t sent)))

  pub leave-IsSilent :
      (j cid : ℕ) (t t0 : fl.F) (s s' : State fl) → leave fl c j cid t t0 s ≡ ok s' → IsSilent s s'
  unfolding leave
  leave-IsSilent j cid t t0 s s' h = elim (Bool-cases (leb (warm fl c) j)) [
    | inr early ↦
        subst (IsSilent s) (ok_inj (rw (early, leave) at h))
          (record { n = refl; success = refl; waited = refl; waits = refl; finished = refl })
    | inl counted ↦
        >>=-elim (or_raise s.measure_start type_error) _ (rw (counted, leave) at h) λ m0 set same.
          subst (IsSilent s) (ok_inj same)
            (record { n = refl; success = refl; waited = refl; waits = refl; finished = refl })
  ]
