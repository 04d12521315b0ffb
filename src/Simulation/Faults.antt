-- ===== src/Simulation/Faults.antt =====
-- The exceptions that `simulate` can end in.
use lemma_xperiment.Common.{
  ℕ, zero, suc, ◌-◌, ◌≤◌, ◌≡◌, refl, sym, ◌∙◌, ap, subst, Bool, true, false, not, List, [], ◌∷◌,
  Option, none, some, ◌==◌, Floats, get_elem?-total, sort, length-sort, inl, inr, ◌⊎◌, arith, ok,
  ok_inj, err, err_inj, Fault, zero_division_error, out_of_fuel, or_raise, require, require-eq-ok,
  >>=-elim, >>=-elim-err, All, overflow_error, value_error,
}
use lemma_xperiment.Simulation.State.{Setup, State, Event}
use lemma_xperiment.Simulation.Loop.{
  handle, loop, start, bound, p99, util_of, report, simulate, sound, setup_checks, mean_exponent,
}
use lemma_xperiment.Simulation.Ends.{simulate_ends}
use lemma_xperiment.Simulation.Capacity.{Reached, begins, takes}
use lemma_xperiment.Simulation.Started.{IsOwn, IsStarted}
use lemma_xperiment.Simulation.Begun.{handle-ok, start-IsStarted}
use lemma_xperiment.Simulation.Tallies.{IsBalanced, Reached-IsBalanced}

List-cases : {A : Type 0} (xs : List A) → (xs ≡ []) ⊎ ((x : A) × (rest : List A) × (xs ≡ x ∷ rest))
List-cases [] = inl refl
List-cases (x ∷ rest) = inr (x, rest, refl)

require-fault : (b : Bool) (e : Fault) {f : Fault} → require b e ≡ err f → f ≡ e
require-fault true e h = cc
require-fault false e h = sym (err_inj h)

or_raise-fault : {A : Type 0} (o : Option A) (e : Fault) {f : Fault} → or_raise o e ≡ err f → f ≡ e
or_raise-fault none e h = sym (err_inj h)
or_raise-fault (some a) e h = cc

module _ (fl : Floats) (c : Setup fl) where
  -- The loop raises what an event does: a division by zero or an overflow, else it is out of fuel.
  abbrev IsArithmetic : Fault → Type 0
  IsArithmetic e = (e ≡ zero_division_error) ⊎ (e ≡ overflow_error)

  sound-fault : (s : State fl) {e : Fault} → sound fl c s ≡ err e → IsArithmetic e
  unfolding sound
  sound-fault s h =
      >>=-elim-err (require (not s.overflowed) overflow_error) _ h
        (λ raised. inr (require-fault _ overflow_error raised))
        λ v e rest. inl (require-fault _ zero_division_error rest)

  loop-fault :
      (fuel : ℕ) (t : fl.F) (s : State fl) {e : Fault}
      → IsStarted fl c s
      → loop fl c fuel t s ≡ err e
      → (e ≡ out_of_fuel) ⊎ IsArithmetic e
  unfolding loop
  loop-fault zero t s i h = elim (List-cases s.events) [
    | inl none_ ↦ absurd (cc (rw (none_, loop) at h))
    | inr (e, events, more) ↦ inl (sym (err_inj (rw (more, loop) at h)))
  ]
  loop-fault (suc fuel) t s i h = elim (List-cases s.events) [
    | inl none_ ↦ absurd (cc (rw (none_, loop) at h))
    | inr (e, events, more) ↦
        let known = subst (All (λ (x : Event fl). IsOwn s.jobs_created x.kind)) more i.hedged in
        let left : State fl = record s { events = events } in
        let (s', went, i') =
          handle-ok fl c e.kind e.time left known.0
            (record { begun = i.begun; idle = i.idle; queued = i.queued; hedged = known.1 }) in
        >>=-elim-err (handle fl c e.kind e.time left) _ (rw (more, loop) at h)
          (λ failed. absurd (cc (failed, went)))
          λ next went' checked.
            >>=-elim-err (sound fl c next) _ checked (λ raised. inr (sound-fault next raised))
              λ v clear later.
                loop-fault fuel e.time next (subst (IsStarted fl c) (ok_inj (sym went ∙ went')) i')
                  later
  ]

  loop-Reached :
      (fuel : ℕ) (t t' : fl.F) (s s' : State fl)
      → Reached fl c s
      → loop fl c fuel t s ≡ ok (t', s')
      → Reached fl c s'
  unfolding loop
  loop-Reached zero t t' s s' reached h = elim (List-cases s.events) [
    | inl none_ ↦
        subst (λ (r : fl.F × State fl). Reached fl c r.1) (ok_inj (rw (none_, loop) at h)) reached
    | inr (e, events, more) ↦ absurd (cc (rw (more, loop) at h))
  ]
  loop-Reached (suc fuel) t t' s s' reached h = elim (List-cases s.events) [
    | inl none_ ↦
        subst (λ (r : fl.F × State fl). Reached fl c r.1) (ok_inj (rw (none_, loop) at h)) reached
    | inr (e, events, more) ↦
        >>=-elim (handle fl c e.kind e.time (record s { events = events })) _ (rw (more, loop) at h)
          λ next went checked. >>=-elim (sound fl c next) _ checked λ v clear later.
            loop-Reached fuel e.time t' next s' (takes e events next reached more went) later
  ]

  util_of-fault :
      (busy span : fl.F) {e : Fault} → util_of fl c busy span ≡ err e → e ≡ zero_division_error
  unfolding util_of
  util_of-fault busy span h = ground arith

  -- What is relied on of `int` and `*`: 99 hundredths of a number, cut, are no more than the number.
  unfoldable pub RankLaw : Type 0
  RankLaw = (n : ℕ) → fl.truncate (fl.mul (fl.div (fl.of_nat 99) (fl.of_nat 100)) (fl.of_nat n)) ≤ n

  p99-in-range :
      RankLaw
      → (s : State fl) → IsBalanced fl c s
      → (s.n ≡ 0 → ⊥)
      → (x : fl.F) × (p99 fl c s.waits s.n ≡ ok x)
  unfolding p99 RankLaw
  p99-in-range law s b positive =
      let le = λ (x : fl.F) (y : fl.F). not (fl.below y x) in
      let (x, at) =
        get_elem?-total (sort le s.waits)
          (fl.truncate (fl.mul (fl.div (fl.of_nat 99) (fl.of_nat 100)) (fl.of_nat (s.n - 1))))
          (omega (arith, law (s.n - 1), length-sort le s.waits, b.waits, positive)) in
      (x, rw at refl)

  report-fault :
      RankLaw
      → (t : fl.F) (s : State fl) {e : Fault} → IsBalanced fl c s
      → report fl c t s ≡ err e
      → IsArithmetic e
  unfolding report
  report-fault law t s b h =
      >>=-elim-err (require (not (s.n == 0)) zero_division_error) _ h
        (λ raised. inl (require-fault (not (s.n == 0)) zero_division_error raised))
        λ v checked counted.
          let positive : s.n ≡ 0 → ⊥ = λ z.
            let test = require-eq-ok (not (s.n == 0)) zero_division_error checked in ground arith in
          >>=-elim-err (p99 fl c s.waits s.n) _ counted
            (λ out. absurd (cc (out, (p99-in-range law s b positive).1)))
            λ p e ranked.
              >>=-elim-err (util_of fl c _ _) _ ranked (λ raised. inl (util_of-fault _ _ raised))
                λ u e' bounded.
                  >>=-elim-err
                    (require (not (fl.exp_overflows (mean_exponent fl c))) overflow_error) _ bounded
                    (λ raised. inr (require-fault _ overflow_error raised))
                    λ v e'' made. absurd (cc made)

  -- `math.sqrt` of `phi` or of `1 - phi` has a negative argument.
  abbrev pub IsOutside : Type 0
  IsOutside =
      (fl.below c.phi (fl.of_nat 0) ≡ true)
      ⊎ (fl.below (fl.sub (fl.of_nat 1) c.phi) (fl.of_nat 0) ≡ true)

  refused : (b : Bool) (f : Fault) {e : Fault} → require (not b) f ≡ err e → (b ≡ true) × (e ≡ f)
  refused true f h = (refl, sym (err_inj h))
  refused false f h = cc

  -- What `simulate` raises, and when.
  abbrev pub IsRaised : Fault → Type 0
  IsRaised e = ((e ≡ value_error) × IsOutside) ⊎ (e ≡ zero_division_error) ⊎ (e ≡ overflow_error)

  setup_checks-fault : {e : Fault} → setup_checks fl c ≡ err e → IsRaised e
  unfolding setup_checks
  setup_checks-fault h =
      >>=-elim-err (require (not (fl.below c.phi (fl.of_nat 0))) value_error) _ h
        (λ raised. let (low, same) = refused _ value_error raised in inl (same, inl low))
        λ v e rest.
          >>=-elim-err
            (require (not (fl.below (fl.sub (fl.of_nat 1) c.phi) (fl.of_nat 0))) value_error) _ rest
            (λ raised. let (high, same) = refused _ value_error raised in inl (same, inr high))
            λ v' e' last. inr (inl (refused _ zero_division_error last).1)

  -- Where `int(0.99 * n)` is at most `n`, the only exceptions of `simulate` are a ValueError, where
  -- `phi` or `1 - phi` is negative, a ZeroDivisionError and an OverflowError: the loop ends, the
  -- measured period has begun before a measured copy ends, which rules out the TypeError of `max`, and
  -- the index of the 99th percentile is in the list of waits, which rules out the IndexError.
  pub simulate_faults : RankLaw → {e : Fault} → simulate fl c ≡ err e → IsRaised e
  unfolding simulate
  simulate_faults law {e} h =
      >>=-elim-err (setup_checks fl c) _ h setup_checks-fault λ v checked ready.
        >>=-elim-err (loop fl c (bound fl c) (fl.of_nat 0) (start fl c)) _ ready
          (λ failed.
            elim (loop-fault (bound fl c) (fl.of_nat 0) (start fl c) (start-IsStarted fl c)
              failed) [
                | inl out ↦ absurd (simulate_ends fl c (h ∙ ap err out))
                | inr known ↦ inr known
              ])
          λ out ran reported. inr (
            report-fault law out.0 out.1
              (Reached-IsBalanced fl c out.1
                (loop-Reached (bound fl c) (fl.of_nat 0) out.0 (start fl c) out.1 begins ran))
              reported)
