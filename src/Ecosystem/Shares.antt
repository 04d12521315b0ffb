-- ===== src/Ecosystem/Shares.antt =====
-- The Shapley values of a job's saving game are not negative.
use lemma_xperiment.Common.{
  Floats, ℕ, zero, suc, ◌+◌, ◌≡◌, subst, false, List, [], ◌∷◌, ◌++◌, map, length, All, All-append,
  inl, inr, Outcome, ok, ok_inj, >>=-elim,
}
use lemma_xperiment.Ecosystem.Graph.{Name, Names, Job, Ecosystem}
use lemma_xperiment.Ecosystem.Costs.{class_of, cost}
use lemma_xperiment.Ecosystem.Scores.{each}
use lemma_xperiment.Ecosystem.Least.{OrderLaws, IsPriced}
use lemma_xperiment.Ecosystem.Margins.{IsWithin, cost_antitone}
use lemma_xperiment.Ecosystem.Game.{
  Game, saving_game, coalition_value, weight, combinations, coalitions, share_from, share, shapley,
}

wider : (fixed : Names) (p : Name) (t : Names) → IsWithin (fixed ++ t) (fixed ++ p ∷ t)
wider [] p t x at = inr at
wider (y ∷ fixed) p t x (inl e) = inl e
wider (y ∷ fixed) p t x (inr at) = inr (wider fixed p t x at)

module _ (fl : Floats) where
  -- Not below zero.
  abbrev pub IsSaving : fl.F → Type 0
  IsSaving x = fl.below x (fl.of_nat 0) ≡ false

  -- What is relied on of the operations: differences keep or turn the order, and sums, products and
  -- quotients of what is not below zero are not below zero.
  pub record ShareLaws : Type 0 where
    pub sub : (x y : fl.F) → fl.below x y ≡ false → IsSaving (fl.sub x y)
    pub turn : (r x y : fl.F) → fl.below x y ≡ false → fl.below (fl.sub r y) (fl.sub r x) ≡ false
    pub add : (x y : fl.F) → IsSaving x → IsSaving y → IsSaving (fl.add x y)
    pub mul : (x y : fl.F) → IsSaving x → IsSaving y → IsSaving (fl.mul x y)
    pub ratio : (m n : ℕ) → IsSaving (fl.div (fl.of_nat m) (fl.of_nat n))
    pub zero : IsSaving (fl.of_nat 0)

  module _ (laws : ShareLaws) where
    -- A game in which a further player never lowers the value.
    pub record IsMonotone (v : Names → Outcome fl.F) : Type 0 where
      pub grows :
          (p : Name) (t : Names) {x y : fl.F} → v (p ∷ t) ≡ ok x → v t ≡ ok y → fl.below x y ≡ false

    share_from-IsSaving :
        (v : Names → Outcome fl.F) (p : Name) (phi : fl.F) (ts : List (fl.F × Names)) {out : fl.F}
        → IsMonotone v
        → IsSaving phi
        → All (λ (t : fl.F × Names). IsSaving t.0) ts
        → share_from fl v p phi ts ≡ ok out
        → IsSaving out
    unfolding share_from
    share_from-IsSaving v p phi [] mono good weights done = subst IsSaving (ok_inj done) good
    share_from-IsSaving v p phi ((w, t) ∷ ts) mono good weights done =
        >>=-elim (v (p ∷ t)) _ done λ x e more. >>=-elim (v t) _ more λ y e' rest.
          share_from-IsSaving v p (fl.add phi (fl.mul w (fl.sub x y))) ts mono
            (laws.add phi _ good (laws.mul w _ weights.0 (laws.sub x y (mono.grows p t e e'))))
            weights.1 rest

    weights-IsSaving :
        (m : ℕ) (others : Names) (left r : ℕ)
        → All (λ (t : fl.F × Names). IsSaving t.0) (coalitions fl m others left r)
    unfolding coalitions weight
    weights-IsSaving m others zero r = tt
    weights-IsSaving m others (suc left) r =
        All-append _ (map _ (combinations others r)) _ (same (combinations others r))
          (weights-IsSaving m others left (r + 1))
      where
        same :
            (ts : List Names)
            → All (λ (t : fl.F × Names). IsSaving t.0) (map (λ t. (weight fl m r, t)) ts)
        same [] = tt
        same (t ∷ ts) = (laws.ratio _ _, same ts)

    shares-IsSaving :
        (v : Names → Outcome fl.F) (players ps : Names) {phi : List (Name × fl.F)}
        → IsMonotone v
        → each (share fl v players) ps ≡ ok phi
        → All (λ (e : Name × fl.F). IsSaving e.1) phi
    unfolding each share
    shares-IsSaving v players [] mono done = subst (All _) (ok_inj done) tt
    shares-IsSaving v players (p ∷ ps) mono done =
        >>=-elim (share fl v players p) _ done λ one e more.
          >>=-elim (each (share fl v players) ps) _ more λ rest e' same.
            subst (All _) (ok_inj same) (
              >>=-elim (share_from fl v p (fl.of_nat 0) _) _ e λ phi found same'.
                  subst (λ (k : Name × fl.F). IsSaving k.1) (ok_inj same')
                    (share_from-IsSaving v p (fl.of_nat 0) _ mono laws.zero
                      (weights-IsSaving (length players) _ _ 0) found),
              shares-IsSaving v players ps mono e',
            )

    module _ (order : OrderLaws fl) (eco : Ecosystem fl) (job : Job fl)
        (priced : IsPriced fl order eco job) where
      coalition_value-IsMonotone : (g : Game fl) → IsMonotone (coalition_value fl eco job g)
      unfolding coalition_value
      coalition_value-IsMonotone g = record {
        grows = λ p t e e'. >>=-elim (cost fl eco job (g.fixed ++ p ∷ t)) _ e λ few c same.
            >>=-elim (cost fl eco job (g.fixed ++ t)) _ e' λ more c' same'.
              rw (← ok_inj same, ← ok_inj same')
                (laws.turn g.ref more few (
                  cost_antitone fl order eco job priced (g.fixed ++ t) (g.fixed ++ p ∷ t)
                    (wider g.fixed p t) c' c));
      }

      -- Where the prices of a job are numbers, no player of its saving game has a Shapley value below
      -- zero.
      pub shapley-IsSaving :
          {phi : List (Name × fl.F)} {enabling : Names} {surplus : fl.F}
          → shapley fl eco job ≡ ok (phi, enabling, surplus)
          → All (λ (e : Name × fl.F). IsSaving e.1) phi
      unfolding shapley
      shapley-IsSaving done = >>=-elim (saving_game fl eco job) _ done λ g made more.
          >>=-elim (each (share fl (coalition_value fl eco job g) g.players) g.players) _ more
            λ phi found rest. >>=-elim (class_of fl eco job) _ rest λ c e same.
              subst
                (λ (out : List (Name × fl.F) × Names × fl.F).
                  All (λ (k : Name × fl.F). IsSaving k.1) out.0)
                (ok_inj same)
                (shares-IsSaving (coalition_value fl eco job g) g.players g.players
                  (coalition_value-IsMonotone g) found)
