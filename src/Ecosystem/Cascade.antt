-- ===== src/Ecosystem/Cascade.antt =====
-- A removal with all its dependents takes away the configurations that need the module, and no others.
use lemma_xperiment.Common.{
  ◌≡◌, ◌≢◌, refl, sym, ◌∙◌, ap, subst, Bool, true, false, not, [], ◌∷◌, ◌++◌, if◌then◌else◌, has,
  every-Elem, every_all, filter-Elem, Elem-filter, Elem, Elem-append_left, Elem-append_right,
  Elem→has, has→Elem, Bool-cases, inl, inr, ◌⊎◌, ◌↔◌, ok, ok_inj, >>=-elim, eq_list, eq_list→eq,
  eq_list_refl, member,
}
use lemma_xperiment.Ecosystem.Graph.{
  Name, Names, Modules, keys, closure, config_closure, dependents_in, dependents,
}
use lemma_xperiment.Ecosystem.Costs.{is_subset, feasible}
use lemma_xperiment.Ecosystem.Scores.{without, left_without}
use lemma_xperiment.Ecosystem.Reach.{Needs, itself, Needs-trans, closure-Needs}

module _ (ms : Modules) where
  -- Some module of the configuration needs `x`.
  abbrev NeededBy : Names → Name → Type 0
  NeededBy cfg x = (m : Name) × Elem m cfg × Needs ms m x

  Elem-append_cases : (x : Name) (xs ys : Names) → Elem x (xs ++ ys) → Elem x xs ⊎ Elem x ys
  Elem-append_cases x [] ys at = inr at
  Elem-append_cases x (y ∷ xs) ys (inl e) = inl (inl e)
  Elem-append_cases x (y ∷ xs) ys (inr at) = elim (Elem-append_cases x xs ys at) [
    | inl there ↦ inl (inr there)
    | inr there ↦ inr there
  ]

  -- Where `config_closure` returns, it returns exactly what some module of the configuration needs.
  pub config_closure-NeededBy :
      (cfg : Names) {out : Names}
      → config_closure ms cfg ≡ ok out
      → (x : Name) → Elem x out ↔ NeededBy cfg x
  unfolding config_closure
  config_closure-NeededBy [] done x =
      (λ at. absurd (subst (Elem x) (sym (ok_inj done)) at), λ (m, at, p). absurd at)
  config_closure-NeededBy (m ∷ cfg) done x = >>=-elim (closure ms m) _ done λ own found more.
      >>=-elim (config_closure ms cfg) _ more λ rest found' same.
        let one = closure-Needs ms m found x in
        let others = config_closure-NeededBy cfg found' x in
        (
          λ at. elim (Elem-append_cases x own rest (subst (Elem x) (sym (ok_inj same)) at)) [
            | inl there ↦ (m, inl refl, one.0 there)
            | inr there ↦ let (n, at', p) = others.0 there in (n, inr at', p)
          ],
          λ (n, at, p). subst (Elem x) (ok_inj same) (place n own rest at p one others),
        )
    where
      place :
          (n : Name) (own rest : Names)
          → Elem n (m ∷ cfg)
          → Needs ms n x
          → Elem x own ↔ Needs ms m x
          → Elem x rest ↔ NeededBy cfg x
          → Elem x (own ++ rest)
      place n own rest (inl e) p one others =
          Elem-append_left x own rest (one.1 (subst (λ k. Needs ms k x) e p))
      place n own rest (inr at) p one others = Elem-append_right x own rest (others.1 (n, at, p))

  -- The dependents of `j`, of a list of names: those of them, but for `j`, that need it.
  dependents_in-Needs :
      (j : Name) (names : Names) {ds : Names}
      → dependents_in ms j names ≡ ok ds
      → (x : Name) → Elem x ds ↔ (Elem x names × (x ≢ j) × Needs ms x j)
  unfolding dependents_in
  dependents_in-Needs j [] done x =
      (λ at. absurd (subst (Elem x) (sym (ok_inj done)) at), λ (at, ne, p). absurd at)
  dependents_in-Needs j (m ∷ names) done x = elim (Bool-cases (eq_list m j)) [
    | inl same ↦
        let rest = dependents_in-Needs j names (rw (same, dependents_in) at done) x in
        (
          λ at. let (there, ne, p) = rest.0 at in (inr there, ne, p),
          λ (at, ne, p). elim at [
            | inl e ↦ absurd (ne (e ∙ eq_list→eq m j same))
            | inr there ↦ rest.1 (there, ne, p)
          ],
        )
    | inr other ↦ >>=-elim (closure ms m) _ (rw (other, dependents_in) at done) λ out found more.
        >>=-elim (dependents_in ms j names) _ more λ ds' found' same.
          listed m out names ds' (differs other) (closure-Needs ms m found j) (has j out) refl
            (dependents_in-Needs j names found' x) (ok_inj same)
  ]
    where
      differs : {m : Name} → eq_list m j ≡ false → m ≢ j
      differs other e = cc (other, ap (λ k. eq_list k j) e, eq_list_refl j)

      listed :
          (m : Name) (out names ds' : Names) {ds : Names}
          → m ≢ j
          → Elem j out ↔ Needs ms m j
          → (b : Bool) → has j out ≡ b
          → Elem x ds' ↔ (Elem x names × (x ≢ j) × Needs ms x j)
          → (if b then m ∷ ds' else ds') ≡ ds
          → Elem x ds ↔ (Elem x (m ∷ names) × (x ≢ j) × Needs ms x j)
      listed m out names ds' ne own true held rest same = (
        λ at. elim (subst (Elem x) (sym same) at) [
          | inl e ↦ (
            inl e,
            λ e'. ne (sym e ∙ e'),
            subst (λ k. Needs ms k j) (sym e) (own.0 (has→Elem j out held)),
          )
          | inr there ↦ let (there', ne', p) = rest.0 there in (inr there', ne', p)
        ],
        λ (at, ne', p).
            subst (Elem x) same
              (elim at [ inl e ↦ inl e | inr there ↦ inr (rest.1 (there, ne', p)) ]),
      )
      listed m out names ds' ne own false held rest same = (
        λ at. let (there, ne', p) = rest.0 (subst (Elem x) (sym same) at) in (inr there, ne', p),
        λ (at, ne', p). subst (Elem x) same (elim at [
          | inl e ↦ absurd (cc (held, Elem→has j out (own.1 (subst (λ k. Needs ms k j) e p))))
          | inr there ↦ rest.1 (there, ne', p)
        ]),
      )

  -- A configuration is feasible where all that it needs is available.
  feasible_iff :
      (cfg available : Names) {out : Names}
      → config_closure ms cfg ≡ ok out
      → (feasible ms cfg available ≡ ok true) ↔ ((x : Name) → Elem x out → Elem x available)
  unfolding feasible is_subset
  feasible_iff cfg available {out} found = (
    λ h x at.
        has→Elem x available
          (every-Elem (λ y. has y available) x out (ok_inj (rw (found, feasible) at h)) at),
    λ all.
        let fits : is_subset out available ≡ true =
          every_all (λ y. has y available) out λ x at. Elem→has x available (all x at) in
        rw (found, fits) refl,
  )

  module _ (j : Name) {available : Names} (removed : left_without ms j ≡ ok available) where
    left_iff : (x : Name) → Elem x available ↔ (Elem x (keys ms) × (Needs ms x j → ⊥))
    unfolding left_without without dependents member
    left_iff x = >>=-elim (dependents ms j) _ removed λ ds found same.
        let theirs = dependents_in-Needs j (keys ms) found x in
        let e = ok_inj same in
        (
          λ at.
              let (there, kept) =
                filter-Elem (λ y. not (has y (j ∷ ds))) x (keys ms) (subst (Elem x) (sym e) at) in
              (there, λ p. cc (kept, Elem→has x (j ∷ ds) (listed ds theirs there p))),
          λ (at, free). subst (Elem x) e (
              Elem-filter (λ y. not (has y (j ∷ ds))) x (keys ms) at
                (unlisted ds free (λ there. (theirs.0 there).2))),
        )
      where
        listed :
            (ds : Names)
            → Elem x ds ↔ (Elem x (keys ms) × (x ≢ j) × Needs ms x j)
            → Elem x (keys ms)
            → Needs ms x j
            → Elem x (j ∷ ds)
        listed ds theirs at p = elim (Bool-cases (eq_list x j)) [
          | inl same ↦ inl (eq_list→eq x j same)
          | inr other ↦
              inr (theirs.1 (at, (λ e. cc (other, ap (λ k. eq_list k j) e, eq_list_refl j)), p))
        ]

        unlisted :
            (ds : Names)
            → (Needs ms x j → ⊥)
            → (Elem x ds → Needs ms x j)
            → not (has x (j ∷ ds)) ≡ true
        unlisted ds free theirs = elim (Bool-cases (has x (j ∷ ds))) [
          | inr absent ↦ rw absent refl
          | inl there ↦ absurd (elim (has→Elem x (j ∷ ds) there) [
            | inl e ↦ free (subst (λ k. Needs ms k j) (sym e) itself)
            | inr at ↦ free (theirs at)
          ])
        ]

    -- Removing a module with its dependents leaves a configuration feasible exactly where it was
    -- feasible with all modules and its closure did not hold the module.
    pub feasible-left :
        (cfg : Names) {out : Names}
        → config_closure ms cfg ≡ ok out
        → (feasible ms cfg available ≡ ok true)
          ↔ ((feasible ms cfg (keys ms) ≡ ok true) × (has j out ≡ false))
    feasible-left cfg {out} found =
        let before = feasible_iff cfg (keys ms) found in
        let after = feasible_iff cfg available found in
        (
          λ h. (
            before.1 (λ x at. ((left_iff x).0 (after.0 h x at)).0),
            absent λ at. ((left_iff j).0 (after.0 h j at)).1 itself,
          ),
          λ (h, free). after.1 λ x at. (left_iff x).1 (
            before.0 h x at,
            λ p.
                let (m, at', q) = (config_closure-NeededBy cfg found x).0 at in
                cc (
                  free,
                  Elem→has j out
                      ((config_closure-NeededBy cfg found j).1 (m, at', Needs-trans q p)),
                ),
          ),
        )
      where
        absent : (Elem j out → ⊥) → has j out ≡ false
        absent free = elim (Bool-cases (has j out)) [
          | inl there ↦ absurd (free (has→Elem j out there))
          | inr h ↦ h
        ]
