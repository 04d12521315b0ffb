-- ===== src/Ecosystem/Reach.antt =====
-- What a closure is: the modules that a module needs, by a chain of dependencies.
use lemma_xperiment.Common.{
  ℕ, zero, suc, ◌≡◌, refl, sym, ◌∙◌, ap, subst, [], ◌∷◌, ◌++◌, some, lookup, has, has→Elem, Elem,
  All, All-append, All-Elem, Elem-append_left, Elem-append_right, Bool-cases, inl, inr, ◌⊎◌, ◌↔◌,
  ok, ok_inj, >>=-elim,
}
use mathlib.Core.List.{reverse, reverse-cons}
use lemma_xperiment.Ecosystem.Graph.{
  Name, Names, Module, Modules, deps_of, closure_from, span, closure,
}
use lemma_xperiment.Ecosystem.Closure.{deps_of-lookup, All-reverse, some_inj}

-- `m` needs `x`: itself, or what one of its dependencies needs.
pub data Needs (ms : Modules) : Name → Name → Type 0 where
  itself : {m : Name} → Needs ms m m
  through :
      {m d x : Name} (own : Module)
      → lookup m ms ≡ some own
      → Elem d own.deps
      → Needs ms d x
      → Needs ms m x

pub Needs-trans : {ms : Modules} {m d x : Name} → Needs ms m d → Needs ms d x → Needs ms m x
Needs-trans itself q = q
Needs-trans (through own at dep p) q = through own at dep (Needs-trans p q)

Elem-reverse : (x : Name) (xs : Names) → Elem x xs → Elem x (reverse xs)
Elem-reverse x [] h = h
Elem-reverse x (y ∷ ys) (inl e) =
    subst (Elem x) (sym (reverse-cons y ys)) (Elem-append_right x (reverse ys) (y ∷ []) (inl e))
Elem-reverse x (y ∷ ys) (inr h) =
    subst (Elem x) (sym (reverse-cons y ys))
      (Elem-append_left x (reverse ys) (y ∷ []) (Elem-reverse x ys h))

All-of-Elem : (P : Name → Type 0) (xs : Names) → ((x : Name) → Elem x xs → P x) → All P xs
All-of-Elem P [] all = tt
All-of-Elem P (x ∷ xs) all = (all x (inl refl), All-of-Elem P xs (λ y h. all y (inr h)))

module _ (ms : Modules) where
  -- All that is collected is needed.
  closure_from_sound :
      (m : Name) (fuel : ℕ) (out stack : Names) {result : Names}
      → All (Needs ms m) out
      → All (Needs ms m) stack
      → closure_from ms fuel out stack ≡ ok result
      → All (Needs ms m) result
  unfolding closure_from
  closure_from_sound m fuel out [] good todo h = subst (All (Needs ms m)) (ok_inj h) good
  closure_from_sound m zero out (d ∷ stack) good todo h = cc
  closure_from_sound m (suc fuel) out (d ∷ stack) good todo h = elim (Bool-cases (has d out)) [
    | inl old ↦ closure_from_sound m fuel out stack good todo.1 (rw (old, closure_from) at h)
    | inr new ↦ >>=-elim (deps_of ms d) _ (rw (new, closure_from) at h) λ deps found rest.
        let (own, at, same) = deps_of-lookup ms d found in
        let deeper : All (Needs ms m) deps =
          All-of-Elem (Needs ms m) deps
            λ x dep. Needs-trans todo.0 (through own at (subst (Elem x) (sym same) dep) itself) in
        closure_from_sound m fuel (d ∷ out) (reverse deps ++ stack) (todo.0, good)
          (All-append (Needs ms m) (reverse deps) stack (All-reverse (Needs ms m) deps deeper)
            todo.1)
          rest
  ]

  -- What is collected has its dependencies collected too, but for those on the stack.
  abbrev IsClosedBut : (out stack : Names) → Type 0
  IsClosedBut out stack =
      (x d : Name) (own : Module)
      → Elem x out
      → lookup x ms ≡ some own
      → Elem d own.deps
      → Elem d out ⊎ Elem d stack

  -- Along a chain of dependencies nothing leaves a closed list.
  needed : (out : Names) {m x : Name} → IsClosedBut out [] → Elem m out → Needs ms m x → Elem x out
  needed out closed at itself = at
  needed out {m} closed at (through {d} own found dep rest) = elim (closed m d own at found dep) [
    | inl there ↦ needed out closed there rest
    | inr bad ↦ absurd bad
  ]

  dep_of :
      {z d : Name} (y : Name) {deps : Names}
      → z ≡ d
      → (own' own : Module) → lookup z ms ≡ some own'
      → lookup d ms ≡ some own
      → own.deps ≡ deps
      → Elem y own'.deps
      → Elem y deps
  dep_of y e own' own found' found same dep =
      let one : own' ≡ own = some_inj (sym found' ∙ ap (λ n. lookup n ms) e ∙ found) in
      subst (Elem y) (ap (λ (o : Module). o.deps) one ∙ same) dep

  -- A module is collected, and its dependencies are pushed.
  opened :
      (d : Name) (out stack : Names) (own : Module) (deps : Names)
      → lookup d ms ≡ some own
      → own.deps ≡ deps
      → IsClosedBut out (d ∷ stack)
      → IsClosedBut (d ∷ out) (reverse deps ++ stack)
  opened d out stack own deps found same closed z y own' (inl e) found' dep = inr (
      Elem-append_left y (reverse deps) stack
        (Elem-reverse y deps (dep_of y e own' own found' found same dep)))
  opened d out stack own deps found same closed z y own' (inr at) found' dep =
      elim (closed z y own' at found' dep) [
        | inl there ↦ inl (inr there)
        | inr (inl e) ↦ inl (inl e)
        | inr (inr later) ↦ inr (Elem-append_right y (reverse deps) stack later)
      ]

  -- All that was collected or stands on the stack is there at the end, closed.
  closure_from_complete :
      (fuel : ℕ) (out stack : Names) {result : Names}
      → IsClosedBut out stack
      → closure_from ms fuel out stack ≡ ok result
      → IsClosedBut result [] × ((x : Name) → Elem x out ⊎ Elem x stack → Elem x result)
  unfolding closure_from
  closure_from_complete fuel out [] closed h =
      let e = ok_inj h in
      (
        subst (λ r. IsClosedBut r []) e closed,
        λ x place. elim place [ inl at ↦ subst (Elem x) e at | inr bad ↦ absurd bad ],
      )
  closure_from_complete zero out (d ∷ stack) closed h = cc
  closure_from_complete (suc fuel) out (d ∷ stack) closed h = elim (Bool-cases (has d out)) [
    | inl old ↦
        let held = has→Elem d out old in
        let (closed', kept) =
          closure_from_complete fuel out stack
            (λ x y own at found dep. elim (closed x y own at found dep) [
              | inl there ↦ inl there
              | inr (inl e) ↦ inl (subst (λ z. Elem z out) (sym e) held)
              | inr (inr later) ↦ inr later
            ])
            (rw (old, closure_from) at h) in
        (
          closed',
          λ x place. elim place [
            | inl at ↦ kept x (inl at)
            | inr (inl e) ↦ kept x (inl (subst (λ z. Elem z out) (sym e) held))
            | inr (inr later) ↦ kept x (inr later)
          ],
        )
    | inr new ↦ >>=-elim (deps_of ms d) _ (rw (new, closure_from) at h) λ deps found rest.
        let (own, at, same) = deps_of-lookup ms d found in
        let (closed', kept) =
          closure_from_complete fuel (d ∷ out) (reverse deps ++ stack)
            (opened d out stack own deps at same closed) rest in
        (
          closed',
          λ x place. elim place [
            | inl there ↦ kept x (inl (inr there))
            | inr (inl e) ↦ kept x (inl (inl e))
            | inr (inr later) ↦ kept x (inr (Elem-append_right x (reverse deps) stack later))
          ],
        )
  ]

  module _ (m : Name) {out : Names} (done : closure ms m ≡ ok out) where
    -- Where `closure` returns, it returns exactly what the module needs: itself, its dependencies,
    -- theirs, and so on.
    pub closure-Needs : (x : Name) → Elem x out ↔ Needs ms m x
    unfolding closure
    closure-Needs x = >>=-elim (deps_of ms m) _ done λ deps found rest.
        let (own, at, same) = deps_of-lookup ms m found in
        let first : All (Needs ms m) deps =
          All-of-Elem (Needs ms m) deps
            λ y dep. through own at (subst (Elem y) (sym same) dep) itself in
        let sound =
          closure_from_sound m (span ms) (m ∷ []) (reverse deps) (itself, tt)
            (All-reverse (Needs ms m) deps first) rest in
        let (closed, kept) =
          closure_from_complete (span ms) (m ∷ []) (reverse deps)
            (λ z y own' there found' dep. elim there [
              | inl e ↦ inr (Elem-reverse y deps (dep_of y e own' own found' at same dep))
              | inr bad ↦ absurd bad
            ])
            rest in
        (All-Elem (Needs ms m) x out sound, needed out closed (kept m (inl (inl refl))))
