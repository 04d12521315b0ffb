-- ===== src/Ecosystem/Closure.antt =====
-- The loop of `closure` ends, and collects what a module needs, directly or not.
use lemma_xperiment.Common.{
  ℕ, zero, suc, ◌+◌, ◌≤◌, ◌≡◌, ◌≢◌, refl, sym, ap, subst, Bool, true, false, [], ◌∷◌, ◌++◌, Option,
  none, some, if◌then◌else◌, length, length-append, lookup, has, All, All-append, eq_list,
  eq_list→eq, eq_list_refl, member, Bool-cases, Option-cases, inl, inr, arith, ok, err, key_error,
  out_of_fuel, or_raise, >>=-elim, >>=-elim-err, or_raise-eq-ok, every, ◌&&◌,
}
use mathlib.Core.List.{reverse, reverse-cons}
use lemma_xperiment.Ecosystem.Graph.{
  Name, Names, Module, Modules, deps_of, closure_from, span, closure,
}

pub some_inj {ℓ} : {A : Type ℓ} {a b : A} → some a ≡ some b → a ≡ b
some_inj h = cc

both : (a b : Bool) → (a && b) ≡ true → (a ≡ true) × (b ≡ true)
both a b h = ground arith

-- The dependencies of the modules that are not collected yet.
unfoldable pub open_deps : Modules → Names → ℕ
open_deps [] out = 0
open_deps ((k, m) ∷ ms) out = (if has k out then 0 else length m.deps) + open_deps ms out

open_deps-le-span : (ms : Modules) (out : Names) → open_deps ms out ≤ span ms
unfolding open_deps span
open_deps-le-span [] out = omega arith
open_deps-le-span ((k, m) ∷ ms) out = ground (arith, open_deps-le-span ms out)

open_deps-cons-le :
    (ms : Modules) (d : Name) (out : Names) → open_deps ms (d ∷ out) ≤ open_deps ms out
unfolding open_deps member
open_deps-cons-le [] d out = omega arith
open_deps-cons-le ((k, m) ∷ ms) d out = ground (arith, open_deps-cons-le ms d out)

-- Collecting a module closes its dependencies.
open_deps-found :
    (ms : Modules) (d : Name) (out : Names) (m : Module)
    → lookup d ms ≡ some m
    → has d out ≡ false
    → open_deps ms (d ∷ out) + length m.deps ≤ open_deps ms out
unfolding open_deps lookup member
open_deps-found [] d out m found new = cc
open_deps-found ((k, m') ∷ ms) d out m found new = elim (Bool-cases (eq_list k d)) [
  | inr other ↦ ground (arith, open_deps-found ms d out m (rw other at found) new)
  | inl same ↦
      let e : m' ≡ m = cc (rw same at found) in
      let at : k ≡ d = eq_list→eq k d same in
      rw (at, new, eq_list_refl d, e) (omega (arith, open_deps-cons-le ms d out))
]

pub deps_of-lookup :
    (ms : Modules) (d : Name) {deps : Names}
    → deps_of ms d ≡ ok deps
    → (m : Module) × (lookup d ms ≡ some m) × (m.deps ≡ deps)
unfolding deps_of
deps_of-lookup ms d h =
    >>=-elim (or_raise (lookup d ms) key_error) _ h
      λ m found same. (m, or_raise-eq-ok (lookup d ms) key_error found, cc)

deps_of-ne-out_of_fuel : (ms : Modules) (d : Name) → deps_of ms d ≢ err out_of_fuel
unfolding deps_of
deps_of-ne-out_of_fuel ms d h = elim (Option-cases (lookup d ms)) [
  | inl missing ↦ cc (rw (missing, deps_of) at h)
  | inr (m, found) ↦ cc (rw (found, deps_of) at h)
]

pub All-reverse : (P : Name → Type 0) (xs : Names) → All P xs → All P (reverse xs)
All-reverse P [] all = tt
All-reverse P (x ∷ xs) all =
    subst (All P) (sym (reverse-cons x xs))
      (All-append P (reverse xs) (x ∷ []) (All-reverse P xs all.1) (all.0, tt))

length-reverse : (xs : Names) → length (reverse xs) ≡ length xs
length-reverse [] = refl
length-reverse (x ∷ xs) =
    rw (reverse-cons x xs) (omega (arith, length-append (reverse xs) (x ∷ []), length-reverse xs))

closure_from-ne-out_of_fuel :
    (ms : Modules) (fuel : ℕ) (out stack : Names)
    → open_deps ms out + length stack ≤ fuel
    → closure_from ms fuel out stack ≢ err out_of_fuel
unfolding closure_from
closure_from-ne-out_of_fuel ms fuel out [] enough h = cc
closure_from-ne-out_of_fuel ms zero out (d ∷ stack) enough h = absurd (omega arith)
closure_from-ne-out_of_fuel ms (suc fuel) out (d ∷ stack) enough h = elim (Bool-cases (has d out)) [
  | inl old ↦
      closure_from-ne-out_of_fuel ms fuel out stack (omega arith) (rw (old, closure_from) at h)
  | inr new ↦
      >>=-elim-err (deps_of ms d) _ (rw (new, closure_from) at h) (deps_of-ne-out_of_fuel ms d)
        λ deps found rest.
          let (m, at, same) = deps_of-lookup ms d found in
          let paid = open_deps-found ms d out m at new in
          closure_from-ne-out_of_fuel ms fuel (d ∷ out) (reverse deps ++ stack)
            (omega (
              arith,
              paid,
              ap length same,
              length-append (reverse deps) stack,
              length-reverse deps,
            ))
            rest
]

pub closure-ne-out_of_fuel : (ms : Modules) (m : Name) → closure ms m ≢ err out_of_fuel
unfolding closure member
closure-ne-out_of_fuel ms m h =
    >>=-elim-err (deps_of ms m) _ h (deps_of-ne-out_of_fuel ms m) λ deps found rest.
      let (own, at, same) = deps_of-lookup ms m found in
      closure_from-ne-out_of_fuel ms (span ms) (m ∷ []) (reverse deps)
        (omega (
          arith,
          open_deps-found ms m [] own at refl,
          open_deps-le-span ms [],
          ap length same,
          length-reverse deps,
        ))
        rest

pub record IsKnown (ms : Modules) (d : Name) : Type 0 where
  pub own : Module
  pub found : lookup d ms ≡ some own

-- Every dependency of a module is a module.
abbrev pub IsWired : Modules → Type 0
IsWired ms = (x : Name) (own : Module) → lookup x ms ≡ some own → All (IsKnown ms) own.deps

deps_of-found :
    (ms : Modules) (d : Name) (own : Module) → lookup d ms ≡ some own → deps_of ms d ≡ ok own.deps
unfolding deps_of
deps_of-found ms d own found = rw found refl

module _ (ms : Modules) (wired : IsWired ms) where
  closure_from-total :
      (fuel : ℕ) (out stack : Names)
      → All (IsKnown ms) stack
      → open_deps ms out + length stack ≤ fuel
      → (result : Names) × (closure_from ms fuel out stack ≡ ok result)
  unfolding closure_from
  closure_from-total fuel out [] known enough = (out, refl)
  closure_from-total zero out (d ∷ stack) known enough = absurd (omega arith)
  closure_from-total (suc fuel) out (d ∷ stack) known enough = elim (Bool-cases (has d out)) [
    | inl old ↦ rw (old, closure_from) (closure_from-total fuel out stack known.1 (omega arith))
    | inr new ↦
        let k = known.0 in
        rw (new, closure_from, deps_of-found ms d k.own k.found)
          (closure_from-total fuel (d ∷ out) (reverse k.own.deps ++ stack)
            (All-append (IsKnown ms) (reverse k.own.deps) stack
              (All-reverse (IsKnown ms) k.own.deps (wired d k.own k.found)) known.1)
            (omega (
              arith,
              open_deps-found ms d out k.own k.found new,
              length-append (reverse k.own.deps) stack,
              length-reverse k.own.deps,
            )))
  ]

  -- Where every dependency is a module, `closure` returns for every module: it neither runs on nor
  -- meets a name that it does not know.
  pub closure_total : (m : Name) → IsKnown ms m → (out : Names) × (closure ms m ≡ ok out)
  unfolding closure member
  closure_total m k = rw (deps_of-found ms m k.own k.found) (
      closure_from-total (span ms) (m ∷ []) (reverse k.own.deps)
        (All-reverse (IsKnown ms) k.own.deps (wired m k.own k.found))
        (omega (
          arith,
          open_deps-found ms m [] k.own k.found refl,
          open_deps-le-span ms [],
          length-reverse k.own.deps,
        )))

abbrev is_known : Option Module → Bool
is_known none = false
is_known (some own) = true

known : (ms : Modules) (d : Name) → is_known (lookup d ms) ≡ true → IsKnown ms d
known ms d h = elim (Option-cases (lookup d ms)) [
  | inl missing ↦ absurd (cc (ap is_known missing, h))
  | inr (own, found) ↦ record { own = own; found = found }
]

-- A test of it, which looks at the entries one by one.
unfoldable pub is_wired : (ms rest : Modules) → Bool
is_wired ms [] = true
is_wired ms ((k, m) ∷ rest) = every (λ d. is_known (lookup d ms)) m.deps && is_wired ms rest

every-IsKnown :
    (ms : Modules) (deps : Names)
    → every (λ d. is_known (lookup d ms)) deps ≡ true
    → All (IsKnown ms) deps
unfolding every
every-IsKnown ms [] h = tt
every-IsKnown ms (d ∷ deps) h =
    let (first, rest) = both (is_known (lookup d ms)) _ h in
    (known ms d first, every-IsKnown ms deps rest)

is_wired-All :
    (ms rest : Modules)
    → is_wired ms rest ≡ true
    → (x : Name) (own : Module) → lookup x rest ≡ some own
    → All (IsKnown ms) own.deps
unfolding is_wired lookup
is_wired-All ms [] h x own found = cc
is_wired-All ms ((k, m) ∷ rest) h x own found =
    let (first, later) = both (every (λ d. is_known (lookup d ms)) m.deps) _ h in
    elim (Bool-cases (eq_list k x)) [
      | inl same ↦
          subst (λ (o : Module). All (IsKnown ms) o.deps) (some_inj (rw same at found))
            (every-IsKnown ms m.deps first)
      | inr other ↦ is_wired-All ms rest later x own (rw other at found)
    ]

pub is_wired→IsWired : (ms : Modules) → is_wired ms ms ≡ true → IsWired ms
is_wired→IsWired ms h = is_wired-All ms ms h
