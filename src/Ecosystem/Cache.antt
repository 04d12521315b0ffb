-- ===== src/Ecosystem/Cache.antt =====
-- The cache of `closure` changes no result.
use lemma_xperiment.Common.{
  ◌≡◌, refl, ap, sym, ◌∙◌, List, [], ◌∷◌, ◌++◌, none, some, lookup, eq_list, eq_list→eq, Bool-cases,
  Option-cases, inl, inr, Outcome, Fault, ok, err, ◌>>=◌,
}
use lemma_xperiment.Ecosystem.Graph.{
  Name, Names, Modules, closure, config_closure, cached_closure, cached_config_closure,
}
use lemma_xperiment.Ecosystem.Scores.{each}
use lemma_xperiment.Ecosystem.Closure.{some_inj}

abbrev pub Cache : Type 0
Cache = List (Name × Names)

-- Calls of config_closure, one after the other on one object: each starts from the cache that the
-- call before it leaves.
unfoldable pub cached_calls : Modules → Cache → List Names → Outcome (List Names)
cached_calls ms cache [] = ok []
cached_calls ms cache (cfg ∷ cfgs) = cached_config_closure ms cache cfg >>= λ (out, cache').
    cached_calls ms cache' cfgs >>= λ outs. ok (out ∷ outs)

module _ (ms : Modules) where
  -- Every entry of the cache is what `closure` returns.
  abbrev IsFaithful : Cache → Type 0
  IsFaithful cache = (m : Name) (out : Names) → lookup m cache ≡ some out → closure ms m ≡ ok out

  -- A call with the cache against the call without: the same result or exception.
  data Agrees (X : Type 0) (r : Outcome (X × Cache)) (plain : Outcome X) : Type 0 where
    returns :
        (x : X) (cache : Cache)
        → r ≡ ok (x, cache)
        → plain ≡ ok x
        → IsFaithful cache
        → Agrees X r plain
    raises : (e : Fault) → r ≡ err e → plain ≡ err e → Agrees X r plain

  IsFaithful-cons :
      (cache : Cache) (m : Name) (made : Names)
      → IsFaithful cache
      → closure ms m ≡ ok made
      → IsFaithful ((m, made) ∷ cache)
  unfolding lookup
  IsFaithful-cons cache m made faithful e k found stored = elim (Bool-cases (eq_list m k)) [
    | inl same ↦
        ap (closure ms) (sym (eq_list→eq m k same))
        ∙ e
        ∙ ap ok (some_inj (rw (same, lookup) at stored))
    | inr other ↦ faithful k found (rw (other, lookup) at stored)
  ]

  cached_closure-Agrees :
      (cache : Cache) (m : Name)
      → IsFaithful cache
      → Agrees Names (cached_closure ms cache m) (closure ms m)
  unfolding cached_closure
  cached_closure-Agrees cache m faithful = elim (Option-cases (lookup m cache)) [
    | inl new ↦ made new (closure ms m) refl
    | inr (out, old) ↦
        Agrees.returns out cache (rw (old, cached_closure) refl) (faithful m out old) faithful
  ]
    where
      made :
          lookup m cache ≡ none
          → (call : Outcome Names) → closure ms m ≡ call
          → Agrees Names (cached_closure ms cache m) (closure ms m)
      made new (ok out) e =
          Agrees.returns out ((m, out) ∷ cache) (rw (new, cached_closure, e) refl) e
            (IsFaithful-cons cache m out faithful e)
      made new (err x) e = Agrees.raises x (rw (new, cached_closure, e) refl) e

  Agrees-bind :
      (X Y : Type 0) (r : Outcome (X × Cache)) (plain : Outcome X)
      (f : X × Cache → Outcome (Y × Cache)) (g : X → Outcome Y)
      → Agrees X r plain
      → ((x : X) (cache : Cache) → IsFaithful cache → Agrees Y (f (x, cache)) (g x))
      → Agrees Y (r >>= f) (plain >>= g)
  Agrees-bind X Y r plain f g (Agrees.returns x cache e p faithful) later =
      rw (e, p) (later x cache faithful)
  Agrees-bind X Y r plain f g (Agrees.raises x e p) later =
      Agrees.raises x (ap (λ o. o >>= f) e) (ap (λ o. o >>= g) p)

  cached_config_closure-Agrees :
      (cache : Cache) (cfg : Names)
      → IsFaithful cache
      → Agrees Names (cached_config_closure ms cache cfg) (config_closure ms cfg)
  unfolding cached_config_closure config_closure
  cached_config_closure-Agrees cache [] faithful = Agrees.returns [] cache refl refl faithful
  cached_config_closure-Agrees cache (m ∷ cfg) faithful =
      Agrees-bind Names Names (cached_closure ms cache m) (closure ms m) _ _
        (cached_closure-Agrees cache m faithful)
        λ out cache' faithful'.
          Agrees-bind Names Names (cached_config_closure ms cache' cfg) (config_closure ms cfg) _ _
            (cached_config_closure-Agrees cache' cfg faithful')
            λ rest cache'' faithful''. Agrees.returns (out ++ rest) cache'' refl refl faithful''

  calls-each :
      (cache : Cache) (cfgs : List Names)
      → IsFaithful cache
      → cached_calls ms cache cfgs ≡ each (config_closure ms) cfgs
  unfolding cached_calls each
  calls-each cache [] faithful = refl
  calls-each cache (cfg ∷ cfgs) faithful = elim (cached_config_closure-Agrees cache cfg faithful) [
    | Agrees.returns out cache' e p faithful' ↦
        rw (e, p) (ap (λ o. o >>= λ outs. ok (out ∷ outs)) (calls-each cache' cfgs faithful'))
    | Agrees.raises x e p ↦ rw (e, p) refl
  ]

  no_entries : IsFaithful []
  unfolding lookup
  no_entries m out h = cc

  -- Whatever configurations are asked for, one after the other from an empty cache, the cache
  -- changes no answer: the calls return, or raise, what the calls without it do.
  pub cached_calls-each :
      (cfgs : List Names) → cached_calls ms [] cfgs ≡ each (config_closure ms) cfgs
  cached_calls-each cfgs = calls-each [] cfgs no_entries
