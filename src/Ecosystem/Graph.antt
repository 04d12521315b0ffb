-- ===== src/Ecosystem/Graph.antt =====
-- research/proof_graph_sim.py, class Ecosystem: its data, and the closures of its modules. Strings
-- are their code points, and a frozen set is a list that is read by `has` alone.
use lemma_xperiment.Common.{
  Floats, ℕ, zero, suc, ◌+◌, Bool, true, false, List, [], ◌∷◌, ◌++◌, Option, none, some,
  if◌then◌else◌, length, lookup, has, Outcome, ok, err, key_error, out_of_fuel, or_raise, ◌>>=◌,
  eq_list,
}
use mathlib.Core.List.{reverse}

abbrev pub Name : Type 0
Name = List ℕ

abbrev pub Names : Type 0
Names = List Name

pub data Status : Type 0 where
  settled failed : Status

abbrev pub is_settled : Status → Bool
is_settled settled = true
is_settled failed = false

pub record Module : Type 0 where
  pub deps : Names
  pub market : Bool
  pub creator : Name
  pub recreate : Option ℕ

-- A dictionary, with its entries in the order in which they were put in.
abbrev pub Modules : Type 0
Modules = List (Name × Module)

module _ (fl : Floats) where
  -- A job class: each configuration with its multiplier.
  pub record JobClass : Type 0 where
    pub low : fl.F
    pub high : fl.F
    pub configs : List (Names × fl.F)
    pub fallback : fl.F
    pub bundle : Option Name
    pub payers : Names
    pub n : ℕ
    pub failed : ℕ

  pub record Job : Type 0 where
    pub number : ℕ
    pub cls : Name
    pub base : fl.F
    pub payer : Name
    pub bundled : Bool
    pub status : Status

  pub record Ecosystem : Type 0 where
    pub modules : Modules
    pub classes : List (Name × JobClass)
    pub jobs : List Job

-- `keys` of a dictionary.
abbrev pub keys {ℓ} : {V : Type ℓ} → List (Name × V) → Names
keys [] = []
keys ((k, v) ∷ d) = k ∷ keys d

-- `self.modules[m]["deps"]`
unfoldable pub deps_of : Modules → Name → Outcome Names
deps_of ms m = or_raise (lookup m ms) key_error >>= λ found. ok found.deps

-- The loop of `closure`. The stack has its top first: `extend` puts the last of the new names there.
unfoldable pub closure_from : Modules → ℕ → (out stack : Names) → Outcome Names
closure_from ms fuel out [] = ok out
closure_from ms zero out (d ∷ stack) = err out_of_fuel
closure_from ms (suc fuel) out (d ∷ stack) = elim (has d out) [
  | true ↦ closure_from ms fuel out stack
  | false ↦ deps_of ms d >>= λ deps. closure_from ms fuel (d ∷ out) (reverse deps ++ stack)
]

-- Every dependency is pushed once.
unfoldable pub span : Modules → ℕ
span [] = 0
span ((k, m) ∷ ms) = length m.deps + span ms

-- `closure` of a module that is not in the cache.
unfoldable pub closure : Modules → Name → Outcome Names
closure ms m = deps_of ms m >>= λ deps. closure_from ms (span ms) (m ∷ []) (reverse deps)

unfoldable pub config_closure : Modules → Names → Outcome Names
config_closure ms [] = ok []
config_closure ms (m ∷ cfg) =
    closure ms m >>= λ out. config_closure ms cfg >>= λ rest. ok (out ++ rest)

-- The names of a list whose closures hold `j`, but for `j` itself.
unfoldable pub dependents_in : Modules → Name → Names → Outcome Names
dependents_in ms j [] = ok []
dependents_in ms j (m ∷ names) =
    if eq_list m j
    then dependents_in ms j names
    else closure ms m >>= λ out.
        dependents_in ms j names >>= λ rest. ok (if has j out then m ∷ rest else rest)

unfoldable pub dependents : Modules → Name → Outcome Names
dependents ms j = dependents_in ms j (keys ms)

unfoldable pub in_degree : Modules → Name → ℕ
in_degree [] j = 0
in_degree ((k, m) ∷ ms) j = (if has j m.deps then 1 else 0) + in_degree ms j

-- `closure` with the cache: what it returns, and the cache it leaves.
unfoldable pub cached_closure :
    Modules → List (Name × Names) → Name → Outcome (Names × List (Name × Names))
cached_closure ms cache m = elim (lookup m cache) [
  | some out ↦ ok (out, cache)
  | none ↦ closure ms m >>= λ out. ok (out, (m, out) ∷ cache)
]

-- The loop of config_closure, with the cache.
unfoldable pub cached_config_closure :
    Modules → List (Name × Names) → Names → Outcome (Names × List (Name × Names))
cached_config_closure ms cache [] = ok ([], cache)
cached_config_closure ms cache (m ∷ cfg) = cached_closure ms cache m >>= λ (out, cache').
    cached_config_closure ms cache' cfg >>= λ (rest, cache''). ok (out ++ rest, cache'')
