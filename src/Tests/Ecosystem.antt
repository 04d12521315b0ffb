-- ===== src/Tests/Ecosystem.antt =====
-- Tests of research/proof_graph_sim.py, class Ecosystem: whole numbers in place of floats.
use lemma_xperiment.Ecosystem.Used.{IsUse, used_in-IsUse}
use lemma_xperiment.Ecosystem.Shares.{ShareLaws, IsSaving, shapley-IsSaving}
use lemma_xperiment.Ecosystem.Game.{
  shapley, saving_game, class_members, is_on_market, intersection, coalition_value, share,
  share_from, coalitions, combinations, weight, factorial, surplus_of,
}
use lemma_xperiment.Paired.{leb_bytes}
use lemma_xperiment.Common.{
  ◌≡◌, ◌↔◌, refl, true, false, [], ◌∷◌, none, ok, ltb, lookup, member, filter, every, Elem, has,
  All, arith, sort, place, distinct, some, ℕ,
}
use lemma_xperiment.Holdout.Derive.{codes}
use lemma_xperiment.Tests.Simulation.{whole}
use lemma_xperiment.Ecosystem.Graph.{
  Name, Names, Module, Modules, Job, JobClass, Ecosystem, settled, failed, keys, deps_of,
  closure_from, span, closure, config_closure, dependents_in, dependents,
}
use lemma_xperiment.Ecosystem.Market.{witness_cache, modules_of}
use lemma_xperiment.Ecosystem.Closure.{is_wired, is_wired→IsWired, closure_total}
use lemma_xperiment.Ecosystem.Reach.{Needs, closure-Needs}
use lemma_xperiment.Ecosystem.Costs.{
  is_subset, feasible, cheapest, class_of, cost, settled_jobs, with_bundle, used_in, best_of,
  bundle_up, cheaper, leb_names,
}
use lemma_xperiment.Ecosystem.Scores.{
  each, without, left_without, extra, mc_short_of, mc_short, those, nonmarket,
}
use lemma_xperiment.Ecosystem.Least.{OrderLaws, IsLeast, IsPriced, cost-IsLeast, Offers}
use lemma_xperiment.Ecosystem.Margins.{SumLaws, mc_short-not-negative}
use lemma_xperiment.Ecosystem.Cascade.{feasible-left}
use lemma_xperiment.Ecosystem.Cache.{cached_calls, cached_calls-each}

closure_total_example : (out : Names) × (closure modules_of witness_cache ≡ ok out)
unfolding modules_of is_wired lookup codes every
closure_total_example =
    closure_total modules_of (is_wired→IsWired modules_of refl) witness_cache
      (record { own = _; found = refl })

-- Every module of the ecosystem depends on modules of it.
modules_of-IsWired : is_wired modules_of modules_of ≡ true
unfolding modules_of is_wired lookup codes every
modules_of-IsWired = refl

-- `b` depends on `a`; `c` stands alone.
abbrev a : Name
a = 1 ∷ []

abbrev b : Name
b = 2 ∷ []

abbrev c : Name
c = 3 ∷ []

abbrev on : Names → Module
on deps = record { deps = deps; market = true; creator = 9 ∷ []; recreate = none }

abbrev three : Modules
three = (a, on []) ∷ (b, on (a ∷ [])) ∷ (c, on []) ∷ []

closure-Needs_example : Elem a (a ∷ b ∷ []) ↔ Needs three b a
unfolding closure closure_from span deps_of lookup member
closure-Needs_example = closure-Needs three b refl a

removes_a : left_without three a ≡ ok (c ∷ [])
unfolding left_without without dependents dependents_in closure closure_from span deps_of lookup
    member filter
removes_a = refl

closes_bc : config_closure three (b ∷ c ∷ []) ≡ ok (a ∷ b ∷ c ∷ [])
unfolding config_closure closure closure_from span deps_of lookup member
closes_bc = refl

feasible-left_example :
    (feasible three (b ∷ c ∷ []) (c ∷ []) ≡ ok true)
    ↔ ((feasible three (b ∷ c ∷ []) (keys three) ≡ ok true) × (has a (a ∷ b ∷ c ∷ []) ≡ false))
feasible-left_example = feasible-left three a removes_a (b ∷ c ∷ []) closes_bc

-- The second configuration, and the last, find closures that the first left in the cache.
cached_calls-each_example :
    cached_calls three [] ((b ∷ c ∷ []) ∷ (b ∷ a ∷ []) ∷ (c ∷ b ∷ []) ∷ [])
    ≡ each (config_closure three) ((b ∷ c ∷ []) ∷ (b ∷ a ∷ []) ∷ (c ∷ b ∷ []) ∷ [])
cached_calls-each_example =
    cached_calls-each three ((b ∷ c ∷ []) ∷ (b ∷ a ∷ []) ∷ (c ∷ b ∷ []) ∷ [])

-- With `b` a job costs half, and without it the fallback is cheaper than `c`.
abbrev sorted_class : JobClass whole
sorted_class = record {
  low = 10;
  high = 20;
  configs = (b ∷ [], 2) ∷ (c ∷ [], 6) ∷ [];
  fallback = 4;
  bundle = none;
  payers = a ∷ [];
  n = 1;
  failed = 0;
}

abbrev ten : Job whole
ten = record { number = 0; cls = c; base = 10; payer = a; bundled = false; status = settled }

abbrev market : Ecosystem whole
market = record {
  modules = three;
  classes = (c, sorted_class) ∷ [];
  jobs = ten ∷ record ten { status = failed } ∷ [];
}

order : OrderLaws whole
order = record {
  IsNumber = λ x. Unit;
  asym = λ x y h. ground arith;
  trans = λ x y z n h k. ground arith;
}

sums : SumLaws whole order market
sums = record { sub = λ x y h. ground arith; sum = λ xs all. ground arith }

priced : IsPriced whole order market ten
unfolding order class_of lookup
priced = record { own = sorted_class; found = refl; alone = tt; configured = λ cfg mult at. tt }

costs_all : cost whole market ten (keys three) ≡ ok 20
unfolding cost cheapest class_of feasible is_subset config_closure closure closure_from span deps_of
    lookup member every
costs_all = refl

costs_left : cost whole market ten (c ∷ []) ≡ ok 40
unfolding cost cheapest class_of feasible is_subset config_closure closure closure_from span deps_of
    lookup member every
costs_left = refl

cost-IsLeast_example : IsLeast whole order three (c ∷ []) 10 40 sorted_class.configs 40
unfolding priced
cost-IsLeast_example = cost-IsLeast whole order market ten priced (c ∷ []) costs_left

removal_costs : mc_short whole market a ≡ ok 20
unfolding mc_short mc_short_of settled_jobs each extra left_without without dependents dependents_in
    filter cost cheapest class_of feasible is_subset config_closure closure closure_from span
    deps_of lookup member every
removal_costs = refl

all_priced : All (IsPriced whole order market) (settled_jobs whole market)
unfolding settled_jobs filter
all_priced = (priced, tt)

mc_short-not-negative_example : ltb 20 0 ≡ false
mc_short-not-negative_example =
    mc_short-not-negative whole order market sums a all_priced removal_costs

-- A job that runs with `c` at half of what it costs without a module.
abbrev simple_class : JobClass whole
simple_class = record sorted_class { configs = (c ∷ [], 2) ∷ ([], 6) ∷ [] }

abbrev simple : Ecosystem whole
simple = record market { classes = (c, simple_class) ∷ [] }

simple_priced : IsPriced whole order simple ten
unfolding order class_of lookup
simple_priced = record {
  own = simple_class;
  found = refl;
  alone = tt;
  configured = λ cfg mult at. tt;
}

share_laws : ShareLaws whole
share_laws = record {
  sub = λ x y h. ground arith;
  turn = λ r x y h. ground arith;
  add = λ x y h k. ground arith;
  mul = λ x y h k. ground arith;
  ratio = λ m n. ground arith;
  zero = refl;
}

-- All of the saving is due to `c`.
shares_simple : shapley whole simple ten ≡ ok ((c, 20) ∷ [], [], 0)
unfolding shapley saving_game class_members is_on_market intersection coalition_value share
    share_from coalitions combinations weight factorial surplus_of distinct nonmarket with_bundle
    sort place leb_bytes those each without filter cost cheapest class_of feasible is_subset
    config_closure closure closure_from span deps_of lookup member every
shares_simple = refl

shapley-IsSaving_example : IsSaving whole 20 × Unit {0}
shapley-IsSaving_example =
    shapley-IsSaving whole share_laws order simple ten simple_priced shares_simple

uses_b : used_in whole market ten (keys three) ≡ ok (some (b ∷ []))
unfolding used_in best_of bundle_up with_bundle cheaper leb_names leb_bytes sort place class_of
    feasible is_subset config_closure closure closure_from span deps_of lookup member every
uses_b = refl

used_in-IsUse_example :
    (x : ℕ) × IsUse whole order three (keys three) 10 sorted_class (some (b ∷ [])) x
    × ((y : ℕ) → Offers whole three (keys three) 10 40 sorted_class.configs y → ltb y x ≡ false)
unfolding priced
used_in-IsUse_example = used_in-IsUse whole order market ten priced (keys three) uses_b
