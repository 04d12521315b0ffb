-- ===== src/Ecosystem/Market.antt =====
-- research/proof_graph_sim.py: the synthetic ecosystem, MODULES and CLASSES.
use lemma_xperiment.Common.{Floats, ℕ, true, false, List, [], ◌∷◌, none, some}
use lemma_xperiment.Holdout.Derive.{codes}
use lemma_xperiment.Ecosystem.Graph.{Name, Names, Module, Modules, JobClass}

abbrev pub upstream_rsp : Name
upstream_rsp = codes "upstream-rsp"

abbrev pub upstream_codec : Name
upstream_codec = codes "upstream-codec"

abbrev pub membership_baseline : Name
membership_baseline = codes "membership-baseline"

abbrev pub bindings_wrapper : Name
bindings_wrapper = codes "bindings-wrapper"

abbrev pub codec : Name
codec = codes "codec@1"

abbrev pub witness_cache : Name
witness_cache = codes "witness-cache@1"

abbrev pub arena_backend : Name
arena_backend = codes "arena-backend@1"

abbrev pub multiproof : Name
multiproof = codes "multiproof@1"

abbrev pub fork_adapter : Name
fork_adapter = codes "fork-adapter@1"

abbrev pub telemetry : Name
telemetry = codes "telemetry@1"

abbrev outside : Names → Name → Module
outside deps creator = record { deps = deps; market = false; creator = creator; recreate = none }

abbrev on_market : Names → Name → ℕ → Module
on_market deps creator recreate = record {
  deps = deps;
  market = true;
  creator = creator;
  recreate = some recreate;
}

unfoldable pub modules_of : Modules
modules_of =
    (upstream_rsp, outside [] (codes "upstream"))
    ∷ (upstream_codec, outside [] (codes "upstream"))
    ∷ (membership_baseline, outside (upstream_codec ∷ []) (codes "team"))
    ∷ (bindings_wrapper, outside [] (codes "team"))
    ∷ (codec, on_market [] (codes "alice") 60_000_000)
    ∷ (witness_cache, on_market (codec ∷ []) (codes "alice") 1_500_000_000)
    ∷ (arena_backend, on_market (codec ∷ []) (codes "bob") 1_000_000_000)
    ∷ (multiproof, on_market (codec ∷ []) (codes "carol") 800_000_000)
    ∷ (fork_adapter, on_market (codec ∷ []) (codes "dave") 600_000_000)
    ∷ (telemetry, on_market [] (codes "erin") 50_000_000)
    ∷ []

module _ (fl : Floats) where
  -- A decimal with three places.
  abbrev thousandths : ℕ → fl.F
  thousandths n = fl.div (fl.of_nat n) (fl.of_nat 1000)

  abbrev with_upstream : Names → Names
  with_upstream cfg = upstream_rsp ∷ bindings_wrapper ∷ cfg

  unfoldable pub block_cancun : JobClass fl
  block_cancun = record {
    low = fl.of_nat 95_000_000;
    high = fl.of_nat 125_000_000;
    configs =
        (with_upstream (upstream_codec ∷ []), thousandths 1000)
        ∷ (with_upstream (codec ∷ []), thousandths 990)
        ∷ (with_upstream (arena_backend ∷ []), thousandths 970)
        ∷ (with_upstream (witness_cache ∷ []), thousandths 950)
        ∷ (with_upstream (witness_cache ∷ arena_backend ∷ []), thousandths 935)
        ∷ [];
    fallback = thousandths 1500;
    bundle = some telemetry;
    payers =
        codes "P1"
        ∷ codes "P2"
        ∷ codes "P3"
        ∷ codes "P4"
        ∷ codes "P5"
        ∷ codes "alice-affiliate"
        ∷ [];
    n = 30;
    failed = 2;
  }

  unfoldable pub block_prague : JobClass fl
  block_prague = record {
    low = fl.of_nat 95_000_000;
    high = fl.of_nat 125_000_000;
    configs =
        (with_upstream (fork_adapter ∷ []), thousandths 1000)
        ∷ (with_upstream (fork_adapter ∷ witness_cache ∷ []), thousandths 950)
        ∷ [];
    fallback = thousandths 1500;
    bundle = none;
    payers = codes "P6" ∷ codes "P7" ∷ [];
    n = 8;
    failed = 0;
  }

  -- A membership class: its range, the multiplier of the multiproof, and the fallback's.
  membership : (low high share fallback : ℕ) → JobClass fl
  membership low high share fallback = record {
    low = fl.of_nat low;
    high = fl.of_nat high;
    configs =
        (bindings_wrapper ∷ membership_baseline ∷ [], thousandths 1000)
        ∷ (bindings_wrapper ∷ multiproof ∷ [], thousandths share)
        ∷ [];
    fallback = thousandths fallback;
    bundle = none;
    payers = codes "P8" ∷ codes "P9" ∷ [];
    n = 10;
    failed = 0;
  }

  unfoldable pub classes_of : List (Name × JobClass fl)
  unfolding membership
  classes_of =
      (codes "block-cancun", block_cancun)
      ∷ (codes "block-prague", block_prague)
      ∷ (codes "membership-small", membership 1_600_000 2_400_000 800 900)
      ∷ (codes "membership-large", membership 4_800_000 7_200_000 750 2000)
      ∷ []
