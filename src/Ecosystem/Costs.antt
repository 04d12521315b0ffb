-- ===== src/Ecosystem/Costs.antt =====
-- research/proof_graph_sim.py, class Ecosystem: its jobs, and what a job costs.
use lemma_xperiment.Common.{
  Floats, ℕ, zero, suc, ◌+◌, Bool, true, false, not, ◌&&◌, ◌||◌, List, [], ◌∷◌, ◌++◌, Option, none,
  some, if◌then◌else◌, ltb, length, lookup, has, filter, every, sort, Outcome, ok, key_error,
  index_error, or_raise, require, ◌>>=◌, ◌>>◌,
}
use lemma_xperiment.Paired.{leb_bytes}
use lemma_xperiment.Ecosystem.Graph.{
  Name, Names, Status, settled, failed, is_settled, Modules, JobClass, Job, Ecosystem, keys,
  config_closure,
}

-- `self.rng`: what call number `i` returns. `choice` is of a sequence that is not empty.
pub record Generator (fl : Floats) : Type 0 where
  pub uniform : ℕ → fl.F → fl.F → fl.F
  pub choice : ℕ → Names → Name
  pub random : ℕ → fl.F

abbrev is_empty {ℓ} : {A : Type ℓ} → List A → Bool
is_empty [] = true
is_empty (_ ∷ _) = false

module _ (fl : Floats) where
  abbrev half : fl.F
  half = fl.div (fl.of_nat 1) (fl.of_nat 2)

  module _ (rng : Generator fl) where
    -- The jobs of one class, from index `i`, with the count of calls and the number of the next job.
    unfoldable pub make_class_jobs :
        Name → JobClass fl → (left i drawn jid : ℕ) → Outcome (List (Job fl) × ℕ × ℕ)
    make_class_jobs cname c zero i drawn jid = ok ([], drawn, jid)
    make_class_jobs cname c (suc left) i drawn jid = do
      require (not (is_empty c.payers)) index_error
      let base = rng.uniform drawn c.low c.high
      let payer = rng.choice (drawn + 1) c.payers
      let (bundled, drawn') = toss c.bundle (drawn + 2)
      (rest, last, next) ← make_class_jobs cname c left (i + 1) drawn' (jid + 1)
      ok (
        record {
          number = jid;
          cls = cname;
          base = base;
          payer = payer;
          bundled = bundled;
          status = if ltb i c.n then settled else failed;
        }
            ∷ rest,
        last,
        next,
      )
      where
        toss : Option Name → ℕ → Bool × ℕ
        toss none d = (false, d)
        toss (some b) d = (fl.below (rng.random d) half, d + 1)

    unfoldable pub make_jobs_from :
        List (Name × JobClass fl) → (drawn jid : ℕ) → Outcome (List (Job fl))
    make_jobs_from [] drawn jid = ok []
    make_jobs_from ((cname, c) ∷ classes) drawn jid = do
      (jobs, last, next) ← make_class_jobs cname c (c.n + c.failed) 0 drawn jid
      rest ← make_jobs_from classes last next
      ok (jobs ++ rest)

    -- A new ecosystem.
    unfoldable pub make_ecosystem : Modules → List (Name × JobClass fl) → Outcome (Ecosystem fl)
    make_ecosystem modules classes = do
      jobs ← make_jobs_from classes 0 0
      ok (record { modules = modules; classes = classes; jobs = jobs })

  -- A job that is added by hand, at a given base or a drawn one.
  unfoldable pub add_job :
      Generator fl
      → (drawn : ℕ) → Ecosystem fl
      → Name
      → Name
      → Option fl.F
      → Status
      → Outcome (Ecosystem fl)
  add_job rng drawn eco cname payer base status = do
    c ← or_raise (lookup cname eco.classes) key_error
    ok (record eco {
      jobs =
          eco.jobs
          ++ record {
            number = length eco.jobs;
            cls = cname;
            base = or_drawn base (rng.uniform drawn c.low c.high);
            payer = payer;
            bundled = false;
            status = status;
          }
            ∷ [];
    })
    where
      or_drawn : Option fl.F → fl.F → fl.F
      or_drawn none x = x
      or_drawn (some b) x = b

unfoldable pub is_subset : Names → Names → Bool
is_subset xs available = every (λ x. has x available) xs

unfoldable pub feasible : Modules → Names → Names → Outcome Bool
feasible ms cfg available = config_closure ms cfg >>= λ out. ok (is_subset out available)

-- Lists of strings, compared as Python compares lists.
unfoldable pub leb_names : Names → Names → Bool
leb_names [] ys = true
leb_names (x ∷ xs) [] = false
leb_names (x ∷ xs) (y ∷ ys) =
    if leb_bytes x y then (if leb_bytes y x then leb_names xs ys else true) else false

module _ (fl : Floats) where
  -- `min(best, p)`: the first of two that are equal.
  abbrev pub lesser : fl.F → fl.F → fl.F
  lesser best p = if fl.below p best then p else best

  -- The loop of `cost` over the configurations.
  unfoldable pub cheapest :
      Modules → Names → (base best : fl.F) → List (Names × fl.F) → Outcome fl.F
  cheapest ms available base best [] = ok best
  cheapest ms available base best ((cfg, mult) ∷ configs) = feasible ms cfg available >>= λ f.
      cheapest ms available base (if f then lesser best (fl.mul mult base) else best) configs

  unfoldable pub class_of : Ecosystem fl → Job fl → Outcome (JobClass fl)
  class_of eco job = or_raise (lookup job.cls eco.classes) key_error

  unfoldable pub cost : Ecosystem fl → Job fl → Names → Outcome fl.F
  cost eco job available = do
    c ← class_of eco job
    cheapest eco.modules available job.base (fl.mul c.fallback job.base) c.configs

  -- The order of `used`: by the multiplier, and then by the sorted names.
  unfoldable pub cheaper : Names × fl.F → Names × fl.F → Bool
  cheaper (cfg, x) (cfg', y) =
      fl.below x y || not (fl.below y x) && leb_names (sort leb_bytes cfg) (sort leb_bytes cfg')

  -- The loop of `used`.
  unfoldable pub best_of :
      Modules
      → Names
      → (base best : fl.F) → Option Names
      → List (Names × fl.F)
      → Outcome (Option Names)
  best_of ms available base best chosen [] = ok chosen
  best_of ms available base best chosen ((cfg, mult) ∷ configs) = feasible ms cfg available >>= λ f.
      let better = f && fl.below (fl.mul mult base) best in
      best_of ms available base (if better then fl.mul mult base else best)
        (if better then some cfg else chosen) configs

  unfoldable pub with_bundle : Bool → Option Name → Names → Names
  with_bundle true (some b) cfg = if is_empty b then cfg else cfg ++ b ∷ []
  with_bundle _ _ cfg = cfg

  unfoldable pub bundle_up : JobClass fl → Job fl → Option Names → Option Names
  bundle_up c job none = none
  bundle_up c job (some cfg) = some (with_bundle job.bundled c.bundle cfg)

  unfoldable pub used_in : Ecosystem fl → Job fl → Names → Outcome (Option Names)
  used_in eco job available = do
    c ← class_of eco job
    chosen ←
        best_of eco.modules available job.base (fl.mul c.fallback job.base) none
          (sort cheaper c.configs)
    ok (bundle_up c job chosen)

  unfoldable pub used : Ecosystem fl → Job fl → Outcome (Option Names)
  used eco job = used_in eco job (keys eco.modules)

  unfoldable pub used_closure : Ecosystem fl → Job fl → Outcome Names
  used_closure eco job = used eco job >>= closed
    where
      closed : Option Names → Outcome Names
      closed none = ok []
      closed (some cfg) = config_closure eco.modules cfg

  -- BASE_FEE_PROVE + PROVE_PER_BPGU * pgu / 1e9
  unfoldable pub fee : Ecosystem fl → Job fl → Outcome fl.F
  fee eco job = do
    pgu ← cost eco job (keys eco.modules)
    ok (
        fl.add (fl.div (fl.of_nat 2) (fl.of_nat 10))
          (fl.div (fl.mul (fl.of_nat 2) pgu) (fl.of_nat 1_000_000_000)))

  unfoldable pub settled_jobs : Ecosystem fl → List (Job fl)
  settled_jobs eco = filter (λ job. is_settled job.status) eco.jobs
