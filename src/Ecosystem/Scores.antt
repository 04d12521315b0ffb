-- ===== src/Ecosystem/Scores.antt =====
-- research/proof_graph_sim.py, class Ecosystem: the scores of a module.
use lemma_xperiment.Common.{
  Floats, divide, is_zero, ℕ, ◌+◌, Bool, true, false, not, ◌&&◌, List, [], ◌∷◌, map, Option, none,
  some, if◌then◌else◌, length, lookup, insert, has, filter, eq_list, Outcome, ok, key_error,
  or_raise, ◌>>=◌,
}
use Prim.Native.Nat.{min}
use lemma_xperiment.Holdout.Derive.{codes}
use lemma_xperiment.Ecosystem.Graph.{
  Name, Names, is_settled, Modules, Job, Ecosystem, keys, config_closure, dependents,
}
use lemma_xperiment.Ecosystem.Costs.{
  lesser, feasible, class_of, cost, used_closure, fee, settled_jobs,
}

-- Comprehensions over calls that may raise.
unfoldable pub each {ℓ} : {A B : Type ℓ} → (A → Outcome B) → List A → Outcome (List B)
each f [] = ok []
each f (x ∷ xs) = f x >>= λ y. each f xs >>= λ ys. ok (y ∷ ys)

unfoldable pub those {ℓ} : {A : Type ℓ} → (A → Outcome Bool) → List A → Outcome (List A)
those p [] = ok []
those p (x ∷ xs) = p x >>= λ b. those p xs >>= λ ys. ok (if b then x ∷ ys else ys)

-- The names of the modules outside the market.
unfoldable pub nonmarket : Modules → Names
nonmarket [] = []
nonmarket ((k, m) ∷ ms) = if m.market then nonmarket ms else k ∷ nonmarket ms

unfoldable pub without : Names → Names → Names
without xs removed = filter (λ x. not (has x removed)) xs

-- What is left when `j` and all that depends on it are removed.
unfoldable pub left_without : Modules → Name → Outcome Names
left_without ms j = dependents ms j >>= λ ds. ok (without (keys ms) (j ∷ ds))

-- AFFILIATED.get
unfoldable pub affiliated : Name → Option Name
affiliated payer = if eq_list payer (codes "alice-affiliate") then some (codes "alice") else none

module _ (fl : Floats) (eco : Ecosystem fl) where
  unfoldable pub uses : Name → Job fl → Outcome Bool
  uses j job = used_closure fl eco job >>= λ out. ok (has j out)

  unfoldable pub usage : Name → Outcome (List (Job fl))
  usage j = those (uses j) (settled_jobs fl eco)

  unfoldable pub money_reach : Name → Outcome fl.F
  money_reach j = usage j >>= λ jobs. each (fee fl eco) jobs >>= λ fees. ok (fl.sum fees)

  unfoldable pub reach : Name → Outcome ℕ
  reach j = dependents eco.modules j >>= λ ds. usage j >>= λ jobs. ok (length ds + length jobs)

  unfoldable pub success : Name → Outcome fl.F
  success j = those (uses j) eco.jobs >>= rate
    where
      rate : List (Job fl) → Outcome fl.F
      rate [] = ok (fl.of_nat 0)
      rate (job ∷ jobs) = ok (
          fl.div (fl.of_nat (length (filter (λ x. is_settled x.status) (job ∷ jobs))))
            (fl.of_nat (length (job ∷ jobs))))

  -- The saving of a job against the modules outside the market, as a share.
  unfoldable pub saving : Job fl → Outcome fl.F
  saving job = do
    base ← cost fl eco job (nonmarket eco.modules)
    best ← cost fl eco job (keys eco.modules)
    divide fl (fl.sub base best) base

  unfoldable pub speedup : Name → Outcome fl.F
  speedup j = usage j >>= λ jobs. each saving jobs >>= λ vals. ok (mean vals)
    where
      mean : List fl.F → fl.F
      mean [] = fl.of_nat 0
      mean (v ∷ vals) = fl.div (fl.sum (v ∷ vals)) (fl.of_nat (length (v ∷ vals)))

  unfoldable pub pcs : Name → Outcome fl.F
  pcs j = do
    jobs ← usage j
    faster ← speedup j
    rate ← success j
    r ← reach j
    ok (fl.mul (fl.mul (fl.mul (fl.of_nat (length jobs)) faster) rate) (fl.of_nat r))

  -- What a job costs more with the modules `available` alone.
  unfoldable pub extra : Names → Job fl → Outcome fl.F
  extra available job = do
    without_ ← cost fl eco job available
    with_ ← cost fl eco job (keys eco.modules)
    ok (fl.sub without_ with_)

  unfoldable pub mc_short_of : Name → List (Job fl) → Outcome fl.F
  mc_short_of j jobs = left_without eco.modules j >>= λ available.
      each (extra available) jobs >>= λ xs. ok (fl.sum xs)

  unfoldable pub mc_short : Name → Outcome fl.F
  mc_short j = mc_short_of j (settled_jobs fl eco)

  unfoldable pub pcs_mc : Name → Outcome fl.F
  pcs_mc j = usage j >>= score
    where
      score : List (Job fl) → Outcome fl.F
      score [] = ok (fl.of_nat 0)
      score (job ∷ jobs) = do
        short ← mc_short j
        frac ← divide fl short (fl.sum (map (λ (x : Job fl). x.base) (job ∷ jobs)))
        rate ← success j
        r ← reach j
        ok (fl.mul (fl.mul (fl.mul (fl.of_nat (length (job ∷ jobs))) frac) rate) (fl.of_nat r))

  -- Some configuration is feasible.
  unfoldable pub any_feasible : Names → List (Names × fl.F) → Outcome Bool
  any_feasible available [] = ok false
  any_feasible available ((cfg, mult) ∷ configs) = feasible eco.modules cfg available >>= λ f.
      let rest = any_feasible available configs in if f then ok true else rest

  -- The loop of `mc_split`, with its two sums.
  unfoldable pub split_from : Names → (subst_ enable : fl.F) → List (Job fl) → Outcome (fl.F × fl.F)
  split_from available subst_ enable [] = ok (subst_, enable)
  split_from available subst_ enable (job ∷ jobs) = do
    with_ ← cost fl eco job (keys eco.modules)
    without_ ← cost fl eco job available
    sums ← account with_ without_
    split_from available sums.0 sums.1 jobs
    where
      account : (with_ without_ : fl.F) → Outcome (fl.F × fl.F)
      account with_ without_ =
          if not (fl.below without_ with_) && not (fl.below with_ without_)
          then ok (subst_, enable)
          else do
            c ← class_of fl eco job
            has_alt ← any_feasible available c.configs
            ok (
                if has_alt
                then (fl.add subst_ (fl.sub without_ with_), enable)
                else (subst_, fl.add enable (fl.sub without_ with_)))

  unfoldable pub mc_split : Name → Outcome (fl.F × fl.F)
  mc_split j = left_without eco.modules j >>= λ available.
      split_from available (fl.of_nat 0) (fl.of_nat 0) (settled_jobs fl eco)

  -- The inner loop of `mc_local`.
  unfoldable pub cheapest_unnamed : Name → (base best : fl.F) → List (Names × fl.F) → Outcome fl.F
  cheapest_unnamed j base best [] = ok best
  cheapest_unnamed j base best ((cfg, mult) ∷ configs) = elim (has j cfg) [
    | true ↦ cheapest_unnamed j base best configs
    | false ↦ feasible eco.modules cfg (keys eco.modules) >>= λ f.
        cheapest_unnamed j base (if f then lesser fl best (fl.mul mult base) else best) configs
  ]

  unfoldable pub local_from : Name → fl.F → List (Job fl) → Outcome fl.F
  local_from j total [] = ok total
  local_from j total (job ∷ jobs) = do
    c ← class_of fl eco job
    best ← cheapest_unnamed j job.base (fl.mul c.fallback job.base) c.configs
    with_ ← cost fl eco job (keys eco.modules)
    local_from j (fl.add total (fl.sub best with_)) jobs

  unfoldable pub mc_local : Name → Outcome fl.F
  mc_local j = local_from j (fl.of_nat 0) (settled_jobs fl eco)

  -- A configuration whose closure leaves out `j`, and that is feasible.
  unfoldable pub is_alternative : Name → Names × fl.F → Outcome Bool
  is_alternative j (cfg, mult) = do
    out ← config_closure eco.modules cfg
    if has j out then ok false else feasible eco.modules cfg (keys eco.modules)

  unfoldable pub or_alternatives : Name → Outcome (Option ℕ)
  or_alternatives j = usage j >>= λ jobs. each count jobs >>= λ counts. ok (least counts)
    where
      count : Job fl → Outcome ℕ
      count job = do
        c ← class_of fl eco job
        those (is_alternative j) c.configs >>= λ found. ok (length found)

      least : List ℕ → Option ℕ
      least [] = none
      least (n ∷ ns) = some (elim (least ns) [ none ↦ n | some m ↦ min n m ])

  abbrev is_creator : Option Name → Name → Bool
  is_creator none c = false
  is_creator (some a) c = eq_list a c

  unfoldable pub mc_independent : Name → Outcome fl.F
  mc_independent j = do
    m ← or_raise (lookup j eco.modules) key_error
    mc_short_of j
        (filter (λ job. not (is_creator (affiliated job.payer) m.creator)) (settled_jobs fl eco))

  -- `money[payer] += fee`, from 0 for a new payer.
  unfoldable pub paid : List (Name × fl.F) → List (Job fl) → Outcome (List (Name × fl.F))
  paid money [] = ok money
  paid money (job ∷ jobs) = do
    f ← fee fl eco job
    paid (insert job.payer (fl.add (so_far (lookup job.payer money)) f) money) jobs
    where
      so_far : Option fl.F → fl.F
      so_far none = fl.of_nat 0
      so_far (some x) = x

  -- `(v / tot) ** 2` is a product here.
  unfoldable pub effective_payers : Name → Outcome fl.F
  effective_payers j = usage j >>= λ jobs. paid [] jobs >>= λ money. inverse (values money)
    where
      values : List (Name × fl.F) → List fl.F
      values [] = []
      values ((k, v) ∷ d) = v ∷ values d

      square : fl.F → fl.F → fl.F
      square tot v = fl.mul (fl.div v tot) (fl.div v tot)

      inverse : List fl.F → Outcome fl.F
      inverse vs =
          if is_zero fl (fl.sum vs)
          then ok (fl.of_nat 0)
          else divide fl (fl.of_nat 1) (fl.sum (map (square (fl.sum vs)) vs))
