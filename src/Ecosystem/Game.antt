-- ===== src/Ecosystem/Game.antt =====
-- research/proof_graph_sim.py, class Ecosystem: the saving game and its Shapley values.
use lemma_xperiment.Common.{
  Floats, ℕ, zero, suc, ◌+◌, ◌-◌, ◌*◌, Bool, true, not, List, [], ◌∷◌, ◌++◌, map, Option, none,
  some, length, lookup, insert, has, distinct, every, filter, eq_list, sort, Outcome, ok, err,
  key_error, type_error, or_raise, ◌>>=◌,
}
use lemma_xperiment.Paired.{leb_bytes}
use lemma_xperiment.Ecosystem.Graph.{Name, Names, Modules, JobClass, Job, Ecosystem, config_closure}
use lemma_xperiment.Ecosystem.Costs.{class_of, cost, settled_jobs, with_bundle}
use lemma_xperiment.Ecosystem.Scores.{each, those, nonmarket, without}

unfoldable pub is_on_market : Modules → Name → Outcome Bool
is_on_market ms m = or_raise (lookup m ms) key_error >>= λ own. ok own.market

-- The closures of the configurations, and the market modules in them.
unfoldable pub class_members {ℓ} :
    {V : Type ℓ} → Modules → List (Names × V) → Outcome (List Names × Names)
class_members ms [] = ok ([], [])
class_members ms ((cfg, mult) ∷ configs) = config_closure ms cfg >>= λ cl.
    those (is_on_market ms) cl >>= λ own.
    class_members ms configs >>= λ rest. ok (cl ∷ rest.0, own ++ rest.1)

-- `set.intersection` of one set or more.
unfoldable pub intersection : List Names → Outcome Names
intersection [] = err type_error
intersection (xs ∷ sets) = ok (filter (λ x. every (has x) sets) xs)

-- `itertools.combinations`
unfoldable pub combinations : Names → ℕ → List Names
combinations xs zero = [] ∷ []
combinations [] (suc r) = []
combinations (x ∷ xs) (suc r) = map (λ ys. x ∷ ys) (combinations xs r) ++ combinations xs (suc r)

unfoldable pub factorial : ℕ → ℕ
factorial zero = 1
factorial (suc n) = suc n * factorial n

module _ (fl : Floats) where
  -- What `saving_game` returns, but for `v`; `fixed` is what `v` adds its argument to.
  pub record Game : Type 0 where
    pub players : Names
    pub fixed : Names
    pub enabling : Names
    pub ref : fl.F

  unfoldable pub saving_game : Ecosystem fl → Job fl → Outcome Game
  saving_game eco job = do
    c ← class_of fl eco job
    (closures, found) ← class_members eco.modules c.configs
    let members = with_bundle fl true c.bundle found
    common ← intersection closures
    let enabling = distinct eq_list (filter (λ m. has m members) common)
    let fixed = nonmarket eco.modules ++ enabling
    ref ← cost fl eco job fixed
    ok (record {
      players = sort leb_bytes (distinct eq_list (without members enabling));
      fixed = fixed;
      enabling = enabling;
      ref = ref;
    })

  -- `v`
  unfoldable pub coalition_value : Ecosystem fl → Job fl → Game → Names → Outcome fl.F
  coalition_value eco job g t = cost fl eco job (g.fixed ++ t) >>= λ x. ok (fl.sub g.ref x)

  -- The weight of a coalition of `r` of `m` players; the factorials are below 2 ^ 53.
  unfoldable pub weight : (m r : ℕ) → fl.F
  weight m r = fl.div (fl.of_nat (factorial r * factorial (m - r - 1))) (fl.of_nat (factorial m))

  -- The coalitions of the others, from `r` on, each with its weight.
  unfoldable pub coalitions : (m : ℕ) → Names → (left r : ℕ) → List (fl.F × Names)
  coalitions m others zero r = []
  coalitions m others (suc left) r =
      map (λ t. (weight m r, t)) (combinations others r) ++ coalitions m others left (r + 1)

  -- The sum over the coalitions, for a game given by its values.
  unfoldable pub share_from :
      (Names → Outcome fl.F) → Name → fl.F → List (fl.F × Names) → Outcome fl.F
  share_from v p phi [] = ok phi
  share_from v p phi ((w, t) ∷ rest) = v (p ∷ t) >>= λ with_.
      v t >>= λ without_. share_from v p (fl.add phi (fl.mul w (fl.sub with_ without_))) rest

  unfoldable pub share : (Names → Outcome fl.F) → Names → Name → Outcome (Name × fl.F)
  share v players p =
      let others = filter (λ q. not (eq_list q p)) players in
      share_from v p (fl.of_nat 0) (coalitions (length players) others (length others + 1) 0)
      >>= λ phi. ok (p, phi)

  unfoldable pub surplus_of : JobClass fl → Job fl → Game → fl.F
  surplus_of c job g = elim g.enabling [
    | [] ↦ fl.of_nat 0
    | _ ∷ _ ↦ fl.sub (fl.mul c.fallback job.base) g.ref
  ]

  unfoldable pub shapley : Ecosystem fl → Job fl → Outcome (List (Name × fl.F) × Names × fl.F)
  shapley eco job = do
    g ← saving_game eco job
    phi ← each (share (coalition_value eco job g) g.players) g.players
    c ← class_of fl eco job
    ok (phi, g.enabling, surplus_of c job g)

  unfoldable pub creator_of : Ecosystem fl → Name → Outcome Name
  creator_of eco p = or_raise (lookup p eco.modules) key_error >>= λ own. ok own.creator

  -- `mods_of[c]`, and the modules of several creators.
  unfoldable pub mods_of : Ecosystem fl → Names → Name → Outcome Names
  mods_of eco players creator =
      those (λ p. creator_of eco p >>= λ own. ok (eq_list own creator)) players

  unfoldable pub mods_of_all : Ecosystem fl → Names → Names → Outcome Names
  mods_of_all eco players [] = ok []
  mods_of_all eco players (c ∷ creators) =
      mods_of eco players c >>= λ ms. mods_of_all eco players creators >>= λ rest. ok (ms ++ rest)

  unfoldable pub shapley_by_creator : Ecosystem fl → Job fl → Outcome (List (Name × fl.F))
  shapley_by_creator eco job = do
    g ← saving_game eco job
    names ← each (creator_of eco) g.players
    let creators = sort leb_bytes (distinct eq_list names)
    each
        (share (λ cs. mods_of_all eco g.players cs >>= λ ms. coalition_value eco job g ms) creators)
        creators

  -- `tot[p] += val`, from 0 for a new key.
  unfoldable pub add_to : List (Name × fl.F) → List (Name × fl.F) → List (Name × fl.F)
  add_to [] tot = tot
  add_to ((p, val) ∷ phi) tot = add_to phi (insert p (fl.add (so_far (lookup p tot)) val) tot)
    where
      so_far : Option fl.F → fl.F
      so_far none = fl.of_nat 0
      so_far (some x) = x

  unfoldable pub creator_totals_from :
      Ecosystem fl → List (Name × fl.F) → List (Job fl) → Outcome (List (Name × fl.F))
  creator_totals_from eco tot [] = ok tot
  creator_totals_from eco tot (job ∷ jobs) =
      shapley_by_creator eco job >>= λ phi. creator_totals_from eco (add_to phi tot) jobs

  unfoldable pub shapley_creator_totals : Ecosystem fl → Outcome (List (Name × fl.F))
  shapley_creator_totals eco = creator_totals_from eco [] (settled_jobs fl eco)

  unfoldable pub totals_from :
      Ecosystem fl
      → (tot risk : List (Name × fl.F)) → List (Job fl)
      → Outcome (List (Name × fl.F) × List (Name × fl.F))
  totals_from eco tot risk [] = ok (tot, risk)
  totals_from eco tot risk (job ∷ jobs) = do
    (phi, enabling, surplus) ← shapley eco job
    totals_from eco (add_to phi tot) (add_to (map (λ e. (e, surplus)) enabling) risk) jobs

  unfoldable pub shapley_totals : Ecosystem fl → Outcome (List (Name × fl.F) × List (Name × fl.F))
  shapley_totals eco = totals_from eco [] [] (settled_jobs fl eco)
