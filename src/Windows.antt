-- ===== src/Windows.antt =====
-- apparatus/fork_windows.py: one fork-support check block per mainnet fork era. The archive
-- endpoint is a parameter: what it answers for a block number, for "finalized" and for a batch.
pub mod Search
pub mod Median
use lemma_xperiment.Common.{
  ℕ, zero, suc, ◌+◌, ◌-◌, ◌*◌, ◌/◌, ◌≡◌, Bool, true, false, not, ◌&&◌, ◌||◌, List, [], ◌∷◌, ◌++◌,
  map, Option, none, some, ◌==◌, ltb, leb, if◌then◌else◌, length, get_elem?, sort, Outcome, ok, err,
  index_error, system_exit, http_error, out_of_fuel, or_raise, require, ◌>>=◌, ◌>>◌,
}
use Prim.Native.Nat.{min}

pub data Response {ℓ} (A : Type ℓ) : Type ℓ where
  answer : A → Response A
  refused : (code : ℕ) → Response A

-- `post`: up to six attempts, with a growing wait after each refusal for too many requests. Returns
-- the seconds waited and the answer; `attempts` is what the endpoint says to each attempt.
pub post_from {ℓ} : {A : Type ℓ} → ℕ → ℕ → ℕ → (ℕ → Response A) → Outcome (ℕ × A)
post_from zero attempt waited attempts = err out_of_fuel
post_from (suc left) attempt waited attempts = elim (attempts attempt) [
  | answer a ↦ ok (waited, a)
  | refused code ↦ elim (not (code == 429) || attempt == 5) [
    | true ↦ err http_error
    | false ↦ post_from left (attempt + 1) (waited + 2 * (attempt + 1)) attempts
  ]
]

pub post {ℓ} : {A : Type ℓ} → (ℕ → Response A) → Outcome (ℕ × A)
post attempts = post_from 6 0 0 attempts

pub record Header : Type 0 where
  pub number : ℕ
  pub timestamp : ℕ
  pub gas_used : ℕ
  pub tx_count : ℕ

pub record Reply : Type 0 where
  pub id : ℕ
  pub result : Option Header

pub record Endpoint : Type 0 where
  pub header : ℕ → Outcome Header
  pub finalized : Outcome Header
  pub batch : (first count : ℕ) → Outcome (List Reply)

-- The binary search, on fuel: `Windows/Search.antt` shows that the size of the range is enough.
pub first_from : Endpoint → ℕ → ℕ → ℕ → ℕ → Outcome ℕ
first_from e zero ts lo hi = if ltb lo hi then err out_of_fuel else ok lo
first_from e (suc fuel) ts lo hi = elim (ltb lo hi) [
  | true ↦ e.header ((lo + hi) / 2) >>= λ h. elim (leb ts h.timestamp) [
    | true ↦ first_from e fuel ts lo ((lo + hi) / 2)
    | false ↦ first_from e fuel ts ((lo + hi) / 2 + 1) hi
  ]
  | false ↦ ok lo
]

pub first_block_at_or_after : Endpoint → (ts lo hi : ℕ) → Outcome ℕ
first_block_at_or_after e ts lo hi = first_from e (hi - lo) ts lo hi

results : List Reply → Outcome (List Header)
results [] = ok []
results (r ∷ replies) = do h ← or_raise r.result system_exit; hs ← results replies; ok (h ∷ hs)

-- The rows of one batch, in the order of the requests.
pub read_batch : List Reply → Outcome (List Header)
read_batch replies = results (sort (λ r s. leb r.id s.id) replies)

window_from : Endpoint → ℕ → (start off count : ℕ) → Outcome (List Header)
window_from e zero start off count = if ltb off count then err out_of_fuel else ok []
window_from e (suc fuel) start off count = elim (ltb off count) [
  | true ↦ do
    replies ← e.batch (start + off) (min 20 (count - off))
    rows ← read_batch replies
    more ← window_from e fuel start (off + 20) count
    ok (rows ++ more)
  | false ↦ ok []
]

pub window : Endpoint → (start count : ℕ) → Outcome (List Header)
window e start count = window_from e count start 0 count

-- `(r[1], r[0]) <= (s[1], s[0])`: by gas used, then by number.
pub by_gas : Header → Header → Bool
by_gas r s = ltb r.gas_used s.gas_used || r.gas_used == s.gas_used && leb r.number s.number

-- Of no rows the index is -1, which raises.
pub lower_median : List Header → Outcome Header
lower_median [] = err index_error
lower_median (r ∷ rows) =
    or_raise (get_elem? (sort by_gas (r ∷ rows)) ((length (r ∷ rows) - 1) / 2)) index_error

-- The lower median of the gas used, as a number.
pub median_gas : List ℕ → Outcome ℕ
median_gas [] = err index_error
median_gas (g ∷ gas) =
    or_raise (get_elem? (sort leb (g ∷ gas)) ((length (g ∷ gas) - 1) / 2)) index_error

pub record Era : Type 0 where
  pub fork : ℕ
  pub activation : ℕ
  pub start : ℕ
  pub rows : List Header
  pub check : Header
  pub median : ℕ

-- One era: `fork` is the activation timestamp. The current era's window ends at the finalized
-- block; `start` is an integer in the source, and a window that would begin below zero is not one
-- of the chain's.
pub era_of : Endpoint → (win offset finalized lo fork : ℕ) → (current : Bool) → Outcome Era
era_of e win offset finalized lo fork current = do
  activation ← first_block_at_or_after e fork lo finalized
  let start = if current then finalized + 1 - win else activation + offset
  rows ← window e start win
  check ← lower_median rows
  median ← median_gas (map (λ (r : Header). r.gas_used) rows)
  ok (record {
    fork = fork;
    activation = activation;
    start = start;
    rows = rows;
    check = check;
    median = median;
  })

pub eras_from : Endpoint → (win offset finalized lo : ℕ) → List ℕ → Outcome (List Era)
eras_from e win offset finalized lo [] = ok []
eras_from e win offset finalized lo (fork ∷ forks) = do
  era ← era_of e win offset finalized lo fork (elim forks [ [] ↦ true | _ ∷ _ ↦ false ])
  eras ← eras_from e win offset finalized era.activation forks
  ok (era ∷ eras)

abbrev pub forks : List ℕ
forks = 1_746_612_311 ∷ 1_764_798_551 ∷ 1_765_290_071 ∷ 1_767_747_671 ∷ []

pub select_eras : Endpoint → (win offset : ℕ) → Outcome (List Era)
select_eras e win offset = do
  finalized ← e.finalized
  eras_from e win offset finalized.number 22_000_000 forks
