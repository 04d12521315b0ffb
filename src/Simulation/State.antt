-- ===== src/Simulation/State.antt =====
-- research/queueing_sim.py: the jobs, the events and the state of `simulate`. A job is an object
-- that the events and the waiting line share; here they hold its number, `idx`, and the state maps
-- numbers to jobs.
use lemma_xperiment.Common.{
  ℕ, ◌+◌, Bool, true, false, not, ◌&&◌, ◌||◌, List, [], ◌∷◌, Option, none, some, ◌==◌, leb,
  if◌then◌else◌, Floats, place,
}

pub data Policy : Type 0 where
  single redundant hedge : Policy

abbrev pub is_hedge : Policy → Bool
is_hedge hedge = true
is_hedge _ = false

abbrev pub is_redundant : Policy → Bool
is_redundant redundant = true
is_redundant _ = false

-- ARR, DONE, HEDGE and KILL, with the job and the copy that the event is of.
pub data Kind : Type 0 where
  arrive : Kind
  done : (job copy : ℕ) → Kind
  hedge_due : (job : ℕ) → Kind
  kill_due : (job : ℕ) → Kind

module _ (fl : Floats) where
  -- The arguments of `simulate`: `warmup` is finite and not negative. The generator is read in order: `gauss i` and `expovariate i` are
  -- what call number `i` returns, as one or the other.
  pub record Setup : Type 0 where
    pub servers : ℕ
    pub lam : fl.F
    pub window : fl.F
    pub mu : fl.F
    pub sigma : fl.F
    pub policy : Policy
    pub k : ℕ
    pub t_h : fl.F
    pub phi : fl.F
    pub speedup : fl.F
    pub kill : Bool
    pub is_poisson : Bool
    pub n_jobs : ℕ
    pub warmup : fl.F
    pub gauss : ℕ → fl.F
    pub expovariate : ℕ → fl.F

  -- `running` is a dictionary from copies to the times at which they started.
  pub record Job : Type 0 where
    pub arr : fl.F
    pub deadline : fl.F
    pub zj : fl.F
    pub is_done : Bool
    pub completion : Option fl.F
    pub running : List (ℕ × fl.F)
    pub first_start : Option fl.F

  pub record Event : Type 0 where
    pub time : fl.F
    pub seq : ℕ
    pub kind : Kind

  -- `overflowed` and `undivided` are no variables of the source: `math.exp` has raised, or `1.0 / lam`
  -- has, in the event that is being handled. The loop raises the exception after the event.
  pub record State : Type 0 where
    pub events : List Event
    pub seq : ℕ
    pub free : ℕ
    pub waitq : List (ℕ × ℕ)
    pub busy : fl.F
    pub jobs : ℕ → Job
    pub jobs_created : ℕ
    pub n : ℕ
    pub success : ℕ
    pub waited : ℕ
    pub wait_sum : fl.F
    pub waits : List fl.F
    pub resp_sum : fl.F
    pub measure_start : Option fl.F
    pub measure_end : Option fl.F
    pub finished : ℕ
    pub drawn : ℕ
    pub overflowed : Bool
    pub undivided : Bool

  -- Tuples are compared by time and then by number; two events never have one number.
  unfoldable pub comes_first : Event → Event → Bool
  comes_first e f = fl.below e.time f.time || not (fl.below f.time e.time) && leb e.seq f.seq

  abbrev pub update : (ℕ → Job) → ℕ → Job → ℕ → Job
  update jobs j job i = if j == i then job else jobs i

  -- `push`: the heap is a list in order, and its head the least event.
  unfoldable pub push : fl.F → Kind → State → State
  push t kind s = record s {
    seq = s.seq + 1;
    events = place comes_first (record { time = t; seq = s.seq + 1; kind = kind }) s.events;
  }

  unfoldable pub put : ℕ → fl.F → List (ℕ × fl.F) → List (ℕ × fl.F)
  put cid t [] = (cid, t) ∷ []
  put cid t ((c, u) ∷ running) = if c == cid then (c, t) ∷ running else (c, u) ∷ put cid t running

  unfoldable pub start_of : ℕ → List (ℕ × fl.F) → Option fl.F
  start_of cid [] = none
  start_of cid ((c, u) ∷ running) = if c == cid then some u else start_of cid running

  unfoldable pub remove : ℕ → List (ℕ × fl.F) → List (ℕ × fl.F)
  remove cid [] = []
  remove cid ((c, u) ∷ running) = if c == cid then running else (c, u) ∷ remove cid running
