-- ===== src/Holdout/Derive/Bounds.antt =====
-- The loop of derive ends: the counter is written in four bytes.
use lemma_xperiment.Common.{
  ℕ, zero, suc, ◌+◌, ◌^◌, ◌≤◌, ◌<◌, ◌≡◌, ◌≢◌, List, [], ◌∷◌, ◌++◌, leb, true, false, some, err,
  Outcome, sym, subst, arith, Bool-cases, inl, inr, refl, ◌⊎◌, ok, none, overflow_error, Elem,
}
use lemma_xperiment.Holdout.Derive.{
  Bytes, Attempt, interval, hits, excluded, window_size, candidate, derive_from, derive, any_near,
  near, margin,
}

pub List-cases : (xs : List ℕ) → (xs ≡ []) ⊎ ((x : ℕ) × (rest : List ℕ) × (xs ≡ x ∷ rest))
List-cases [] = inl refl
List-cases (x ∷ xs) = inr (x, xs, refl)

pub hits_first :
    (window xs : List ℕ) (x : ℕ) (rest : List ℕ)
    → hits window xs ≡ x ∷ rest
    → Elem x xs × (any_near x window ≡ true)
unfolding hits
hits_first window [] x rest h = cc
hits_first window (y ∷ ys) x rest h = elim (Bool-cases (any_near y window)) [
  | inl close ↦
      let same : y ≡ x = ground arith in
      (inl (sym same), subst (λ t. any_near t window ≡ true) same close)
  | inr far ↦ let (m, c) = hits_first window ys x rest (ground arith) in (inr m, c)
]

any_near_close :
    (x start n : ℕ)
    → any_near x (interval start n) ≡ true
    → (b : ℕ) × (start ≤ b) × (b < start + n) × (near x b ≡ true)
unfolding any_near interval
any_near_close x start zero h = cc
any_near_close x start (suc n) h = elim (Bool-cases (near x start)) [
  | inl close ↦ (start, omega arith, omega arith, close)
  | inr far ↦
      let (b, low, high, close) = any_near_close x (start + 1) n (rw far at h) in
      (b, omega arith, omega arith, close)
]

-- A block of the window from `start` is within the margin of an executed block.
pub record IsTooClose (start : ℕ) : Type 0 where
  pub executed : ℕ
  pub block : ℕ
  pub listed : Elem executed excluded
  pub from : start ≤ block
  pub to : block < start + window_size
  pub above : block ≤ executed + margin
  pub beneath : executed ≤ block + margin

hits-IsTooClose : (start : ℕ) → hits (interval start window_size) excluded ≢ [] → IsTooClose start
unfolding near
hits-IsTooClose start some_hit = elim (List-cases (hits (interval start window_size) excluded)) [
  | inl clear ↦ absurd (some_hit clear)
  | inr (x, rest, hit) ↦
      let (m, near_window) = hits_first (interval start window_size) excluded x rest hit in
      let (b, low, high, close) = any_near_close x start window_size near_window in
      record {
        executed = x;
        block = b;
        listed = m;
        from = low;
        to = high;
        above = ground arith;
        beneath = ground arith;
      }
]

module _ (sha256 : Bytes → Bytes) (salt : Bytes) where
  -- The three ways of one round.
  pub round_overflow :
      (fuel k : ℕ) (attempts : List Attempt)
      → leb (2 ^ 32) k ≡ true
      → derive_from sha256 salt (suc fuel) k attempts ≡ err overflow_error
  unfolding derive_from
  round_overflow fuel k attempts over = ground arith

  pub round_accept :
      (fuel k : ℕ) (attempts : List Attempt)
      → leb (2 ^ 32) k ≡ false
      → hits (interval (candidate sha256 salt k) window_size) excluded ≡ []
      → derive_from sha256 salt (suc fuel) k attempts
        ≡ ok (
          attempts ++ record { k = k; start = candidate sha256 salt k; rejected = none } ∷ [],
          candidate sha256 salt k,
        )
  unfolding derive_from
  round_accept fuel k attempts fits clear = ground arith

  pub round_reject :
      (fuel k : ℕ) (attempts : List Attempt) (x : ℕ) (rest : List ℕ)
      → leb (2 ^ 32) k ≡ false
      → hits (interval (candidate sha256 salt k) window_size) excluded ≡ x ∷ rest
      → derive_from sha256 salt (suc fuel) k attempts
        ≡ derive_from sha256 salt fuel
            (k + 1)
            (attempts ++ record { k = k; start = candidate sha256 salt k; rejected = some x } ∷ [])
  unfolding derive_from
  round_reject fuel k attempts x rest fits hit = ground arith

  -- Every counter from `k` on is rejected, up to the largest of four bytes.
  AllRejected : ℕ → Type 0
  AllRejected k =
      (j : ℕ)
      → k ≤ j
      → j < 2 ^ 32
      → hits (interval (candidate sha256 salt j) window_size) excluded ≢ []

  Ends : ℕ → Outcome (List Attempt × ℕ) → Type 0
  Ends k r = ((out : List Attempt × ℕ) × (r ≡ ok out)) ⊎ ((r ≡ err overflow_error) × AllRejected k)

  Ends-later :
      (k x : ℕ) (rest : List ℕ) (r : Outcome (List Attempt × ℕ))
      → hits (interval (candidate sha256 salt k) window_size) excluded ≡ x ∷ rest
      → Ends (k + 1) r
      → Ends k r
  unfolding Ends AllRejected
  Ends-later k x rest r hit (inl found) = inl found
  Ends-later k x rest r hit (inr (over, later)) = inr (over, all)
    where
      all :
          (j : ℕ)
          → k ≤ j
          → j < 2 ^ 32
          → hits (interval (candidate sha256 salt j) window_size) excluded ≢ []
      all j low high = elim (Bool-cases (leb (k + 1) j)) [
        | inl above ↦ later j (ground arith) high
        | inr here ↦
            let same : j ≡ k = ground arith in
            λ none_hit.
              let clear : hits (interval (candidate sha256 salt k) window_size) excluded ≡ [] =
                rw same at none_hit in
              cc
      ]

  derive_from-Ends :
      (fuel k : ℕ) (attempts : List Attempt)
      → k ≤ 2 ^ 32
      → 2 ^ 32 < k + fuel
      → Ends k (derive_from sha256 salt fuel k attempts)
  unfolding Ends AllRejected
  derive_from-Ends zero k attempts small enough = absurd (omega arith)
  derive_from-Ends (suc fuel) k attempts small enough = elim (Bool-cases (leb (2 ^ 32) k)) [
    | inl over ↦
        inr (round_overflow fuel k attempts over, λ j low high. absurd (past over j low high))
    | inr fits ↦
        elim (List-cases (hits (interval (candidate sha256 salt k) window_size) excluded)) [
          | inl clear ↦ inl (_, round_accept fuel k attempts fits clear)
          | inr (x, rest, hit) ↦ Ends-later k x rest _ hit (
              subst (Ends (k + 1)) (sym (round_reject fuel k attempts x rest fits hit))
                (derive_from-Ends fuel (k + 1) _ (below fits) (omega arith)))
        ]
  ]
    where
      below : leb (2 ^ 32) k ≡ false → k + 1 ≤ 2 ^ 32
      below fits = ground arith

      past : leb (2 ^ 32) k ≡ true → (j : ℕ) → k ≤ j → j < 2 ^ 32 → ⊥
      past over j low high = ground arith

  -- Whatever the hash and the salt, the derivation returns a draw, or it raises the OverflowError of
  -- a counter that no longer fits in four bytes, and then each of the windows that the 2 ^ 32 counters
  -- draw has a block within the margin of an executed block.
  pub derive_ends :
      ((out : List Attempt × ℕ) × (derive sha256 salt ≡ ok out))
      ⊎ ((derive sha256 salt ≡ err overflow_error)
          × ((k : ℕ) → k < 2 ^ 32 → IsTooClose (candidate sha256 salt k)))
  unfolding derive Ends AllRejected
  derive_ends = elim (derive_from-Ends (2 ^ 32 + 1) 0 [] (omega arith) (omega arith)) [
    | inl found ↦ inl found
    | inr (over, all) ↦ inr (over, λ k small. hits-IsTooClose _ (all k (omega arith) small))
  ]
