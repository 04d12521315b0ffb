-- ===== src/Holdout/Derive/Accepted.antt =====
-- What an accepted window is: inside the range, clear of every executed block, and the first draw
-- that is.
use lemma_xperiment.Common.{
  ℕ, zero, suc, ◌+◌, ◌^◌, ◌≤◌, ◌<◌, ◌≡◌, ◌∙◌, sym, subst, refl, true, false, List, [], ◌∷◌, ◌++◌,
  none, some, leb, ok, arith, Bool-cases, ◌⊎◌, inl, inr, Elem,
}
use mathlib.Core.List.{append_assoc}
use lemma_xperiment.Holdout.Derive.{
  Bytes, Attempt, range_low, range_high, margin, interval, near, any_near, hits, excluded,
  window_size, candidate, derive_from, derive,
}
use lemma_xperiment.Holdout.Derive.Bounds.{
  List-cases, round_accept, round_reject, round_overflow, hits_first,
}

any_near_clear :
    (x start n b : ℕ)
    → any_near x (interval start n) ≡ false
    → start ≤ b
    → b < start + n
    → near x b ≡ false
unfolding any_near interval
any_near_clear x start zero b h low high = absurd (omega arith)
any_near_clear x start (suc n) b h low high = elim (Bool-cases (leb b start)) [
  | inl first ↦
      let same : start ≡ b = ground arith in subst (λ t. near x t ≡ false) same (ground arith)
  | inr later ↦ any_near_clear x (start + 1) n b (ground arith) (ground arith) (omega arith)
]

hits_clear :
    (window xs : List ℕ) (x : ℕ) → hits window xs ≡ [] → Elem x xs → any_near x window ≡ false
unfolding hits
hits_clear window [] x h m = absurd m
hits_clear window (y ∷ ys) x h (inl e) =
    subst (λ t. any_near t window ≡ false) (sym e) (ground arith)
hits_clear window (y ∷ ys) x h (inr m) = hits_clear window ys x (ground arith) m

-- `b` and `x` are more than the margin apart.
abbrev pub IsFar : ℕ → ℕ → Type 0
IsFar x b = (x + margin < b) ⊎ (b + margin < x)

near-IsFar : (x b : ℕ) → near x b ≡ false → IsFar x b
unfolding near
near-IsFar x b h = ground arith

-- An excluded block that is too close to some block of the window.
pub record IsHit (start x : ℕ) : Type 0 where
  pub listed : Elem x excluded
  pub close : any_near x (interval start window_size) ≡ true

module _ (sha256 : Bytes → Bytes) (salt : Bytes) where
  -- The draws from the `k`th on: each is rejected for an executed block near its window, up to the
  -- last, whose window is clear.
  abbrev pub IsTrail : ℕ → ℕ → List Attempt → Type 0
  IsTrail k start [] = ⊥
  IsTrail k start (a ∷ []) =
      (a ≡ record { k = k; start = start; rejected = none })
      × (start ≡ candidate sha256 salt k)
      × (hits (interval start window_size) excluded ≡ [])
  IsTrail k start (a ∷ b ∷ rest) =
      ((x : ℕ) × (a ≡ record { k = k; start = candidate sha256 salt k; rejected = some x })
        × IsHit (candidate sha256 salt k) x)
      × IsTrail (k + 1) start (b ∷ rest)

  IsTrail-cons :
      (k start x : ℕ) (trail : List Attempt)
      → IsHit (candidate sha256 salt k) x
      → IsTrail (k + 1) start trail
      → IsTrail k start
          (record { k = k; start = candidate sha256 salt k; rejected = some x } ∷ trail)
  IsTrail-cons k start x [] hit t = absurd t
  IsTrail-cons k start x (b ∷ rest) hit t = ((x, refl, hit), t)

  derive_from-IsTrail :
      (fuel k : ℕ) (before attempts : List Attempt) (start : ℕ)
      → derive_from sha256 salt fuel k before ≡ ok (attempts, start)
      → (trail : List Attempt) × (attempts ≡ before ++ trail) × IsTrail k start trail
  unfolding derive_from
  derive_from-IsTrail zero k before attempts start h = cc
  derive_from-IsTrail (suc fuel) k before attempts start h = elim (Bool-cases (leb (2 ^ 32) k)) [
    | inl over ↦ absurd (cc (round_overflow sha256 salt fuel k before over))
    | inr fits ↦
        elim (List-cases (hits (interval (candidate sha256 salt k) window_size) excluded)) [
          | inl clear ↦
              let done = sym (round_accept sha256 salt fuel k before fits clear) ∙ h in
              let same : candidate sha256 salt k ≡ start = cc in
              (
                record { k = k; start = candidate sha256 salt k; rejected = none } ∷ [],
                cc,
                subst
                    (λ s.
                      IsTrail k s
                        (record { k = k; start = candidate sha256 salt k; rejected = none } ∷ []))
                    same (refl, refl, clear),
              )
          | inr (x, rest, hit) ↦
              let a : Attempt = record {
                k = k;
                start = candidate sha256 salt k;
                rejected = some x;
              } in
              let (trail, e, t) =
                derive_from-IsTrail fuel (k + 1) (before ++ a ∷ []) attempts start
                  (sym (round_reject sha256 salt fuel k before x rest fits hit) ∙ h) in
              let (listed, close) =
                hits_first (interval (candidate sha256 salt k) window_size) excluded x rest hit in
              (
                a ∷ trail,
                e ∙ append_assoc before (a ∷ []) trail,
                IsTrail-cons k start x trail (record { listed = listed; close = close }) t,
              )
        ]
  ]

  -- A trail ends in a window that is clear.
  IsTrail-clear :
      (k start : ℕ) (trail : List Attempt)
      → IsTrail k start trail
      → hits (interval start window_size) excluded ≡ []
  IsTrail-clear k start [] t = absurd t
  IsTrail-clear k start (a ∷ []) (_, _, clear) = clear
  IsTrail-clear k start (a ∷ b ∷ rest) (_, t) = IsTrail-clear (k + 1) start (b ∷ rest) t

  IsTrail-candidate :
      (k start : ℕ) (trail : List Attempt)
      → IsTrail k start trail
      → (j : ℕ) × (start ≡ candidate sha256 salt j)
  IsTrail-candidate k start [] t = absurd t
  IsTrail-candidate k start (a ∷ []) (_, e, _) = (k, e)
  IsTrail-candidate k start (a ∷ b ∷ rest) (_, t) = IsTrail-candidate (k + 1) start (b ∷ rest) t

  candidate-range :
      (k : ℕ)
      → (range_low ≤ candidate sha256 salt k)
        × (candidate sha256 salt k + window_size ≤ range_high + 1)
  unfolding candidate
  candidate-range k = omega arith

-- The window that derive accepts: all ten blocks in the range, and each more than the margin away
-- from every executed block.
pub record IsAccepted (start : ℕ) : Type 0 where
  pub low : range_low ≤ start
  pub high : start + window_size ≤ range_high + 1
  pub clear : (b x : ℕ) → start ≤ b → b < start + window_size → Elem x excluded → IsFar x b

-- A derivation that returns has drawn its start from the range so that all ten blocks lie in the
-- range and each is more than 1000 blocks away from every executed block; the list of attempts
-- numbers the draws from 0, names for each draw but the last an executed block within 1000 of its
-- window, and ends with the accepted start.
pub derive-IsAccepted :
    (sha256 : Bytes → Bytes) (salt : Bytes) (attempts : List Attempt) (start : ℕ)
    → derive sha256 salt ≡ ok (attempts, start)
    → IsAccepted start × IsTrail sha256 salt 0 start attempts
unfolding derive
derive-IsAccepted sha256 salt attempts start h =
    let (trail, e, t) = derive_from-IsTrail sha256 salt (2 ^ 32 + 1) 0 [] attempts start h in
    let clear = IsTrail-clear sha256 salt 0 start trail t in
    let (j, drawn) = IsTrail-candidate sha256 salt 0 start trail t in
    let (low, high) = candidate-range sha256 salt j in
    (
      record {
        low = rw (← drawn) at low;
        high = rw (← drawn) at high;
        clear = λ b x above below m. near-IsFar x b (
            any_near_clear x start window_size b
              (hits_clear (interval start window_size) excluded x clear m) above below);
      },
      subst (IsTrail sha256 salt 0 start) (sym e) t,
    )
