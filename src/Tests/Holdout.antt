-- ===== src/Tests/Holdout.antt =====
-- Tests of evaluation/holdout/holdout.py.
use lemma_xperiment.Common.{
  ℕ, zero, suc, ◌≡◌, refl, List, [], ◌∷◌, none, some, ok, err, if◌then◌else◌, ltb, ◌⊎◌, ◌^◌, ◌<◌,
  overflow_error,
}
use lemma_xperiment.Blocks.{Field, Header, Raw, eq_header, eq_fields}
use lemma_xperiment.Holdout.Derive.{
  Bytes, Attempt, candidate, derive_from, derive, near, any_near, hits, interval, from_bytes,
  to_bytes4, domain, codes,
}
use lemma_xperiment.Holdout.Derive.Bounds.{IsTooClose, derive_ends}
use lemma_xperiment.Holdout.Derive.Accepted.{IsAccepted, IsTrail, derive-IsAccepted}
use lemma_xperiment.Holdout.Chain.{
  result, network_error, at_block, Source, Net, rpc, rpc_from, kept, header, agreed_header,
}
use lemma_xperiment.Holdout.Chain.Agreement.{agreed_header-both}

derive_ends_example :
    ((out : List Attempt × ℕ) × (derive (λ b. 5 ∷ []) (1 ∷ []) ≡ ok out))
    ⊎ ((derive (λ b. 5 ∷ []) (1 ∷ []) ≡ err overflow_error)
        × ((k : ℕ) → k < 2 ^ 32 → IsTooClose (candidate (λ b. 5 ∷ []) (1 ∷ []) k)))
derive_ends_example = derive_ends (λ b. 5 ∷ []) (1 ∷ [])

abbrev last_of : Bytes → ℕ
last_of [] = 0
last_of (x ∷ []) = x
last_of (x ∷ y ∷ b) = last_of (y ∷ b)

abbrev rigged : ℕ → Bytes
rigged zero = 17 ∷ 231 ∷ 165 ∷ []
rigged (suc n) = 5 ∷ []

-- A hash that puts the first draw beside block 20600000.
abbrev small_hash : Bytes → Bytes
small_hash b = rigged (last_of b)

abbrev trail : List Attempt
trail =
    record { k = 0; start = 20_600_000; rejected = some 20_600_000 }
    ∷ record { k = 1; start = 19_426_592; rejected = none }
    ∷ []

derived : derive small_hash (7 ∷ []) ≡ ok (trail, 19_426_592)
unfolding derive derive_from candidate near any_near hits interval from_bytes to_bytes4 domain codes
derived = refl

derive-IsAccepted_example : IsAccepted 19_426_592 × IsTrail small_hash (7 ∷ []) 0 19_426_592 trail
derive-IsAccepted_example = derive-IsAccepted small_hash (7 ∷ []) trail 19_426_592 derived

abbrev same_block : Raw
same_block = record { quantity_of = λ f. some 7; text_of = λ f. some (1 ∷ []); transactions = 2 }

abbrev agreeing : Net
agreeing = record {
  archive = some (λ which attempt. result (some same_block));
  public = λ which attempt. if ltb attempt 2 then network_error else result (some same_block);
}

agreed_header-both_example :
    (archive : Source) × (agreeing.archive ≡ some archive)
    × (header archive (at_block 7) ≡ ok (kept same_block))
    × ((g : Header) × (header agreeing.public (at_block 7) ≡ ok g)
        × ((f : Field) → kept same_block f ≡ g f))
unfolding agreed_header header rpc rpc_from eq_header eq_fields kept
agreed_header-both_example = agreed_header-both agreeing (at_block 7) (kept same_block) refl
