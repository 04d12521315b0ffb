-- ===== src/Blocks.antt =====
-- Block headers as the scripts read them from an endpoint's JSON: evaluation/holdout/holdout.py
-- (FIELDS, header) and reuse/input.py (fields). A hexadecimal quantity is its number, and a hash
-- is its bytes.
use lemma_xperiment.Common.{
  ℕ, ◌≡◌, refl, ap, Bool, true, false, ◌&&◌, List, [], ◌∷◌, Option, none, some, ◌==◌, eq_list,
  eq_list→eq, eq_list_refl, arith, All,
}

pub data Field : Type 0 where
  number hash parent_hash state_root transactions_root receipts_root withdrawals_root timestamp
        gas_used gas_limit base_fee_per_gas blob_gas_used excess_blob_gas transaction_count :
      Field

-- A JSON null is `none`.
pub data Value : Type 0 where
  quantity : Option ℕ → Value
  text : Option (List ℕ) → Value

-- A block as the endpoint returns it; a missing key and a null read alike.
pub record Raw : Type 0 where
  pub quantity_of : Field → Option ℕ
  pub text_of : Field → Option (List ℕ)
  pub transactions : ℕ

abbrev pub Header : Type 0
Header = Field → Value

abbrev pub fields : List Field
fields =
    number ∷ hash ∷ parent_hash ∷ state_root ∷ transactions_root ∷ receipts_root ∷ withdrawals_root
    ∷ timestamp ∷ gas_used ∷ gas_limit ∷ base_fee_per_gas ∷ blob_gas_used ∷ excess_blob_gas
    ∷ transaction_count ∷ []

abbrev pub is_quantity : Field → Bool
is_quantity number = true
is_quantity timestamp = true
is_quantity gas_used = true
is_quantity gas_limit = true
is_quantity base_fee_per_gas = true
is_quantity blob_gas_used = true
is_quantity excess_blob_gas = true
is_quantity _ = false

abbrev pub eq_value : Value → Value → Bool
eq_value (quantity none) (quantity none) = true
eq_value (quantity (some m)) (quantity (some n)) = m == n
eq_value (text none) (text none) = true
eq_value (text (some a)) (text (some b)) = eq_list a b
eq_value _ _ = false

-- `==` of two dictionaries with the keys of FIELDS.
unfoldable pub eq_fields : List Field → Header → Header → Bool
eq_fields [] h g = true
eq_fields (f ∷ fs) h g = eq_value (h f) (g f) && eq_fields fs h g

unfoldable pub eq_header : Header → Header → Bool
unfolding eq_fields
eq_header h g = eq_fields fields h g

eq_value→eq : (v w : Value) → eq_value v w ≡ true → v ≡ w
eq_value→eq (quantity none) (quantity none) h = refl
eq_value→eq (quantity none) (quantity (some n)) h = cc
eq_value→eq (quantity (some m)) (quantity none) h = cc
eq_value→eq (quantity (some m)) (quantity (some n)) h = ground arith
eq_value→eq (quantity v) (text w) h = ground arith
eq_value→eq (text v) (quantity w) h = ground arith
eq_value→eq (text none) (text none) h = refl
eq_value→eq (text none) (text (some b)) h = cc
eq_value→eq (text (some a)) (text none) h = cc
eq_value→eq (text (some a)) (text (some b)) h = ap (λ t. text (some t)) (eq_list→eq a b h)

eq_value_refl : (v : Value) → eq_value v v ≡ true
eq_value_refl (quantity none) = refl
eq_value_refl (quantity (some n)) = ground arith
eq_value_refl (text none) = refl
eq_value_refl (text (some a)) = eq_list_refl a

eq_fields→eq : (fs : List Field) (h g : Header) → eq_fields fs h g ≡ true → All (λ f. h f ≡ g f) fs
unfolding eq_fields
eq_fields→eq [] h g e = tt
eq_fields→eq (f ∷ fs) h g e =
    (eq_value→eq (h f) (g f) (ground arith), eq_fields→eq fs h g (ground arith))

pub eq_header→eq : (h g : Header) (f : Field) → eq_header h g ≡ true → h f ≡ g f
unfolding eq_header
eq_header→eq h g f e = pick (eq_fields→eq fields h g e) f
  where
    pick : All (λ f. h f ≡ g f) fields → (f : Field) → h f ≡ g f
    pick all number = all.0
    pick all hash = all.1.0
    pick all parent_hash = all.1.1.0
    pick all state_root = all.1.1.1.0
    pick all transactions_root = all.1.1.1.1.0
    pick all receipts_root = all.1.1.1.1.1.0
    pick all withdrawals_root = all.1.1.1.1.1.1.0
    pick all timestamp = all.1.1.1.1.1.1.1.0
    pick all gas_used = all.1.1.1.1.1.1.1.1.0
    pick all gas_limit = all.1.1.1.1.1.1.1.1.1.0
    pick all base_fee_per_gas = all.1.1.1.1.1.1.1.1.1.1.0
    pick all blob_gas_used = all.1.1.1.1.1.1.1.1.1.1.1.0
    pick all excess_blob_gas = all.1.1.1.1.1.1.1.1.1.1.1.1.0
    pick all transaction_count = all.1.1.1.1.1.1.1.1.1.1.1.1.1.0

pub eq_header_refl : (h : Header) → eq_header h h ≡ true
unfolding eq_header
eq_header_refl h = go fields
  where
    go : (fs : List Field) → eq_fields fs h h ≡ true
    go [] = refl
    go (f ∷ fs) = ground (arith, eq_value_refl (h f), go fs)
