-- ===== src/Common/Faults.antt =====
-- What a Python call ends in: a value, or an exception. `out_of_fuel` is no behaviour of the
-- source: it marks a model that ran out of its bound, and is proved not to occur.
use mathlib.Core.Path.{◌≡◌, refl}
use mathlib.Core.Logic.{◌⊎◌, inl, inr}
use mathlib.Core.Bool.{Bool, true, false}
use mathlib.Core.Option.{Option, none, some}
use native.Mathlib.Omega.{arith}

pub data Fault : Type 0 where
  key_error index_error type_error value_error assertion_error system_exit overflow_error http_error
        file_error import_error zero_division_error :
      Fault
  out_of_fuel : Fault

pub data Outcome {ℓ} (A : Type ℓ) : Type ℓ where
  ok : A → Outcome A
  err : Fault → Outcome A

infixl 5 ◌>>=◌ ◌>>◌
abbrev pub ◌>>=◌ {ℓ κ} : {A : Type ℓ} {B : Type κ} → Outcome A → (A → Outcome B) → Outcome B
ok a >>= f = f a
err e >>= f = err e

abbrev pub ◌>>◌ {ℓ} : {B : Type ℓ} → Outcome (Unit {0}) → Outcome B → Outcome B
m >> k = m >>= λ _. k

-- `assert test` and `if not test: raise`.
abbrev pub require : Bool → Fault → Outcome (Unit {0})
require true e = ok tt
require false e = err e

-- A lookup that raises.
abbrev pub or_raise {ℓ} : {A : Type ℓ} → Option A → Fault → Outcome A
or_raise none e = err e
or_raise (some a) e = ok a

pub >>=-eq-ok {ℓ κ} :
    {A : Type ℓ} {B : Type κ} {result : B} (call : Outcome A) (rest : A → Outcome B)
    → (call >>= rest) ≡ ok result
    → (value : A) × (call ≡ ok value) × (rest value ≡ ok result)
>>=-eq-ok (ok value) rest done = (value, refl, done)
>>=-eq-ok (err fault) rest done = cc

pub Outcome-cases {ℓ} :
    {A : Type ℓ} (m : Outcome A) → ((a : A) × (m ≡ ok a)) ⊎ ((e : Fault) × (m ≡ err e))
Outcome-cases (ok a) = inl (a, refl)
Outcome-cases (err e) = inr (e, refl)

pub or_raise-eq-ok {ℓ} :
    {A : Type ℓ} (o : Option A) (e : Fault) {a : A} → or_raise o e ≡ ok a → o ≡ some a
or_raise-eq-ok none e h = cc
or_raise-eq-ok (some b) e h = cc

pub require-eq-ok : (b : Bool) (e : Fault) {u : Unit {0}} → require b e ≡ ok u → b ≡ true
require-eq-ok true e h = refl
require-eq-ok false e h = cc

-- An exception passes through at any result type.
pub err-cast {ℓ κ} :
    {A : Type ℓ} {B : Type κ} {m : Outcome A} {e f : Fault}
    → m ≡ err e
    → ◌≡◌ {A = Outcome B} (err e) (err f)
    → m ≡ err f
err-cast h k = ground arith

-- The same, for a chain of calls: the value is a variable of what follows.
pub >>=-elim {ℓ κ μ} :
    {A : Type ℓ} {B : Type κ} {C : Type μ} {result : B} (call : Outcome A) (rest : A → Outcome B)
    → (call >>= rest) ≡ ok result
    → ((value : A) → call ≡ ok value → rest value ≡ ok result → C)
    → C
>>=-elim (ok value) rest done next = next value refl done
>>=-elim (err fault) rest done next = cc

-- So is a fault: the call fails with it, or the rest does.
pub >>=-elim-err {ℓ κ μ} :
    {A : Type ℓ} {B : Type κ} {C : Type μ} {fault : Fault} (call : Outcome A) (rest : A → Outcome B)
    → (call >>= rest) ≡ err fault
    → (call ≡ err fault → C)
    → ((value : A) → call ≡ ok value → rest value ≡ err fault → C)
    → C
>>=-elim-err (ok value) rest failed here later = later value refl failed
>>=-elim-err (err e) rest failed here later = here (err-cast refl failed)

pub err_inj {ℓ} : {A : Type ℓ} {e f : Fault} → ◌≡◌ {A = Outcome A} (err e) (err f) → e ≡ f
err_inj h = cc

pub ok_inj {ℓ} : {A : Type ℓ} {x y : A} → ok x ≡ ok y → x ≡ y
ok_inj h = cc
