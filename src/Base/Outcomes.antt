-- ===== src/Base/Outcomes.antt =====
-- What a call of Go code that may panic gives: its value, or the panic.
use mathlib.Core.Path.{◌≡◌, refl}

-- The run-time panics that the modelled code can raise, and the exit of `logrus.Fatal`.
pub data Panic : Type 0 where
  close_of_closed index_out_of_range nil_dereference negative_bit_index explicit_panic
        database_error fatal division_by_zero :
      Panic

pub data Outcome {ℓ} (A : Type ℓ) : Type ℓ where
  panic : Panic → Outcome A
  ok : A → Outcome A

infixl 5 ◌>>=◌
abbrev pub ◌>>=◌ {ℓ κ} : {X : Type ℓ} {Y : Type κ} → Outcome X → (X → Outcome Y) → Outcome Y
panic cause >>= next = panic cause
ok x >>= next = next x

-- A chain returns only if its first part does.
pub >>=-eq-ok {ℓ κ} :
    {X : Type ℓ} {Y : Type κ} (o : Outcome X) (next : X → Outcome Y) {y : Y}
    → (o >>= next) ≡ ok y
    → (x : X) × (o ≡ ok x) × (next x ≡ ok y)
>>=-eq-ok (panic cause) next e = absurd (cc)
>>=-eq-ok (ok x) next e = (x, refl, e)
