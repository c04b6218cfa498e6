-- ===== src/Prelude/Results.antt =====
-- What a call of the program comes to: a value, an error that is returned, or a panic.
-- The errors are those of common/src/error.rs; a message is kept before it is formatted.
use Prim.Native.Nat.{ℕ}
use mathlib.Core.Path.{◌≡◌, refl}
use mathlib.Core.Logic.{◌⊎◌, inl, inr}
use mathlib.Core.Option.{Option, none, some}
use Prim.Native.String.{String}

-- `CrustyError`, with each message as a text.
pub data CrustyError : Type 0 where
  io_error : String → CrustyError
  serialization_error : String → CrustyError
  crusty_error : String → CrustyError
  validation_error : String → CrustyError
  execution_error : String → CrustyError
  transaction_not_active : CrustyError
  invalid_mutation_error : String → CrustyError
  transaction_rollback : ℕ → CrustyError

pub data Outcome {ℓ} (A : Type ℓ) : Type ℓ where
  panic : Outcome A
  err : CrustyError → Outcome A
  ok : A → Outcome A

-- `unwrap` of an `Option`.
abbrev pub unwrap {ℓ} : {A : Type ℓ} → Option A → Outcome A
unwrap none = panic
unwrap (some a) = ok a

-- `unwrap` of a `Result`.
abbrev pub unwrap_result {ℓ} : {A : Type ℓ} → Outcome A → Outcome A
unwrap_result (ok a) = ok a
unwrap_result (err e) = panic
unwrap_result panic = panic

-- What follows a call is reached only from `ok`.
infixl 5 ◌>>=◌ ◌>>◌
abbrev pub ◌>>=◌ {ℓ κ} : {V : Type ℓ} {W : Type κ} → Outcome V → (V → Outcome W) → Outcome W
panic >>= next = panic
err e >>= next = err e
ok v >>= next = next v

abbrev pub ◌>>◌ {ℓ κ} : {V : Type ℓ} {W : Type κ} → Outcome V → Outcome W → Outcome W
first >> second = first >>= (λ _. second)

-- A chain of two calls that comes to a value has a value in the middle.
pub >>=-middle {ℓ κ} :
    {V : Type ℓ} {W : Type κ} (first : Outcome V) (next : V → Outcome W) {w : W}
    → (first >>= next) ≡ ok w
    → (v : V) × (first ≡ ok v) × (next v ≡ ok w)
>>=-middle panic next e = cc
>>=-middle (err x) next e = cc
>>=-middle (ok v) next e = (v, refl, e)

pub >>=-ok {ℓ κ} :
    {V : Type ℓ} {W : Type κ} (first : Outcome V) (next : V → Outcome W) {v : V} {out : Outcome W}
    → first ≡ ok v
    → next v ≡ out
    → (first >>= next) ≡ out
>>=-ok first next e f = rw (e) f

pub Outcome-cases {ℓ} :
    {A : Type ℓ} (m : Outcome A)
    → ((a : A) × (m ≡ ok a)) ⊎ (((e : CrustyError) × (m ≡ err e)) ⊎ (m ≡ panic))
Outcome-cases (ok a) = inl (a, refl)
Outcome-cases (err e) = inr (inl (e, refl))
Outcome-cases panic = inr (inr refl)

pub ok_inj {ℓ} : {A : Type ℓ} (a b : A) → ok a ≡ ok b → a ≡ b
ok_inj a b h = cc
