-- ===== src/Prelude/Equality.antt =====
-- Equality tests as an interface: the model's form of a derived `PartialEq`, `Eq` and `Hash`.
use Prim.Native.Nat.{ℕ}
use Prim.Native.String.{String}
use mathlib.Core.Path.{◌≡◌, refl}
use mathlib.Core.Logic.{◌↔◌}
use mathlib.Core.Bool.{Bool, true, false}
use mathlib.Core.Option.{Option, none, some}
use native.Mathlib.Omega.{arith}
use text.Mathlib.Text.{◌==◌ as str_eq}
use text.Mathlib.TextEquality.{eq_iff}
use crustydb_labs_cs378_spri.Prelude.Tests.{nat_beq, nat_beq_iff}

-- An instance is a test with the proof that it decides equality.
pub record Eq {ℓ} (T : Type ℓ) : Type ℓ where
  pub beq : (left right : T) → Bool
  pub beq_iff : (left right : T) → (beq left right ≡ true) ↔ (left ≡ right)

instance abbrev pub string_eq : Eq String
string_eq = record { beq = str_eq; beq_iff = eq_iff }

module _ {ℓ} {T : Type ℓ} ⦃eq : Eq T⦄ where
  infix 50 ◌==◌
  abbrev pub ◌==◌ : T → T → Bool
  left == right = eq.beq left right

  pub beq_refl : (t : T) → (t == t) ≡ true
  beq_refl t = (eq.beq_iff t t).1 refl

  abbrev pub option_beq : Option T → Option T → Bool
  option_beq none none = true
  option_beq none (some b) = false
  option_beq (some a) none = false
  option_beq (some a) (some b) = a == b

  pub option_beq_iff : (a b : Option T) → (option_beq a b ≡ true) ↔ (a ≡ b)
  option_beq_iff none none = (λ _. refl, λ _. refl)
  option_beq_iff none (some b) = (λ h. cc, λ h. cc)
  option_beq_iff (some a) none = (λ h. cc, λ h. cc)
  option_beq_iff (some a) (some b) =
      (λ h. ground (arith, (eq.beq_iff a b).0 h), λ h. (eq.beq_iff a b).1 (ground arith))

instance abbrev pub nat_eq : Eq ℕ
nat_eq = record { beq = nat_beq; beq_iff = nat_beq_iff }

-- An optional value, compared as `Option` derives it.
instance abbrev pub option_eq {ℓ} : {T : Type ℓ} ⦃eq : Eq T⦄ → Eq (Option T)
option_eq = record { beq = option_beq; beq_iff = option_beq_iff }
