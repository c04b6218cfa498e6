-- ===== src/Prelude/Members.antt =====
-- Membership in a vector, its removal and duplicates, by the Boolean tests that the code runs.
use mathlib.Core.Path.{◌≡◌, refl}
use mathlib.Core.Bool.{Bool, false, ◌||◌}
use mathlib.Core.List.{List, [], ◌∷◌, ◌++◌}
use native.Mathlib.Omega.{arith}
use crustydb_labs_cs378_spri.Prelude.Tests.{if◌then◌else◌}
use crustydb_labs_cs378_spri.Prelude.Equality.{Eq, ◌==◌, beq_refl}

module _ {ℓ} {A : Type ℓ} ⦃e : Eq A⦄ where
  unfoldable pub contains : List A → A → Bool
  contains [] a = false
  contains (x ∷ xs) a = x == a || contains xs a

  -- `retain(|&x| x != a)`
  unfoldable pub without : List A → A → List A
  without [] a = []
  without (x ∷ xs) a = if x == a then without xs a else x ∷ without xs a

  -- No element twice.
  abbrev pub Distinct : List A → Type 0
  Distinct [] = Unit {0}
  Distinct (x ∷ xs) = (contains xs x ≡ false) × Distinct xs

  pub contains-snoc :
      (xs : List A) (a b : A) → contains (xs ++ a ∷ []) b ≡ (a == b || contains xs b)
  unfolding contains
  contains-snoc [] a b = ground arith
  contains-snoc (x ∷ xs) a b = ground (arith, contains-snoc xs a b)

  pub contains-without :
      (xs : List A) (a b : A)
      → contains (without xs a) b ≡ (if a == b then false else contains xs b)
  unfolding contains without
  contains-without [] a b = ground arith
  contains-without (x ∷ xs) a b =
      ground (arith, contains-without xs a b, e.beq_iff x a, e.beq_iff x b, e.beq_iff a b)

  pub Distinct-without : (xs : List A) (a : A) → Distinct xs → Distinct (without xs a)
  unfolding without
  Distinct-without [] a d = tt
  Distinct-without (x ∷ xs) a d = ground (arith, Distinct-without xs a d.1, contains-without xs a x)

  pub Distinct-snoc :
      (xs : List A) (a : A) → contains xs a ≡ false → Distinct xs → Distinct (xs ++ a ∷ [])
  unfolding contains
  Distinct-snoc [] a n d = (refl, tt)
  Distinct-snoc (x ∷ xs) a n d =
      ground (arith, Distinct-snoc xs a, contains-snoc xs a x, e.beq_iff x a, e.beq_iff a x)

  -- Removing what is not there changes nothing.
  pub without_absent : (xs : List A) (a : A) → contains xs a ≡ false → without xs a ≡ xs
  unfolding contains without
  without_absent [] a n = refl
  without_absent (x ∷ xs) a n = ground (arith, without_absent xs a)

  pub without_idem : (xs : List A) (a : A) → without (without xs a) a ≡ without xs a
  without_idem xs a =
      without_absent (without xs a) a (rw (contains-without xs a a) (ground (arith, beq_refl a)))
