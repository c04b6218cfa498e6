-- ===== src/Expr/Field/Order.antt =====
-- The derived equality of values.
use crustydb_labs_cs378_spri.Prelude.{ℕ, ◌≡◌, ◌↔◌, refl, true, List, [], ◌∷◌, nat_eq, arith}
use crustydb_labs_cs378_spri.Expr.Field.{
  Field, int, string, decimal, date, bool, null, eq_bytes, eq_field,
}

eq_bytes_iff : (s t : List ℕ) → (eq_bytes s t ≡ true) ↔ (s ≡ t)
unfolding eq_bytes
eq_bytes_iff [] [] = (λ h. refl, λ h. refl)
eq_bytes_iff [] (b ∷ t) = (λ h. cc, λ h. cc)
eq_bytes_iff (a ∷ s) [] = (λ h. cc, λ h. cc)
eq_bytes_iff (a ∷ s) (b ∷ t) =
    (λ h. ground (arith, eq_bytes_iff s t), λ h. ground (arith, eq_bytes_iff s t))

-- The test of equality holds of two values exactly if they are equal.
pub eq_field_iff : (f g : Field) → (eq_field f g ≡ true) ↔ (f ≡ g)
unfolding eq_field
eq_field_iff (int a) (int a') = (λ h. ground arith, λ h. ground arith)
eq_field_iff (int a) (string s') = (λ h. cc, λ h. cc)
eq_field_iff (int a) (decimal a' s') = (λ h. cc, λ h. cc)
eq_field_iff (int a) (date a') = (λ h. cc, λ h. cc)
eq_field_iff (int a) (bool a') = (λ h. cc, λ h. cc)
eq_field_iff (int a) null = (λ h. cc, λ h. cc)
eq_field_iff (string s) (int a') = (λ h. cc, λ h. cc)
eq_field_iff (string s) (string s') =
    (λ h. ground (arith, eq_bytes_iff s s'), λ h. ground (arith, eq_bytes_iff s s'))
eq_field_iff (string s) (decimal a' s') = (λ h. cc, λ h. cc)
eq_field_iff (string s) (date a') = (λ h. cc, λ h. cc)
eq_field_iff (string s) (bool a') = (λ h. cc, λ h. cc)
eq_field_iff (string s) null = (λ h. cc, λ h. cc)
eq_field_iff (decimal a s) (int a') = (λ h. cc, λ h. cc)
eq_field_iff (decimal a s) (string s') = (λ h. cc, λ h. cc)
eq_field_iff (decimal a s) (decimal a' s') = (λ h. ground arith, λ h. ground arith)
eq_field_iff (decimal a s) (date a') = (λ h. cc, λ h. cc)
eq_field_iff (decimal a s) (bool a') = (λ h. cc, λ h. cc)
eq_field_iff (decimal a s) null = (λ h. cc, λ h. cc)
eq_field_iff (date a) (int a') = (λ h. cc, λ h. cc)
eq_field_iff (date a) (string s') = (λ h. cc, λ h. cc)
eq_field_iff (date a) (decimal a' s') = (λ h. cc, λ h. cc)
eq_field_iff (date a) (date a') = (λ h. ground arith, λ h. ground arith)
eq_field_iff (date a) (bool a') = (λ h. cc, λ h. cc)
eq_field_iff (date a) null = (λ h. cc, λ h. cc)
eq_field_iff (bool a) (int a') = (λ h. cc, λ h. cc)
eq_field_iff (bool a) (string s') = (λ h. cc, λ h. cc)
eq_field_iff (bool a) (decimal a' s') = (λ h. cc, λ h. cc)
eq_field_iff (bool a) (date a') = (λ h. cc, λ h. cc)
eq_field_iff (bool a) (bool a') = (λ h. ground arith, λ h. ground arith)
eq_field_iff (bool a) null = (λ h. cc, λ h. cc)
eq_field_iff null (int a') = (λ h. cc, λ h. cc)
eq_field_iff null (string s') = (λ h. cc, λ h. cc)
eq_field_iff null (decimal a' s') = (λ h. cc, λ h. cc)
eq_field_iff null (date a') = (λ h. cc, λ h. cc)
eq_field_iff null (bool a') = (λ h. cc, λ h. cc)
eq_field_iff null null = (λ h. refl, λ h. refl)
