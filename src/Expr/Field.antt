-- ===== src/Expr/Field.antt =====
-- Field values and their operations: common/src/datatypes.rs and common/src/operation.rs.
-- An `i64` is an integer with its range checked after every operation: out of range is a panic, as in
-- a build with overflow checks. A text is the list of its UTF-8 bytes. Division with rounding is
-- done by the program in `f64`, and is a parameter.
pub mod Order
use crustydb_labs_cs378_spri.Prelude.{
  ℕ, ◌+◌, ◌-◌, ◌/◌, ◌^◌, Bool, true, false, ◌&&◌, ◌||◌, not, List, [], ◌∷◌, ltb, ◌==◌, nat_eq,
  if◌then◌else◌, min, max, Outcome, ok, err, panic, ◌>>=◌, crusty_error,
}
use crustydb_labs_cs378_spri.Prelude.Int.{ℤ, pos, negsuc, sub_ℕ, ◌+ℤ◌, ◌-ℤ◌, ◌*ℤ◌, ltb_ℤ}

pub data MathOp : Type 0 where
  add sub mul div : MathOp

pub data BooleanOp : Type 0 where
  eq neq gt gte lt lte and or : BooleanOp

pub data AggOp : Type 0 where
  avg count max_of min_of sum : AggOp

pub data Field : Type 0 where
  int : ℤ → Field
  string : List ℕ → Field
  decimal : ℤ → ℕ → Field
  date : ℤ → Field
  bool : Bool → Field
  null : Field

-- The value of an operation on `i64`, or the panic of an overflow.
unfoldable pub int64 : ℤ → Outcome ℤ
int64 a = if ltb_ℤ a (negsuc (2 ^ 63 - 1)) || ltb_ℤ (pos (2 ^ 63 - 1)) a then panic else ok a

-- `a * 10i64.pow(n)`
unfoldable pub scale_by : ℤ → ℕ → Outcome ℤ
scale_by a n = do power ← int64 (pos (10 ^ n)); int64 (a *ℤ power)

-- `/` on `i64` rounds towards zero.
unfoldable pub quotient : ℤ → ℤ → ℤ
quotient (pos a) (pos b) = pos (a / b)
quotient (pos a) (negsuc b) = sub_ℕ 0 (a / (b + 1))
quotient (negsuc a) (pos b) = sub_ℕ 0 ((a + 1) / b)
quotient (negsuc a) (negsuc b) = pos ((a + 1) / (b + 1))

abbrev pub is_zero : ℤ → Bool
is_zero (pos n) = n == 0
is_zero (negsuc n) = false

-- Two decimals at the larger of their scales, joined by `op`.
unfoldable pub at_larger_scale : (ℤ → ℤ → ℤ) → ℤ → ℕ → ℤ → ℕ → Outcome Field
at_larger_scale op a s_l b s_r = do
  let res_scale = if ltb s_r s_l then s_l else s_r
  adjusted_a ← scale_by a (res_scale - s_l)
  adjusted_b ← scale_by b (res_scale - s_r)
  whole ← int64 (op adjusted_a adjusted_b)
  ok (decimal whole res_scale)

-- `Add` panics on other operands, where `Sub`, `Mul` and `Div` return an error.
unfoldable pub add_field : Field → Field → Outcome Field
add_field (int a) (int b) = do c ← int64 (a +ℤ b); ok (int c)
add_field (decimal a s_l) (decimal b s_r) = at_larger_scale ◌+ℤ◌ a s_l b s_r
add_field (int a) (decimal b s_r) = do
  adjusted_a ← scale_by a s_r
  c ← int64 (adjusted_a +ℤ b)
  ok (decimal c s_r)
add_field (decimal a s_l) (int b) = do
  adjusted_b ← scale_by b s_l
  c ← int64 (a +ℤ adjusted_b)
  ok (decimal c s_l)
add_field _ _ = panic

unfoldable pub sub_field : Field → Field → Outcome Field
sub_field (int a) (int b) = do c ← int64 (a -ℤ b); ok (int c)
sub_field (decimal a s_l) (decimal b s_r) = at_larger_scale ◌-ℤ◌ a s_l b s_r
sub_field (int a) (decimal b s_r) = do
  adjusted_a ← scale_by a s_r
  c ← int64 (adjusted_a -ℤ b)
  ok (decimal c s_r)
sub_field (decimal a s_l) (int b) = do
  adjusted_b ← scale_by b s_l
  c ← int64 (a -ℤ adjusted_b)
  ok (decimal c s_l)
sub_field _ _ = err (crusty_error "Expected int or decimal")

-- `(a as f64 / b as f64).round() as i64` is the parameter.
module _ (round_div : ℤ → ℤ → ℤ) where
  unfoldable pub mul_field : Field → Field → Outcome Field
  mul_field (int a) (int b) = do c ← int64 (a *ℤ b); ok (int c)
  mul_field (decimal a s_l) (decimal b s_r) = do
    res ← int64 (a *ℤ b)
    power ← int64 (pos (10 ^ min s_l s_r))
    ok (decimal (round_div res power) (max s_l s_r))
  mul_field (int a) (decimal b s_r) = do res ← int64 (a *ℤ b); ok (decimal res s_r)
  mul_field (decimal a s_l) (int b) = do res ← int64 (a *ℤ b); ok (decimal res s_l)
  mul_field _ _ = err (crusty_error "Expected int or decimal")

  unfoldable pub div_decimal : ℤ → ℕ → ℤ → ℕ → Outcome Field
  div_decimal a s_l b s_r = if is_zero b then err (crusty_error "Division by zero") else (do
    let larger_scale = max s_l s_r
    res ← scale_by a (larger_scale - s_l + s_r)
    ok (decimal (round_div res b) larger_scale))

  unfoldable pub div_field : Field → Field → Outcome Field
  div_field (int a) (int b) =
      if is_zero b
      then err (crusty_error "Division by zero")
      else (do c ← int64 (quotient a b); ok (int c))
  div_field (decimal a s_l) (decimal b s_r) = div_decimal a s_l b s_r
  div_field (int a) (decimal b s_r) = div_decimal a 0 b s_r
  div_field (decimal a s_l) (int b) = div_decimal a s_l b 0
  div_field _ _ = err (crusty_error "Expected int or decimal")

  unfoldable pub math_field : MathOp → Field → Field → Outcome Field
  math_field add = add_field
  math_field sub = sub_field
  math_field mul = mul_field
  math_field div = div_field

unfoldable pub and_field : Field → Field → Outcome Field
and_field (bool a) (bool b) = ok (bool (a && b))
and_field _ _ = panic

unfoldable pub or_field : Field → Field → Outcome Field
or_field (bool a) (bool b) = ok (bool (a || b))
or_field _ _ = panic

-- The order of texts, byte by byte.
unfoldable pub lt_bytes : List ℕ → List ℕ → Bool
lt_bytes [] [] = false
lt_bytes [] (b ∷ bs) = true
lt_bytes (a ∷ rest) [] = false
lt_bytes (a ∷ as') (b ∷ bs) = ltb a b || (a == b && lt_bytes as' bs)

-- The place of the variant in the derived order.
abbrev pub rank : Field → ℕ
rank (int a) = 0
rank (string s) = 1
rank (decimal a s) = 2
rank (date d) = 3
rank (bool b) = 4
rank null = 5

-- The derived `PartialOrd`: by variant, then by the fields in order.
unfoldable pub lt_field : Field → Field → Bool
lt_field (int a) (int b) = ltb_ℤ a b
lt_field (string s) (string t) = lt_bytes s t
lt_field (decimal a s) (decimal b t) = ltb_ℤ a b || (not (ltb_ℤ b a) && ltb s t)
lt_field (date a) (date b) = ltb_ℤ a b
lt_field (bool a) (bool b) = not a && b
lt_field f g = ltb (rank f) (rank g)

abbrev pub eq_ℤ : ℤ → ℤ → Bool
eq_ℤ (pos m) (pos n) = m == n
eq_ℤ (pos m) (negsuc n) = false
eq_ℤ (negsuc m) (pos n) = false
eq_ℤ (negsuc m) (negsuc n) = m == n

unfoldable pub eq_bytes : List ℕ → List ℕ → Bool
eq_bytes [] [] = true
eq_bytes [] (b ∷ bs) = false
eq_bytes (a ∷ rest) [] = false
eq_bytes (a ∷ as') (b ∷ bs) = a == b && eq_bytes as' bs

-- The derived `PartialEq`.
unfoldable pub eq_field : Field → Field → Bool
eq_field (int a) (int b) = eq_ℤ a b
eq_field (string s) (string t) = eq_bytes s t
eq_field (decimal a s) (decimal b t) = eq_ℤ a b && s == t
eq_field (date a) (date b) = eq_ℤ a b
eq_field (bool a) (bool b) = (a && b) || (not a && not b)
eq_field null null = true
eq_field _ _ = false

unfoldable pub unwrap_bool_field : Field → Outcome Bool
unwrap_bool_field (bool b) = ok b
unwrap_bool_field _ = panic

-- `compare_fields`
unfoldable pub compare_fields : BooleanOp → Field → Field → Outcome Bool
compare_fields eq l r = ok (eq_field l r)
compare_fields neq l r = ok (not (eq_field l r))
compare_fields gt l r = ok (lt_field r l)
compare_fields gte l r = ok (not (lt_field l r))
compare_fields lt l r = ok (lt_field l r)
compare_fields lte l r = ok (not (lt_field r l))
compare_fields and l r = do f ← and_field l r; unwrap_bool_field f
compare_fields or l r = do f ← or_field l r; unwrap_bool_field f
