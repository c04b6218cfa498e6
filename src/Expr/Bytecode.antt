-- ===== src/Expr/Bytecode.antt =====
-- The stack machine that evaluates an expression: common/src/bytecode_expr.rs.
pub mod Runs
use crustydb_labs_cs378_spri.Prelude.{
  ℕ, zero, suc, ◌+◌, Bool, true, false, not, List, [], ◌∷◌, ◌++◌, Option, none, some, ltb,
  if◌then◌else◌, length, get_elem?, Outcome, ok, panic, ◌>>=◌, unwrap, unwrap_result,
}
use crustydb_labs_cs378_spri.Prelude.Int.{ℤ}
use crustydb_labs_cs378_spri.Expr.Field.{
  Field, bool, MathOp, add, sub, mul, div, BooleanOp, eq, neq, gt, gte, lt, lte, and, or,
  math_field, and_field, or_field, eq_field, lt_field,
}

-- The variants of `ByteCodes`, in order; one code for each operator.
pub data ByteCode : Type 0 where
  push_lit push_field : ByteCode
  math_op : MathOp → ByteCode
  boolean_op : BooleanOp → ByteCode

-- `ByteCodes::X as usize`
unfoldable pub code_of : ByteCode → ℕ
code_of push_lit = 0
code_of push_field = 1
code_of (math_op add) = 2
code_of (math_op sub) = 3
code_of (math_op mul) = 4
code_of (math_op div) = 5
code_of (boolean_op eq) = 6
code_of (boolean_op neq) = 7
code_of (boolean_op lt) = 8
code_of (boolean_op gt) = 9
code_of (boolean_op lte) = 10
code_of (boolean_op gte) = 11
code_of (boolean_op and) = 12
code_of (boolean_op or) = 13

-- `STATIC_DISPATCHER`: the functions by their place in the table.
abbrev pub static_dispatcher : List ByteCode
static_dispatcher =
    push_lit
    ∷ push_field
    ∷ math_op add
    ∷ math_op sub
    ∷ math_op mul
    ∷ math_op div
    ∷ boolean_op eq
    ∷ boolean_op neq
    ∷ boolean_op lt
    ∷ boolean_op gt
    ∷ boolean_op lte
    ∷ boolean_op gte
    ∷ boolean_op and
    ∷ boolean_op or
    ∷ []

pub record ByteCodeExpr : Type 0 where
  pub bytecodes : List ℕ
  pub literals : List Field

abbrev pub empty : ByteCodeExpr
empty = record { bytecodes = []; literals = [] }

abbrev pub add_code : ByteCodeExpr → ℕ → ByteCodeExpr
add_code b code = record b { bytecodes = b.bytecodes ++ code ∷ [] }

-- The index of the new literal, and the expression with it.
abbrev pub add_literal : ByteCodeExpr → Field → ℕ × ByteCodeExpr
add_literal b f = (length b.literals, record b { literals = b.literals ++ f ∷ [] })

-- What a comparison or a connective pushes, from its operands.
unfoldable pub boolean_field : BooleanOp → Field → Field → Outcome Field
boolean_field eq l r = ok (bool (eq_field l r))
boolean_field neq l r = ok (bool (not (eq_field l r)))
boolean_field lt l r = ok (bool (lt_field l r))
boolean_field gt l r = ok (bool (lt_field r l))
boolean_field lte l r = ok (bool (not (lt_field r l)))
boolean_field gte l r = ok (bool (not (lt_field l r)))
boolean_field and l r = and_field l r
boolean_field or l r = or_field l r

module _ (round_div : ℤ → ℤ → ℤ) where
  -- The two operands are popped, the right one first, and the result is pushed. The top of the
  -- stack is the head of the list.
  unfoldable pub binary : (Field → Field → Outcome Field) → List Field → Outcome (List Field)
  binary op [] = panic
  binary op (r ∷ []) = panic
  binary op (r ∷ l ∷ stack) = do v ← unwrap_result (op l r); ok (v ∷ stack)

  -- The operand of a push is the code at `i`, and indexes `from`.
  unfoldable pub push_from : List ℕ → ℕ → List Field → List Field → Outcome (ℕ × List Field)
  push_from bytecodes i stack from = do
    index ← unwrap (get_elem? bytecodes i)
    value ← unwrap (get_elem? from index)
    ok (i + 1, value ∷ stack)

  -- A call through the table: the new `i` and the new stack.
  unfoldable pub dispatch :
      ByteCode → List ℕ → ℕ → List Field → List Field → List Field → Outcome (ℕ × List Field)
  unfolding binary push_from
  dispatch push_lit bytecodes i stack literals record' = push_from bytecodes i stack literals
  dispatch push_field bytecodes i stack literals record' = push_from bytecodes i stack record'
  dispatch (math_op op) bytecodes i stack literals record' = do
    stack' ← binary (math_field round_div op) stack
    ok (i, stack')
  dispatch (boolean_op op) bytecodes i stack literals record' = do
    stack' ← binary (boolean_field op) stack
    ok (i, stack')

  -- The loop of `eval`. Every round moves `i` on, so the number of codes is fuel enough; a loop that
  -- runs out of fuel would be a panic.
  unfoldable pub run_codes :
      ℕ → List ℕ → ℕ → List Field → List Field → List Field → Outcome (List Field)
  run_codes zero bytecodes i stack literals record' =
      if ltb i (length bytecodes) then panic else ok stack
  run_codes (suc fuel) bytecodes i stack literals record' = elim (ltb i (length bytecodes)) [
    | false ↦ ok stack
    | true ↦ do
      opcode ← unwrap (get_elem? bytecodes i)
      f ← unwrap (get_elem? static_dispatcher opcode)
      next ← dispatch f bytecodes (i + 1) stack literals record'
      run_codes fuel bytecodes next.0 next.1 literals record'
  ]

  abbrev pub pop : List Field → Outcome Field
  pop [] = panic
  pop (v ∷ stack) = ok v

  unfoldable pub eval : ByteCodeExpr → List Field → Outcome Field
  eval b record' = elim b.bytecodes [
    | [] ↦ panic
    | _ ∷ _ ↦ do
      stack ← run_codes (length b.bytecodes) b.bytecodes 0 [] b.literals record'
      pop stack
  ]
