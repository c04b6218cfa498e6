-- ===== src/Expr/Bytecode/Runs.antt =====
-- Runs of the bytecode, independent of the fuel.
use crustydb_labs_cs378_spri.Prelude.{
  get_elem?-lt, inl, inr, Option-cases, Outcome-cases, ℕ, zero, suc, ◌+◌, ◌<◌, ◌≤◌, ◌≡◌, refl, ap,
  ◌∙◌, List, ◌∷◌, some, lt→ltb, length, get_elem?, Outcome, ok, panic, ◌>>=◌, unwrap, unwrap_result,
  arith,
}
use crustydb_labs_cs378_spri.Prelude.Int.{ℤ}
use crustydb_labs_cs378_spri.Expr.Field.{
  Field, MathOp, add, sub, mul, div, BooleanOp, eq, neq, gt, gte, lt, lte, and, or, math_field,
}
use crustydb_labs_cs378_spri.Expr.Bytecode.{
  ByteCode, push_lit, push_field, math_op, boolean_op, code_of, static_dispatcher, boolean_field,
  binary, push_from, dispatch, run_codes,
}

-- Every code finds its own function in the table.
static_dispatcher-code_of : (c : ByteCode) → get_elem? static_dispatcher (code_of c) ≡ some c
unfolding code_of
static_dispatcher-code_of push_lit = refl
static_dispatcher-code_of push_field = refl
static_dispatcher-code_of (math_op add) = refl
static_dispatcher-code_of (math_op sub) = refl
static_dispatcher-code_of (math_op mul) = refl
static_dispatcher-code_of (math_op div) = refl
static_dispatcher-code_of (boolean_op eq) = refl
static_dispatcher-code_of (boolean_op neq) = refl
static_dispatcher-code_of (boolean_op lt) = refl
static_dispatcher-code_of (boolean_op gt) = refl
static_dispatcher-code_of (boolean_op lte) = refl
static_dispatcher-code_of (boolean_op gte) = refl
static_dispatcher-code_of (boolean_op and) = refl
static_dispatcher-code_of (boolean_op or) = refl

module _ (round_div : ℤ → ℤ → ℤ) (bytecodes : List ℕ) (literals record' : List Field) where
  -- The loop at `i` with `stack` comes to `o`, with any fuel that reaches the end.
  abbrev pub Runs : ℕ → List Field → Outcome (List Field) → Type 0
  Runs i stack o =
      (fuel : ℕ)
      → length bytecodes ≤ i + fuel
      → run_codes round_div fuel bytecodes i stack literals record' ≡ o

  run_codes-step :
      (c : ByteCode) (fuel i : ℕ) (stack : List Field)
      → get_elem? bytecodes i ≡ some (code_of c)
      → run_codes round_div (suc fuel) bytecodes i stack literals record' ≡ (
          dispatch round_div c bytecodes (i + 1) stack literals record' >>= λ next.
          run_codes round_div fuel bytecodes next.0 next.1 literals record')
  unfolding run_codes
  run_codes-step c fuel i stack h = ground (
    arith,
    lt→ltb i (length bytecodes) (get_elem?-lt bytecodes i h),
    h,
    static_dispatcher-code_of c,
  )

  -- A code whose function has the outcome `next`, after which the loop goes on.
  Runs-step :
      (c : ByteCode) (i : ℕ) (stack : List Field) {j : ℕ} {stack' : List Field}
      {o : Outcome (List Field)}
      → get_elem? bytecodes i ≡ some (code_of c)
      → dispatch round_div c bytecodes (i + 1) stack literals record' ≡ ok (j, stack')
      → i < j
      → Runs j stack' o
      → Runs i stack o
  Runs-step c i stack h d lt' go zero enough =
      absurd (omega (arith, get_elem?-lt bytecodes i h, enough))
  Runs-step c i stack {j} {stack'} h d lt' go (suc fuel) enough =
      run_codes-step c fuel i stack h
      ∙ ap (λ t. t >>= λ next. run_codes round_div fuel bytecodes next.0 next.1 literals record') d
      ∙ go fuel (omega arith)

  Runs-panic :
      (c : ByteCode) (i : ℕ) (stack : List Field)
      → get_elem? bytecodes i ≡ some (code_of c)
      → dispatch round_div c bytecodes (i + 1) stack literals record' ≡ panic
      → Runs i stack panic
  Runs-panic c i stack h d zero enough = absurd (omega (arith, get_elem?-lt bytecodes i h, enough))
  Runs-panic c i stack h d (suc fuel) enough =
      run_codes-step c fuel i stack h
      ∙ ap (λ t. t >>= λ next. run_codes round_div fuel bytecodes next.0 next.1 literals record') d

  pub Runs-end : (i : ℕ) (stack : List Field) → length bytecodes ≤ i → Runs i stack (ok stack)
  unfolding run_codes
  Runs-end i stack h zero enough = ground arith
  Runs-end i stack h (suc fuel) enough = ground arith

  module _ (c : ByteCode) (i : ℕ) (stack : List Field) (k : Field → Outcome (List Field))
      (code : get_elem? bytecodes i ≡ some (code_of c)) where
    -- An operator takes its operands off the stack and pushes its value, or is a panic.
    Runs-binary :
        (op : Field → Field → Outcome Field) (a b : Field)
        → ((s : List Field)
            → dispatch round_div c bytecodes (i + 1) s literals record'
              ≡ (binary round_div op s >>= λ s'. ok (i + 1, s')))
        → ((v : Field) → Runs (i + 1) (v ∷ stack) (k v))
        → Runs i (b ∷ a ∷ stack) (unwrap_result (op a b) >>= k)
    unfolding binary
    Runs-binary op a b d go = elim (Outcome-cases (op a b)) [
      | inl (v, e) ↦
          rw (e)
            (Runs-step c i (b ∷ a ∷ stack) code (d (b ∷ a ∷ stack) ∙ rw e) (omega arith) (go v))
      | inr (inl (x, e)) ↦ rw (e) (Runs-panic c i (b ∷ a ∷ stack) code (d (b ∷ a ∷ stack) ∙ rw e))
      | inr (inr e) ↦ rw (e) (Runs-panic c i (b ∷ a ∷ stack) code (d (b ∷ a ∷ stack) ∙ rw e))
    ]

    -- A push reads its operand behind the code, and pushes what stands at it, or is a panic.
    Runs-value :
        (from : List Field) (n : ℕ)
        → get_elem? bytecodes (i + 1) ≡ some n
        → dispatch round_div c bytecodes (i + 1) stack literals record'
          ≡ push_from round_div bytecodes (i + 1) stack from
        → ((v : Field) → Runs (i + 2) (v ∷ stack) (k v))
        → Runs i stack (unwrap (get_elem? from n) >>= k)
    unfolding push_from
    Runs-value from n at_n d go = elim (Option-cases (get_elem? from n)) [
      | inl e ↦ rw (e) (Runs-panic c i stack code (d ∙ rw (at_n, e)))
      | inr (v, e) ↦ rw (e) (
          Runs-step c i stack {j = i + 2} {stack' = v ∷ stack} code (d ∙ ground (arith, at_n, e))
            (omega arith) (go v))
    ]

  module _ (i : ℕ) (stack : List Field) (k : Field → Outcome (List Field)) where
    pub Runs-math :
        (op : MathOp) (a b : Field)
        → get_elem? bytecodes i ≡ some (code_of (math_op op))
        → ((v : Field) → Runs (i + 1) (v ∷ stack) (k v))
        → Runs i (b ∷ a ∷ stack) (unwrap_result (math_field round_div op a b) >>= k)
    unfolding dispatch
    Runs-math op a b h =
        Runs-binary (math_op op) i stack k h (math_field round_div op) a b (λ s. refl)

    pub Runs-boolean :
        (op : BooleanOp) (a b : Field)
        → get_elem? bytecodes i ≡ some (code_of (boolean_op op))
        → ((v : Field) → Runs (i + 1) (v ∷ stack) (k v))
        → Runs i (b ∷ a ∷ stack) (unwrap_result (boolean_field op a b) >>= k)
    unfolding dispatch
    Runs-boolean op a b h =
        Runs-binary (boolean_op op) i stack k h (boolean_field op) a b (λ s. refl)

    pub Runs-literal :
        (n : ℕ)
        → get_elem? bytecodes i ≡ some (code_of push_lit)
        → get_elem? bytecodes (i + 1) ≡ some n
        → ((v : Field) → Runs (i + 2) (v ∷ stack) (k v))
        → Runs i stack (unwrap (get_elem? literals n) >>= k)
    unfolding dispatch
    Runs-literal n h at_n = Runs-value push_lit i stack k h literals n at_n refl

    pub Runs-column :
        (n : ℕ)
        → get_elem? bytecodes i ≡ some (code_of push_field)
        → get_elem? bytecodes (i + 1) ≡ some n
        → ((v : Field) → Runs (i + 2) (v ∷ stack) (k v))
        → Runs i stack (unwrap (get_elem? record' n) >>= k)
    unfolding dispatch
    Runs-column n h at_n = Runs-value push_field i stack k h record' n at_n refl
