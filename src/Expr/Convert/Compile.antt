-- ===== src/Expr/Convert/Compile.antt =====
-- Which expressions compile, and what their bytecode evaluates to.
use crustydb_labs_cs378_spri.Prelude.{
  ok_inj, ℕ, suc, ◌≡◌, refl, sym, ap, ◌∙◌, subst, inl, inr, List, [], ◌∷◌, some, String, length,
  true, false, ◌||◌, Bool, Bool-cases, ◌==◌, string_eq, Outcome, ok, err, panic, ◌>>=◌, >>=-middle,
  unwrap, unwrap_result, arith, if◌then◌else◌,
}
use crustydb_labs_cs378_spri.Prelude.Int.{ℤ}
use crustydb_labs_cs378_spri.Expr.Field.{Field, math_field}
use crustydb_labs_cs378_spri.Expr.Ast.{
  AstExpr, literal, ident, alias, math, boolean, agg, col_idx, bind_expr, get_field_index, has_agg,
  field_index_from, schema_contains, is_computed_from,
}
use crustydb_labs_cs378_spri.Expr.Bytecode.{
  add_code, code_of, math_op, boolean_op, ByteCodeExpr, empty, boolean_field, run_codes, eval,
}
use crustydb_labs_cs378_spri.Expr.Bytecode.Runs.{Runs-end}
use crustydb_labs_cs378_spri.Expr.Prefix.{Prefix_refl}
use crustydb_labs_cs378_spri.Expr.Meaning.{column, meaning}
use crustydb_labs_cs378_spri.Expr.Convert.{convert_inner, convert_ast_to_bytecode}
use crustydb_labs_cs378_spri.Expr.Convert.Correct.{Goes-convert_inner}

binary_ap {ℓ} :
    {A : Type ℓ} {m m' n n' : Outcome A} (op : A → A → Outcome A)
    → m ≡ m'
    → n ≡ n'
    → (do a ← m; c ← n; op a c) ≡ (do a ← m'; c ← n'; op a c)
binary_ap {m' = m'} {n = n} op p q =
    ap (λ t. do a ← t; c ← n; op a c) p ∙ ap (λ t. do a ← m'; c ← t; op a c) q

module _ (round_div : ℤ → ℤ → ℤ) (record' : List Field) where
  eval_codes :
      (codes : List ℕ) (literals : List Field) (m : Outcome Field)
      → run_codes round_div (length codes) codes 0 [] literals record' ≡ (m >>= λ v. ok (v ∷ []))
      → eval round_div (record { bytecodes = codes; literals = literals }) record' ≡ m
  unfolding eval run_codes
  eval_codes [] literals (ok v) h = cc
  eval_codes [] literals (err e) h = cc
  eval_codes [] literals panic h = cc
  eval_codes (c ∷ cs) literals (ok v) h = rw h
  eval_codes (c ∷ cs) literals (err e) h = rw h
  eval_codes (c ∷ cs) literals panic h = rw h

  bind_expr-meaning :
      (e e' : AstExpr) (schema : List String)
      → bind_expr e schema ≡ ok e'
      → meaning round_div schema record' e' ≡ meaning round_div schema record' e
  unfolding bind_expr meaning
  bind_expr-meaning (literal f) e' schema h =
      sym (ap (meaning round_div schema record') (ok_inj _ _ h))
  bind_expr-meaning (ident n) e' schema h =
      let (i, at_i, h₁) = >>=-middle (unwrap (get_field_index schema n)) _ h in
      sym (ap (meaning round_div schema record') (ok_inj _ _ h₁))
      ∙ ap (λ o. o >>= column record') (sym at_i)
  bind_expr-meaning (alias n e) e' schema h = bind_expr-meaning e e' schema h
  bind_expr-meaning (agg op e) e' schema h = cc
  bind_expr-meaning (math op l r) e' schema h =
      let (l', el, h₁) = >>=-middle (bind_expr l schema) _ h in
      let (r', er, h₂) = >>=-middle (bind_expr r schema) _ h₁ in
      sym (ap (meaning round_div schema record') (ok_inj _ _ h₂))
      ∙ binary_ap (λ a c. unwrap_result (math_field round_div op a c))
          (bind_expr-meaning l l' schema el) (bind_expr-meaning r r' schema er)
  bind_expr-meaning (boolean op l r) e' schema h =
      let (l', el, h₁) = >>=-middle (bind_expr l schema) _ h in
      let (r', er, h₂) = >>=-middle (bind_expr r schema) _ h₁ in
      sym (ap (meaning round_div schema record') (ok_inj _ _ h₂))
      ∙ binary_ap (λ a c. unwrap_result (boolean_field op a c)) (bind_expr-meaning l l' schema el)
          (bind_expr-meaning r r' schema er)
  bind_expr-meaning (col_idx i) e' schema h =
      sym (ap (meaning round_div schema record') (ok_inj _ _ h))

-- An expression that compiles is evaluated by its bytecode to its meaning, on every record: the value
-- where it has one, and a panic where it has none (a column outside the record, an operator that
-- fails). The evaluation always ends.
pub eval-convert_ast_to_bytecode :
    (round_div : ℤ → ℤ → ℤ) (e : AstExpr) (schema : List String) (b : ByteCodeExpr)
    (record' : List Field)
    → convert_ast_to_bytecode e schema ≡ ok b
    → eval round_div b record' ≡ meaning round_div schema record' e
unfolding convert_ast_to_bytecode
eval-convert_ast_to_bytecode round_div e schema b record' h =
    let (e', bound, converted) = >>=-middle (bind_expr e schema) _ h in
    eval_codes round_div record' b.bytecodes b.literals (meaning round_div schema record' e') (
      Goes-convert_inner round_div schema record' b e' empty b [] (λ v. ok (v ∷ [])) converted
        (record { codes = Prefix_refl b.bytecodes; values = Prefix_refl b.literals })
        (λ v.
          Runs-end round_div b.bytecodes b.literals record' (length b.bytecodes) (v ∷ [])
            (omega arith))
        (length b.bytecodes) (omega arith))
    ∙ bind_expr-meaning round_div record' e e' schema bound

known_index :
    (i : ℕ) (schema : List String) (name : String)
    → schema_contains schema name ≡ true
    → (j : ℕ) × (field_index_from i schema name ≡ some j)
unfolding schema_contains field_index_from
known_index i [] name h = cc
known_index i (attr ∷ attrs) name h = elim (Bool-cases (attr == name)) [
  | inl e ↦ (i, rw e)
  | inr e ↦ rw (e) (
      known_index (suc i) attrs name
        (subst (λ t. (if t then true else schema_contains attrs name) ≡ true) e h))
]

-- An expression that binds to an operand tree, which converts after any other code.
abbrev Compiles : AstExpr → List String → Type 0
Compiles e schema =
    (e' : AstExpr) × (bind_expr e schema ≡ ok e')
    × ((b : ByteCodeExpr) → (b' : ByteCodeExpr) × (convert_inner e' b ≡ ok b'))

both_parts :
    (l r : Outcome Bool)
    → (do left ← l; elim left [ true ↦ r | false ↦ ok false ]) ≡ ok true
    → (l ≡ ok true) × (r ≡ ok true)
both_parts (ok true) r h = (refl, h)
both_parts (ok false) r h = cc
both_parts (err e) r h = cc
both_parts panic r h = cc

neither : (a b : Bool) → (a || b) ≡ false → (a ≡ false) × (b ≡ false)
neither true b h = cc
neither false b h = (refl, h)

known-Compiles :
    (e : AstExpr) (schema : List String)
    → has_agg e ≡ false
    → is_computed_from e schema ≡ ok true
    → Compiles e schema
unfolding has_agg is_computed_from bind_expr convert_inner get_field_index
known-Compiles (literal f) schema plain known = (literal f, refl, λ b. (_, refl))
known-Compiles (ident n) schema plain known =
    let (i, at_i) = known_index 0 schema n (ok_inj _ _ known) in
    (col_idx i, rw at_i, λ b. (_, refl))
known-Compiles (alias n e) schema plain known = known-Compiles e schema plain known
known-Compiles (agg op e) schema plain known = cc
known-Compiles (math op l r) schema plain known =
    let (kl, kr) = both_parts _ _ known in
    let (pl, pr) = neither _ _ plain in
    let (l', el, cl) = known-Compiles l schema pl kl in
    let (r', er, cr) = known-Compiles r schema pr kr in
    (
      math op l' r',
      rw (el, er),
      λ b.
          let (b₁, e₁) = cl b in
          let (b₂, e₂) = cr b₁ in (add_code b₂ (code_of (math_op op)), rw (e₁, e₂)),
    )
known-Compiles (boolean op l r) schema plain known =
    let (kl, kr) = both_parts _ _ known in
    let (pl, pr) = neither _ _ plain in
    let (l', el, cl) = known-Compiles l schema pl kl in
    let (r', er, cr) = known-Compiles r schema pr kr in
    (
      boolean op l' r',
      rw (el, er),
      λ b.
          let (b₁, e₁) = cl b in
          let (b₂, e₂) = cr b₁ in (add_code b₂ (code_of (boolean_op op)), rw (e₁, e₂)),
    )
known-Compiles (col_idx i) schema plain known = cc

-- An expression without aggregates, whose names are all in the schema and which has no column index
-- yet, compiles: it is neither an error nor a panic.
pub convert_ast_to_bytecode-ok :
    (e : AstExpr) (schema : List String)
    → has_agg e ≡ false
    → is_computed_from e schema ≡ ok true
    → (b : ByteCodeExpr) × (convert_ast_to_bytecode e schema ≡ ok b)
unfolding convert_ast_to_bytecode
convert_ast_to_bytecode-ok e schema plain known =
    let (e', bound, converts) = known-Compiles e schema plain known in
    let (b, converted) = converts empty in (b, rw (bound, converted))
