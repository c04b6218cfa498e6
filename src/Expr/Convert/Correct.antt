-- ===== src/Expr/Convert/Correct.antt =====
-- The bytecode of an expression computes what the expression means.
use crustydb_labs_cs378_spri.Prelude.{
  ok_inj, ℕ, ◌+◌, ◌≡◌, refl, sym, subst, List, [], ◌∷◌, some, String, length, length-append,
  get_elem?, Outcome, ok, err, panic, ◌>>=◌, >>=-middle, unwrap, unwrap_result, arith,
}
use crustydb_labs_cs378_spri.Prelude.Int.{ℤ}
use crustydb_labs_cs378_spri.Expr.Field.{Field, math_field}
use crustydb_labs_cs378_spri.Expr.Ast.{AstExpr, literal, ident, alias, math, boolean, agg, col_idx}
use crustydb_labs_cs378_spri.Expr.Bytecode.{
  ByteCodeExpr, add_code, add_literal, code_of, push_lit, push_field, math_op, boolean_op,
  boolean_field,
}
use crustydb_labs_cs378_spri.Expr.Bytecode.Runs.{
  Runs, Runs-math, Runs-boolean, Runs-literal, Runs-column,
}
use crustydb_labs_cs378_spri.Expr.Prefix.{
  Prefix, Prefix_refl, Prefix_append, Prefix_trans, get_elem?-Prefix,
}
use crustydb_labs_cs378_spri.Expr.Meaning.{column, meaning}
use crustydb_labs_cs378_spri.Expr.Convert.{convert_inner}

-- Nothing that is already compiled is changed, and the codes end in a last one.
pub record Extends (b b' : ByteCodeExpr) : Type 0 where
  pub codes : Prefix b.bytecodes b'.bytecodes
  pub values : Prefix b.literals b'.literals

Extends-trans : (a b c : ByteCodeExpr) → Extends a b → Extends b c → Extends a c
Extends-trans a b c p q = record {
  codes = Prefix_trans a.bytecodes b.bytecodes c.bytecodes p.codes q.codes;
  values = Prefix_trans a.literals b.literals c.literals p.values q.values;
}

Extends-code : (b : ByteCodeExpr) (code : ℕ) → Extends b (add_code b code)
Extends-code b code = record {
  codes = Prefix_append b.bytecodes (code ∷ []);
  values = Prefix_refl b.literals;
}

Extends-literal : (b : ByteCodeExpr) (f : Field) → Extends b (add_literal b f).1
Extends-literal b f = record {
  codes = Prefix_refl b.bytecodes;
  values = Prefix_append b.literals (f ∷ []);
}

module _ (P : ByteCodeExpr → Type 0) where
  -- What the two operands of an operator are compiled to, in order.
  operands :
      (l r : AstExpr) (b b' : ByteCodeExpr) (code : ℕ)
      → (do b₁ ← convert_inner l b; b₂ ← convert_inner r b₁; ok (add_code b₂ code)) ≡ ok b'
      → ((b₁ b₂ : ByteCodeExpr)
          → convert_inner l b ≡ ok b₁
          → convert_inner r b₁ ≡ ok b₂
          → P (add_code b₂ code))
      → P b'
  operands l r b b' code h use_it =
      let (b₁, e₁, h₁) = >>=-middle (convert_inner l b) _ h in
      let (b₂, e₂, h₂) = >>=-middle (convert_inner r b₁) _ h₁ in
      subst P (ok_inj (add_code b₂ code) b' h₂) (use_it b₁ b₂ e₁ e₂)

convert_inner-Extends :
    (e : AstExpr) (b b' : ByteCodeExpr) → convert_inner e b ≡ ok b' → Extends b b'
unfolding convert_inner
convert_inner-Extends (literal f) b b' h = subst (Extends b) (ok_inj _ b' h) (
    Extends-trans b (add_literal b f).1 _ (Extends-literal b f) (
      Extends-trans (add_literal b f).1 _ _ (Extends-code (add_literal b f).1 (code_of push_lit))
        (Extends-code _ (length b.literals))))
convert_inner-Extends (ident n) b b' h = cc
convert_inner-Extends (alias n e) b b' h = cc
convert_inner-Extends (agg op e) b b' h = cc
convert_inner-Extends (math op l r) b b' h =
    operands (Extends b) l r b b' (code_of (math_op op)) h (λ b₁ b₂ e₁ e₂.
      Extends-trans b b₂ (add_code b₂ (code_of (math_op op)))
        (Extends-trans b b₁ b₂ (convert_inner-Extends l b b₁ e₁) (convert_inner-Extends r b₁ b₂ e₂))
        (Extends-code b₂ (code_of (math_op op))))
convert_inner-Extends (boolean op l r) b b' h =
    operands (Extends b) l r b b' (code_of (boolean_op op)) h (λ b₁ b₂ e₁ e₂.
      Extends-trans b b₂ (add_code b₂ (code_of (boolean_op op)))
        (Extends-trans b b₁ b₂ (convert_inner-Extends l b b₁ e₁) (convert_inner-Extends r b₁ b₂ e₂))
        (Extends-code b₂ (code_of (boolean_op op))))
convert_inner-Extends (col_idx i) b b' h =
    subst (Extends b) (ok_inj _ b' h)
      (Extends-trans b _ _ (Extends-code b (code_of push_field)) (Extends-code _ i))

binary_assoc {ℓ κ} :
    {A : Type ℓ} {B : Type κ} (m n : Outcome A) (op : A → A → Outcome A) (k : A → Outcome B)
    → ((do a ← m; b ← n; op a b) >>= k) ≡ (do a ← m; b ← n; (op a b >>= k))
binary_assoc (ok a) (ok b) op k = refl
binary_assoc (ok a) (err e) op k = refl
binary_assoc (ok a) panic op k = refl
binary_assoc (err e) n op k = refl
binary_assoc panic n op k = refl

-- What follows a code starts one further.
length-add_code :
    (b : ByteCodeExpr) (code : ℕ) → length (add_code b code).bytecodes ≡ length b.bytecodes + 1
length-add_code b code = length-append b.bytecodes (code ∷ [])

module _ (round_div : ℤ → ℤ → ℤ) (schema : List String) (record' : List Field)
    (program : ByteCodeExpr) where
  abbrev pub Goes : ByteCodeExpr → List Field → Outcome (List Field) → Type 0
  Goes b stack o =
      Runs round_div program.bytecodes program.literals record' (length b.bytecodes) stack o

  abbrev pub value : AstExpr → Outcome Field
  value e = meaning round_div schema record' e

  Goes-code :
      (b : ByteCodeExpr) (code : ℕ) (stack : List Field) (o : Outcome (List Field))
      → Goes (add_code b code) stack o
      → Runs round_div program.bytecodes program.literals record' (length b.bytecodes + 1) stack o
  Goes-code b code stack o go =
      subst (λ n. Runs round_div program.bytecodes program.literals record' n stack o)
        (length-add_code b code) go

  Goes-push :
      (b : ByteCodeExpr) (c n : ℕ) (stack : List Field) (o : Outcome (List Field))
      → Goes (add_code (add_code b c) n) stack o
      → Runs round_div program.bytecodes program.literals record' (length b.bytecodes + 2) stack o
  Goes-push b c n stack o go =
      subst (λ i. Runs round_div program.bytecodes program.literals record' i stack o)
        (omega (arith, length-add_code b c, length-add_code (add_code b c) n)) go

  code_at :
      (b : ByteCodeExpr) (code : ℕ)
      → Extends (add_code b code) program
      → get_elem? program.bytecodes (length b.bytecodes) ≡ some code
  code_at b code ext = get_elem?-Prefix b.bytecodes code ext.codes

  operand_at :
      (b : ByteCodeExpr) (code n : ℕ)
      → Extends (add_code (add_code b code) n) program
      → get_elem? program.bytecodes (length b.bytecodes + 1) ≡ some n
  operand_at b code n ext =
      subst (λ i. get_elem? program.bytecodes i ≡ some n) (length-add_code b code)
        (code_at (add_code b code) n ext)

  Goes-literal :
      (f : Field) (b : ByteCodeExpr) (stack : List Field) (k : Field → Outcome (List Field))
      → Extends
          (add_code (add_code (add_literal b f).1 (code_of push_lit)) (length b.literals))
          program
      → ((v : Field)
          → Goes
              (add_code (add_code (add_literal b f).1 (code_of push_lit)) (length b.literals))
              (v ∷ stack)
              (k v))
      → Goes b stack (k f)
  Goes-literal f b stack k ext go =
      let b₀ = (add_literal b f).1 in
      let b₁ = add_code b₀ (code_of push_lit) in
      subst (λ o. Goes b stack (unwrap o >>= k)) (get_elem?-Prefix b.literals f ext.values)
        (Runs-literal round_div program.bytecodes program.literals record' (length b.bytecodes)
          stack k (length b.literals)
          (code_at b₀ (code_of push_lit)
            (Extends-trans b₁ _ program (Extends-code b₁ (length b.literals)) ext))
          (operand_at b₀ (code_of push_lit) (length b.literals) ext)
          (λ v. Goes-push b₀ (code_of push_lit) (length b.literals) (v ∷ stack) (k v) (go v)))

  Goes-column :
      (i : ℕ) (b : ByteCodeExpr) (stack : List Field) (k : Field → Outcome (List Field))
      → Extends (add_code (add_code b (code_of push_field)) i) program
      → ((v : Field) → Goes (add_code (add_code b (code_of push_field)) i) (v ∷ stack) (k v))
      → Goes b stack (column record' i >>= k)
  Goes-column i b stack k ext go =
      let b₁ = add_code b (code_of push_field) in
      Runs-column round_div program.bytecodes program.literals record' (length b.bytecodes) stack k
        i (code_at b (code_of push_field) (Extends-trans b₁ _ program (Extends-code b₁ i) ext))
        (operand_at b (code_of push_field) i ext)
        (λ v. Goes-push b (code_of push_field) i (v ∷ stack) (k v) (go v))

  -- The operands in order, then the operator.
  Goes-operator :
      (l r : AstExpr) (op : Field → Field → Outcome Field) (b b₁ b₂ : ByteCodeExpr)
      (stack : List Field) (k : Field → Outcome (List Field))
      → ((k' : Field → Outcome (List Field))
          → ((v : Field) → Goes b₁ (v ∷ stack) (k' v))
          → Goes b stack (value l >>= k'))
      → ((a : Field) (k' : Field → Outcome (List Field))
          → ((v : Field) → Goes b₂ (v ∷ a ∷ stack) (k' v))
          → Goes b₁ (a ∷ stack) (value r >>= k'))
      → ((a c : Field) → Goes b₂ (c ∷ a ∷ stack) (op a c >>= k))
      → Goes b stack ((do a ← value l; c ← value r; op a c) >>= k)
  Goes-operator l r op b b₁ b₂ stack k left right last =
      subst (Goes b stack) (sym (binary_assoc (value l) (value r) op k)) (
        left (λ a. value r >>= λ c. op a c >>= k)
          (λ a. right a (λ c. op a c >>= k) (λ c. last a c)))

  -- The codes of `e` push its value and go on, or are a panic.
  pub Goes-convert_inner :
      (e : AstExpr) (b b' : ByteCodeExpr) (stack : List Field) (k : Field → Outcome (List Field))
      → convert_inner e b ≡ ok b'
      → Extends b' program
      → ((v : Field) → Goes b' (v ∷ stack) (k v))
      → Goes b stack (value e >>= k)
  unfolding convert_inner meaning
  Goes-convert_inner (literal f) b b' stack k h =
      subst
        (λ b'. Extends b' program → ((v : Field) → Goes b' (v ∷ stack) (k v)) → Goes b stack (k f))
        (ok_inj _ b' h) (Goes-literal f b stack k)
  Goes-convert_inner (ident n) b b' stack k h = cc
  Goes-convert_inner (alias n e) b b' stack k h = cc
  Goes-convert_inner (agg op e) b b' stack k h = cc
  Goes-convert_inner (math op l r) b b' stack k h =
      let code = code_of (math_op op) in
      operands
        (λ b'.
          Extends b' program
          → ((v : Field) → Goes b' (v ∷ stack) (k v))
          → Goes b stack (value (math op l r) >>= k))
        l r b b' code h
        (λ b₁ b₂ e₁ e₂ ext go.
          let ext₂ = Extends-trans b₂ _ program (Extends-code b₂ code) ext in
          Goes-operator l r (λ a c. unwrap_result (math_field round_div op a c)) b b₁ b₂ stack k
            (λ k'.
              Goes-convert_inner l b b₁ stack k' e₁
                (Extends-trans b₁ b₂ program (convert_inner-Extends r b₁ b₂ e₂) ext₂))
            (λ a k'. Goes-convert_inner r b₁ b₂ (a ∷ stack) k' e₂ ext₂)
            (λ a c.
              Runs-math round_div program.bytecodes program.literals record' (length b₂.bytecodes)
                stack k op a c (code_at b₂ code ext)
                (λ v. Goes-code b₂ code (v ∷ stack) (k v) (go v))))
  Goes-convert_inner (boolean op l r) b b' stack k h =
      let code = code_of (boolean_op op) in
      operands
        (λ b'.
          Extends b' program
          → ((v : Field) → Goes b' (v ∷ stack) (k v))
          → Goes b stack (value (boolean op l r) >>= k))
        l r b b' code h
        (λ b₁ b₂ e₁ e₂ ext go.
          let ext₂ = Extends-trans b₂ _ program (Extends-code b₂ code) ext in
          Goes-operator l r (λ a c. unwrap_result (boolean_field op a c)) b b₁ b₂ stack k
            (λ k'.
              Goes-convert_inner l b b₁ stack k' e₁
                (Extends-trans b₁ b₂ program (convert_inner-Extends r b₁ b₂ e₂) ext₂))
            (λ a k'. Goes-convert_inner r b₁ b₂ (a ∷ stack) k' e₂ ext₂)
            (λ a c.
              Runs-boolean round_div program.bytecodes program.literals record'
                (length b₂.bytecodes) stack k op a c (code_at b₂ code ext)
                (λ v. Goes-code b₂ code (v ∷ stack) (k v) (go v))))
  Goes-convert_inner (col_idx i) b b' stack k h =
      subst
        (λ b'.
          Extends b' program
          → ((v : Field) → Goes b' (v ∷ stack) (k v))
          → Goes b stack (column record' i >>= k))
        (ok_inj _ b' h) (Goes-column i b stack k)
