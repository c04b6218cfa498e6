-- ===== src/Ops/Project.antt =====
-- The projection: queryexe/src/opiterator/project.rs.
pub mod Stream
use crustydb_labs_cs378_spri.Prelude.{
  ℕ, Bool, true, false, List, [], ◌∷◌, Option, none, some, Outcome, ok, panic, ◌>>=◌,
}
use crustydb_labs_cs378_spri.Prelude.Int.{ℤ}
use crustydb_labs_cs378_spri.Expr.Field.{Field}
use crustydb_labs_cs378_spri.Expr.Bytecode.{ByteCodeExpr, eval}
use crustydb_labs_cs378_spri.Ops.{Tuple, OpIterator}
use crustydb_labs_cs378_spri.Ops

module _ (round_div : ℤ → ℤ → ℤ) (Child : OpIterator) where
  pub record Project : Type 0 where
    pub fields : List ByteCodeExpr
    pub child : Child.State
    pub is_open : Bool

  abbrev pub new : List ByteCodeExpr → Child.State → Project
  new fields child = record { fields = fields; child = child; is_open = false }

  abbrev pub configure : Project → Bool → Project
  configure p will_rewind = record p { child = Child.configure p.child will_rewind }

  unfoldable pub open_project : Project → Outcome Project
  open_project p = elim (p.is_open) [
    | true ↦ ok (record p { is_open = true })
    | false ↦ do child' ← Child.open_op p.child; ok (record p { child = child'; is_open = true })
  ]

  -- The fields of the new tuple, evaluated in order.
  unfoldable pub eval_fields : List ByteCodeExpr → List Field → Outcome (List Field)
  eval_fields [] record' = ok []
  eval_fields (e ∷ es) record' = do
    v ← eval round_div e record'
    vs ← eval_fields es record'
    ok (v ∷ vs)

  unfoldable pub next : Project → Outcome (Option Tuple × Project)
  next p = elim (p.is_open) [
    | false ↦ panic
    | true ↦ do
      res ← Child.next p.child
      elim res.0 [
        | none ↦ ok (none, record p { child = res.1 })
        | some t ↦ do
          new_field_vals ← eval_fields p.fields t.field_vals
          ok (some (Ops.new new_field_vals), record p { child = res.1 })
      ]
  ]

  unfoldable pub close : Project → Outcome Project
  close p = do child' ← Child.close p.child; ok (record p { child = child'; is_open = false })

  unfoldable pub rewind : Project → Outcome Project
  rewind p = elim (p.is_open) [
    | false ↦ panic
    | true ↦ do child' ← Child.rewind p.child; ok (record p { child = child' })
  ]

  abbrev pub op_iterator : OpIterator
  op_iterator = record {
    State = Project;
    configure = configure;
    open_op = open_project;
    next = next;
    close = close;
    rewind = rewind;
  }
