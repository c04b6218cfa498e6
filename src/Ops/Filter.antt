-- ===== src/Ops/Filter.antt =====
-- The filter: queryexe/src/opiterator/filter.rs.
pub mod Stream
use crustydb_labs_cs378_spri.Prelude.{
  ℕ, zero, suc, Bool, true, false, Option, none, some, Outcome, ok, err, panic, ◌>>=◌, crusty_error,
  if◌then◌else◌,
}
use crustydb_labs_cs378_spri.Prelude.Int.{ℤ}
use crustydb_labs_cs378_spri.Expr.Field.{Field, bool}
use crustydb_labs_cs378_spri.Expr.Bytecode.{ByteCodeExpr, eval}
use crustydb_labs_cs378_spri.Ops.{Tuple, OpIterator}

module _ (round_div : ℤ → ℤ → ℤ) (Child : OpIterator) where
  pub record Filter : Type 0 where
    pub predicate : ByteCodeExpr
    pub child : Child.State
    pub is_open : Bool

  abbrev pub new : ByteCodeExpr → Child.State → Filter
  new predicate child = record { predicate = predicate; child = child; is_open = false }

  abbrev pub configure : Filter → Bool → Filter
  configure f will_rewind = record f { child = Child.configure f.child will_rewind }

  unfoldable pub open_filter : Filter → Outcome Filter
  open_filter f = elim (f.is_open) [
    | true ↦ ok f
    | false ↦ do child' ← Child.open_op f.child; ok (record f { child = child'; is_open = true })
  ]

  -- The loop of `next`, which gives the tuple it stops at. A loop out of fuel would be a panic.
  unfoldable pub next_match : ℕ → ByteCodeExpr → Child.State → Outcome (Option Tuple × Child.State)
  next_match zero predicate child = panic
  next_match (suc fuel) predicate child = do
    res ← Child.next child
    elim res.0 [
      | none ↦ ok (none, res.1)
      | some t ↦ do
        value ← eval round_div predicate t.field_vals
        elim value [
          | bool b ↦ elim b [ true ↦ ok (some t, res.1) | false ↦ next_match fuel predicate res.1 ]
          | _ ↦ err (crusty_error "Predicate did not evaluate to a boolean")
        ]
    ]

  unfoldable pub next : ℕ → Filter → Outcome (Option Tuple × Filter)
  next fuel f = elim (f.is_open) [
    | false ↦ panic
    | true ↦ do res ← next_match fuel f.predicate f.child; ok (res.0, record f { child = res.1 })
  ]

  unfoldable pub close : Filter → Outcome Filter
  close f = do child' ← Child.close f.child; ok (record f { child = child'; is_open = false })

  unfoldable pub rewind : Filter → Outcome Filter
  rewind f = elim (f.is_open) [
    | false ↦ panic
    | true ↦ do child' ← Child.rewind f.child; ok (record f { child = child' })
  ]

  -- The operator, with the fuel of a call of `next`.
  abbrev pub op_iterator : ℕ → OpIterator
  op_iterator fuel = record {
    State = Filter;
    configure = configure;
    open_op = open_filter;
    next = next fuel;
    close = close;
    rewind = rewind;
  }
