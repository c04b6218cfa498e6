-- ===== src/Ops/CrossJoin.antt =====
-- The cross join: queryexe/src/opiterator/cross_join.rs.
pub mod Stream
use crustydb_labs_cs378_spri.Prelude.{
  ℕ, zero, suc, Bool, true, false, Option, none, some, Outcome, ok, panic, ◌>>=◌,
}
use crustydb_labs_cs378_spri.Ops.{Tuple, merge, OpIterator}

module _ (Left Right : OpIterator) where
  pub record CrossJoin : Type 0 where
    pub left_child : Left.State
    pub right_child : Right.State
    pub is_open : Bool
    pub current_tuple : Option Tuple

  abbrev pub new : Left.State → Right.State → CrossJoin
  new left_child right_child = record {
    left_child = left_child;
    right_child = right_child;
    is_open = false;
    current_tuple = none;
  }

  abbrev pub configure : CrossJoin → Bool → CrossJoin
  configure j will_rewind = record j {
    left_child = Left.configure j.left_child will_rewind;
    right_child = Right.configure j.right_child true;
  }

  unfoldable pub open_join : CrossJoin → Outcome CrossJoin
  open_join j = elim (j.is_open) [
    | true ↦ ok j
    | false ↦ do
      left ← Left.open_op j.left_child
      right ← Right.open_op j.right_child
      first ← Left.next left
      ok (record {
        left_child = first.1;
        right_child = right;
        is_open = true;
        current_tuple = first.0;
      })
  ]

  -- The loop of `next`. A loop out of fuel would be a panic.
  unfoldable pub next_pair : ℕ → CrossJoin → Outcome (Option Tuple × CrossJoin)
  next_pair zero j = panic
  next_pair (suc fuel) j = elim (j.current_tuple) [
    | none ↦ ok (none, j)
    | some left_tuple ↦ do
      found ← Right.next j.right_child
      elim found.0 [
        | some right_tuple ↦
            ok (some (merge left_tuple right_tuple), record j { right_child = found.1 })
        | none ↦ do
          right ← Right.rewind found.1
          left ← Left.next j.left_child
          next_pair fuel
              (record j { left_child = left.1; right_child = right; current_tuple = left.0 })
      ]
  ]

  unfoldable pub next : ℕ → CrossJoin → Outcome (Option Tuple × CrossJoin)
  next fuel j = elim (j.is_open) [ false ↦ panic | true ↦ next_pair fuel j ]

  unfoldable pub close : CrossJoin → Outcome CrossJoin
  close j = do
    left ← Left.close j.left_child
    right ← Right.close j.right_child
    ok (record j { left_child = left; right_child = right; is_open = false })

  unfoldable pub rewind : CrossJoin → Outcome CrossJoin
  rewind j = do
    left ← Left.rewind j.left_child
    right ← Right.rewind j.right_child
    first ← Left.next left
    ok (record j { left_child = first.1; right_child = right; current_tuple = first.0 })

  -- The operator, with the fuel of a call of `next`.
  abbrev pub op_iterator : ℕ → OpIterator
  op_iterator fuel = record {
    State = CrossJoin;
    configure = configure;
    open_op = open_join;
    next = next fuel;
    close = close;
    rewind = rewind;
  }
