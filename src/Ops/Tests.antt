-- ===== src/Ops/Tests.antt =====
-- The operators over iterators of a few tuples of one number.
use crustydb_labs_cs378_spri.Prelude.{
  ℕ, ◌≡◌, refl, Bool, true, false, List, [], ◌∷◌, none, ok, arith,
}
use crustydb_labs_cs378_spri.Prelude.Int.{pos, ltb_ℤ, ◌+ℤ◌}
use crustydb_labs_cs378_spri.Expr.Field.{
  Field, int, quotient, lt_field, math_field, add_field, int64,
}
use crustydb_labs_cs378_spri.Expr.Bytecode.{ByteCodeExpr, eval, run_codes, dispatch, boolean_field}
use crustydb_labs_cs378_spri.Ops.{Tuple, OpIterator, Yields, Rewinds}
use crustydb_labs_cs378_spri.Ops
use crustydb_labs_cs378_spri.Ops.TupleIterator
use crustydb_labs_cs378_spri.Ops.TupleIterator.Stream.{
  open_iterator-Yields, rewind-Rewinds, close-Yields, Open,
}
use crustydb_labs_cs378_spri.Ops.Filter
use crustydb_labs_cs378_spri.Ops.Filter.Stream.{Decides, open_filter-Yields}
use crustydb_labs_cs378_spri.Ops.Project
use crustydb_labs_cs378_spri.Ops.Project.Stream.{Projects, open_project-Yields}
use crustydb_labs_cs378_spri.Ops.CrossJoin
use crustydb_labs_cs378_spri.Ops.CrossJoin.Stream.{cross, open_join-Yields, rewind-Yields}

abbrev row : ℕ → Tuple
row n = Ops.new (int (pos n) ∷ [])

abbrev rows : List Tuple
rows = row 2 ∷ row 5 ∷ row 9 ∷ []

abbrev others : List Tuple
others = row 1 ∷ row 4 ∷ []

-- `column 0 > 3`
abbrev above_3 : ByteCodeExpr
above_3 = record { bytecodes = 1 ∷ 0 ∷ 0 ∷ 0 ∷ 9 ∷ []; literals = int (pos 3) ∷ [] }

-- `column 0 + 1`
abbrev plus_1 : ByteCodeExpr
plus_1 = record { bytecodes = 1 ∷ 0 ∷ 0 ∷ 0 ∷ 2 ∷ []; literals = int (pos 1) ∷ [] }

abbrev keep : Tuple → Bool
keep t = elim (t.field_vals) [ int v ∷ _ ↦ ltb_ℤ (pos 3) v | _ ↦ false ]

abbrev image : Tuple → List Field
image t = elim (t.field_vals) [ int v ∷ _ ↦ int (v +ℤ pos 1) ∷ [] | _ ↦ [] ]

abbrev Rows : OpIterator
Rows = TupleIterator.op_iterator

abbrev ready : List Tuple → TupleIterator.TupleIterator
ready ts = record (TupleIterator.new ts) { is_open = true }

Yields-rows : Yields Rows (ready rows) rows
unfolding TupleIterator.next
Yields-rows = (_, refl, (_, refl, (_, refl, (_, refl))))

Yields-others : Yields Rows (ready others) others
unfolding TupleIterator.next
Yields-others = (_, refl, (_, refl, (_, refl)))

open_iterator-Yields_example :
    (it : TupleIterator.TupleIterator) × (TupleIterator.open_iterator
        (TupleIterator.configure (TupleIterator.new rows) false)
      ≡ ok it)
    × Yields Rows it rows
open_iterator-Yields_example = open_iterator-Yields rows false

rewind-Rewinds_example : Rewinds Rows (Open rows) rows
rewind-Rewinds_example = rewind-Rewinds rows

close-Yields_example :
    (closed reopened : TupleIterator.TupleIterator) × (TupleIterator.close (ready rows) ≡ ok closed)
    × (TupleIterator.open_iterator closed ≡ ok reopened)
    × Yields Rows reopened []
close-Yields_example = close-Yields (ready rows) refl

decides : Decides quotient Rows above_3 keep rows
unfolding eval run_codes dispatch boolean_field lt_field
decides = (refl, (refl, (refl, tt)))

projects : Projects quotient Rows (plus_1 ∷ []) image rows
unfolding eval run_codes dispatch math_field add_field int64 ◌+ℤ◌
projects = ((refl, tt), ((refl, tt), ((refl, tt), tt)))

open_filter-Yields_example :
    (f : Filter.Filter quotient Rows) × (Filter.open_filter quotient Rows
        (Filter.new quotient Rows above_3 (TupleIterator.new rows))
      ≡ ok f)
    × Yields (Filter.op_iterator quotient Rows 4) f (row 5 ∷ row 9 ∷ [])
open_filter-Yields_example =
    open_filter-Yields quotient Rows above_3 keep 4 (TupleIterator.new rows) (ready rows) rows refl
      Yields-rows decides (omega arith)

open_project-Yields_example :
    (p : Project.Project quotient Rows) × (Project.open_project quotient Rows
        (Project.new quotient Rows (plus_1 ∷ []) (TupleIterator.new rows))
      ≡ ok p)
    × Yields (Project.op_iterator quotient Rows) p (row 3 ∷ row 6 ∷ row 10 ∷ [])
unfolding ◌+ℤ◌
open_project-Yields_example =
    open_project-Yields quotient Rows (plus_1 ∷ []) image (TupleIterator.new rows) (ready rows) rows
      refl Yields-rows projects

open_join-Yields_example :
    (j : CrossJoin.CrossJoin Rows Rows) × (CrossJoin.open_join Rows Rows
        (CrossJoin.new Rows Rows (TupleIterator.new rows) (TupleIterator.new others))
      ≡ ok j)
    × Yields (CrossJoin.op_iterator Rows Rows 4) j (cross rows others)
open_join-Yields_example =
    open_join-Yields Rows Rows (Open others) rows others 4 (TupleIterator.new rows) (ready rows)
      (TupleIterator.new others) (ready others) (rewind-Rewinds others) refl refl Yields-rows
      Yields-others (refl, refl, refl) (omega arith)

-- A join that has been read to its end.
abbrev at_end : CrossJoin.CrossJoin Rows Rows
at_end = record {
  left_child = record (ready rows) { index = 0 };
  right_child = ready others;
  is_open = true;
  current_tuple = none;
}

rewind-Yields_example :
    (j : CrossJoin.CrossJoin Rows Rows) × (CrossJoin.rewind Rows Rows at_end ≡ ok j)
    × Yields (CrossJoin.op_iterator Rows Rows 4) j (cross rows others)
unfolding TupleIterator.rewind
rewind-Yields_example =
    rewind-Yields Rows Rows (Open others) rows others 4 at_end (ready rows) (rewind-Rewinds others)
      refl refl Yields-rows (refl, refl, refl) (omega arith)
