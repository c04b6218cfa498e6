-- ===== src/Ops/Project/Stream.antt =====
-- The tuples of a projection.
use crustydb_labs_cs378_spri.Prelude.{refl, ◌≡◌, List, [], ◌∷◌, map, ok, true}
use crustydb_labs_cs378_spri.Prelude.Int.{ℤ}
use crustydb_labs_cs378_spri.Expr.Field.{Field}
use crustydb_labs_cs378_spri.Expr.Bytecode.{ByteCodeExpr, eval}
use crustydb_labs_cs378_spri.Ops.{Tuple, OpIterator, Yields}
use crustydb_labs_cs378_spri.Ops
use crustydb_labs_cs378_spri.Ops.Project.{
  Project, new, open_project, eval_fields, next, op_iterator,
}

-- The columns evaluate to the values, one by one.
abbrev pub Columns : (ℤ → ℤ → ℤ) → List ByteCodeExpr → List Field → List Field → Type 0
Columns round_div [] record' [] = Unit
Columns round_div [] record' (v ∷ vs) = ⊥
Columns round_div (e ∷ es) record' [] = ⊥
Columns round_div (e ∷ es) record' (v ∷ vs) =
    (eval round_div e record' ≡ ok v) × Columns round_div es record' vs

module _ (round_div : ℤ → ℤ → ℤ) (Child : OpIterator) (fields : List ByteCodeExpr)
    (image : Tuple → List Field) where
  -- The columns have values on each of the tuples.
  abbrev pub Projects : List Tuple → Type 0
  Projects [] = Unit
  Projects (t ∷ ts) = Columns round_div fields t.field_vals (image t) × Projects ts

  eval_fields-Columns :
      (es : List ByteCodeExpr) (record' vs : List Field)
      → Columns round_div es record' vs
      → eval_fields round_div Child es record' ≡ ok vs
  unfolding eval_fields
  eval_fields-Columns [] record' [] h = refl
  eval_fields-Columns [] record' (v ∷ vs) h = absurd h
  eval_fields-Columns (e ∷ es) record' [] h = absurd h
  eval_fields-Columns (e ∷ es) record' (v ∷ vs) (at_e, h) =
      rw (at_e, eval_fields-Columns es record' vs h)

  abbrev opened : Child.State → Project round_div Child
  opened child = record { fields = fields; child = child; is_open = true }

  Yields-map :
      (ts : List Tuple) (child : Child.State)
      → Yields Child child ts
      → Projects ts
      → Yields (op_iterator round_div Child) (opened child) (map (λ t. Ops.new (image t)) ts)
  unfolding next
  Yields-map [] child (c, h) p = (opened c, rw h)
  Yields-map (t ∷ ts) child (c, h, rest) (at_t, p) = (
    opened c,
    rw (h, eval_fields-Columns fields t.field_vals (image t) at_t),
    Yields-map ts c rest p,
  )

-- A new projection over a child that opens and then gives the tuples `ts`, on each of which the
-- expressions evaluate to the values of `image`, opens, and then gives for each tuple of `ts`, in
-- order, the new tuple of those values, and the end.
pub open_project-Yields :
    (round_div : ℤ → ℤ → ℤ) (Child : OpIterator) (fields : List ByteCodeExpr)
    (image : Tuple → List Field) (child child' : Child.State) (ts : List Tuple)
    → Child.open_op child ≡ ok child'
    → Yields Child child' ts
    → Projects round_div Child fields image ts
    → (p : Project round_div Child) × (open_project round_div Child
          (new round_div Child fields child)
        ≡ ok p)
      × Yields (op_iterator round_div Child) p (map (λ t. Ops.new (image t)) ts)
unfolding open_project
open_project-Yields round_div Child fields image child child' ts h y p = (
  opened round_div Child fields image child',
  rw h,
  Yields-map round_div Child fields image ts child' y p,
)
