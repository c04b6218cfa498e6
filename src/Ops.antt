-- ===== src/Ops.antt =====
-- The query operators: queryexe/src/opiterator.
-- `OpIterator` is the trait of mod.rs; an operator takes its children as parameters of it.
use crustydb_labs_cs378_spri.Prelude.{
  ℕ, Bool, List, [], ◌∷◌, ◌++◌, Option, none, some, Outcome, ok, ◌≡◌, sym, ◌∙◌,
}
use crustydb_labs_cs378_spri.Common.Ids.{ValueId}
use crustydb_labs_cs378_spri.Expr.Field.{Field}
pub mod TupleIterator
pub mod Filter
pub mod Project
pub mod CrossJoin
mod Tests

pub record Tuple : Type 0 where
  pub tid : ℕ
  pub value_id : Option ValueId
  pub field_vals : List Field

-- `Tuple::new`
abbrev pub new : List Field → Tuple
new field_vals = record { tid = 0; value_id = none; field_vals = field_vals }

-- `Tuple::merge`
abbrev pub merge : Tuple → Tuple → Tuple
merge t other = new (t.field_vals ++ other.field_vals)

-- An error or a panic ends the query, so the state is kept only where a call returns a value. The
-- schema, which an operator only hands out, is left out.
pub record OpIterator : Type 1 where
  pub State : Type 0
  pub configure : State → Bool → State
  pub open_op : State → Outcome State
  pub next : State → Outcome (Option Tuple × State)
  pub close : State → Outcome State
  pub rewind : State → Outcome State

module _ (O : OpIterator) where
  -- Calls of `next` from `s` give the tuples in order, and then the end.
  abbrev pub Yields : O.State → List Tuple → Type 0
  Yields s [] = (s' : O.State) × (O.next s ≡ ok (none, s'))
  Yields s (t ∷ ts) = (s' : O.State) × (O.next s ≡ ok (some t, s')) × Yields s' ts

  -- From a state of `Good`, whatever was read, a rewind gives all of the tuples again.
  pub record Rewinds (Good : O.State → Type 0) (ts : List Tuple) : Type 0 where
    pub keeps : (s s' : O.State) (o : Option Tuple) → Good s → O.next s ≡ ok (o, s') → Good s'
    pub again :
        (s : O.State) → Good s → (s' : O.State) × (O.rewind s ≡ ok s') × Good s' × Yields s' ts

-- What is yielded depends on a state only through `next`.
pub Yields-next :
    (O : OpIterator) (s₁ s₂ : O.State) (ts : List Tuple)
    → O.next s₁ ≡ O.next s₂
    → Yields O s₁ ts
    → Yields O s₂ ts
Yields-next O s₁ s₂ [] e (s', h) = (s', sym e ∙ h)
Yields-next O s₁ s₂ (t ∷ ts) e (s', h, rest) = (s', sym e ∙ h, rest)
