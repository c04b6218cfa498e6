-- ===== src/Ops/TupleIterator.antt =====
-- The iterator over a list of tuples: queryexe/src/opiterator/tuple_iterator.rs.
pub mod Stream
use crustydb_labs_cs378_spri.Prelude.{
  ℕ, zero, suc, ◌-◌, Bool, true, false, List, [], ◌∷◌, ◌++◌, Option, none, some, Outcome, ok, panic,
  ◌>>=◌, length, get_elem?,
}
use crustydb_labs_cs378_spri.Ops.{Tuple, OpIterator}

pub record TupleIterator : Type 0 where
  pub tuples : List Tuple
  pub will_rewind : Bool
  pub is_open : Bool
  pub index : ℕ

-- `into_iter().rev().collect()`
abbrev pub reverse : List Tuple → List Tuple
reverse [] = []
reverse (t ∷ ts) = reverse ts ++ t ∷ []

abbrev pub new : List Tuple → TupleIterator
new tuples = record {
  tuples = reverse tuples;
  will_rewind = true;
  is_open = false;
  index = length (reverse tuples);
}

abbrev pub configure : TupleIterator → Bool → TupleIterator
configure it will_rewind = record it { will_rewind = will_rewind }

abbrev pub open_iterator : TupleIterator → Outcome TupleIterator
open_iterator it = ok (record it { is_open = true })

-- `Vec::pop`: the last tuple, and the ones before it.
abbrev pub pop_last : List Tuple → Option Tuple × List Tuple
pop_last [] = (none, [])
pop_last (t ∷ []) = (some t, [])
pop_last (t ∷ u ∷ ts) = let rest = pop_last (u ∷ ts) in (rest.0, t ∷ rest.1)

unfoldable pub next : TupleIterator → Outcome (Option Tuple × TupleIterator)
next it = elim (it.is_open) [
  | false ↦ panic
  | true ↦ elim (it.will_rewind) [
    | true ↦ elim (it.index) [
      | zero ↦ ok (none, it)
      | suc i ↦ ok (get_elem? it.tuples i, record it { index = i })
    ]
    | false ↦ let popped = pop_last it.tuples in ok (popped.0, record it { tuples = popped.1 })
  ]
]

abbrev pub close : TupleIterator → Outcome TupleIterator
close it = ok (record it { index = 0; is_open = false })

unfoldable pub rewind : TupleIterator → Outcome TupleIterator
rewind it = elim (it.is_open) [
  | false ↦ panic
  | true ↦ elim (it.will_rewind) [
    | false ↦ panic
    | true ↦ ok (record it { index = length it.tuples })
  ]
]

abbrev pub op_iterator : OpIterator
op_iterator = record {
  State = TupleIterator;
  configure = configure;
  open_op = open_iterator;
  next = next;
  close = close;
  rewind = rewind;
}
