-- ===== src/Ops/TupleIterator/Stream.antt =====
-- The tuples that the iterator gives, in both of its modes.
use crustydb_labs_cs378_spri.Prelude.{
  ok_inj, zero, ℕ, suc, ◌≡◌, refl, sym, ap, ◌∙◌, subst, Bool, true, false, List, [], ◌∷◌, ◌++◌,
  Option, some, ok, length, length-append, get_elem?, arith,
}
use crustydb_labs_cs378_spri.Ops.{Tuple, Yields, Rewinds}
use crustydb_labs_cs378_spri.Ops.TupleIterator.{
  TupleIterator, reverse, new, configure, open_iterator, pop_last, next, close, rewind, op_iterator,
}

-- The state of an open iterator that may be rewound.
abbrev at : List Tuple → ℕ → TupleIterator
at tuples i = record { tuples = tuples; will_rewind = true; is_open = true; index = i }

middle :
    (xs : List Tuple) (t : Tuple) (ys : List Tuple)
    → ((xs ++ t ∷ []) ++ ys ≡ xs ++ t ∷ ys) × (get_elem? (xs ++ t ∷ ys) (length xs) ≡ some t)
middle [] t ys = (refl, refl)
middle (x ∷ xs) t ys = (ap (λ l. x ∷ l) (middle xs t ys).0, (middle xs t ys).1)

nothing_after : (xs : List Tuple) → xs ++ [] ≡ xs
nothing_after [] = refl
nothing_after (x ∷ xs) = ap (λ l. x ∷ l) (nothing_after xs)

pop_last-append : (xs : List Tuple) (t : Tuple) → pop_last (xs ++ t ∷ []) ≡ (some t, xs)
pop_last-append [] t = refl
pop_last-append (x ∷ []) t = refl
pop_last-append (x ∷ y ∷ xs) t = rw (pop_last-append (y ∷ xs) t)

next_at :
    (tuples : List Tuple) (i : ℕ) {j : ℕ} (t : Tuple)
    → j ≡ suc i
    → get_elem? tuples i ≡ some t
    → next (at tuples j) ≡ ok (some t, at tuples i)
unfolding next
next_at tuples i t e h = rw (e, h)

Yields-kept :
    (ts rest : List Tuple) → Yields op_iterator (at (reverse ts ++ rest) (length (reverse ts))) ts
unfolding next
Yields-kept [] rest = (at rest 0, refl)
Yields-kept (t ∷ ts) rest =
    let (e, at_t) = middle (reverse ts) t rest in
    (
      at (reverse ts ++ t ∷ rest) (length (reverse ts)),
      rw (e) (
          next_at (reverse ts ++ t ∷ rest) (length (reverse ts)) t
            (omega (arith, length-append (reverse ts) (t ∷ []))) at_t),
      Yields-kept ts (t ∷ rest),
    )

Yields-consumed :
    (ts : List Tuple) (i : ℕ)
    → Yields op_iterator
        (record { tuples = reverse ts; will_rewind = false; is_open = true; index = i })
        ts
unfolding next
Yields-consumed [] i = (_, refl)
Yields-consumed (t ∷ ts) i = (
  record { tuples = reverse ts; will_rewind = false; is_open = true; index = i },
  rw (pop_last-append (reverse ts) t),
  Yields-consumed ts i,
)

-- A new iterator over `ts`, configured either way, opens and then gives exactly `ts`, in order, and
-- the end.
pub open_iterator-Yields :
    (ts : List Tuple) (will_rewind : Bool)
    → (it : TupleIterator) × (open_iterator (configure (new ts) will_rewind) ≡ ok it)
      × Yields op_iterator it ts
open_iterator-Yields ts true = (
  at (reverse ts) (length (reverse ts)),
  refl,
  subst (λ l. Yields op_iterator (at l (length (reverse ts))) ts) (nothing_after (reverse ts))
      (Yields-kept ts []),
)
open_iterator-Yields ts false = (_, refl, Yields-consumed ts (length (reverse ts)))

-- An open iterator over `ts` that may be rewound.
abbrev pub Open : List Tuple → TupleIterator → Type 0
Open ts it = (it.tuples ≡ reverse ts) × (it.will_rewind ≡ true) × (it.is_open ≡ true)

Open-at : (ts : List Tuple) (it : TupleIterator) → Open ts it → it ≡ at it.tuples it.index
Open-at ts it h =
    ap (λ w. record it { will_rewind = w }) h.1
    ∙ ap (λ w. record it { will_rewind = true; is_open = w }) h.2

next-at :
    (tuples : List Tuple) (i : ℕ) (it' : TupleIterator) (o : Option Tuple)
    → next (at tuples i) ≡ ok (o, it')
    → (it'.tuples ≡ tuples) × ((it'.will_rewind ≡ true) × (it'.is_open ≡ true))
unfolding next
next-at tuples zero it' o h =
    subst (λ s. (s.tuples ≡ tuples) × ((s.will_rewind ≡ true) × (s.is_open ≡ true)))
      (ap (λ p. p.1) (ok_inj _ _ h)) (refl, (refl, refl))
next-at tuples (suc i) it' o h =
    subst (λ s. (s.tuples ≡ tuples) × ((s.will_rewind ≡ true) × (s.is_open ≡ true)))
      (ap (λ p. p.1) (ok_inj _ _ h)) (refl, (refl, refl))

next-Open :
    (ts : List Tuple) (it it' : TupleIterator) (o : Option Tuple)
    → Open ts it
    → next it ≡ ok (o, it')
    → Open ts it'
next-Open ts it it' o h e =
    let (same, kept) = next-at it.tuples it.index it' o (sym (ap next (Open-at ts it h)) ∙ e) in
    (same ∙ h.0, kept.0, kept.1)

-- An open iterator over `ts` that was configured to be rewound gives all of `ts` again after every
-- rewind, whatever was read before.
pub rewind-Rewinds : (ts : List Tuple) → Rewinds op_iterator (Open ts) ts
unfolding rewind
rewind-Rewinds ts = record {
  keeps = λ s s' o. next-Open ts s s' o;
  again = λ s h. (
    at (reverse ts) (length (reverse ts)),
    ap rewind (Open-at ts s h) ∙ ap (λ l. ok (at l (length l))) h.0,
    (refl, refl, refl),
    subst (λ l. Yields op_iterator (at l (length (reverse ts))) ts) (nothing_after (reverse ts))
        (Yields-kept ts []),
  );
}

-- An iterator that was configured to be rewound, closed and opened again gives no tuples, whatever
-- tuples it holds. This contradicts the documentation of the trait (`close` in opiterator/mod.rs), by which
-- an `open` after `close` initialises the operator again: `close` sets the index to 0, from where `next`
-- counts down, and `open` leaves it there.
pub close-Yields :
    (it : TupleIterator)
    → it.will_rewind ≡ true
    → (closed reopened : TupleIterator) × (close it ≡ ok closed)
      × (open_iterator closed ≡ ok reopened)
      × Yields op_iterator reopened []
unfolding next
close-Yields it h = (
  record it { index = 0; is_open = false },
  record it { index = 0; is_open = true },
  refl,
  refl,
  (at it.tuples 0, ap (λ w. next (record it { index = 0; is_open = true; will_rewind = w })) h),
)
