-- ===== src/Ops/CrossJoin/Stream.antt =====
-- The pairs that a cross join gives.
use crustydb_labs_cs378_spri.Prelude.{
  ℕ, zero, suc, ◌+◌, ◌<◌, ◌≡◌, refl, sym, ◌∙◌, true, List, [], ◌∷◌, ◌++◌, map, Option, none, some,
  ok, length, arith,
}
use crustydb_labs_cs378_spri.Ops.{Tuple, merge, OpIterator, Yields, Yields-next, Rewinds}
use crustydb_labs_cs378_spri.Ops.CrossJoin.{
  CrossJoin, new, open_join, next_pair, next, rewind, op_iterator,
}

-- Every tuple of the left with every one of the right, the left one slower.
abbrev pub cross : List Tuple → List Tuple → List Tuple
cross [] ys = []
cross (x ∷ xs) ys = map (merge x) ys ++ cross xs ys

module _ (Left Right : OpIterator) (Good : Right.State → Type 0) (ys : List Tuple)
    (law : Rewinds Right Good ys) where
  abbrev joined : Left.State → Right.State → Option Tuple → CrossJoin Left Right
  joined l r o = record { left_child = l; right_child = r; is_open = true; current_tuple = o }

  next_pair_found :
      (fuel : ℕ) (l : Left.State) (r r' : Right.State) (x y : Tuple)
      → Right.next r ≡ ok (some y, r')
      → next_pair Left Right (suc fuel) (joined l r (some x))
        ≡ ok (some (merge x y), joined l r' (some x))
  unfolding next_pair
  next_pair_found fuel l r r' x y h = rw h

  next_pair_turn :
      (fuel : ℕ) (l l' : Left.State) (r r' r'' : Right.State) (x : Tuple) (o : Option Tuple)
      → Right.next r ≡ ok (none, r')
      → Right.rewind r' ≡ ok r''
      → Left.next l ≡ ok (o, l')
      → next_pair Left Right (suc fuel) (joined l r (some x))
        ≡ next_pair Left Right fuel (joined l' r'' o)
  unfolding next_pair
  next_pair_turn fuel l l' r r' r'' x o h back m = rw (h, back, m)

  next_pair_end :
      (fuel : ℕ) (l : Left.State) (r : Right.State)
      → next_pair Left Right (suc fuel) (joined l r none) ≡ ok (none, joined l r none)
  unfolding next_pair
  next_pair_end fuel l r = refl

  -- More fuel than the rest of the left needs changes nothing.
  next_pair_fuel :
      (xs rs : List Tuple) (f g : ℕ) (l : Left.State) (r : Right.State) (x : Tuple)
      → Yields Left l xs
      → Yields Right r rs
      → Good r
      → length xs + 1 < f
      → length xs + 1 < g
      → next_pair Left Right f (joined l r (some x)) ≡ next_pair Left Right g (joined l r (some x))
  next_pair_fuel xs (y ∷ rs) (suc f) (suc g) l r x yl (r', h, yr) good lf lg =
      next_pair_found f l r r' x y h ∙ sym (next_pair_found g l r r' x y h)
  next_pair_fuel [] [] (suc (suc f)) (suc (suc g)) l r x (l', m) (r', h) good lf lg =
      let (r'', back, good', yr') = law.again r' (law.keeps r r' none good h) in
      next_pair_turn (suc f) l l' r r' r'' x none h back m
      ∙ next_pair_end f l' r''
      ∙ sym (next_pair_end g l' r'')
      ∙ sym (next_pair_turn (suc g) l l' r r' r'' x none h back m)
  next_pair_fuel (x' ∷ xs) [] (suc f) (suc g) l r x (l', m, yl) (r', h) good lf lg =
      let (r'', back, good', yr') = law.again r' (law.keeps r r' none good h) in
      next_pair_turn f l l' r r' r'' x (some x') h back m
      ∙ next_pair_fuel xs ys f g l' r'' x' yl yr' good' (omega arith) (omega arith)
      ∙ sym (next_pair_turn g l l' r r' r'' x (some x') h back m)
  next_pair_fuel xs rs zero g l r x yl yr good lf lg = absurd (omega arith)
  next_pair_fuel xs rs f zero l r x yl yr good lf lg = absurd (omega arith)
  next_pair_fuel [] [] (suc zero) g l r x yl yr good lf lg = absurd (omega arith)
  next_pair_fuel [] [] f (suc zero) l r x yl yr good lf lg = absurd (omega arith)

  next_joined :
      (fuel : ℕ) (l : Left.State) (r : Right.State) (o : Option Tuple)
      → next Left Right fuel (joined l r o) ≡ next_pair Left Right fuel (joined l r o)
  unfolding next
  next_joined fuel l r o = refl

  Yields-end :
      (fuel : ℕ) (l : Left.State) (r : Right.State)
      → Yields (op_iterator Left Right (suc fuel)) (joined l r none) []
  Yields-end fuel l r = (joined l r none, next_joined (suc fuel) l r none ∙ next_pair_end fuel l r)

  Yields-pairs :
      (xs rs : List Tuple) (fuel : ℕ) (l : Left.State) (r : Right.State) (x : Tuple)
      → Yields Left l xs
      → Yields Right r rs
      → Good r
      → length xs + 1 < fuel
      → Yields (op_iterator Left Right fuel) (joined l r (some x)) (map (merge x) rs ++ cross xs ys)
  Yields-pairs xs rs zero l r x yl yr good enough = absurd (omega arith)
  Yields-pairs xs (y ∷ rs) (suc fuel) l r x yl (r', h, yr) good enough = (
    joined l r' (some x),
    next_joined (suc fuel) l r (some x) ∙ next_pair_found fuel l r r' x y h,
    Yields-pairs xs rs (suc fuel) l r' x yl yr (law.keeps r r' (some y) good h) enough,
  )
  Yields-pairs [] [] (suc zero) l r x yl yr good enough = absurd (omega arith)
  Yields-pairs [] [] (suc (suc fuel)) l r x (l', m) (r', h) good enough =
      let (r'', back, good', yr') = law.again r' (law.keeps r r' none good h) in
      (
        joined l' r'' none,
        next_joined (suc (suc fuel)) l r (some x)
            ∙ next_pair_turn (suc fuel) l l' r r' r'' x none h back m
            ∙ next_pair_end fuel l' r'',
      )
  Yields-pairs (x' ∷ xs) [] (suc fuel) l r x (l', m, yl) (r', h) good enough =
      let (r'', back, good', yr') = law.again r' (law.keeps r r' none good h) in
      Yields-next (op_iterator Left Right (suc fuel)) (joined l' r'' (some x'))
        (joined l r (some x)) (map (merge x') ys ++ cross xs ys)
        (next_joined (suc fuel) l' r'' (some x')
          ∙ next_pair_fuel xs ys (suc fuel) fuel l' r'' x' yl yr' good' (omega arith) (omega arith)
          ∙ sym (next_pair_turn fuel l l' r r' r'' x (some x') h back m)
          ∙ sym (next_joined (suc fuel) l r (some x)))
        (Yields-pairs xs ys (suc fuel) l' r'' x' yl yr' good' (omega arith))

  -- The state that `open` and `rewind` reach.
  Yields-first :
      (xs : List Tuple) (fuel : ℕ) (l : Left.State) (r : Right.State)
      → Yields Left l xs
      → Yields Right r ys
      → Good r
      → length xs < fuel
      → (o : Option Tuple) × (l' : Left.State) × (Left.next l ≡ ok (o, l'))
        × Yields (op_iterator Left Right fuel) (joined l' r o) (cross xs ys)
  Yields-first xs zero l r yl yr good enough = absurd (omega arith)
  Yields-first [] (suc fuel) l r (l', m) yr good enough = (none, l', m, Yields-end fuel l' r)
  Yields-first (x ∷ xs) (suc fuel) l r (l', m, yl) yr good enough =
      (some x, l', m, Yields-pairs xs ys (suc fuel) l' r x yl yr good (omega arith))

-- A new cross join whose left child opens and gives `xs`, and whose right child opens to a state that
-- gives `ys` and gives them again after every rewind, opens, and then gives each tuple of `xs` merged
-- with each one of `ys`, the left one slower, and the end, if the fuel of a call is above the number
-- of left tuples.
pub open_join-Yields :
    (Left Right : OpIterator) (Good : Right.State → Type 0) (xs ys : List Tuple) (fuel : ℕ)
    (l l' : Left.State) (r r' : Right.State)
    → Rewinds Right Good ys
    → Left.open_op l ≡ ok l'
    → Right.open_op r ≡ ok r'
    → Yields Left l' xs
    → Yields Right r' ys
    → Good r'
    → length xs < fuel
    → (j : CrossJoin Left Right) × (open_join Left Right (new Left Right l r) ≡ ok j)
      × Yields (op_iterator Left Right fuel) j (cross xs ys)
unfolding open_join
open_join-Yields Left Right Good xs ys fuel l l' r r' law hl hr yl yr good enough =
    let (o, l'', m, y) = Yields-first Left Right Good ys law xs fuel l' r' yl yr good enough in
    (_, rw (hl, hr, m), y)

-- From any open state of a cross join whose left child rewinds to give `xs`, and whose right child
-- gives `ys` after every rewind, a rewind succeeds, and all of the pairs are given again.
pub rewind-Yields :
    (Left Right : OpIterator) (Good : Right.State → Type 0) (xs ys : List Tuple) (fuel : ℕ)
    (j : CrossJoin Left Right) (l' : Left.State)
    → Rewinds Right Good ys
    → j.is_open ≡ true
    → Left.rewind j.left_child ≡ ok l'
    → Yields Left l' xs
    → Good j.right_child
    → length xs < fuel
    → (j' : CrossJoin Left Right) × (rewind Left Right j ≡ ok j')
      × Yields (op_iterator Left Right fuel) j' (cross xs ys)
unfolding rewind
rewind-Yields Left Right Good xs ys fuel j l' law is_open hl yl good enough =
    let (r', hr, good', yr) = law.again j.right_child good in
    let (o, l'', m, y) = Yields-first Left Right Good ys law xs fuel l' r' yl yr good' enough in
    (
      record { left_child = l''; right_child = r'; is_open = true; current_tuple = o },
      rw (hl, hr, m, is_open),
      y,
    )
