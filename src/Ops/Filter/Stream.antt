-- ===== src/Ops/Filter/Stream.antt =====
-- The tuples that a filter lets through.
use crustydb_labs_cs378_spri.Prelude.{
  ℕ, zero, suc, ◌<◌, ◌≡◌, refl, sym, ap, ◌∙◌, inl, inr, Bool, true, false, Bool-cases, List, [],
  ◌∷◌, none, some, ok, ◌>>=◌, if◌then◌else◌, length, arith,
}
use crustydb_labs_cs378_spri.Prelude.Int.{ℤ}
use crustydb_labs_cs378_spri.Expr.Field.{bool}
use crustydb_labs_cs378_spri.Expr.Bytecode.{ByteCodeExpr, eval}
use crustydb_labs_cs378_spri.Ops.{Tuple, OpIterator, Yields, Yields-next}
use crustydb_labs_cs378_spri.Ops.Filter.{Filter, new, open_filter, next_match, next, op_iterator}

-- The tuples that pass a test, in order.
abbrev pub select : (Tuple → Bool) → List Tuple → List Tuple
select keep [] = []
select keep (t ∷ ts) = if keep t then t ∷ select keep ts else select keep ts

module _ (round_div : ℤ → ℤ → ℤ) (Child : OpIterator) (predicate : ByteCodeExpr)
    (keep : Tuple → Bool) where
  -- The predicate evaluates to a Boolean on each of the tuples.
  abbrev pub Decides : List Tuple → Type 0
  Decides [] = Unit
  Decides (t ∷ ts) = (eval round_div predicate t.field_vals ≡ ok (bool (keep t))) × Decides ts

  abbrev opened : Child.State → Filter round_div Child
  opened child = record { predicate = predicate; child = child; is_open = true }

  -- One round of the loop, at a tuple that is let through or not.
  next_match-keep :
      (fuel : ℕ) (child child' : Child.State) (t : Tuple)
      → Child.next child ≡ ok (some t, child')
      → eval round_div predicate t.field_vals ≡ ok (bool (keep t))
      → keep t ≡ true
      → next_match round_div Child (suc fuel) predicate child ≡ ok (some t, child')
  unfolding next_match
  next_match-keep fuel child child' t h v k = rw (h, v, k)

  next_match_skip :
      (fuel : ℕ) (child child' : Child.State) (t : Tuple)
      → Child.next child ≡ ok (some t, child')
      → eval round_div predicate t.field_vals ≡ ok (bool (keep t))
      → keep t ≡ false
      → next_match round_div Child (suc fuel) predicate child
        ≡ next_match round_div Child fuel predicate child'
  unfolding next_match
  next_match_skip fuel child child' t h v k = rw (h, v, k)

  next_match_end :
      (fuel : ℕ) (child child' : Child.State)
      → Child.next child ≡ ok (none, child')
      → next_match round_div Child (suc fuel) predicate child ≡ ok (none, child')
  unfolding next_match
  next_match_end fuel child child' h = rw h

  -- More fuel than tuples are left changes nothing.
  next_match_fuel :
      (ts : List Tuple) (f g : ℕ) (child : Child.State)
      → Yields Child child ts
      → Decides ts
      → length ts < f
      → length ts < g
      → next_match round_div Child f predicate child ≡ next_match round_div Child g predicate child
  next_match_fuel [] (suc f) (suc g) child (c, h) d lf lg =
      next_match_end f child c h ∙ sym (next_match_end g child c h)
  next_match_fuel (t ∷ ts) (suc f) (suc g) child (c, h, rest) (v, d) lf lg =
      elim (Bool-cases (keep t)) [
        | inl k ↦ next_match-keep f child c t h v k ∙ sym (next_match-keep g child c t h v k)
        | inr k ↦
            next_match_skip f child c t h v k
            ∙ next_match_fuel ts f g c rest d (omega arith) (omega arith)
            ∙ sym (next_match_skip g child c t h v k)
      ]
  next_match_fuel ts zero g child y d lf lg = absurd (omega arith)
  next_match_fuel ts f zero child y d lf lg = absurd (omega arith)

  next_opened :
      (fuel : ℕ) (child : Child.State)
      → next round_div Child fuel (opened child)
        ≡ (next_match round_div Child fuel predicate child >>= λ res. ok (res.0, opened res.1))
  unfolding next
  next_opened fuel child = refl

  Yields-select :
      (ts : List Tuple) (fuel : ℕ) (child : Child.State)
      → Yields Child child ts
      → Decides ts
      → length ts < fuel
      → Yields (op_iterator round_div Child fuel) (opened child) (select keep ts)
  Yields-select ts zero child y d lt' = absurd (omega arith)
  Yields-select [] (suc fuel) child (c, h) d lt' =
      (opened c, next_opened (suc fuel) child ∙ rw (next_match_end fuel child c h))
  Yields-select (t ∷ ts) (suc fuel) child (c, h, rest) (v, d) lt' =
      let others = Yields-select ts (suc fuel) c rest d (omega arith) in
      elim (Bool-cases (keep t)) [
        | inl k ↦ rw (k) (
          opened c,
          next_opened (suc fuel) child ∙ rw (next_match-keep fuel child c t h v k),
          others,
        )
        | inr k ↦
            let same =
              next_match_skip fuel child c t h v k
              ∙ next_match_fuel ts fuel (suc fuel) c rest d (omega arith) (omega arith) in
            rw (k) (
              Yields-next (op_iterator round_div Child (suc fuel)) (opened c) (opened child)
                (select keep ts)
                (next_opened (suc fuel) c
                  ∙ ap (λ m. m >>= λ res. ok (res.0, opened res.1)) (sym same)
                  ∙ sym (next_opened (suc fuel) child))
                others)
      ]

-- A new filter over a child that opens and then gives the tuples `ts`, on each of which the predicate
-- evaluates to the Boolean of `keep`, opens, and then gives exactly the tuples of `ts` that `keep`
-- accepts, in order, and the end, if the fuel of a call is above the number of tuples.
pub open_filter-Yields :
    (round_div : ℤ → ℤ → ℤ) (Child : OpIterator) (predicate : ByteCodeExpr) (keep : Tuple → Bool)
    (fuel : ℕ) (child child' : Child.State) (ts : List Tuple)
    → Child.open_op child ≡ ok child'
    → Yields Child child' ts
    → Decides round_div Child predicate keep ts
    → length ts < fuel
    → (f : Filter round_div Child) × (open_filter round_div Child
          (new round_div Child predicate child)
        ≡ ok f)
      × Yields (op_iterator round_div Child fuel) f (select keep ts)
unfolding open_filter
open_filter-Yields round_div Child predicate keep fuel child child' ts h y d enough = (
  opened round_div Child predicate keep child',
  rw h,
  Yields-select round_div Child predicate keep ts fuel child' y d enough,
)
