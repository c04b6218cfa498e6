-- ===== src/Mem/Scan.antt =====
-- The iterator over a container: `ValueIterator`, called until its end.
use crustydb_labs_cs378_spri.Prelude.{
  ℕ, zero, suc, ◌+◌, ◌^◌, ◌≤◌, ◌<◌, ◌≡◌, refl, subst, sym, ap, ◌∙◌, true, false, List, [], ◌∷◌,
  Option, none, some, leb, Outcome, ok, panic, ◌>>=◌, >>=-ok, inl, inr, ◌⊎◌, Option-cases, arith,
}
use crustydb_labs_cs378_spri.Common.Ids.{ValueId, new_container}
use crustydb_labs_cs378_spri.Mem.{
  Bytes, ContainerMap, StorageManager, ValueIterator, value_slot, next_u16, advance, next,
  get_iterator, slot_or_zero, new_iterator,
}
use crustydb_labs_cs378_spri.Mem.Values.{Inv}

-- What follows an item, and nothing after the end.
abbrev keep_on :
    (ValueIterator → Outcome (List (Bytes × ValueId)))
    → Option (Bytes × ValueId) × ValueIterator
    → Outcome (List (Bytes × ValueId))
keep_on more (none, it) = ok []
keep_on more (some x, it) = do rest ← more it; ok (x ∷ rest)

-- A `for` loop over the iterator, with nothing changed between the calls.
unfoldable pub drain : ℕ → ℕ → ContainerMap → ValueIterator → Outcome (List (Bytes × ValueId))
drain fuel zero m it = panic
drain fuel (suc calls) m it = next fuel m it >>= keep_on (λ it'. drain fuel calls m it')

abbrev pub listed : Option Bytes → ValueId → List (Bytes × ValueId) → List (Bytes × ValueId)
listed none v rest = rest
listed (some b) v rest = (b, v) ∷ rest

-- The values under `n` slots from `k` on, in order, each with the identifier after its own.
abbrev pub stored_from : ContainerMap → ℕ → ℕ → ℕ → List (Bytes × ValueId)
stored_from m c k zero = []
stored_from m c k (suc n) =
    listed (m (value_slot c k)) (value_slot c (k + 1)) (stored_from m c (k + 1) n)

abbrev at_slot : ℕ → ℕ → ℕ → ValueIterator
at_slot c max k = record { tracker = value_slot c k; max = max; current = k }

next_u16-ok : (k : ℕ) → k + 1 < 2 ^ 16 → next_u16 k ≡ ok (k + 1)
unfolding next_u16
next_u16-ok k h = ground (arith, h)

advance-at_slot :
    (c max k : ℕ) → k + 1 < 2 ^ 16 → advance (at_slot c max k) ≡ ok (at_slot c max (k + 1))
unfolding advance
advance-at_slot c max k h = rw (next_u16-ok k h) refl

module _ (m : ContainerMap) (c max fuel : ℕ) (room : max + 1 < 2 ^ 16) where
  next_at_end : (g k : ℕ) → max < k → next g m (at_slot c max k) ≡ ok (none, at_slot c max k)
  unfolding next
  next_at_end zero k h = ground (arith, h)
  next_at_end (suc g) k h = let past : leb k max ≡ false = ground (arith, h) in rw (past, next) refl

  next_hit :
      (g k : ℕ) (b : Bytes)
      → k ≤ max
      → m (value_slot c k) ≡ some b
      → next (suc g) m (at_slot c max k)
        ≡ ok (some (b, value_slot c (k + 1)), at_slot c max (k + 1))
  unfolding next
  next_hit g k b h here =
      let within : leb k max ≡ true = ground (arith, h) in
      rw (within, next, here, advance-at_slot c max k (omega (arith, room))) refl

  next_miss :
      (g k : ℕ)
      → k ≤ max
      → m (value_slot c k) ≡ none
      → next (suc g) m (at_slot c max k) ≡ next g m (at_slot c max (k + 1))
  unfolding next
  next_miss g k h here =
      let within : leb k max ≡ true = ground (arith, h) in
      rw (within, next, here, advance-at_slot c max k (omega (arith, room))) refl

  drained_from :
      (n k g calls : ℕ)
      → k + n ≡ max + 1
      → n ≤ g
      → n ≤ fuel
      → n ≤ calls
      → (next g m (at_slot c max k) >>= keep_on (λ it. drain fuel calls m it))
        ≡ ok (stored_from m c k n)
  unfolding drain
  drained_from zero k g calls at hg hf hc = >>=-ok _ _ (next_at_end g k (omega (arith, at))) refl
  drained_from (suc n) k zero calls at hg hf hc = absurd (omega arith)
  drained_from (suc n) k (suc g) zero at hg hf hc = absurd (omega arith)
  drained_from (suc n) k (suc g) (suc calls) at hg hf hc =
      elim (Option-cases (m (value_slot c k))) [
        | inl absent ↦
            ap (λ r. r >>= keep_on (λ it. drain fuel (suc calls) m it))
              (next_miss g k (omega (arith, at)) absent)
            ∙ drained_from n (k + 1) g (suc calls) (omega (arith, at)) (omega arith) (omega arith)
                (omega arith)
            ∙ ap (λ o. ok (listed o (value_slot c (k + 1)) (stored_from m c (k + 1) n)))
                (sym absent)
        | inr (b, here) ↦ >>=-ok _ _ (next_hit g k b (omega (arith, at)) here) (
            >>=-ok (drain fuel (suc calls) m (at_slot c max (k + 1)))
              (λ rest. ok ((b, value_slot c (k + 1)) ∷ rest))
              (drained_from n (k + 1) fuel calls (omega (arith, at)) (omega arith) (omega arith)
                (omega arith))
              (ap (λ o. ok (listed o (value_slot c (k + 1)) (stored_from m c (k + 1) n)))
                (sym here)))
      ]

abbrev pub Listed : Bytes × ValueId → List (Bytes × ValueId) → Type 0
Listed x [] = ⊥
Listed x (y ∷ ys) = (x ≡ y) ⊎ Listed x ys

Listed-listed :
    (o : Option Bytes) (v : ValueId) (x : Bytes × ValueId) (rest : List (Bytes × ValueId))
    → Listed x rest
    → Listed x (listed o v rest)
Listed-listed none v x rest h = h
Listed-listed (some b) v x rest h = inr h

Listed-stored_from :
    (m : ContainerMap) (c k n i : ℕ) (b : Bytes)
    → i < n
    → m (value_slot c (k + i)) ≡ some b
    → Listed (b, value_slot c (k + i + 1)) (stored_from m c k n)
Listed-stored_from m c k zero i b h here = absurd (omega arith)
Listed-stored_from m c k (suc n) zero b h here =
    let at_k : m (value_slot c k) ≡ some b = ap (λ j. m (value_slot c j)) (omega arith) ∙ here in
    subst
      (λ o.
        Listed (b, value_slot c (k + 0 + 1))
          (listed o (value_slot c (k + 1)) (stored_from m c (k + 1) n)))
      (sym at_k) (inl (ap (λ j. (b, value_slot c j)) (omega arith)))
Listed-stored_from m c k (suc n) (suc i) b h here = Listed-listed (m (value_slot c k)) _ _ _ (
    subst (λ j. Listed (b, value_slot c j) (stored_from m c (k + 1) n)) (omega arith)
      (Listed-stored_from m c (k + 1) n i b (omega arith)
        (ap (λ j. m (value_slot c j)) (omega arith) ∙ here)))

-- Over a container of a well-formed store whose last slot is below the largest one, the loop over its
-- iterator ends without a panic, given fuel for the slots. It gives the values in the order of the slots,
-- every stored value among them, but each with the identifier after its own.
pub get_iterator-stored_from :
    (sm : StorageManager) (c : ℕ) (m : ContainerMap) (fuel : ℕ)
    → Inv sm
    → sm.containers c ≡ some m
    → slot_or_zero (sm.last_insert c) + 1 < 2 ^ 16
    → slot_or_zero (sm.last_insert c) + 2 ≤ fuel
    → (it : ValueIterator) × (items : List (Bytes × ValueId)) × (get_iterator sm c ≡ ok it)
      × (drain fuel fuel m it ≡ ok items)
      × (items ≡ stored_from m c 0 (slot_or_zero (sm.last_insert c) + 1))
      × ((v : ValueId) (b : Bytes)
          → m v ≡ some b
          → (k : ℕ) × (v ≡ value_slot c k) × Listed (b, value_slot c (k + 1)) items)
unfolding get_iterator drain new_container
get_iterator-stored_from sm c m zero inv h room enough = absurd (omega arith)
get_iterator-stored_from sm c m (suc fuel) inv h room enough =
    let max = slot_or_zero (sm.last_insert c) in
    (
      new_iterator c max,
      stored_from m c 0 (max + 1),
      rw (h) refl,
      drained_from m c max (suc fuel) room (max + 1) 0 (suc fuel) fuel (omega arith)
          (omega (arith, enough)) (omega (arith, enough)) (omega (arith, enough)),
      refl,
      λ v b there.
          let (k, l, is_k, is_last, le) = inv.placed c m v b h there in
          let within : k ≤ max = subst (λ o. k ≤ slot_or_zero o) (sym is_last) le in
          (
            k,
            is_k,
            subst (λ j. Listed (b, value_slot c (j + 1)) (stored_from m c 0 (max + 1)))
                (omega arith)
                (Listed-stored_from m c 0 (max + 1) k b (omega (arith, within))
                  (ap (λ j. m (value_slot c j)) (omega arith) ∙ ap m (sym is_k) ∙ there)),
          ),
    )
