-- ===== src/Heap/Page/Drain.antt =====
-- What the consuming iterator gives.
use crustydb_labs_cs378_spri.Prelude.{
  ℕ, zero, suc, ◌+◌, ◌≤◌, ◌≡◌, sym, ap, ◌∙◌, subst, inl, inr, Option, Option-cases, none, some,
  List, [], ◌∷◌, arith, ok,
}
use crustydb_labs_cs378_spri.Heap.Bytes.{page_size}
use crustydb_labs_cs378_spri.Heap.Page.{
  Page, HeapPageIntoIter, get_num_slots, slot_meta_offset, into_iter, next_from, next,
}
use crustydb_labs_cs378_spri.Heap.Page.Layout.{WellFormed, record_at, get_value-record_at}

abbrev pub with_record : Option (List ℕ) → ℕ → List (List ℕ × ℕ) → List (List ℕ × ℕ)
with_record none s rest = rest
with_record (some bytes) s rest = (bytes, s) ∷ rest

-- The records of the next `k` slots, each with its slot.
abbrev pub records : Page → ℕ → ℕ → List (List ℕ × ℕ)
records p s zero = []
records p s (suc k) = with_record (record_at p s) s (records p (s + 1) k)

-- Calls of `next` give the values in order, and then the end.
abbrev pub Drains : HeapPageIntoIter → List (List ℕ × ℕ) → Type 0
Drains it [] = (it' : HeapPageIntoIter) × (next it ≡ ok (none, it'))
Drains it (x ∷ xs) = (it' : HeapPageIntoIter) × (next it ≡ ok (some x, it')) × Drains it' xs

Drains-next :
    (it it' : HeapPageIntoIter) (xs : List (List ℕ × ℕ))
    → next it' ≡ next it
    → Drains it xs
    → Drains it' xs
Drains-next it it' [] e (c, h) = (c, e ∙ h)
Drains-next it it' (x ∷ xs) e (c, h, rest) = (c, e ∙ h, rest)

module _ (p : Page) (fits : slot_meta_offset (get_num_slots p) ≤ page_size) where
  abbrev at_slot : ℕ → ℕ → HeapPageIntoIter
  at_slot s n = record { page = p; current_slot = s; num_slots = n }

  next-at_slot : (s k n : ℕ) → s + k ≡ n → next (at_slot s n) ≡ next_from (at_slot s n) k
  unfolding next
  next-at_slot s k n e = ap (next_from (at_slot s n)) (omega arith)

  next_from-none :
      (s k n : ℕ)
      → record_at p s ≡ none
      → next_from (at_slot s n) (suc k) ≡ next_from (at_slot (s + 1) n) k
  unfolding next_from
  next_from-none s k n e = rw (get_value-record_at p fits s, e)

  next_from-some :
      (s k n : ℕ) (bytes : List ℕ)
      → record_at p s ≡ some bytes
      → next_from (at_slot s n) (suc k) ≡ ok (some (bytes, s), at_slot (s + 1) n)
  unfolding next_from
  next_from-some s k n bytes e = rw (get_value-record_at p fits s, e)

  Drains-records : (s k n : ℕ) → s + k ≡ n → Drains (at_slot s n) (records p s k)
  unfolding next_from
  Drains-records s zero n e = (at_slot s n, next-at_slot s 0 n e)
  Drains-records s (suc k) n e =
      let rest = Drains-records (s + 1) k n (omega arith) in
      elim (Option-cases (record_at p s)) [
        | inl f ↦
            subst (λ r. Drains (at_slot s n) (with_record r s (records p (s + 1) k))) (sym f)
              (Drains-next (at_slot (s + 1) n) (at_slot s n) (records p (s + 1) k)
                (next-at_slot s (suc k) n e
                  ∙ next_from-none s k n f
                  ∙ sym (next-at_slot (s + 1) k n (omega arith)))
                rest)
        | inr (bytes, f) ↦
            subst (λ r. Drains (at_slot s n) (with_record r s (records p (s + 1) k))) (sym f)
              (at_slot (s + 1) n, next-at_slot s (suc k) n e ∙ next_from-some s k n bytes f, rest)
      ]

-- The iterator over a well-formed page gives exactly the records of its live slots, each with its
-- slot, in ascending order of the slots, and then the end.
pub into_iter-Drains :
    (p : Page) → WellFormed p → Drains (into_iter p) (records p 0 (get_num_slots p))
unfolding into_iter
into_iter-Drains p v = Drains-records p v.header 0 (get_num_slots p) (get_num_slots p) (omega arith)
