-- ===== src/Heap/Page/Compact.antt =====
-- What `compact` and `get_free_space` do.
use crustydb_labs_cs378_spri.Prelude.{
  ℕ, ◌+◌, ◌-◌, ◌≤◌, ◌<◌, ◌≡◌, ◌≢◌, sym, ap, subst, ◌∙◌, ◌⊎◌, inl, inr, List, arith, nat_eq, ok,
}
use native.Mathlib.Decide.{ℕ_discrete, dec_lt}
use native.Mathlib.Nat.{le_refl, le_trans}
use crustydb_labs_cs378_spri.Heap.Bytes.{page_size, slice_eq}
use crustydb_labs_cs378_spri.Heap.Page.{
  Page, Slot, get_num_slots, get_free_start, set_free_start, get_header_size, slot_meta_offset,
  used_bytes, iter_used_slots, sort_by_offset, compact, get_free_space,
}
use crustydb_labs_cs378_spri.Heap.Page.Layout.{
  IsLive, slot_flag, slot_offset, slot_len, WellFormed, Carries,
}
use crustydb_labs_cs378_spri.Heap.Page.Entries.{
  All, Pairs, Pairs-imp, entries, slot_of, live_slots-entries, All-entries, entries-All,
  Pairs-entries, entries-Pairs, sort-All, All-sort, sort-Pairs, Pairs-sort, sort-sorted,
  used_bytes-sort,
}
use crustydb_labs_cs378_spri.Heap.Page.Chain.{Apart, From, Chain, Chain-sorted, Chain-used}
use crustydb_labs_cs378_spri.Heap.Page.Pack.{Clear, Moved, Packed, Packable, pack_slots-Packed}

-- The bytes that the live records take.
pub used : Page → ℕ
used p = used_bytes (entries p 0 (get_num_slots p))

pub iter_used_slots-entries :
    (p : Page) → WellFormed p → iter_used_slots p ≡ ok (entries p 0 (get_num_slots p))
unfolding iter_used_slots
iter_used_slots-entries p v = live_slots-entries p 0 (get_num_slots p) v.header

-- The free space of a page is what header and live records leave of it.
pub get_free_space-used :
    (p : Page) → WellFormed p → get_free_space p ≡ ok (page_size - get_header_size p - used p)
unfolding get_free_space used
get_free_space-used p v = rw (iter_used_slots-entries p v)

pub record Compacted (p q : Page) : Type 0 where
  pub wf : WellFormed q
  pub count : get_num_slots q ≡ get_num_slots p
  pub start : get_free_start q ≡ get_header_size p + used p
  pub flags : (t : ℕ) → t < get_num_slots p → slot_flag q t ≡ slot_flag p t
  pub carries : (t : ℕ) → IsLive p t → Carries p q t

module _ (p : Page) (v : WellFormed p) where
  abbrev num : ℕ
  num = get_num_slots p

  abbrev body : ℕ
  body = slot_meta_offset (get_num_slots p)

  abbrev sorted : List Slot
  sorted = sort_by_offset (entries p 0 num)

  sorted-All : (P : Slot → Type 0) → ((t : ℕ) → IsLive p t → P (slot_of p t)) → All P sorted
  sorted-All P h = sort-All P (entries p 0 num) (All-entries p P 0 num (λ t a l. h t l))

  sorted-Pairs :
      (R : Slot → Slot → Type 0)
      → ((s t : Slot) → R s t → R t s)
      → ((t u : ℕ) → t ≢ u → IsLive p t → IsLive p u → R (slot_of p t) (slot_of p u))
      → Pairs R sorted
  sorted-Pairs R R_sym h =
      sort-Pairs R R_sym (entries p 0 num)
        (Pairs-entries p R 0 num (λ t u a lt l m. h t u (omega arith) l m))

  Apart-sym : (s t : Slot) → Apart s t → Apart t s
  Apart-sym s t (inl h) = inr h
  Apart-sym s t (inr h) = inl h

  sorted-Chain : (hi : ℕ) → get_free_start p ≤ hi → Chain body sorted hi
  sorted-Chain hi above =
      Chain-sorted body sorted hi (sort-sorted (entries p 0 num))
        (sorted-Pairs Apart Apart-sym (λ t u d l m. v.apart t u l.0 l.1 m.0 m.1 d))
        (sorted-All (From body) (λ t l. inr (v.placed t l.0 l.1).0))
        (sorted-All (λ s. s.offset + s.len ≤ hi) (λ t l. le_trans (v.placed t l.0 l.1).1 above))
        (ground (arith, v.header))

  -- The live records fit between the header and the free bytes.
  pub used_le : body + used p ≤ get_free_start p
  unfolding used
  used_le =
      subst (λ n. body + n ≤ get_free_start p) (used_bytes-sort (entries p 0 num))
        (Chain-used body sorted (get_free_start p) (sorted-Chain (get_free_start p) (le_refl _)))

  sorted-Packable : Packable p sorted body
  sorted-Packable = record {
    fits = omega arith;
    inside = sorted-All _ (λ t l. l.0);
    distinct = sorted-Pairs _ (λ s t d e. d (sym e)) (λ t u d l m. d);
    source = sorted-All _ (λ t l. ground (arith, v.placed t l.0 l.1));
    chain = sorted-Chain page_size (omega arith);
  }

  module _ (r : Page) (w : ℕ) (k : Packed p sorted body w r) where
    abbrev compacted : Page
    compacted = set_free_start r w

    w_eq : w ≡ body + used p
    unfolding used
    w_eq = k.end ∙ ap (λ n. body + n) (used_bytes-sort (entries p 0 num))

    -- The header is as it was, but for the free start.
    head_kept : (j : ℕ) → j < 8 → r.content j ≡ p.content j
    head_kept j h = k.below j (omega arith) (sorted-All (Clear j) (λ t l. inl (omega arith)))

    compacted-num : get_num_slots compacted ≡ num
    compacted-num = ground (arith, head_kept 2, head_kept 3)

    compacted_start : get_free_start compacted ≡ body + used p
    compacted_start = ground (arith, compacted-num, w_eq, used_le, v.header)

    live-Moved : (t : ℕ) → IsLive p t → Moved p body w r (slot_of p t)
    live-Moved t l =
        entries-All p (Moved p body w r) 0 num (All-sort _ (entries p 0 num) k.moved) t
          (omega arith) (omega (arith, l.0)) l

    dead_flag : (t : ℕ) → t < num → ¬ (slot_flag p t ≡ 1) → slot_flag r t ≡ slot_flag p t
    dead_flag t h d =
        k.below (slot_meta_offset t + 4) (omega arith)
          (sorted-All (Clear (slot_meta_offset t + 4)) (λ u l. clear_of u l (ℕ_discrete u t)))
      where
        clear_of : (u : ℕ) → IsLive p u → Dec (u ≡ t) → Clear (slot_meta_offset t + 4) (slot_of p u)
        clear_of u l (yes e) = absurd (d (subst (λ x. slot_flag p x ≡ 1) e l.1))
        clear_of u l (no ne) = grind arith

    compacted_flag : (t : ℕ) → t < num → slot_flag compacted t ≡ slot_flag p t
    compacted_flag t h = elim (ℕ_discrete (slot_flag p t) 1) [
      | yes e ↦ ground (arith, (live-Moved t (h, e)).flag)
      | no d ↦ ground (arith, dead_flag t h d)
    ]

    compacted_slot :
        (t : ℕ)
        → IsLive p t
        → (slot_len compacted t ≡ slot_len p t)
          × (body ≤ slot_offset compacted t)
          × (slot_offset compacted t + slot_len p t ≤ w)
    compacted_slot t l = let m = live-Moved t l in ground (arith, m.len, m.from, m.upto)

    compacted_offset : (t : ℕ) → slot_offset compacted t ≡ slot_offset r t
    compacted_offset t = ground arith

    compacted-Carries : (t : ℕ) → IsLive p t → Carries p compacted t
    compacted-Carries t l = (
      ground (arith, compacted-num, compacted_flag t l.0),
      (compacted_slot t l).0,
      slice_eq compacted.content r.content (slot_offset compacted t) (slot_offset r t)
            (slot_len p t) (λ i lt. ground (arith, compacted_offset t, compacted_slot t l))
          ∙ (live-Moved t l).same,
    )

    -- The record of `s` ends where that of `t` begins, or before.
    abbrev Precedes : Slot → Slot → Type 0
    Precedes s t = slot_offset r s.slot_id + s.len ≤ slot_offset r t.slot_id

    abbrev Beside : Slot → Slot → Type 0
    Beside s t = Precedes s t ⊎ Precedes t s

    Beside-sym : (s t : Slot) → Beside s t → Beside t s
    Beside-sym s t (inl h) = inr h
    Beside-sym s t (inr h) = inl h

    entries-Beside :
        (t u : ℕ) → t < u → IsLive p t → IsLive p u → Beside (slot_of p t) (slot_of p u)
    entries-Beside t u lt l m =
        entries-Pairs p Beside 0 num
          (Pairs-sort Beside Beside-sym (entries p 0 num)
            (Pairs-imp {S = Beside} sorted (λ s t h. inl h) k.ordered))
          t u (omega arith) lt (omega (arith, m.0)) l m

    beside : (t u : ℕ) → t ≢ u → IsLive p t → IsLive p u → Beside (slot_of p t) (slot_of p u)
    beside t u d l m = elim (dec_lt t u) [
      | yes lt ↦ entries-Beside t u lt l m
      | no ge ↦ Beside-sym (slot_of p u) (slot_of p t) (entries-Beside u t (omega arith) m l)
    ]

    IsLive-before : (t : ℕ) → IsLive compacted t → IsLive p t
    IsLive-before t l = ground (arith, compacted-num, compacted_flag t)

    compacted-WellFormed : WellFormed compacted
    compacted-WellFormed = record {
      header = omega (arith, compacted-num, v.header);
      flags = λ t h. ground (arith, compacted-num, compacted_flag t, v.flags t);
      placed = λ t h f.
          ground (
            arith,
            compacted_slot t (IsLive-before t (h, f)),
            compacted-num,
            compacted_start,
            w_eq,
          );
      apart = λ t u h f g e d. ground (
        arith,
        compacted_slot t (IsLive-before t (h, f)),
        compacted_slot u (IsLive-before u (g, e)),
        compacted_offset t,
        compacted_offset u,
        beside t u d (IsLive-before t (h, f)) (IsLive-before u (g, e)),
      );
    }

-- Compacting never panics, leaves the page well formed with the same records in the same slots, and
-- all free bytes behind them.
pub compact-Compacted :
    (p : Page) (v : WellFormed p) → (q : Page) × (compact p ≡ ok q) × Compacted p q
unfolding compact
compact-Compacted p v =
    let (r, w, e, k) = pack_slots-Packed p (sorted p v) (body p v) (sorted-Packable p v) in
    (
      compacted p v r w k,
      rw (iter_used_slots-entries p v, e),
      record {
        wf = compacted-WellFormed p v r w k;
        count = compacted-num p v r w k;
        start = compacted_start p v r w k;
        flags = compacted_flag p v r w k;
        carries = compacted-Carries p v r w k;
      },
    )
