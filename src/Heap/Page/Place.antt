-- ===== src/Heap/Page/Place.antt =====
-- What the last steps of `add_value` do: the value is written to the free bytes.
use crustydb_labs_cs378_spri.Prelude.{
  ℕ, ◌+◌, ◌≤◌, ◌<◌, ◌≡◌, ◌≢◌, sym, ap, subst, ◌∙◌, ◌⊎◌, inl, inr, List, some, arith, nat_eq, length,
  ok,
}
use native.Mathlib.Decide.{ℕ_discrete}
use crustydb_labs_cs378_spri.Heap.Bytes.{page_size, write_bytes, slice, slice_eq, slice-write_bytes}
use crustydb_labs_cs378_spri.Heap.Page.{
  Page, get_num_slots, get_free_start, set_free_start, slot_meta_offset, place_value,
}
use crustydb_labs_cs378_spri.Heap.Page.Layout.{
  IsLive, slot_flag, slot_offset, slot_len, WellFormed, Carries, record_at, record_at_live,
}
use crustydb_labs_cs378_spri.Heap.Page.Bump.{with_slot, write_slot-with_slot}
use crustydb_labs_cs378_spri.Heap.Page.Grow.{Ready}

-- The page after the value is in slot `s`.
pub record Placed (p : Page) (s : ℕ) (bytes : List ℕ) (q : Page) : Type 0 where
  pub wf : WellFormed q
  pub count : get_num_slots q ≡ get_num_slots p
  pub stored : record_at q s ≡ some bytes
  pub flags : (t : ℕ) → t ≢ s → t < get_num_slots p → slot_flag q t ≡ slot_flag p t
  pub carries : (t : ℕ) → t ≢ s → IsLive p t → Carries p q t

module _ (p : Page) (s : ℕ) (bytes : List ℕ) (v : Ready p s)
    (room : get_free_start p + length bytes ≤ page_size) where
  abbrev filled : Page
  filled =
      set_free_start
        (with_slot (record { content = write_bytes p.content (get_free_start p) bytes }) s
          (get_free_start p) (length bytes) 1)
        (get_free_start p + length bytes)

  place_value-filled : place_value p s bytes ≡ ok (some s, filled)
  unfolding place_value
  place_value-filled = ground (
    arith,
    write_slot-with_slot (record { content = write_bytes p.content (get_free_start p) bytes }) s
        (get_free_start p) (length bytes) 1,
    v.header,
    v.below,
  )

  -- The header, but for the free start and the entry of the slot.
  filled_num : get_num_slots filled ≡ get_num_slots p
  filled_num = ground (arith, v.header, v.below)

  filled_start : get_free_start filled ≡ get_free_start p + length bytes
  filled_start = ground (arith, v.header, v.below)

  filled_here :
      (slot_flag filled s ≡ 1)
      × (slot_len filled s ≡ length bytes)
      × (slot_offset filled s ≡ get_free_start p)
  filled_here = ground (arith, v.header, v.below)

  filled_slot :
      (t : ℕ)
      → t ≢ s
      → t < get_num_slots p
      → (slot_flag filled t ≡ slot_flag p t)
        × (slot_len filled t ≡ slot_len p t)
        × (slot_offset filled t ≡ slot_offset p t)
  filled_slot t d h = ground (arith, v.header, v.below)

  filled_body :
      (j : ℕ)
      → slot_meta_offset (get_num_slots p) ≤ j
      → j < get_free_start p
      → filled.content j ≡ p.content j
  filled_body j h k = ground (arith, v.header, v.below)

  filled_value :
      (k : ℕ)
      → k < length bytes
      → filled.content (get_free_start p + k)
        ≡ write_bytes p.content (get_free_start p) bytes (get_free_start p + k)
  filled_value k h = ground (arith, v.header, v.below)

  here_placed :
      (slot_meta_offset (get_num_slots filled) ≤ slot_offset filled s)
      × (slot_offset filled s + slot_len filled s ≤ get_free_start filled)
  here_placed = ground (arith, filled_here, filled_num, filled_start, v.header)

  -- Every other record ends before the new one.
  others_before :
      (t : ℕ)
      → t ≢ s
      → t < get_num_slots filled
      → slot_flag filled t ≡ 1
      → slot_offset filled t + slot_len filled t ≤ slot_offset filled s
  others_before t d h f = ground (arith, filled_slot t d, filled_num, filled_here, v.placed t d)

  filled_apart :
      (t u : ℕ)
      → t < get_num_slots filled
      → slot_flag filled t ≡ 1
      → u < get_num_slots filled
      → slot_flag filled u ≡ 1
      → t ≢ u
      → (slot_offset filled t + slot_len filled t ≤ slot_offset filled u)
        ⊎ (slot_offset filled u + slot_len filled u ≤ slot_offset filled t)
  filled_apart t u h f k g ne = elim (ℕ_discrete t s) [
    | yes e ↦ inr (
        subst (λ x. slot_offset filled u + slot_len filled u ≤ slot_offset filled x) (sym e)
          (others_before u (λ d. ne (e ∙ sym d)) k g))
    | no d ↦ elim (ℕ_discrete u s) [
      | yes e ↦ inl (
          subst (λ x. slot_offset filled t + slot_len filled t ≤ slot_offset filled x) (sym e)
            (others_before t d h f))
      | no d' ↦ ground (arith, filled_slot t d, filled_slot u d', filled_num, v.apart t u d d')
    ]
  ]

  filled-WellFormed : WellFormed filled
  filled-WellFormed = record {
    header = omega (arith, filled_num, v.header);
    flags = λ t h. elim (ℕ_discrete t s) [
      | yes e ↦ ground (arith, filled_here, e)
      | no d ↦ ground (arith, filled_slot t d, filled_num, v.flags t d)
    ];
    placed = λ t h f. elim (ℕ_discrete t s) [
      | yes e ↦
          subst
            (λ x.
              (slot_meta_offset (get_num_slots filled) ≤ slot_offset filled x)
              × (slot_offset filled x + slot_len filled x ≤ get_free_start filled))
            (sym e) here_placed
      | no d ↦ ground (arith, filled_slot t d, filled_num, filled_start, v.placed t d)
    ];
    apart = filled_apart;
  }

  filled-Carries : (t : ℕ) → t ≢ s → IsLive p t → Carries p filled t
  filled-Carries t d l = (
    ground (arith, filled_slot t d l.0, filled_num),
    (filled_slot t d l.0).1,
    slice_eq filled.content p.content (slot_offset filled t) (slot_offset p t) (slot_len p t)
        (λ k lt.
          ground (arith, filled_slot t d l.0, filled_body (slot_offset p t + k), v.placed t d)),
  )

  filled_stored : record_at filled s ≡ some bytes
  filled_stored =
      record_at_live filled filled-WellFormed s (ground (arith, filled_here, filled_num, v.below))
      ∙ ap some (
          ap (slice filled.content (slot_offset filled s)) filled_here.1
          ∙ ap (λ i. slice filled.content i (length bytes)) filled_here.2
          ∙ slice_eq filled.content (write_bytes p.content (get_free_start p) bytes)
              (get_free_start p) (get_free_start p) (length bytes) filled_value
          ∙ slice-write_bytes p.content (get_free_start p) bytes)

  -- The value is placed without a panic.
  pub place_value-Placed :
      (q : Page) × (place_value p s bytes ≡ ok (some s, q)) × Placed p s bytes q
  place_value-Placed = (
    filled,
    place_value-filled,
    record {
      wf = filled-WellFormed;
      count = filled_num;
      stored = filled_stored;
      flags = λ t d h. (filled_slot t d h).0;
      carries = filled-Carries;
    },
  )
