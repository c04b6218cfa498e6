-- ===== src/Heap/Page/Grow.antt =====
-- What `shift_body_for_new_slot` and the growth of the header do.
use crustydb_labs_cs378_spri.Prelude.{
  ℕ, ◌+◌, ◌-◌, ◌≤◌, ◌<◌, ◌≡◌, ◌≢◌, ap, ◌⊎◌, inl, inr, Bool-cases, arith, ltb, nat_eq, if◌then◌else◌,
  min, ok,
}
use crustydb_labs_cs378_spri.Heap.Bytes.{page_size, copy_within, fill_zero, slice_eq}
use crustydb_labs_cs378_spri.Heap.Page.{
  Page, get_num_slots, set_num_slots, get_free_start, set_free_start, slot_meta_offset, bump_slots,
  move_bytes, shift_body_for_new_slot, grow_header,
}
use crustydb_labs_cs378_spri.Heap.Page.Layout.{
  IsLive, slot_flag, slot_offset, slot_len, WellFormed, Carries,
}
use crustydb_labs_cs378_spri.Heap.Page.Bump.{Bumped, bump_slots-Bumped}

-- A page that is well formed but for one slot, which is about to be written.
pub record Ready (p : Page) (s : ℕ) : Type 0 where
  pub header : slot_meta_offset (get_num_slots p) ≤ page_size
  pub below : s < get_num_slots p
  pub flags : (t : ℕ) → t ≢ s → t < get_num_slots p → slot_flag p t ≤ 1
  pub placed :
      (t : ℕ)
      → t ≢ s
      → t < get_num_slots p
      → slot_flag p t ≡ 1
      → (slot_meta_offset (get_num_slots p) ≤ slot_offset p t)
        × (slot_offset p t + slot_len p t ≤ get_free_start p)
  pub apart :
      (t u : ℕ)
      → t ≢ s
      → u ≢ s
      → t < get_num_slots p
      → slot_flag p t ≡ 1
      → u < get_num_slots p
      → slot_flag p u ≡ 1
      → t ≢ u
      → (slot_offset p t + slot_len p t ≤ slot_offset p u)
        ⊎ (slot_offset p u + slot_len p u ≤ slot_offset p t)

-- The page has one more slot, not yet written; the others hold what they held.
pub record Grown (p q : Page) : Type 0 where
  pub ready : Ready q (get_num_slots p)
  pub count : get_num_slots q ≡ get_num_slots p + 1
  pub start : get_free_start q ≤ get_free_start p + 6
  pub flags : (t : ℕ) → t < get_num_slots p → slot_flag q t ≡ slot_flag p t
  pub carries : (t : ℕ) → IsLive p t → Carries p q t

module _ (p : Page) (v : WellFormed p) (room : get_free_start p + 6 ≤ page_size) where
  -- The page with its body moved and the new entry zeroed.
  abbrev body_moved : Page
  body_moved =
      let body_start = slot_meta_offset (get_num_slots p) in
      let body_len = get_free_start p - body_start in
      record {
        content =
            fill_zero
              (if ltb 0 body_len
                then copy_within p.content body_start (min body_len (page_size - (body_start + 6)))
                    (body_start + 6)
                else p.content)
              body_start (body_start + 6);
      }

  -- The table is as it was.
  moved_table :
      (j : ℕ) → j < slot_meta_offset (get_num_slots p) → body_moved.content j ≡ p.content j
  moved_table j h = ground arith

  -- The body has moved by one slot entry.
  moved_body :
      (j : ℕ)
      → slot_meta_offset (get_num_slots p) ≤ j
      → j < get_free_start p
      → body_moved.content (j + 6) ≡ p.content j
  moved_body j h k =
      let back : slot_meta_offset (get_num_slots p)
            + (j + 6 - (slot_meta_offset (get_num_slots p) + 6))
          ≡ j =
        omega arith in
      ground (arith, back, ap p.content back)

  moved_num : get_num_slots body_moved ≡ get_num_slots p
  moved_num = ground (arith, moved_table 2, moved_table 3)

  moved_slot :
      (t : ℕ)
      → t < get_num_slots p
      → (slot_flag body_moved t ≡ slot_flag p t)
        × (slot_len body_moved t ≡ slot_len p t)
        × (slot_offset body_moved t ≡ slot_offset p t)
  moved_slot t h = ground (
    arith,
    moved_table (slot_meta_offset t) (omega arith),
    moved_table (slot_meta_offset t + 1) (omega arith),
    moved_table (slot_meta_offset t + 2) (omega arith),
    moved_table (slot_meta_offset t + 2 + 1) (omega arith),
    moved_table (slot_meta_offset t + 4) (omega arith),
  )

  shift_body-eq :
      (r : Page)
      → bump_slots body_moved 0 (get_num_slots p) ≡ ok r
      → shift_body_for_new_slot p ≡ ok (set_free_start r (min (get_free_start p + 6) page_size))
  unfolding shift_body_for_new_slot move_bytes
  shift_body-eq r e = ground (arith, e, v.header)

  -- The page that `bump_slots` gives, before the header counts the new slot.
  shift_body_lem :
      (r : Page) × (shift_body_for_new_slot p
        ≡ ok (set_free_start r (min (get_free_start p + 6) page_size)))
      × Bumped body_moved 0 (get_num_slots p) r
  shift_body_lem =
      let (r, e, b) =
        bump_slots-Bumped body_moved 0 (get_num_slots p) (omega (arith, moved_num, v.header))
          (omega (arith, moved_num))
          (λ t l h f. ground (arith, moved_slot t, moved_num, v.placed t, v.header)) in
      (r, shift_body-eq r e, b)

  module _ (r : Page) (b : Bumped body_moved 0 (get_num_slots p) r) where
    abbrev grown : Page
    grown =
        set_num_slots (set_free_start r (min (get_free_start p + 6) page_size))
          (get_num_slots p + 1)

    grown_num : get_num_slots grown ≡ get_num_slots p + 1
    grown_num = ground (arith, v.header)

    grown_start : get_free_start grown ≡ get_free_start p + 6
    grown_start = ground (arith, v.header)

    grown_slot :
        (t : ℕ)
        → t < get_num_slots p
        → (slot_flag grown t ≡ slot_flag p t)
          × (slot_len grown t ≡ slot_len p t)
          × (slot_flag p t ≡ 1 → slot_offset grown t ≡ slot_offset p t + 6)
    grown_slot t h = ground (arith, b.flag t, b.len t, b.offset t, moved_slot t h)

    grown_body :
        (j : ℕ)
        → slot_meta_offset (get_num_slots p) ≤ j
        → j < get_free_start p
        → grown.content (j + 6) ≡ p.content j
    grown_body j h k = ground (arith, b.outside (j + 6), moved_body j h k)

    grown-Carries : (t : ℕ) → IsLive p t → Carries p grown t
    grown-Carries t l = (
      ground (arith, grown_slot t l.0, grown_num),
      (grown_slot t l.0).1,
      slice_eq grown.content p.content (slot_offset grown t) (slot_offset p t) (slot_len p t)
          (λ k lt. ground (arith, grown_slot t l.0, grown_body (slot_offset p t + k), v.placed t)),
    )

    grown-Grown : Grown p grown
    grown-Grown = record {
      ready = record {
        header = ground (arith, grown_num, v.header, room);
        below = omega (arith, grown_num);
        flags = λ t d h. ground (arith, grown_num, grown_slot t, v.flags t);
        placed = λ t d h f. ground (arith, grown_num, grown_start, grown_slot t, v.placed t);
        apart = λ t u d d' h f k g ne.
            ground (arith, grown_num, grown_slot t, grown_slot u, v.apart t u);
      };
      count = grown_num;
      start = omega (arith, grown_start);
      flags = λ t h. (grown_slot t h).0;
      carries = grown-Carries;
    }

-- Where the free bytes leave room for one more slot entry, the header grows without a panic.
pub grow_header-Grown :
    (p : Page) (v : WellFormed p)
    → get_free_start p + 6 ≤ page_size
    → (q : Page) × (grow_header p (get_num_slots p) ≡ ok q) × Grown p q
unfolding grow_header
grow_header-Grown p v room = elim (Bool-cases (ltb 0 (get_num_slots p))) [
  | inl e ↦
      let (r, f, b) = shift_body_lem p v room in
      (grown p v room r b, rw (e, f), grown-Grown p v room r b)
  | inr e ↦ (
    set_num_slots p (get_num_slots p + 1),
    rw e,
    record {
      ready = record {
        header = ground (arith, v.header);
        below = ground (arith, v.header);
        flags = λ t d h. absurd (ground arith);
        placed = λ t d h f. absurd (ground arith);
        apart = λ t u d d' h f k g ne. absurd (ground arith);
      };
      count = ground arith;
      start = ground arith;
      flags = λ t h. absurd (ground arith);
      carries = λ t l. absurd (ground arith);
    },
  )
]
