-- ===== src/Heap/Page/Search.antt =====
-- The search for the lowest free slot.
use crustydb_labs_cs378_spri.Prelude.{
  ℕ, zero, suc, ◌+◌, ◌≤◌, ◌<◌, ◌≡◌, ◌≢◌, refl, inl, inr, Bool-cases, arith, ◌==◌, nat_eq, ok, some,
}
use crustydb_labs_cs378_spri.Heap.Bytes.{page_size}
use crustydb_labs_cs378_spri.Heap.Page.{
  Page, get_num_slots, slot_meta_offset, find_free, find_lowest_free_slot_id, get_slot_in_use,
}
use crustydb_labs_cs378_spri.Heap.Page.Layout.{slot_flag, WellFormed, get_slot_in_use-eq}

-- `s` is the first slot from `lo` on that is free, or `hi` if there is none below `hi`.
pub record IsLowestFree (p : Page) (lo hi s : ℕ) : Type 0 where
  pub from : lo ≤ s
  pub upto : s ≤ hi
  pub taken : (t : ℕ) → lo ≤ t → t < s → slot_flag p t ≢ 0
  pub free : s < hi → slot_flag p s ≡ 0

find_free-IsLowestFree :
    (p : Page) (lo k : ℕ)
    → slot_meta_offset (get_num_slots p) ≤ page_size
    → lo + k ≤ get_num_slots p
    → (s : ℕ) × (find_free p lo k ≡ ok s) × IsLowestFree p lo (lo + k) s
unfolding find_free
find_free-IsLowestFree p lo zero fits h = (
  lo,
  refl,
  record {
    from = omega arith;
    upto = omega arith;
    taken = λ t a b. absurd (omega arith);
    free = λ a. absurd (omega arith);
  },
)
find_free-IsLowestFree p lo (suc k) fits h =
    let (s, e, l) = find_free-IsLowestFree p (suc lo) k fits (omega arith) in
    let here : get_slot_in_use p lo ≡ ok (some (slot_flag p lo)) =
      ground (arith, get_slot_in_use-eq p fits lo) in
    elim (Bool-cases (slot_flag p lo == 0)) [
      | inl z ↦ (
        lo,
        ground (arith, here),
        record {
          from = omega arith;
          upto = omega arith;
          taken = λ t a b. absurd (omega arith);
          free = λ a. ground arith;
        },
      )
      | inr z ↦ (
        s,
        ground (arith, here, e),
        record {
          from = omega (arith, l.from);
          upto = omega (arith, l.upto);
          taken = λ t a b. ground (arith, l.taken t);
          free = λ a. l.free (omega arith);
        },
      )
    ]

-- The search always succeeds, and finds the least free slot of the table, or its length if every
-- slot is in use.
pub find_lowest_free_slot_id-IsLowestFree :
    (p : Page)
    → WellFormed p
    → (s : ℕ) × (find_lowest_free_slot_id p ≡ ok s) × IsLowestFree p 0 (get_num_slots p) s
unfolding find_lowest_free_slot_id
find_lowest_free_slot_id-IsLowestFree p v =
    let (s, e, l) = find_free-IsLowestFree p 0 (get_num_slots p) v.header (omega arith) in
    (
      s,
      e,
      record {
        from = l.from;
        upto = omega (arith, l.upto);
        taken = l.taken;
        free = λ a. l.free (omega arith);
      },
    )
