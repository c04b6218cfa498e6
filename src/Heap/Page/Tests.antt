-- ===== src/Heap/Page/Tests.antt =====
-- Runs of the page, and the theorems at concrete pages.
use crustydb_labs_cs378_spri.Prelude.{
  ℕ, ◌+◌, ◌≤◌, ◌<◌, ◌≡◌, ◌≢◌, refl, sym, ap, subst, ◌⊎◌, inl, inr, [], ◌∷◌, Option, none, some,
  arith, leb, if◌then◌else◌, replicate, Outcome, ok, err, panic,
}
use crustydb_labs_cs378_spri.Heap.Bytes.{slice}
use crustydb_labs_cs378_spri.Heap.Page.{
  into_iter, Page, new, get_num_slots, get_free_space, add_value, get_value, delete_value, compact,
  used_bytes, find_lowest_free_slot_id, get_slot_in_use, find_free, iter_used_slots, live_slots,
  insert_value, grow_header, place_value, write_slot, live_slot, get_slot_offset_length,
  shift_body_for_new_slot, move_bytes, bump_slots, bump_slot, insert_by_offset, pack_slots,
  set_slot_in_use, sort_by_offset,
}
use crustydb_labs_cs378_spri.Heap.Page.Layout.{WellFormed, IsLive, new-WellFormed}
use crustydb_labs_cs378_spri.Heap.Page.Delete.{delete_value_cases}
use crustydb_labs_cs378_spri.Heap.Page.Compact.{Compacted, compact-Compacted}
use crustydb_labs_cs378_spri.Heap.Page.Search.{IsLowestFree, find_lowest_free_slot_id-IsLowestFree}
use crustydb_labs_cs378_spri.Heap.Page.Drain.{Drains, into_iter-Drains}
use crustydb_labs_cs378_spri.Heap.Page.Insert.{add_value_cases}

-- Naming this on an `unfolding` line opens the whole page for a run.
running : Unit {0}
unfolding add_value get_value delete_value get_free_space new get_slot_in_use find_free
    find_lowest_free_slot_id iter_used_slots live_slots used_bytes insert_value grow_header
    place_value write_slot live_slot get_slot_offset_length shift_body_for_new_slot move_bytes
    bump_slots bump_slot slice compact insert_by_offset pack_slots set_slot_in_use sort_by_offset
running = tt

page_of : Outcome (Option ℕ × Page) → Page
page_of (ok (r, p)) = p
page_of (err e) = new 0
page_of panic = new 0

deleted_from : Outcome (Option (Unit {0}) × Page) → Page
deleted_from (ok (r, p)) = p
deleted_from (err e) = new 0
deleted_from panic = new 0

abbrev first : Page
first = page_of (add_value (new 3) (7 ∷ 8 ∷ []))

abbrev second : Page
second = page_of (add_value first (9 ∷ []))

two_values :
    (get_value second 0 ≡ ok (some (7 ∷ 8 ∷ [])))
    × (get_value second 1 ≡ ok (some (9 ∷ [])))
    × (get_free_space second ≡ ok 4073)
unfolding running page_of
two_values = (refl, refl, refl)

-- An empty value is not safe. All slots are live and the free bytes are in pieces of which the last
-- has less than six bytes: the page is not compacted, and the body is cut off as it is shifted.
abbrev crowded : Page
crowded = page_of (
    add_value
      (deleted_from (
        delete_value
          (page_of (add_value (page_of (add_value (new 0) (replicate 20 1))) (replicate 4040 2)))
          0))
      (replicate 12 3))

value_before : get_value crowded 0 ≡ ok (some (replicate 12 3))
unfolding running page_of deleted_from
value_before = refl

value_lost : get_value (page_of (add_value crowded [])) 0 ≡ ok none
unfolding running page_of deleted_from
value_lost = refl

first-WellFormed : WellFormed first
unfolding page_of
first-WellFormed =
    let (s, free, l, f, r) =
      add_value_cases (new 3) (7 ∷ 8 ∷ []) (new-WellFormed 3) (omega arith) in
    elim r [
      | inl (room, (q, e, w, stored, others)) ↦ subst WellFormed (sym (ap page_of e)) w
      | inr (small, e) ↦ subst WellFormed (sym (ap page_of e)) (new-WellFormed 3)
    ]

add_value_cases_example :
    (s free : ℕ) × IsLowestFree first 0 (get_num_slots first) s
    × (get_free_space first ≡ ok free)
    × (((1 + (if leb (get_num_slots first) s then 6 else 0) ≤ free)
          × ((q : Page) × (add_value first (9 ∷ []) ≡ ok (some s, q))
              × WellFormed q
              × (get_value q s ≡ ok (some (9 ∷ [])))
              × ((t : ℕ) → t ≢ s → get_value q t ≡ get_value first t)))
        ⊎ ((free < 1 + (if leb (get_num_slots first) s then 6 else 0))
            × (add_value first (9 ∷ []) ≡ ok (none, first))))
add_value_cases_example = add_value_cases first (9 ∷ []) first-WellFormed (omega arith)

delete_value_cases_example :
    (IsLive first 0
      × ((q : Page) × (delete_value first 0 ≡ ok (some tt, q))
          × WellFormed q
          × (get_value q 0 ≡ ok none)
          × ((t : ℕ) → t ≢ 0 → get_value q t ≡ get_value first t)))
    ⊎ (¬ (IsLive first 0) × (delete_value first 0 ≡ ok (none, first)))
delete_value_cases_example = delete_value_cases first 0 first-WellFormed

compact-Compacted_example : (q : Page) × (compact first ≡ ok q) × Compacted first q
compact-Compacted_example = compact-Compacted first first-WellFormed

find_lowest_free_slot_id-IsLowestFree_example :
    (s : ℕ) × (find_lowest_free_slot_id first ≡ ok s) × IsLowestFree first 0 (get_num_slots first) s
find_lowest_free_slot_id-IsLowestFree_example =
    find_lowest_free_slot_id-IsLowestFree first first-WellFormed

into_iter-Drains_example : Drains (into_iter first) ((7 ∷ 8 ∷ [], 0) ∷ [])
unfolding running page_of
into_iter-Drains_example = into_iter-Drains first first-WellFormed
