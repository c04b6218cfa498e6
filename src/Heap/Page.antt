-- ===== src/Heap/Page.antt =====
-- The slotted page: storage/heapstore/src/page.rs and storage/heapstore/src/heap_page.rs.
-- A method that changes the page gives the new page. Every access to a computed position is
-- checked, so a method is an `Outcome` where such an access could panic. A `SlotId` is below
-- `num_slots`, a `u16`, so the casts of it change nothing and are left out.
pub mod Layout
pub mod Delete
pub mod Bump
pub mod Grow
pub mod Place
pub mod Entries
pub mod Chain
pub mod Pack
pub mod Compact
pub mod Search
pub mod Insert
pub mod Drain
mod Tests
use crustydb_labs_cs378_spri.Prelude.{
  ℕ, zero, suc, ◌+◌, ◌-◌, ◌*◌, ◌%◌, ◌^◌, Bool, true, false, ◌||◌, List, [], ◌∷◌, map, Option, none,
  some, ltb, leb, ◌==◌, nat_eq, if◌then◌else◌, length, min, Outcome, ok, ◌>>=◌, ◌>>◌,
}
use crustydb_labs_cs378_spri.Heap.Bytes.{
  Bytes, page_size, in_page, read_u16, write_u8, write_u16, copy_within, fill_zero, write_bytes,
  slice,
}

pub record Page : Type 0 where
  pub content : Bytes

-- `Page::new`
unfoldable pub new : ℕ → Page
new page_id = record { content = write_u16 (write_u16 (write_u16 (λ _. 0) 0 page_id) 2 0) 4 8 }

unfoldable pub get_page_id : Page → ℕ
get_page_id p = read_u16 p.content 0

abbrev pub get_num_slots : Page → ℕ
get_num_slots p = read_u16 p.content 2

abbrev pub set_num_slots : Page → ℕ → Page
set_num_slots p n = record p { content = write_u16 p.content 2 n }

-- Where the body begins, and the place of the entry of slot `n`.
abbrev pub slot_meta_offset : ℕ → ℕ
slot_meta_offset n = 8 + n * 6

abbrev pub get_header_size : Page → ℕ
get_header_size p = slot_meta_offset (get_num_slots p)

-- A stored value that is stale is raised to the beginning of the body.
abbrev pub get_free_start : Page → ℕ
get_free_start p =
    let stored = read_u16 p.content 4 in
    let body_start = slot_meta_offset (get_num_slots p) in
    min (if ltb stored body_start then body_start else stored) page_size

abbrev pub set_free_start : Page → ℕ → Page
set_free_start p pos = record p { content = write_u16 p.content 4 (min pos page_size) }

unfoldable pub get_slot_offset_length : Page → ℕ → Outcome (Option (ℕ × ℕ))
get_slot_offset_length p slot_id = if leb (get_num_slots p) slot_id then ok none else (do
  let base = slot_meta_offset slot_id
  in_page (base + 4)
  ok (some (read_u16 p.content base, read_u16 p.content (base + 2))))

unfoldable pub get_slot_in_use : Page → ℕ → Outcome (Option ℕ)
get_slot_in_use p slot_id = if leb (get_num_slots p) slot_id then ok none else (do
  let base = slot_meta_offset slot_id
  in_page (base + 5)
  ok (some (p.content (base + 4))))

unfoldable pub set_slot_in_use : Page → ℕ → ℕ → Outcome Page
set_slot_in_use p slot_id in_use = do
  let base = slot_meta_offset slot_id
  in_page (base + 5)
  ok (record p { content = write_u8 p.content (base + 4) in_use })

unfoldable pub write_slot : Page → ℕ → ℕ → ℕ → ℕ → Outcome Page
write_slot p slot_id offset len in_use = do
  let base = slot_meta_offset slot_id
  in_page (base + 5)
  ok (record p {
    content =
        write_u8 (write_u16 (write_u16 p.content base offset) (base + 2) len) (base + 4) in_use;
  })

-- `map_or(true, |u| u == SLOT_IN_USE_FREE)`
abbrev pub is_free : Option ℕ → Bool
is_free none = true
is_free (some u) = u == 0

-- `map_or(false, |u| u == SLOT_IN_USE_VALID)`
abbrev pub is_valid : Option ℕ → Bool
is_valid none = false
is_valid (some u) = u == 1

-- The search among the next `k` slots.
unfoldable pub find_free : Page → ℕ → ℕ → Outcome ℕ
find_free p slot_id zero = ok slot_id
find_free p slot_id (suc k) = do
  u ← get_slot_in_use p slot_id
  elim (is_free u) [ true ↦ ok slot_id | false ↦ find_free p (suc slot_id) k ]

unfoldable pub find_lowest_free_slot_id : Page → Outcome ℕ
find_lowest_free_slot_id p = find_free p 0 (get_num_slots p)

-- A live slot: its number, offset and length.
pub record Slot : Type 0 where
  pub slot_id : ℕ
  pub offset : ℕ
  pub len : ℕ

abbrev pub to_slot : ℕ → Option (ℕ × ℕ) → Option Slot
to_slot slot_id none = none
to_slot slot_id (some (offset, len)) =
    some (record { slot_id = slot_id; offset = offset; len = len })

-- What the closure of `filter_map` gives at a slot.
unfoldable pub live_slot : Page → ℕ → Outcome (Option Slot)
live_slot p slot_id = do
  u ← get_slot_in_use p slot_id
  if is_valid u
      then (do entry ← get_slot_offset_length p slot_id; ok (to_slot slot_id entry))
      else ok none

abbrev pub with_some {ℓ} : {A : Type ℓ} → Option A → List A → List A
with_some none xs = xs
with_some (some x) xs = x ∷ xs

-- `(slot_id..slot_id + k).filter_map(..).collect()`
unfoldable pub live_slots : Page → ℕ → ℕ → Outcome (List Slot)
live_slots p slot_id zero = ok []
live_slots p slot_id (suc k) = do
  entry ← live_slot p slot_id
  rest ← live_slots p (suc slot_id) k
  ok (with_some entry rest)

unfoldable pub used_bytes : List Slot → ℕ
used_bytes [] = 0
used_bytes (s ∷ slots) = s.len + used_bytes slots

-- `iter_used_slots`, for the lengths that `get_free_space` adds up.
unfoldable pub iter_used_slots : Page → Outcome (List Slot)
iter_used_slots p = live_slots p 0 (get_num_slots p)

-- `-` on ℕ is `saturating_sub`.
unfoldable pub get_free_space : Page → Outcome ℕ
get_free_space p = do used ← iter_used_slots p; ok (page_size - get_header_size p - used_bytes used)

-- `sort_by_key(|&(_, off, _)| off)`: stable.
unfoldable pub insert_by_offset : Slot → List Slot → List Slot
insert_by_offset s [] = s ∷ []
insert_by_offset s (t ∷ ts) =
    if leb s.offset t.offset then s ∷ t ∷ ts else t ∷ insert_by_offset s ts

unfoldable pub sort_by_offset : List Slot → List Slot
sort_by_offset [] = []
sort_by_offset (s ∷ ss) = insert_by_offset s (sort_by_offset ss)

-- `copy_within` with its range checks.
unfoldable pub move_bytes : Page → ℕ → ℕ → ℕ → Outcome Page
move_bytes p src len dest = do
  in_page (src + len)
  in_page (dest + len)
  ok (record p { content = copy_within p.content src len dest })

-- The loop of `compact`, with the position where it ends.
unfoldable pub pack_slots : Page → List Slot → ℕ → Outcome (Page × ℕ)
pack_slots p [] write_pos = ok (p, write_pos)
pack_slots p (s ∷ slots) write_pos = do
  q ← if s.offset == write_pos then ok p else move_bytes p s.offset s.len write_pos
  r ← write_slot q s.slot_id (write_pos % 2 ^ 16) s.len 1
  pack_slots r slots (write_pos + s.len)

unfoldable pub compact : Page → Outcome Page
compact p = do
  used ← iter_used_slots p
  packed ← pack_slots p (sort_by_offset used) (get_header_size p)
  ok (set_free_start packed.0 packed.1)

-- One round of the loop that bumps the offsets, and the loop over the next `k` slots.
unfoldable pub bump_slot : Page → ℕ → Outcome Page
bump_slot p slot_id = do
  entry ← live_slot p slot_id
  elim entry [ none ↦ ok p | some s ↦ write_slot p slot_id ((s.offset + 6) % 2 ^ 16) s.len 1 ]

unfoldable pub bump_slots : Page → ℕ → ℕ → Outcome Page
bump_slots p slot_id zero = ok p
bump_slots p slot_id (suc k) = do q ← bump_slot p slot_id; bump_slots q (suc slot_id) k

-- `PAGE_SIZE - new_body_start` would underflow, and panic, on a page with no room for the entry.
unfoldable pub shift_body_for_new_slot : Page → Outcome Page
shift_body_for_new_slot p = do
  let old_body_start = get_header_size p
  let new_body_start = old_body_start + 6
  let free_start = get_free_start p
  let body_len = free_start - old_body_start
  q ←
      if ltb 0 body_len
      then (do
        in_page new_body_start
        move_bytes p old_body_start (min body_len (page_size - new_body_start)) new_body_start)
      else ok p
  in_page new_body_start
  r ←
      bump_slots (record q { content = fill_zero q.content old_body_start new_body_start }) 0
        (get_num_slots p)
  ok (set_free_start r (min (free_start + 6) page_size))

-- Room for one more slot entry, where `num_slots` is the number so far.
unfoldable pub grow_header : Page → ℕ → Outcome Page
grow_header p num_slots = do
  q ← if ltb 0 num_slots then shift_body_for_new_slot p else ok p
  ok (set_num_slots q (num_slots + 1))

-- The value goes to the beginning of the free bytes.
unfoldable pub place_value : Page → ℕ → List ℕ → Outcome (Option ℕ × Page)
place_value p slot_id bytes =
    let insert_offset = get_free_start p in
    if ltb page_size (insert_offset + length bytes) then ok (none, p) else (do
      q ←
          write_slot (record p { content = write_bytes p.content insert_offset bytes }) slot_id
            insert_offset (length bytes) 1
      ok (some slot_id, set_free_start q (insert_offset + length bytes)))

-- The steps of `add_value` once the space is known to be enough.
unfoldable pub insert_value : Page → ℕ → List ℕ → Outcome (Option ℕ × Page)
insert_value p slot_id bytes = do
  let num_slots = get_num_slots p
  let need_new_slot = leb num_slots slot_id
  let extra_header = if need_new_slot then 6 else 0
  q ← if ltb (page_size - (get_free_start p + extra_header)) (length bytes) then compact p else ok p
  r ← if need_new_slot then grow_header q num_slots else ok q
  place_value r slot_id bytes

unfoldable pub add_value : Page → List ℕ → Outcome (Option ℕ × Page)
add_value p bytes = if ltb page_size (length bytes) then ok (none, p) else (do
  slot_id ← find_lowest_free_slot_id p
  free ← get_free_space p
  if ltb free (length bytes + (if leb (get_num_slots p) slot_id then 6 else 0))
      then ok (none, p)
      else insert_value p slot_id bytes)

-- The bytes at an entry of the slot table.
abbrev pub value_at : Page → Option (ℕ × ℕ) → Option (List ℕ)
value_at p none = none
value_at p (some (offset, len)) =
    if ltb page_size (offset + len) then none else some (slice p.content offset len)

unfoldable pub get_value : Page → ℕ → Outcome (Option (List ℕ))
get_value p slot_id = do
  u ← get_slot_in_use p slot_id
  if is_valid u
      then (do entry ← get_slot_offset_length p slot_id; ok (value_at p entry))
      else ok none

unfoldable pub delete_value : Page → ℕ → Outcome (Option (Unit {0}) × Page)
delete_value p slot_id = if leb (get_num_slots p) slot_id then ok (none, p) else (do
  u ← get_slot_in_use p slot_id
  if is_valid u then (do q ← set_slot_in_use p slot_id 0; ok (some tt, q)) else ok (none, p))

-- `HeapPageIntoIter`: the page, the next slot, and the number of slots at the start.
pub record HeapPageIntoIter : Type 0 where
  pub page : Page
  pub current_slot : ℕ
  pub num_slots : ℕ

unfoldable pub into_iter : Page → HeapPageIntoIter
into_iter p = record { page = p; current_slot = 0; num_slots = get_num_slots p }

-- The loop of `next`, for the `k` slots that are left.
unfoldable pub next_from : HeapPageIntoIter → ℕ → Outcome (Option (List ℕ × ℕ) × HeapPageIntoIter)
next_from it zero = ok (none, it)
next_from it (suc k) = do
  value ← get_value it.page it.current_slot
  elim value [
    | some bytes ↦
        ok (some (bytes, it.current_slot), record it { current_slot = it.current_slot + 1 })
    | none ↦ next_from (record it { current_slot = it.current_slot + 1 }) k
  ]

unfoldable pub next : HeapPageIntoIter → Outcome (Option (List ℕ × ℕ) × HeapPageIntoIter)
next it = next_from it (it.num_slots - it.current_slot)
