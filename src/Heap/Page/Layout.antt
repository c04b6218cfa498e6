-- ===== src/Heap/Page/Layout.antt =====
-- The slot table of a page and the records that it points to.
use crustydb_labs_cs378_spri.Prelude.{
  ℕ, ◌+◌, ◌≤◌, ◌<◌, ◌≡◌, ◌≢◌, sym, ap, Bool-cases, ◌∙◌, ◌⊎◌, inl, inr, ◌&&◌, List, Option, none,
  some, arith, ltb, ◌==◌, nat_eq, if◌then◌else◌, ok,
}
use crustydb_labs_cs378_spri.Heap.Bytes.{page_size, read_u16, slice}
use crustydb_labs_cs378_spri.Heap.Page.{
  Page, Slot, get_num_slots, get_free_start, slot_meta_offset, get_slot_in_use,
  get_slot_offset_length, live_slot, get_value, new,
}

abbrev pub slot_offset : Page → ℕ → ℕ
slot_offset p s = read_u16 p.content (slot_meta_offset s)

abbrev pub slot_len : Page → ℕ → ℕ
slot_len p s = read_u16 p.content (slot_meta_offset s + 2)

abbrev pub slot_flag : Page → ℕ → ℕ
slot_flag p s = p.content (slot_meta_offset s + 4)

-- The slot is in the table and holds a record.
abbrev pub IsLive : Page → ℕ → Type 0
IsLive p s = (s < get_num_slots p) × (slot_flag p s ≡ 1)

-- The header fits, a flag is 0 or 1, and the live records lie side by side between the header and
-- the free bytes.
pub record WellFormed (p : Page) : Type 0 where
  pub header : slot_meta_offset (get_num_slots p) ≤ page_size
  pub flags : (s : ℕ) → s < get_num_slots p → slot_flag p s ≤ 1
  pub placed :
      (s : ℕ)
      → s < get_num_slots p
      → slot_flag p s ≡ 1
      → (slot_meta_offset (get_num_slots p) ≤ slot_offset p s)
        × (slot_offset p s + slot_len p s ≤ get_free_start p)
  pub apart :
      (s t : ℕ)
      → s < get_num_slots p
      → slot_flag p s ≡ 1
      → t < get_num_slots p
      → slot_flag p t ≡ 1
      → s ≢ t
      → (slot_offset p s + slot_len p s ≤ slot_offset p t)
        ⊎ (slot_offset p t + slot_len p t ≤ slot_offset p s)

-- The record of a slot, if it is live.
abbrev pub entry : Page → ℕ → Option Slot
entry p s =
    if ltb s (get_num_slots p) && slot_flag p s == 1
    then some (record { slot_id = s; offset = slot_offset p s; len = slot_len p s })
    else none

abbrev pub record_at : Page → ℕ → Option (List ℕ)
record_at p s =
    if ltb s (get_num_slots p) && slot_flag p s == 1
    then (if ltb page_size (slot_offset p s + slot_len p s)
        then none
        else some (slice p.content (slot_offset p s) (slot_len p s)))
    else none

-- Where the header fits, no method that reads the table panics.
module _ (p : Page) (fits : slot_meta_offset (get_num_slots p) ≤ page_size) (s : ℕ) where
  pub get_slot_in_use-eq :
      get_slot_in_use p s ≡ ok (if ltb s (get_num_slots p) then some (slot_flag p s) else none)
  unfolding get_slot_in_use
  get_slot_in_use-eq = ground arith

  pub get_slot_offset_length-eq :
      get_slot_offset_length p s
      ≡ ok (if ltb s (get_num_slots p) then some (slot_offset p s, slot_len p s) else none)
  unfolding get_slot_offset_length
  get_slot_offset_length-eq = ground arith

  pub live_slot-entry : live_slot p s ≡ ok (entry p s)
  unfolding live_slot
  live_slot-entry = ground (arith, get_slot_in_use-eq, get_slot_offset_length-eq)

  pub get_value-record_at : get_value p s ≡ ok (record_at p s)
  unfolding get_value
  get_value-record_at = ground (arith, get_slot_in_use-eq, get_slot_offset_length-eq)

pub new-WellFormed : (page_id : ℕ) → WellFormed (new page_id)
unfolding new
new-WellFormed page_id = record {
  header = omega arith;
  flags = λ s h. absurd (omega arith);
  placed = λ s h f. absurd (omega arith);
  apart = λ s t h f k g d. absurd (omega arith);
}

pub record_at_live :
    (p : Page) (v : WellFormed p) (t : ℕ)
    → IsLive p t
    → record_at p t ≡ some (slice p.content (slot_offset p t) (slot_len p t))
record_at_live p v t live = ground (arith, v.placed t)

pub record_at_dead : (p : Page) (t : ℕ) → ¬ (IsLive p t) → record_at p t ≡ none
record_at_dead p t dead = elim (Bool-cases (ltb t (get_num_slots p) && slot_flag p t == 1)) [
  | inl e ↦ absurd (dead (ground arith))
  | inr e ↦ rw e
]

-- The slot holds the same bytes in both pages, perhaps at another place.
abbrev pub Carries : Page → Page → ℕ → Type 0
Carries p q t =
    IsLive q t
    × (slot_len q t ≡ slot_len p t)
    × (slice q.content (slot_offset q t) (slot_len p t)
        ≡ slice p.content (slot_offset p t) (slot_len p t))

pub same_record :
    (p q : Page) (v : WellFormed p) (w : WellFormed q) (t : ℕ)
    → (IsLive p t → Carries p q t)
    → (IsLive q t → IsLive p t)
    → record_at q t ≡ record_at p t
same_record p q v w t carries back =
    elim (Bool-cases (ltb t (get_num_slots p) && slot_flag p t == 1)) [
      | inl e ↦
          let live : IsLive p t = ground arith in
          let (live', len, same) = carries live in
          record_at_live q w t live'
          ∙ ap some (ap (slice q.content (slot_offset q t)) len ∙ same)
          ∙ sym (record_at_live p v t live)
      | inr e ↦ record_at_dead q t (λ l. let k = back l in ground arith) ∙ sym (rw e)
    ]
