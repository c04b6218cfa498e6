-- ===== src/Heap/Page/Delete.antt =====
-- What `delete_value` does.
use crustydb_labs_cs378_spri.Prelude.{
  ℕ, ◌+◌, ◌≡◌, ◌≢◌, sym, ap, ◌∙◌, ◌⊎◌, inl, inr, ◌&&◌, Bool-cases, none, some, arith, ltb, ◌==◌,
  nat_eq, ok,
}
use crustydb_labs_cs378_spri.Heap.Bytes.{slice_eq, write_u8}
use crustydb_labs_cs378_spri.Heap.Page.{
  Page, get_num_slots, slot_meta_offset, delete_value, set_slot_in_use, get_value,
}
use crustydb_labs_cs378_spri.Heap.Page.Layout.{
  IsLive, slot_flag, slot_offset, slot_len, record_at, same_record, WellFormed, get_slot_in_use-eq,
  get_value-record_at,
}

module _ (p : Page) (s : ℕ) (v : WellFormed p) (live : IsLive p s) where
  -- The page with the flag of the slot at 0.
  abbrev cleared : Page
  cleared = record { content = write_u8 p.content (slot_meta_offset s + 4) 0 }

  cleared-WellFormed : WellFormed cleared
  cleared-WellFormed = record {
    header = ground (arith, v.header);
    flags = λ t h. ground (arith, v.flags t);
    placed = λ t h f. ground (arith, v.placed t);
    apart = λ t u h f k g d. ground (arith, v.apart t u);
  }

  cleared-others : (t : ℕ) → t ≢ s → record_at cleared t ≡ record_at p t
  cleared-others t d =
      same_record p cleared v cleared-WellFormed t
        (λ l. (
          ground arith,
          ground arith,
          slice_eq cleared.content p.content (slot_offset cleared t) (slot_offset p t)
              (slot_len p t) (λ k lt. ground (arith, v.placed t)),
        ))
        (λ l. ground arith)

  cleared-gone : record_at cleared s ≡ none
  cleared-gone = ground arith

  delete_value-cleared : delete_value p s ≡ ok (some tt, cleared)
  unfolding delete_value set_slot_in_use
  delete_value-cleared = ground (arith, get_slot_in_use-eq p v.header s, v.header)

-- `delete_value` on a live slot succeeds: the slot then has no value, every other slot has the value
-- that it had, and the page is well formed again. On any other slot the call returns `None` and
-- the page is as it was.
pub delete_value_cases :
    (p : Page) (s : ℕ)
    → WellFormed p
    → (IsLive p s
        × ((q : Page) × (delete_value p s ≡ ok (some tt, q))
            × WellFormed q
            × (get_value q s ≡ ok none)
            × ((t : ℕ) → t ≢ s → get_value q t ≡ get_value p t)))
      ⊎ (¬ (IsLive p s) × (delete_value p s ≡ ok (none, p)))
unfolding delete_value
delete_value_cases p s v = elim (Bool-cases (ltb s (get_num_slots p) && slot_flag p s == 1)) [
  | inl e ↦
      let live : IsLive p s = ground arith in
      let w = cleared-WellFormed p s v live in
      inl (
        live,
        (
          cleared p s v live,
          delete_value-cleared p s v live,
          w,
          get_value-record_at _ w.header s ∙ ap ok (cleared-gone p s v live),
          λ t d.
              get_value-record_at _ w.header t
              ∙ ap ok (cleared-others p s v live t d)
              ∙ sym (get_value-record_at p v.header t),
        ),
      )
  | inr e ↦ inr (λ l. ground arith, ground (arith, get_slot_in_use-eq p v.header s))
]
