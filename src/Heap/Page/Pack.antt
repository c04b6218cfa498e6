-- ===== src/Heap/Page/Pack.antt =====
-- The loop of `compact`: the live records are moved down, one after the other.
use crustydb_labs_cs378_spri.Prelude.{
  ℕ, ◌+◌, ◌%◌, ◌^◌, ◌≤◌, ◌<◌, ◌≡◌, ◌≢◌, refl, ap, ◌∙◌, ◌⊎◌, inl, inr, Bool-cases, List, [], ◌∷◌,
  arith, ◌==◌, nat_eq, if◌then◌else◌, ok,
}
use crustydb_labs_cs378_spri.Heap.Bytes.{page_size, copy_within, slice, slice_eq}
use crustydb_labs_cs378_spri.Heap.Page.{
  Page, Slot, get_num_slots, slot_meta_offset, used_bytes, move_bytes, pack_slots, write_slot,
}
use crustydb_labs_cs378_spri.Heap.Page.Layout.{slot_flag, slot_offset, slot_len}
use crustydb_labs_cs378_spri.Heap.Page.Bump.{with_slot, write_slot-with_slot}
use crustydb_labs_cs378_spri.Heap.Page.Entries.{All, All-imp, Pairs}
use crustydb_labs_cs378_spri.Heap.Page.Chain.{From, Chain, Chain-mono, Chain-used, Chain-From}

-- What the loop did to the records of `ss` from `w` on, and what it left alone.
abbrev pub Clear : ℕ → Slot → Type 0
Clear j s = (j < slot_meta_offset s.slot_id) ⊎ (slot_meta_offset s.slot_id + 5 ≤ j)

pub record Moved (c : Page) (lo hi : ℕ) (q : Page) (s : Slot) : Type 0 where
  pub flag : slot_flag q s.slot_id ≡ 1
  pub len : slot_len q s.slot_id ≡ s.len
  pub from : lo ≤ slot_offset q s.slot_id
  pub upto : slot_offset q s.slot_id + s.len ≤ hi
  pub same : slice q.content (slot_offset q s.slot_id) s.len ≡ slice c.content s.offset s.len

pub record Packed (c : Page) (ss : List Slot) (w w' : ℕ) (q : Page) : Type 0 where
  pub end : w' ≡ w + used_bytes ss
  pub beyond : (j : ℕ) → w' ≤ j → q.content j ≡ c.content j
  pub below : (j : ℕ) → j < w → All (Clear j) ss → q.content j ≡ c.content j
  pub moved : All (Moved c w w' q) ss
  pub ordered : Pairs (λ s t. slot_offset q s.slot_id + s.len ≤ slot_offset q t.slot_id) ss

-- One round, at a slot of the table whose record lies in the page.
module _ (c : Page) (s : Slot) (w : ℕ) (fits : slot_meta_offset (get_num_slots c) ≤ w)
    (inside : s.slot_id < get_num_slots c) (source : s.offset + s.len ≤ page_size)
    (target : w + s.len ≤ page_size) where
  abbrev step : Page
  step =
      with_slot
        (if s.offset == w then c else record { content = copy_within c.content s.offset s.len w })
        s.slot_id w s.len 1

  copied : Page
  copied = record { content = copy_within c.content s.offset s.len w }

  move_bytes-copied : move_bytes c s.offset s.len w ≡ ok copied
  unfolding move_bytes copied
  move_bytes-copied = ground arith

  write_at :
      (q : Page)
      → write_slot q s.slot_id (w % 2 ^ 16) s.len 1 ≡ ok (with_slot q s.slot_id w s.len 1)
  write_at q =
      let wrap : w % 2 ^ 16 ≡ w = omega arith in
      rw wrap (write_slot-with_slot q s.slot_id w s.len 1 (omega arith))

  step-pack : (ss : List Slot) → pack_slots c (s ∷ ss) w ≡ pack_slots step ss (w + s.len)
  unfolding pack_slots copied
  step-pack ss = elim (Bool-cases (s.offset == w)) [
    | inl e ↦ rw (e, write_at c)
    | inr e ↦ rw (e, move_bytes-copied, write_at copied)
  ]

  step_num : get_num_slots step ≡ get_num_slots c
  step_num = ground arith

  step_beyond : (j : ℕ) → w + s.len ≤ j → step.content j ≡ c.content j
  step_beyond j h = ground arith

  step_below : (j : ℕ) → j < w → Clear j s → step.content j ≡ c.content j
  step_below j h k = ground arith

  step_here :
      (slot_flag step s.slot_id ≡ 1)
      × (slot_len step s.slot_id ≡ s.len)
      × (slot_offset step s.slot_id ≡ w)
  step_here = ground arith

  step_bytes : (k : ℕ) → k < s.len → step.content (w + k) ≡ c.content (s.offset + k)
  step_bytes k h = ground arith

-- The loop, from a state in which the records that are left form a chain above `w`.
pub record Packable (c : Page) (ss : List Slot) (w : ℕ) : Type 0 where
  pub fits : slot_meta_offset (get_num_slots c) ≤ w
  pub inside : All (λ s. s.slot_id < get_num_slots c) ss
  pub distinct : Pairs (λ s t. s.slot_id ≢ t.slot_id) ss
  pub source : All (λ s. s.offset + s.len ≤ page_size) ss
  pub chain : Chain w ss page_size

module _ (c : Page) (s : Slot) (ss : List Slot) (w : ℕ) (v : Packable c (s ∷ ss) w) where
  Chain-rest : (w + s.len ≤ page_size) × Chain (w + s.len) ss page_size
  Chain-rest = go v.chain
    where
      go : Chain w (s ∷ ss) page_size → (w + s.len ≤ page_size) × Chain (w + s.len) ss page_size
      go (inl (e, d)) =
          (omega (arith, Chain-used w ss page_size d), Chain-mono ss page_size (omega arith) d)
      go (inr (l, d)) = (
        omega (arith, Chain-used (s.offset + s.len) ss page_size d),
        Chain-mono ss page_size (omega arith) d,
      )

  abbrev after : Page
  after = step c s w v.fits v.inside.0 v.source.0 Chain-rest.0

  after_num : get_num_slots after ≡ get_num_slots c
  after_num = step_num c s w v.fits v.inside.0 v.source.0 Chain-rest.0

  after-Packable : Packable after ss (w + s.len)
  after-Packable = record {
    fits = omega (arith, after_num, v.fits);
    inside = All-imp ss (λ t h. omega (arith, after_num)) v.inside.1;
    distinct = v.distinct.1;
    source = v.source.1;
    chain = Chain-rest.1;
  }

  module _ (q : Page) (w' : ℕ) (r : Packed after ss (w + s.len) w' q) where
    -- The entry of the slot, and the bytes of its record, are not touched again.
    entry_kept :
        (j : ℕ)
        → slot_meta_offset s.slot_id ≤ j
        → j < slot_meta_offset s.slot_id + 5
        → q.content j ≡ after.content j
    entry_kept j a b =
        r.below j (omega (arith, v.fits, v.inside.0))
          (All-imp ss (λ t d. ground arith) v.distinct.0)

    bytes_kept : (k : ℕ) → k < s.len → q.content (w + k) ≡ c.content (s.offset + k)
    bytes_kept k h =
        r.below (w + k) (omega arith) (All-imp ss (λ t d. inr (omega (arith, v.fits))) v.inside.1)
        ∙ step_bytes c s w v.fits v.inside.0 v.source.0 Chain-rest.0 k h

    here_kept :
        (slot_flag q s.slot_id ≡ 1) × (slot_len q s.slot_id ≡ s.len) × (slot_offset q s.slot_id ≡ w)
    here_kept = ground (
      arith,
      step_here c s w v.fits v.inside.0 v.source.0 Chain-rest.0,
      entry_kept (slot_meta_offset s.slot_id),
      entry_kept (slot_meta_offset s.slot_id + 1),
      entry_kept (slot_meta_offset s.slot_id + 2),
      entry_kept (slot_meta_offset s.slot_id + 2 + 1),
      entry_kept (slot_meta_offset s.slot_id + 4),
    )

    here-Moved : Moved c w w' q s
    here-Moved = record {
      flag = here_kept.0;
      len = here_kept.1;
      from = omega (arith, here_kept.2);
      upto = omega (arith, here_kept.2, r.end);
      same =
          ap (λ i. slice q.content i s.len) here_kept.2
          ∙ slice_eq q.content c.content w s.offset s.len bytes_kept;
    }

    later-Moved :
        (ts : List Slot)
        → All (From (w + s.len)) ts
        → All (Moved after (w + s.len) w' q) ts
        → All (Moved c w w' q) ts
    later-Moved [] f m = tt
    later-Moved (t ∷ ts) f m = (
      record {
        flag = m.0.flag;
        len = m.0.len;
        from = omega (arith, m.0.from);
        upto = m.0.upto;
        same =
            m.0.same
            ∙ slice_eq after.content c.content t.offset t.offset t.len (λ k lt.
              step_beyond c s w v.fits v.inside.0 v.source.0 Chain-rest.0 (t.offset + k)
                (omega (arith, f.0)));
      },
      later-Moved ts f.1 m.1,
    )

    here-Packed : Packed c (s ∷ ss) w w' q
    unfolding used_bytes
    here-Packed = record {
      end = omega (arith, r.end);
      beyond = λ j h.
          r.beyond j h
          ∙ step_beyond c s w v.fits v.inside.0 v.source.0 Chain-rest.0 j (omega (arith, r.end));
      below = λ j h a.
          r.below j (omega arith) a.1
          ∙ step_below c s w v.fits v.inside.0 v.source.0 Chain-rest.0 j h a.0;
      moved =
          (here-Moved, later-Moved ss (Chain-From (w + s.len) ss page_size Chain-rest.1) r.moved);
      ordered = (All-imp ss (λ t m. omega (arith, here_kept.2, m.from)) r.moved, r.ordered);
    }

pub pack_slots-Packed :
    (c : Page) (ss : List Slot) (w : ℕ)
    → Packable c ss w
    → (q : Page) × (w' : ℕ) × (pack_slots c ss w ≡ ok (q, w')) × Packed c ss w w' q
unfolding pack_slots used_bytes
pack_slots-Packed c [] w v = (
  c,
  w,
  refl,
  record {
    end = omega arith;
    beyond = λ j h. refl;
    below = λ j h a. refl;
    moved = tt;
    ordered = tt;
  },
)
pack_slots-Packed c (s ∷ ss) w v =
    let (q, w', e, r) =
      pack_slots-Packed (after c s ss w v) ss (w + s.len) (after-Packable c s ss w v) in
    (
      q,
      w',
      step-pack c s w v.fits v.inside.0 v.source.0 (Chain-rest c s ss w v).0 ss ∙ e,
      here-Packed c s ss w v q w' r,
    )
