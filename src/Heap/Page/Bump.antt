-- ===== src/Heap/Page/Bump.antt =====
-- The loop of `shift_body_for_new_slot` that bumps the offsets of the live slots.
use crustydb_labs_cs378_spri.Prelude.{
  ℕ, zero, suc, ◌+◌, ◌≤◌, ◌<◌, ◌≡◌, refl, ◌⊎◌, inl, inr, Bool-cases, arith, ◌==◌, nat_eq, ok,
}
use crustydb_labs_cs378_spri.Heap.Bytes.{page_size, write_u8, write_u16}
use crustydb_labs_cs378_spri.Heap.Page.{
  Page, get_num_slots, slot_meta_offset, bump_slot, bump_slots, write_slot,
}
use crustydb_labs_cs378_spri.Heap.Page.Layout.{slot_flag, slot_offset, slot_len, live_slot-entry}

-- The page after `write_slot`.
abbrev pub with_slot : Page → ℕ → ℕ → ℕ → ℕ → Page
with_slot p s offset len flag = record {
  content =
      write_u8
        (write_u16 (write_u16 p.content (slot_meta_offset s) offset) (slot_meta_offset s + 2) len)
        (slot_meta_offset s + 4) flag;
}

pub write_slot-with_slot :
    (p : Page) (s offset len flag : ℕ)
    → slot_meta_offset s + 5 ≤ page_size
    → write_slot p s offset len flag ≡ ok (with_slot p s offset len flag)
unfolding write_slot
write_slot-with_slot p s offset len flag h = ground arith

-- Of the `k` slots from `lo` on, those that are live have moved by one slot entry; the rest of
-- the page is as it was.
pub record Bumped (p : Page) (lo k : ℕ) (q : Page) : Type 0 where
  pub outside :
      (j : ℕ)
      → (j < slot_meta_offset lo) ⊎ (slot_meta_offset (lo + k) ≤ j)
      → q.content j ≡ p.content j
  pub flag : (t : ℕ) → lo ≤ t → t < lo + k → slot_flag q t ≡ slot_flag p t
  pub len : (t : ℕ) → lo ≤ t → t < lo + k → slot_len q t ≡ slot_len p t
  pub offset :
      (t : ℕ) → lo ≤ t → t < lo + k → slot_flag p t ≡ 1 → slot_offset q t ≡ slot_offset p t + 6

-- The offsets can be bumped without leaving their 16 bits, and the lengths are of 16 bits.
abbrev pub Bumpable : Page → ℕ → Type 0
Bumpable p lo =
    (t : ℕ)
    → lo ≤ t
    → t < get_num_slots p
    → slot_flag p t ≡ 1
    → (slot_offset p t + 6 < 65536) × (slot_len p t < 65536)

bump_slot-Bumped :
    (p : Page) (s : ℕ)
    → slot_meta_offset (get_num_slots p) ≤ page_size
    → s < get_num_slots p
    → Bumpable p s
    → (q : Page) × (bump_slot p s ≡ ok q) × Bumped p s 1 q
unfolding bump_slot
bump_slot-Bumped p s fits below small = elim (Bool-cases (slot_flag p s == 1)) [
  | inl e ↦ (
    with_slot p s (slot_offset p s + 6) (slot_len p s) 1,
    ground (
      arith,
      live_slot-entry p fits s,
      write_slot-with_slot p s (slot_offset p s + 6) (slot_len p s) 1,
      small s,
    ),
    record {
      outside = λ j h. ground arith;
      flag = λ t h k. ground arith;
      len = λ t h k. ground (arith, small s);
      offset = λ t h k f. ground (arith, small s);
    },
  )
  | inr e ↦ (
    p,
    ground (arith, live_slot-entry p fits s),
    record {
      outside = λ j h. refl;
      flag = λ t h k. refl;
      len = λ t h k. refl;
      offset = λ t h k f. ground arith;
    },
  )
]

-- A slot that the loop does not reach.
Bumped-beyond :
    (p q : Page) (lo k : ℕ) (b : Bumped p lo k q) (t : ℕ)
    → (t < lo) ⊎ (lo + k ≤ t)
    → (slot_flag q t ≡ slot_flag p t)
      × (slot_len q t ≡ slot_len p t)
      × (slot_offset q t ≡ slot_offset p t)
Bumped-beyond p q lo k b t (inl h) = ground (
  arith,
  b.outside (slot_meta_offset t),
  b.outside (slot_meta_offset t + 1),
  b.outside (slot_meta_offset t + 2),
  b.outside (slot_meta_offset t + 2 + 1),
  b.outside (slot_meta_offset t + 4),
)
Bumped-beyond p q lo k b t (inr h) = ground (
  arith,
  b.outside (slot_meta_offset t),
  b.outside (slot_meta_offset t + 1),
  b.outside (slot_meta_offset t + 2),
  b.outside (slot_meta_offset t + 2 + 1),
  b.outside (slot_meta_offset t + 4),
)

Bumped-trans :
    (p q r : Page) (s k : ℕ) → Bumped p s 1 q → Bumped q (suc s) k r → Bumped p s (suc k) r
Bumped-trans p q r s k b c = record {
  outside = λ j h. ground (arith, b.outside j, c.outside j);
  flag = λ t h g.
      ground
        (arith, b.flag t, c.flag t, Bumped-beyond q r (suc s) k c t, Bumped-beyond p q s 1 b t);
  len = λ t h g.
      ground (arith, b.len t, c.len t, Bumped-beyond q r (suc s) k c t, Bumped-beyond p q s 1 b t);
  offset = λ t h g d. ground (
    arith,
    b.offset t,
    b.flag t,
    c.offset t,
    Bumped-beyond q r (suc s) k c t,
    Bumped-beyond p q s 1 b t,
  );
}

pub bump_slots-Bumped :
    (p : Page) (s k : ℕ)
    → slot_meta_offset (get_num_slots p) ≤ page_size
    → s + k ≤ get_num_slots p
    → Bumpable p s
    → (q : Page) × (bump_slots p s k ≡ ok q) × Bumped p s k q
unfolding bump_slots
bump_slots-Bumped p s zero fits below small = (
  p,
  refl,
  record {
    outside = λ j h. refl;
    flag = λ t h k. refl;
    len = λ t h k. refl;
    offset = λ t h k f. absurd (omega arith);
  },
)
bump_slots-Bumped p s (suc k) fits below small =
    let (q, e, b) = bump_slot-Bumped p s fits (omega arith) small in
    let same_num : get_num_slots q ≡ get_num_slots p = ground (arith, b.outside 2, b.outside 3) in
    let (r, f, c) =
      bump_slots-Bumped q (suc s) k (omega arith) (omega arith)
        (λ t l h g. ground (arith, small t, Bumped-beyond p q s 1 b t)) in
    (r, rw e f, Bumped-trans p q r s k b c)
