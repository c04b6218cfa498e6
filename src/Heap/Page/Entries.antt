-- ===== src/Heap/Page/Entries.antt =====
-- The live slots of a page as a list, and the order that `compact` brings them into.
use crustydb_labs_cs378_spri.Prelude.{
  ℕ, zero, suc, ◌+◌, ◌≤◌, ◌<◌, ◌≡◌, refl, sym, ap, subst, leb→le, ◌∙◌, inl, inr, true, ◌&&◌,
  Bool-cases, List, [], ◌∷◌, arith, ltb, leb, ◌==◌, nat_eq, ok,
}
use native.Mathlib.Decide.{ℕ_discrete}
use native.Mathlib.Nat.{le_trans}
use crustydb_labs_cs378_spri.Heap.Bytes.{page_size}
use crustydb_labs_cs378_spri.Heap.Page.{
  Page, Slot, get_num_slots, slot_meta_offset, live_slots, with_some, used_bytes, insert_by_offset,
  sort_by_offset,
}
use crustydb_labs_cs378_spri.Heap.Page.Layout.{
  IsLive, slot_flag, slot_offset, slot_len, entry, live_slot-entry,
}

module _ {ℓ κ} {A : Type ℓ} where
  abbrev pub All : (A → Type κ) → List A → Type κ
  All P [] = Unit
  All P (x ∷ xs) = P x × All P xs

  pub All-imp : {P Q : A → Type κ} (xs : List A) → ((x : A) → P x → Q x) → All P xs → All Q xs
  All-imp [] f h = tt
  All-imp (x ∷ xs) f h = (f x h.0, All-imp xs f h.1)

  -- Every element is related to all that come after it.
  abbrev pub Pairs : (A → A → Type κ) → List A → Type κ
  Pairs R [] = Unit
  Pairs R (x ∷ xs) = All (R x) xs × Pairs R xs

  pub Pairs-imp :
      {R S : A → A → Type κ} (xs : List A) → ((x y : A) → R x y → S x y) → Pairs R xs → Pairs S xs
  Pairs-imp [] f h = tt
  Pairs-imp (x ∷ xs) f h = (All-imp xs (f x) h.0, Pairs-imp xs f h.1)

-- The live slots among `k` from `lo` on.
pub entries : Page → ℕ → ℕ → List Slot
entries p lo zero = []
entries p lo (suc k) = with_some (entry p lo) (entries p (suc lo) k)

pub live_slots-entries :
    (p : Page) (lo k : ℕ)
    → slot_meta_offset (get_num_slots p) ≤ page_size
    → live_slots p lo k ≡ ok (entries p lo k)
unfolding live_slots entries
live_slots-entries p lo zero fits = refl
live_slots-entries p lo (suc k) fits =
    rw (live_slot-entry p fits lo, live_slots-entries p (suc lo) k fits)

abbrev pub slot_of : Page → ℕ → Slot
slot_of p t = record { slot_id = t; offset = slot_offset p t; len = slot_len p t }

module _ {κ} (p : Page) (P : Slot → Type κ) where
  -- What holds of every live slot holds all along the list,
  pub All-entries :
      (lo k : ℕ) → ((t : ℕ) → lo ≤ t → IsLive p t → P (slot_of p t)) → All P (entries p lo k)
  unfolding entries
  All-entries lo zero h = tt
  All-entries lo (suc k) h =
      let rest = All-entries (suc lo) k (λ t l. h t (omega arith)) in
      elim (Bool-cases (ltb lo (get_num_slots p) && slot_flag p lo == 1)) [
        | inl e ↦ rw e (h lo (omega arith) (ground arith), rest)
        | inr e ↦ rw e rest
      ]

  entries-tail : (lo k : ℕ) → All P (entries p lo (suc k)) → All P (entries p (suc lo) k)
  unfolding entries
  entries-tail lo k h = elim (Bool-cases (ltb lo (get_num_slots p) && slot_flag p lo == 1)) [
    | inl e ↦ (rw e at h).1
    | inr e ↦ rw e at h
  ]

  entries-head : (lo k : ℕ) → All P (entries p lo (suc k)) → IsLive p lo → P (slot_of p lo)
  unfolding entries
  entries-head lo k h l =
      let e : (ltb lo (get_num_slots p) && slot_flag p lo == 1) ≡ true = ground arith in
      (rw e at h).0

  -- and the other way round.
  pub entries-All :
      (lo k : ℕ)
      → All P (entries p lo k)
      → (t : ℕ) → lo ≤ t
      → t < lo + k
      → IsLive p t
      → P (slot_of p t)
  entries-All lo zero h t a b l = absurd (omega arith)
  entries-All lo (suc k) h t a b l = elim (ℕ_discrete t lo) [
    | yes e ↦ subst (λ u. P (slot_of p u)) (sym e) (entries-head lo k h (subst (IsLive p) e l))
    | no d ↦ entries-All (suc lo) k (entries-tail lo k h) t (omega arith) (omega arith) l
  ]

module _ {κ} (p : Page) (R : Slot → Slot → Type κ) where
  pub Pairs-entries :
      (lo k : ℕ)
      → ((t u : ℕ) → lo ≤ t → t < u → IsLive p t → IsLive p u → R (slot_of p t) (slot_of p u))
      → Pairs R (entries p lo k)
  unfolding entries
  Pairs-entries lo zero h = tt
  Pairs-entries lo (suc k) h =
      let rest = Pairs-entries (suc lo) k (λ t u a. h t u (omega arith)) in
      elim (Bool-cases (ltb lo (get_num_slots p) && slot_flag p lo == 1)) [
        | inl e ↦ rw e (
          All-entries p (R (slot_of p lo)) (suc lo) k
              (λ u a l. h lo u (omega arith) a (ground arith) l),
          rest,
        )
        | inr e ↦ rw e rest
      ]

  pub entries-Pairs :
      (lo k : ℕ)
      → Pairs R (entries p lo k)
      → (t u : ℕ) → lo ≤ t
      → t < u
      → u < lo + k
      → IsLive p t
      → IsLive p u
      → R (slot_of p t) (slot_of p u)
  unfolding entries
  entries-Pairs lo zero h t u a b c l m = absurd (omega arith)
  entries-Pairs lo (suc k) h t u a b c l m = elim (ℕ_discrete t lo) [
    | yes e ↦
        let live : IsLive p lo = subst (IsLive p) e l in
        let test : (ltb lo (get_num_slots p) && slot_flag p lo == 1) ≡ true = ground arith in
        subst (λ v. R (slot_of p v) (slot_of p u)) (sym e)
          (entries-All p (R (slot_of p lo)) (suc lo) k (rw test at h).0 u (omega arith)
            (omega arith) m)
    | no d ↦
        entries-Pairs (suc lo) k
          (elim (Bool-cases (ltb lo (get_num_slots p) && slot_flag p lo == 1)) [
            | inl e ↦ (rw e at h).1
            | inr e ↦ rw e at h
          ])
          t u (omega arith) b (omega arith) l m
  ]

-- Sorting keeps what holds of all elements, and of all pairs in either order.
module _ {κ} (P : Slot → Type κ) where
  insert-All : (s : Slot) (ss : List Slot) → P s → All P ss → All P (insert_by_offset s ss)
  unfolding insert_by_offset
  insert-All s [] h hs = (h, tt)
  insert-All s (t ∷ ts) h hs = elim (Bool-cases (leb s.offset t.offset)) [
    | inl e ↦ rw e (h, hs)
    | inr e ↦ rw e (hs.0, insert-All s ts h hs.1)
  ]

  All-insert : (s : Slot) (ss : List Slot) → All P (insert_by_offset s ss) → P s × All P ss
  unfolding insert_by_offset
  All-insert s [] h = h
  All-insert s (t ∷ ts) h = elim (Bool-cases (leb s.offset t.offset)) [
    | inl e ↦ rw e at h
    | inr e ↦ let k = rw e at h in let r = All-insert s ts k.1 in (r.0, (k.0, r.1))
  ]

  pub sort-All : (ss : List Slot) → All P ss → All P (sort_by_offset ss)
  unfolding sort_by_offset
  sort-All [] h = tt
  sort-All (s ∷ ss) h = insert-All s (sort_by_offset ss) h.0 (sort-All ss h.1)

  pub All-sort : (ss : List Slot) → All P (sort_by_offset ss) → All P ss
  unfolding sort_by_offset
  All-sort [] h = tt
  All-sort (s ∷ ss) h = let r = All-insert s (sort_by_offset ss) h in (r.0, All-sort ss r.1)

module _ {κ} (R : Slot → Slot → Type κ) (R_sym : (s t : Slot) → R s t → R t s) where
  insert-Pairs :
      (s : Slot) (ss : List Slot) → All (R s) ss → Pairs R ss → Pairs R (insert_by_offset s ss)
  unfolding insert_by_offset
  insert-Pairs s [] h hs = (tt, tt)
  insert-Pairs s (t ∷ ts) h hs = elim (Bool-cases (leb s.offset t.offset)) [
    | inl e ↦ rw e (h, hs)
    | inr e ↦ rw e (insert-All (R t) s ts (R_sym s t h.0) hs.0, insert-Pairs s ts h.1 hs.1)
  ]

  Pairs-insert :
      (s : Slot) (ss : List Slot) → Pairs R (insert_by_offset s ss) → All (R s) ss × Pairs R ss
  unfolding insert_by_offset
  Pairs-insert s [] h = h
  Pairs-insert s (t ∷ ts) h = elim (Bool-cases (leb s.offset t.offset)) [
    | inl e ↦ rw e at h
    | inr e ↦
        let k = rw e at h in
        let a = All-insert (R t) s ts k.0 in
        let r = Pairs-insert s ts k.1 in ((R_sym t s a.0, r.0), (a.1, r.1))
  ]

  pub sort-Pairs : (ss : List Slot) → Pairs R ss → Pairs R (sort_by_offset ss)
  unfolding sort_by_offset
  sort-Pairs [] h = tt
  sort-Pairs (s ∷ ss) h =
      insert-Pairs s (sort_by_offset ss) (sort-All (R s) ss h.0) (sort-Pairs ss h.1)

  pub Pairs-sort : (ss : List Slot) → Pairs R (sort_by_offset ss) → Pairs R ss
  unfolding sort_by_offset
  Pairs-sort [] h = tt
  Pairs-sort (s ∷ ss) h =
      let r = Pairs-insert s (sort_by_offset ss) h in (All-sort (R s) ss r.0, Pairs-sort ss r.1)

-- The offsets rise along the sorted list.
abbrev pub Before : Slot → Slot → Type 0
Before s t = s.offset ≤ t.offset

insert-sorted : (s : Slot) (ss : List Slot) → Pairs Before ss → Pairs Before (insert_by_offset s ss)
unfolding insert_by_offset
insert-sorted s [] h = (tt, tt)
insert-sorted s (t ∷ ts) h = elim (Bool-cases (leb s.offset t.offset)) [
  | inl e ↦
      let le : s.offset ≤ t.offset = leb→le _ _ e in
      rw e ((le, All-imp ts (λ u k. le_trans le k) h.0), h)
  | inr e ↦ rw e (insert-All (Before t) s ts (ground arith) h.0, insert-sorted s ts h.1)
]

pub sort-sorted : (ss : List Slot) → Pairs Before (sort_by_offset ss)
unfolding sort_by_offset
sort-sorted [] = tt
sort-sorted (s ∷ ss) = insert-sorted s (sort_by_offset ss) (sort-sorted ss)

used_bytes-insert :
    (t : Slot) (ts : List Slot) → used_bytes (insert_by_offset t ts) ≡ t.len + used_bytes ts
unfolding used_bytes insert_by_offset
used_bytes-insert t [] = refl
used_bytes-insert t (u ∷ us) = ground (arith, used_bytes-insert t us)

pub used_bytes-sort : (ss : List Slot) → used_bytes (sort_by_offset ss) ≡ used_bytes ss
unfolding used_bytes sort_by_offset
used_bytes-sort [] = refl
used_bytes-sort (s ∷ ss) =
    used_bytes-insert s (sort_by_offset ss) ∙ ap (λ n. s.len + n) (used_bytes-sort ss)
