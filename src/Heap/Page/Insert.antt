-- ===== src/Heap/Page/Insert.antt =====
-- What `add_value` does.
use crustydb_labs_cs378_spri.Prelude.{
  ℕ, ◌+◌, ◌-◌, ◌≤◌, ◌<◌, ◌≡◌, ◌≢◌, refl, sym, ap, subst, ◌∙◌, ◌⊎◌, inl, inr, Bool-cases, List, none,
  some, arith, ltb, leb, nat_eq, if◌then◌else◌, length, ok,
}
use crustydb_labs_cs378_spri.Heap.Bytes.{page_size, slice}
use crustydb_labs_cs378_spri.Heap.Page.{
  Page, get_num_slots, get_free_start, get_header_size, compact, grow_header, insert_value,
  add_value, get_value, get_free_space, find_lowest_free_slot_id,
}
use crustydb_labs_cs378_spri.Heap.Page.Layout.{
  IsLive, slot_flag, slot_offset, WellFormed, Carries, same_record, get_value-record_at,
}
use crustydb_labs_cs378_spri.Heap.Page.Grow.{Ready, grow_header-Grown}
use crustydb_labs_cs378_spri.Heap.Page.Place.{Placed, place_value-Placed}
use crustydb_labs_cs378_spri.Heap.Page.Compact.{used, compact-Compacted, get_free_space-used}
use crustydb_labs_cs378_spri.Heap.Page.Search.{IsLowestFree, find_lowest_free_slot_id-IsLowestFree}

-- All slots but `s` hold in `q` what they held in `p`.
pub record Keeps (p q : Page) (s : ℕ) : Type 0 where
  pub carries : (t : ℕ) → t ≢ s → IsLive p t → Carries p q t
  pub back : (t : ℕ) → t ≢ s → IsLive q t → IsLive p t

Carries-trans : (p q r : Page) (t : ℕ) → Carries p q t → Carries q r t → Carries p r t
Carries-trans p q r t c d = (
  d.0,
  d.1 ∙ c.1,
  sym (ap (slice r.content (slot_offset r t)) c.1)
      ∙ d.2
      ∙ ap (slice q.content (slot_offset q t)) c.1
      ∙ c.2,
)

Keeps-trans : {p q r : Page} {s : ℕ} → Keeps p q s → Keeps q r s → Keeps p r s
Keeps-trans {p} {q} {r} k l = record {
  carries = λ t d live. let c = k.carries t d live in Carries-trans p q r t c (l.carries t d c.0);
  back = λ t d live. k.back t d (l.back t d live);
}

extra : Page → ℕ → ℕ
extra p s = if leb (get_num_slots p) s then 6 else 0

-- A page with the same records whose free bytes are in one piece that is long enough.
record Roomy (p : Page) (s n : ℕ) (q : Page) : Type 0 where
  wf : WellFormed q
  count : get_num_slots q ≡ get_num_slots p
  room : get_free_start q + extra p s + n ≤ page_size
  flags : (t : ℕ) → t < get_num_slots p → slot_flag q t ≡ slot_flag p t
  keeps : Keeps p q s

module _ (p : Page) (s : ℕ) (bytes : List ℕ) (v : WellFormed p) where
  compact_if_needed :
      0 < length bytes
      → get_header_size p + used p + extra p s + length bytes ≤ page_size
      → (q : Page) × ((if ltb (page_size - (get_free_start p + extra p s)) (length bytes)
            then compact p
            else ok p)
          ≡ ok q)
        × Roomy p s (length bytes) q
  compact_if_needed nonempty enough =
      elim (Bool-cases (ltb (page_size - (get_free_start p + extra p s)) (length bytes))) [
        | inl e ↦
            let (q, f, c) = compact-Compacted p v in
            (
              q,
              rw e f,
              record {
                wf = c.wf;
                count = c.count;
                room = omega (arith, c.start);
                flags = c.flags;
                keeps = record {
                  carries = λ t d l. c.carries t l;
                  back = λ t d l. ground (arith, c.count, c.flags t);
                };
              },
            )
        | inr e ↦ (
          p,
          rw e,
          record {
            wf = v;
            count = refl;
            room = ground arith;
            flags = λ t h. refl;
            keeps = record { carries = λ t d l. (l, refl, refl); back = λ t d l. l };
          },
        )
      ]

  -- The slot that is about to be written.
  record Prepared (q r : Page) : Type 0 where
    ready : Ready r s
    start : get_free_start r + length bytes ≤ page_size
    keeps : Keeps q r s

  grow_if_needed :
      (q : Page)
      → Roomy p s (length bytes) q
      → IsLowestFree p 0 (get_num_slots p) s
      → (r : Page) × ((if leb (get_num_slots p) s then grow_header q (get_num_slots p) else ok q)
          ≡ ok r)
        × Prepared q r
  unfolding extra
  grow_if_needed q m l = elim (Bool-cases (leb (get_num_slots p) s)) [
    | inl e ↦
        let at_end : get_num_slots q ≡ s = ground (arith, m.count, l.upto) in
        let (r, f, g) = grow_header-Grown q m.wf (ground (arith, m.room)) in
        (
          r,
          rw (e, ← m.count) f,
          record {
            ready = subst (Ready r) at_end g.ready;
            start = ground (arith, g.start, m.room);
            keeps = record {
              carries = λ t d live. g.carries t live;
              back = λ t d live. ground (arith, g.count, g.flags t);
            };
          },
        )
    | inr e ↦ (
      q,
      rw e,
      record {
        ready = record {
          header = m.wf.header;
          below = ground (arith, m.count);
          flags = λ t d. m.wf.flags t;
          placed = λ t d. m.wf.placed t;
          apart = λ t u d d' h f k g ne. m.wf.apart t u h f k g ne;
        };
        start = omega (arith, m.room);
        keeps = record { carries = λ t d live. (live, refl, refl); back = λ t d live. live };
      },
    )
  ]

  place-Keeps : (r q : Page) → Placed r s bytes q → Keeps r q s
  place-Keeps r q d = record {
    carries = d.carries;
    back = λ t ne l. ground (arith, d.count, d.flags t ne);
  }

  -- The page after the value is in slot `s`: the other slots have the values that they had.
  pub record Inserted (q : Page) : Type 0 where
    pub wf : WellFormed q
    pub stored : get_value q s ≡ ok (some bytes)
    pub others : (t : ℕ) → t ≢ s → get_value q t ≡ get_value p t

  insert_value-Inserted :
      0 < length bytes
      → get_header_size p + used p + extra p s + length bytes ≤ page_size
      → IsLowestFree p 0 (get_num_slots p) s
      → (q : Page) × (insert_value p s bytes ≡ ok (some s, q)) × Inserted q
  unfolding insert_value extra
  insert_value-Inserted nonempty enough l =
      let (a, e, m) = compact_if_needed nonempty enough in
      let (b, f, r) = grow_if_needed a m l in
      let (c, g, d) = place_value-Placed b s bytes r.ready r.start in
      let k : Keeps p c s = Keeps-trans m.keeps (Keeps-trans r.keeps (place-Keeps b c d)) in
      (
        c,
        rw (e, f) g,
        record {
          wf = d.wf;
          stored = get_value-record_at c d.wf.header s ∙ ap ok d.stored;
          others = λ t ne.
              get_value-record_at c d.wf.header t
              ∙ ap ok (same_record p c v d.wf t (k.carries t ne) (k.back t ne))
              ∙ sym (get_value-record_at p v.header t);
        },
      )

-- The two ways through `add_value`.
module _ (p : Page) (s free : ℕ) (bytes : List ℕ) (e : find_lowest_free_slot_id p ≡ ok s)
    (f : get_free_space p ≡ ok free) where
  refused : free < length bytes + extra p s → add_value p bytes ≡ ok (none, p)
  unfolding add_value extra
  refused h = ground (arith, e, f)

  admitted :
      length bytes ≤ page_size
      → length bytes + extra p s ≤ free
      → add_value p bytes ≡ insert_value p s bytes
  unfolding add_value extra
  admitted h k = ground (arith, e, f)

-- `add_value` of a value that is not empty, on a well-formed page. The value goes to the lowest free
-- slot, or to a new one if all are in use. It is stored exactly if the free space is enough for it
-- and, where the slot is new, for the entry of the slot: then it reads back, every other slot has the
-- value that it had, and the page is well formed. Else the call returns `None` and the page is as
-- it was. In no case does it panic, also where it compacts the page or moves the body.
pub add_value_cases :
    (p : Page) (bytes : List ℕ)
    → WellFormed p
    → 0 < length bytes
    → (s free : ℕ) × IsLowestFree p 0 (get_num_slots p) s
      × (get_free_space p ≡ ok free)
      × (((length bytes + (if leb (get_num_slots p) s then 6 else 0) ≤ free)
            × ((q : Page) × (add_value p bytes ≡ ok (some s, q))
                × WellFormed q
                × (get_value q s ≡ ok (some bytes))
                × ((t : ℕ) → t ≢ s → get_value q t ≡ get_value p t)))
          ⊎ ((free < length bytes + (if leb (get_num_slots p) s then 6 else 0))
              × (add_value p bytes ≡ ok (none, p))))
unfolding add_value extra
add_value_cases p bytes v nonempty =
    let (s, e, l) = find_lowest_free_slot_id-IsLowestFree p v in
    let f = get_free_space-used p v in
    let free = page_size - get_header_size p - used p in
    (
      s,
      free,
      l,
      f,
      elim (Bool-cases (ltb free (length bytes + extra p s))) [
        | inl small ↦ inr (ground arith, refused p s free bytes e f (ground arith))
        | inr enough ↦
            let (q, g, d) =
              insert_value-Inserted p s bytes v nonempty (ground (arith, v.header)) l in
            inl (
              ground arith,
              (
                q,
                admitted p s free bytes e f (ground arith) (ground arith) ∙ g,
                d.wf,
                d.stored,
                d.others,
              ),
            )
      ],
    )
