-- ===== src/Heap/Bytes.antt =====
-- The bytes of a page: a fixed array, `[u8; PAGE_SIZE]`, as the function of its positions below
-- `page_size`. What Rust checks of a range is checked by `in_page`.
use crustydb_labs_cs378_spri.Prelude.{
  ℕ, zero, suc, ◌+◌, ◌-◌, ◌*◌, ◌/◌, ◌%◌, ◌<◌, ◌≡◌, refl, ap, List, [], ◌∷◌, arith, ◌&&◌, ltb, leb,
  ◌==◌, nat_eq, if◌then◌else◌, length, get_or, Outcome, ok, panic,
}

abbrev pub page_size : ℕ
page_size = 4096

abbrev pub Bytes : Type 0
Bytes = ℕ → ℕ

-- A range that ends at `hi` lies in the page, or the access panics.
abbrev pub in_page : ℕ → Outcome (Unit {0})
in_page hi = if leb hi page_size then ok tt else panic

-- `u16::from_le_bytes`, `to_le_bytes`
abbrev pub read_u16 : Bytes → ℕ → ℕ
read_u16 d i = d i + 256 * d (i + 1)

abbrev pub write_u8 : Bytes → ℕ → ℕ → Bytes
write_u8 d i v j = if j == i then v else d j

abbrev pub write_u16 : Bytes → ℕ → ℕ → Bytes
write_u16 d i v j = if j == i then v % 256 else if j == i + 1 then v / 256 % 256 else d j

-- `data.copy_within(src..src + len, dest)`
abbrev pub copy_within : Bytes → ℕ → ℕ → ℕ → Bytes
copy_within d src len dest j =
    if leb dest j && ltb j (dest + len) then d (src + (j - dest)) else d j

-- `data[lo..hi].fill(0)`
abbrev pub fill_zero : Bytes → ℕ → ℕ → Bytes
fill_zero d lo hi j = if leb lo j && ltb j hi then 0 else d j

-- `data[i..i + bytes.len()].clone_from_slice(bytes)`
abbrev pub write_bytes : Bytes → ℕ → List ℕ → Bytes
write_bytes d i bytes j =
    if leb i j && ltb j (i + length bytes) then get_or bytes (j - i) 0 else d j

-- `data[i..i + len].to_vec()`
unfoldable pub slice : Bytes → ℕ → ℕ → List ℕ
slice d i zero = []
slice d i (suc n) = d i ∷ slice d (i + 1) n

-- Slices agree where the bytes do, at a distance.
pub slice_eq :
    (d e : Bytes) (i j n : ℕ)
    → ((k : ℕ) → k < n → d (i + k) ≡ e (j + k))
    → slice d i n ≡ slice e j n
unfolding slice
slice_eq d e i j zero h = refl
slice_eq d e i j (suc n) h = ground (
  arith,
  h 0 (omega arith),
  slice_eq d e (i + 1) (j + 1) n (λ k lt. ground (arith, h (suc k) (omega arith))),
)

pub slice_of_list :
    (d : Bytes) (i : ℕ) (bytes : List ℕ)
    → ((k : ℕ) → k < length bytes → d (i + k) ≡ get_or bytes k 0)
    → slice d i (length bytes) ≡ bytes
unfolding slice
slice_of_list d i [] h = refl
slice_of_list d i (b ∷ bytes) h = ground (
  arith,
  h 0 (omega arith),
  slice_of_list d (i + 1) bytes (λ k lt. ground (arith, h (suc k) (omega arith))),
)

-- A value reads back where it was written.
pub slice-write_bytes :
    (d : Bytes) (i : ℕ) (bytes : List ℕ) → slice (write_bytes d i bytes) i (length bytes) ≡ bytes
slice-write_bytes d i bytes = slice_of_list _ i bytes (λ k lt. ground (arith, at k lt))
  where
    at : (k : ℕ) → k < length bytes → get_or bytes (i + k - i) 0 ≡ get_or bytes k 0
    at k lt = ap (λ j. get_or bytes j 0) (omega arith)
