-- ===== src/Heap/Page/Chain.antt =====
-- Records that follow one another in a page.
use crustydb_labs_cs378_spri.Prelude.{ℕ, ◌+◌, ◌≤◌, ◌≡◌, ◌⊎◌, inl, inr, List, [], ◌∷◌, arith}
use crustydb_labs_cs378_spri.Heap.Page.{Slot, used_bytes}
use crustydb_labs_cs378_spri.Heap.Page.Entries.{All, All-imp, Pairs, Before}

abbrev pub Apart : Slot → Slot → Type 0
Apart s t = (s.offset + s.len ≤ t.offset) ⊎ (t.offset + t.len ≤ s.offset)

-- An empty record may lie anywhere; the others follow one another from `lo` to `hi`.
abbrev pub Chain : ℕ → List Slot → ℕ → Type 0
Chain lo [] hi = lo ≤ hi
Chain lo (s ∷ ss) hi =
    ((s.len ≡ 0) × Chain lo ss hi) ⊎ ((lo ≤ s.offset) × Chain (s.offset + s.len) ss hi)

abbrev pub From : ℕ → Slot → Type 0
From lo s = (s.len ≡ 0) ⊎ (lo ≤ s.offset)

pub Chain-mono :
    {lo lo' : ℕ} (ss : List Slot) (hi : ℕ) → lo ≤ lo' → Chain lo' ss hi → Chain lo ss hi
Chain-mono [] hi h c = omega arith
Chain-mono (s ∷ ss) hi h (inl (e, c)) = inl (e, Chain-mono ss hi h c)
Chain-mono (s ∷ ss) hi h (inr (l, c)) = inr (omega arith, c)

pub Chain-used : (lo : ℕ) (ss : List Slot) (hi : ℕ) → Chain lo ss hi → lo + used_bytes ss ≤ hi
unfolding used_bytes
Chain-used lo [] hi c = omega arith
Chain-used lo (s ∷ ss) hi (inl (e, c)) = omega (arith, Chain-used lo ss hi c)
Chain-used lo (s ∷ ss) hi (inr (l, c)) = omega (arith, Chain-used (s.offset + s.len) ss hi c)

pub Chain-From : (lo : ℕ) (ss : List Slot) (hi : ℕ) → Chain lo ss hi → All (From lo) ss
Chain-From lo [] hi c = tt
Chain-From lo (s ∷ ss) hi (inl (e, c)) = (inl e, Chain-From lo ss hi c)
Chain-From lo (s ∷ ss) hi (inr (l, c)) =
    (inr l, All-imp ss (λ t f. ground arith) (Chain-From (s.offset + s.len) ss hi c))

-- Records that are sorted by offset and lie apart form a chain.
pub Chain-sorted :
    (lo : ℕ) (ss : List Slot) (hi : ℕ)
    → Pairs Before ss
    → Pairs Apart ss
    → All (From lo) ss
    → All (λ s. s.offset + s.len ≤ hi) ss
    → lo ≤ hi
    → Chain lo ss hi
Chain-sorted lo [] hi b a f e h = h
Chain-sorted lo (s ∷ ss) hi b a (inl z, f) e h = inl (z, Chain-sorted lo ss hi b.1 a.1 f e.1 h)
Chain-sorted lo (s ∷ ss) hi b a (inr l, f) e h =
    inr (l, Chain-sorted (s.offset + s.len) ss hi b.1 a.1 (after ss b.0 a.0) e.1 e.0)
  where
    after :
        (ts : List Slot) → All (Before s) ts → All (Apart s) ts → All (From (s.offset + s.len)) ts
    after [] p q = tt
    after (t ∷ ts) p q = (elim q.0 [ inl x ↦ inr x | inr y ↦ inl (omega arith) ], after ts p.1 q.1)
