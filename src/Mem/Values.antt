-- ===== src/Mem/Values.antt =====
-- Values by their identifiers: what insertion, deletion and update do to what can be read.
use crustydb_labs_cs378_spri.Prelude.{
  ℕ, ◌+◌, ◌^◌, ◌≤◌, ◌<◌, ◌≡◌, ◌≢◌, refl, sym, ap, ◌∙◌, true, false, Option, none, some, ◌==◌,
  nat_eq, beq_refl, update, Outcome, ok, err, execution_error, panic, panic, ltb→lt, ◌↔◌, inl, inr,
  Bool-cases, Option-cases, arith, ltb, if◌then◌else◌,
}
use native.Mathlib.Decide.{ℕ_discrete}
use crustydb_labs_cs378_spri.Common.Ids.{ValueId, value_id_eq}
use crustydb_labs_cs378_spri.Mem.{
  Bytes, ContainerMap, StorageManager, value_slot, next_slot, next_u16, insert_value, get_value,
  value_in, found, new_test_sm,
}

-- A stored value is in its own container, under a slot up to that of the last insertion there.
pub record Inv (sm : StorageManager) : Type 0 where
  pub placed :
      (c : ℕ) (m : ContainerMap) (v : ValueId) (b : Bytes)
      → sm.containers c ≡ some m
      → m v ≡ some b
      → (k : ℕ) × (l : ℕ) × (v ≡ value_slot c k)
        × (sm.last_insert c ≡ some (value_slot c l))
        × (k ≤ l)
  pub last : (c : ℕ) (v : ValueId) → sm.last_insert c ≡ some v → (l : ℕ) × (v ≡ value_slot c l)

pub new_test_sm-Inv : Inv new_test_sm
new_test_sm-Inv = record { placed = λ c m v b h e. cc; last = λ c v h. cc }

abbrev pub slot_of : ValueId → Option ℕ
slot_of v = v.slot_id

value_slot_inj : (c k l : ℕ) → value_slot c k ≡ value_slot c l → k ≡ l
value_slot_inj c k l e = ground (arith, ap slot_of e)

-- The next slot is above all of those in use.
next_slot-above :
    (last : Option ValueId) (c l s : ℕ)
    → next_slot last ≡ ok s
    → last ≡ some (value_slot c l)
    → l < s
unfolding next_slot next_u16
next_slot-above last c l s h e = ground (arith, ap next_slot e, h)

abbrev no_record : Outcome Bytes
no_record = err (execution_error "Record ID not found {:?}")

-- Reading after one container was given other contents.
module _ (sm : StorageManager) (c : ℕ) (m m' : ContainerMap) (h : sm.containers c ≡ some m) where
  pub read_after :
      (v : ValueId)
      → m' v ≡ m v
      → value_in (update sm.containers c m' v.container_id) v ≡ get_value sm v
  read_after v same = elim (Bool-cases (c == v.container_id)) [
    | inl yes_ ↦ rw (yes_) (
        ap found same
        ∙ ap (λ o. value_in o v)
            (sym h ∙ ap (λ d. sm.containers d) ((nat_eq.beq_iff c v.container_id).0 yes_)))
    | inr no_ ↦ rw (no_) refl
  ]

-- The contents after the insertion of `b` under `r`, for another value.
inserted_other : (m : ContainerMap) (r v : ValueId) (b : Bytes) → v ≢ r → update m r b v ≡ m v
inserted_other m r v b other = elim (Bool-cases (r == v)) [
  | inl yes_ ↦ absurd (other (sym ((value_id_eq.beq_iff r v).0 yes_)))
  | inr no_ ↦ rw (no_) refl
]

abbrev pub after_insert : StorageManager → ℕ → ContainerMap → ℕ → Bytes → StorageManager
after_insert sm c m s b = record sm {
  containers = update sm.containers c (update m (value_slot c s) b);
  last_insert = update sm.last_insert c (value_slot c s);
}

module _ (sm : StorageManager) (inv : Inv sm) (c : ℕ) (m : ContainerMap) (s : ℕ) (b : Bytes)
    (h : sm.containers c ≡ some m) (slot : next_slot (sm.last_insert c) ≡ ok s) where
  pub fresh : m (value_slot c s) ≡ none
  fresh = elim (Option-cases (m (value_slot c s))) [
    | inl absent ↦ absent
    | inr (b', there) ↦
        let (k, l, is_k, is_last, le) = inv.placed c m (value_slot c s) b' h there in
        let same = value_slot_inj c s k is_k in
        let above = next_slot-above (sm.last_insert c) c l s slot is_last in absurd (omega arith)
  ]

  insert-placed :
      (d : ℕ) (m' : ContainerMap) (v : ValueId) (b' : Bytes)
      → update sm.containers c (update m (value_slot c s) b) d ≡ some m'
      → m' v ≡ some b'
      → (k : ℕ) × (l : ℕ) × (v ≡ value_slot d k)
        × (update sm.last_insert c (value_slot c s) d ≡ some (value_slot d l))
        × (k ≤ l)
  insert-placed d m' v b' at there = elim (ℕ_discrete c d) [
    | no other ↦
        let no_ : (c == d) ≡ false = ground (arith, other, nat_eq.beq_iff c d) in
        let (k, l, is_k, is_last, le) =
          inv.placed d m' v b'
            (sym (ap (λ t. if t then some (update m (value_slot c s) b) else sm.containers d) no_)
              ∙ at)
            there in
        (
          k,
          l,
          is_k,
          ap (λ t. if t then some (value_slot c s) else sm.last_insert d) no_ ∙ is_last,
          le,
        )
    | yes same ↦
        let yes_ : (c == d) ≡ true = (nat_eq.beq_iff c d).1 same in
        let is_m : some (update m (value_slot c s) b) ≡ some m' =
          sym (ap (λ t. if t then some (update m (value_slot c s) b) else sm.containers d) yes_)
          ∙ at in
        let last_is =
          ap (λ t. if t then some (value_slot c s) else sm.last_insert d) yes_
          ∙ ap (λ e. some (value_slot e s)) same in
        elim (Bool-cases (value_slot c s == v)) [
          | inl hit ↦ (
            s,
            s,
            sym ((value_id_eq.beq_iff (value_slot c s) v).0 hit) ∙ ap (λ e. value_slot e s) same,
            last_is,
            omega arith,
          )
          | inr miss ↦
              let there' : m v ≡ some b' =
                sym (ap (λ t. if t then some b else m v) miss) ∙ ap (λ o. at_id o v) is_m ∙ there in
              let (k, l, is_k, is_last, le) = inv.placed c m v b' h there' in
              let above = next_slot-above (sm.last_insert c) c l s slot is_last in
              (k, s, is_k ∙ ap (λ e. value_slot e k) same, last_is, omega arith)
        ]
  ]
    where
      at_id : Option ContainerMap → ValueId → Option Bytes
      at_id none u = none
      at_id (some m0) u = m0 u

  insert-last :
      (d : ℕ) (v : ValueId)
      → update sm.last_insert c (value_slot c s) d ≡ some v
      → (l : ℕ) × (v ≡ value_slot d l)
  insert-last d v at = elim (ℕ_discrete c d) [
    | no other ↦
        let no_ : (c == d) ≡ false = ground (arith, other, nat_eq.beq_iff c d) in
        inv.last d v
          (sym (ap (λ t. if t then some (value_slot c s) else sm.last_insert d) no_) ∙ at)
    | yes same ↦
        let yes_ : (c == d) ≡ true = (nat_eq.beq_iff c d).1 same in
        let is_v =
          sym (ap (λ t. if t then some (value_slot c s) else sm.last_insert d) yes_) ∙ at in
        (s, sym (some_inj is_v) ∙ ap (λ e. value_slot e s) same)
  ]
    where
      some_inj : {a b' : ValueId} → some a ≡ some b' → a ≡ b'
      some_inj e = ground (arith, e)

pub after_insert-Inv :
    (sm : StorageManager) (c : ℕ) (m : ContainerMap) (s : ℕ) (b : Bytes)
    → Inv sm
    → sm.containers c ≡ some m
    → next_slot (sm.last_insert c) ≡ ok s
    → Inv (after_insert sm c m s b)
after_insert-Inv sm c m s b inv h slot = record {
  placed = insert-placed sm inv c m s b h slot;
  last = insert-last sm inv c m s b h slot;
}

pub insert_at :
    (sm : StorageManager) (c : ℕ) (m : ContainerMap) (s : ℕ) (b : Bytes)
    → Inv sm
    → sm.containers c ≡ some m
    → next_slot (sm.last_insert c) ≡ ok s
    → (sm' : StorageManager) × (insert_value sm c b ≡ ok (value_slot c s, sm'))
      × Inv sm'
      × (get_value sm' (value_slot c s) ≡ ok b)
      × ((v : ValueId) → v ≢ value_slot c s → get_value sm' v ≡ get_value sm v)
unfolding insert_value
insert_at sm c m s b inv h slot = (
  after_insert sm c m s b,
  rw (h, slot) refl,
  after_insert-Inv sm c m s b inv h slot,
  rw (beq_refl c, beq_refl (value_slot c s)) refl,
  λ v other.
      read_after sm c m (update m (value_slot c s) b) h v
        (inserted_other m (value_slot c s) v b other),
)

-- Into a container that exists, with a slot left, a value is inserted under an identifier that was not
-- in use; reading the identifier gives the value back, reading any other gives what it gave before, and the
-- store is well formed again.
pub insert_value-get_value :
    (sm : StorageManager) (c : ℕ) (m : ContainerMap) (s : ℕ) (b : Bytes)
    → Inv sm
    → sm.containers c ≡ some m
    → next_slot (sm.last_insert c) ≡ ok s
    → (r : ValueId) × (sm' : StorageManager) × (insert_value sm c b ≡ ok (r, sm'))
      × Inv sm'
      × (get_value sm r ≡ err (execution_error "Record ID not found {:?}"))
      × (get_value sm' r ≡ ok b)
      × ((v : ValueId) → v ≢ r → get_value sm' v ≡ get_value sm v)
insert_value-get_value sm c m s b inv h slot =
    let (sm', done, inv', new, others) = insert_at sm c m s b inv h slot in
    (value_slot c s, sm', done, inv', rw (h) (ap found (fresh sm inv c m s b h slot)), new, others)

-- Into a container that exists and has had insertions, one more panics just when the last slot is the
-- largest `u16`.
pub insert_value-panic :
    (sm : StorageManager) (c l : ℕ) (m : ContainerMap) (b : Bytes)
    → sm.containers c ≡ some m
    → sm.last_insert c ≡ some (value_slot c l)
    → (insert_value sm c b ≡ panic) ↔ (2 ^ 16 ≤ l + 1)
unfolding insert_value next_slot next_u16
insert_value-panic sm c l m b h last = elim (Bool-cases (ltb (l + 1) (2 ^ 16))) [
  | inl room ↦ (
    λ e. absurd (
        not_panic (value_slot c (l + 1), after_insert sm c m (l + 1) b)
          (sym (rw (h, last, room) refl) ∙ e)),
    λ full. absurd (omega (arith, ltb→lt (l + 1) (2 ^ 16) room)),
  )
  | inr full ↦ (λ e. ground (arith, full), λ g. rw (h, last, full) refl)
]
  where
    not_panic : (x : ValueId × StorageManager) → ok x ≡ panic → ⊥
    not_panic x e = cc
