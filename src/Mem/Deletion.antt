-- ===== src/Mem/Deletion.antt =====
-- Deletion and update of values: `delete_value` and `update_value` of
-- storage/memstore/src/storage_manager.rs.
use crustydb_labs_cs378_spri.Prelude.{
  ℕ, ◌≤◌, ◌≡◌, ◌≢◌, refl, sym, ap, ◌∙◌, true, false, Option, none, some, ◌==◌, nat_eq, beq_refl,
  update, delete, ok, err, execution_error, >>=-ok, inl, inr, Bool-cases, Option-cases, arith,
  if◌then◌else◌,
}
use native.Mathlib.Decide.{ℕ_discrete}
use crustydb_labs_cs378_spri.Common.Ids.{ValueId, value_id_eq}
use crustydb_labs_cs378_spri.Mem.{
  Bytes, ContainerMap, StorageManager, value_slot, next_slot, delete_value, update_value, get_value,
}
use crustydb_labs_cs378_spri.Mem.Values.{Inv, insert_at, read_after, fresh}

deleted_other : (m : ContainerMap) (r v : ValueId) → v ≢ r → delete m r v ≡ m v
deleted_other m r v other = elim (Bool-cases (r == v)) [
  | inl yes_ ↦ absurd (other (sym ((value_id_eq.beq_iff r v).0 yes_)))
  | inr no_ ↦ rw (no_) refl
]

delete-placed :
    (sm : StorageManager) (id : ValueId) (m : ContainerMap)
    → Inv sm
    → sm.containers id.container_id ≡ some m
    → (d : ℕ) (m' : ContainerMap) (v : ValueId) (b : Bytes)
    → update sm.containers id.container_id (delete m id) d ≡ some m'
    → m' v ≡ some b
    → (k : ℕ) × (l : ℕ) × (v ≡ value_slot d k)
      × (sm.last_insert d ≡ some (value_slot d l))
      × (k ≤ l)
delete-placed sm id m inv h d m' v b at there = elim (ℕ_discrete id.container_id d) [
  | no other ↦
      let no_ : (id.container_id == d) ≡ false =
        ground (arith, other, nat_eq.beq_iff id.container_id d) in
      inv.placed d m' v b
        (sym (ap (λ t. if t then some (delete m id) else sm.containers d) no_) ∙ at) there
  | yes same ↦
      let yes_ : (id.container_id == d) ≡ true = (nat_eq.beq_iff id.container_id d).1 same in
      let is_m : some (delete m id) ≡ some m' =
        sym (ap (λ t. if t then some (delete m id) else sm.containers d) yes_) ∙ at in
      let still : delete m id v ≡ some b = ap (λ o. at_id o v) is_m ∙ there in
      elim (Bool-cases (id == v)) [
        | inl hit ↦ absurd (gone (sym (ap (λ t. if t then none else m v) hit) ∙ still))
        | inr miss ↦
            inv.placed d m v b (sym (ap (λ e. sm.containers e) same) ∙ h)
              (sym (ap (λ t. if t then none else m v) miss) ∙ still)
      ]
]
  where
    at_id : Option ContainerMap → ValueId → Option Bytes
    at_id none u = none
    at_id (some m0) u = m0 u

    gone : none ≡ some b → ⊥
    gone e = cc

-- In a container that exists a value is deleted: its identifier has no value any more, every other one
-- reads as before, the slots to come are the same, and the store is well formed again.
pub delete_value-get_value :
    (sm : StorageManager) (id : ValueId) (m : ContainerMap)
    → Inv sm
    → sm.containers id.container_id ≡ some m
    → (sm' : StorageManager) × (delete_value sm id ≡ ok sm')
      × Inv sm'
      × (get_value sm' id ≡ err (execution_error "Record ID not found {:?}"))
      × ((v : ValueId) → v ≢ id → get_value sm' v ≡ get_value sm v)
      × (sm'.containers id.container_id ≡ some (delete m id))
      × (sm'.last_insert ≡ sm.last_insert)
unfolding delete_value
delete_value-get_value sm id m inv h = (
  record sm { containers = update sm.containers id.container_id (delete m id) },
  rw (h, delete_value) refl,
  record { placed = delete-placed sm id m inv h; last = inv.last },
  rw (beq_refl id.container_id, beq_refl id) refl,
  (λ v other. read_after sm id.container_id m (delete m id) h v (deleted_other m id v other)),
  rw (beq_refl id.container_id) refl,
  refl,
)

-- In a well-formed store whose container exists, keeps the value under this identifier and has a slot left
-- after its last insertion, the update of the value succeeds: the new value has an identifier of its own,
-- the old one has no value any more, every other one reads as before, and the store is well formed. (Where
-- no slot is left, the update deletes the value and then panics: that case is outside of this theorem.)
pub update_value-get_value :
    (sm : StorageManager) (id : ValueId) (m : ContainerMap) (s : ℕ) (b old : Bytes)
    → Inv sm
    → sm.containers id.container_id ≡ some m
    → m id ≡ some old
    → next_slot (sm.last_insert id.container_id) ≡ ok s
    → (r : ValueId) × (sm' : StorageManager) × (update_value sm b id ≡ ok (r, sm'))
      × Inv sm'
      × (r ≢ id)
      × (get_value sm' r ≡ ok b)
      × (get_value sm' id ≡ err (execution_error "Record ID not found {:?}"))
      × ((v : ValueId) → v ≢ r → v ≢ id → get_value sm' v ≡ get_value sm v)
unfolding update_value
update_value-get_value sm id m s b old inv h stored slot =
    let c = id.container_id in
    let (sm1, deleted, inv1, gone, others1, at1, same_last) =
      delete_value-get_value sm id m inv h in
    let (sm', done, inv', new, others2) =
      insert_at sm1 c (delete m id) s b inv1 at1
        (ap (λ last. next_slot (last c)) same_last ∙ slot) in
    let other : value_slot c s ≢ id = λ e. elim (Option-cases (m (value_slot c s))) [
      | inl absent ↦ none_is_some (sym absent ∙ ap m e ∙ stored)
      | inr (b', there) ↦ none_is_some (sym (fresh sm inv c m s b h slot) ∙ ap m e ∙ stored)
    ] in
    (
      value_slot c s,
      sm',
      >>=-ok _ _ deleted done,
      inv',
      other,
      new,
      others2 id (λ e. other (sym e)) ∙ gone,
      (λ v not_r not_id. others2 v not_r ∙ others1 v not_id),
    )
  where
    none_is_some : {A : Type 0} {a : A} → none ≡ some a → ⊥
    none_is_some e = cc
