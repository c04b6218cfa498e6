-- ===== src/Mem/Tests.antt =====
-- A memory store with one container and one value.
use crustydb_labs_cs378_spri.Prelude.{
  ℕ, ◌+◌, ◌^◌, ◌≡◌, ◌≢◌, ◌≤◌, ◌↔◌, refl, List, [], ◌∷◌, none, some, ok, err, panic, execution_error,
  nat_eq, string_eq, update, delete, arith,
}
use crustydb_labs_cs378_spri.Common.Ids.{ValueId, value_id_eq}
use crustydb_labs_cs378_spri.Mem.{
  Bytes, ContainerMap, StorageManager, new_test_sm, value_slot, next_slot, next_u16, insert_value,
  delete_value, update_value, get_value, create_container, remove_container, get_iterator, next,
  advance, ValueIterator, slot_or_zero,
}
use crustydb_labs_cs378_spri.Mem.Values.{
  Inv, new_test_sm-Inv, after_insert, after_insert-Inv, insert_value-get_value, insert_value-panic,
}
use crustydb_labs_cs378_spri.Mem.Deletion.{delete_value-get_value, update_value-get_value}
use crustydb_labs_cs378_spri.Mem.Containers.{
  with_empty, with_empty-Inv, or_empty, create_container-remove_container,
}
use crustydb_labs_cs378_spri.Mem.Scan.{drain, stored_from, Listed, get_iterator-stored_from}

abbrev empty_store : StorageManager
empty_store = with_empty new_test_sm 7

abbrev no_values : ContainerMap
no_values = λ _. none

abbrev store : StorageManager
store = after_insert empty_store 7 no_values 0 (1 ∷ 2 ∷ [])

abbrev values : ContainerMap
values = update no_values (value_slot 7 0) (1 ∷ 2 ∷ [])

empty_store-Inv : Inv empty_store
empty_store-Inv = with_empty-Inv new_test_sm 7 new_test_sm-Inv

store-Inv : Inv store
unfolding next_slot
store-Inv = after_insert-Inv empty_store 7 no_values 0 (1 ∷ 2 ∷ []) empty_store-Inv refl refl

insert_example :
    (r : ValueId) × (sm' : StorageManager) × (insert_value store 7 (5 ∷ []) ≡ ok (r, sm'))
    × Inv sm'
    × (get_value store r ≡ err (execution_error "Record ID not found {:?}"))
    × (get_value sm' r ≡ ok (5 ∷ []))
    × ((v : ValueId) → v ≢ r → get_value sm' v ≡ get_value store v)
unfolding next_slot next_u16
insert_example = insert_value-get_value store 7 values 1 (5 ∷ []) store-Inv refl refl

delete_example :
    (sm' : StorageManager) × (delete_value store (value_slot 7 0) ≡ ok sm')
    × Inv sm'
    × (get_value sm' (value_slot 7 0) ≡ err (execution_error "Record ID not found {:?}"))
    × ((v : ValueId) → v ≢ value_slot 7 0 → get_value sm' v ≡ get_value store v)
    × (sm'.containers 7 ≡ some (delete values (value_slot 7 0)))
    × (sm'.last_insert ≡ store.last_insert)
delete_example = delete_value-get_value store (value_slot 7 0) values store-Inv refl

update_example :
    (r : ValueId) × (sm' : StorageManager) × (update_value store (5 ∷ []) (value_slot 7 0)
      ≡ ok (r, sm'))
    × Inv sm'
    × (r ≢ value_slot 7 0)
    × (get_value sm' r ≡ ok (5 ∷ []))
    × (get_value sm' (value_slot 7 0) ≡ err (execution_error "Record ID not found {:?}"))
    × ((v : ValueId) → v ≢ r → v ≢ value_slot 7 0 → get_value sm' v ≡ get_value store v)
unfolding next_slot next_u16
update_example =
    update_value-get_value store (value_slot 7 0) values 1 (5 ∷ []) (1 ∷ 2 ∷ []) store-Inv refl refl
      refl

names_example :
    (sm1 sm2 : StorageManager) × (create_container store 3 (some "t") none ≡ ok sm1)
    × Inv sm1
    × Inv sm2
    × (sm1.containers 3 ≡ some (or_empty (store.containers 3)))
    × (remove_container sm1 3 ≡ ok sm2)
    × ((v : ValueId)
        → v.container_id ≡ 3
        → get_value sm2 v ≡ err (execution_error "File ID not found {:?}"))
    × (create_container sm2 4 (some "t") none
        ≡ err (execution_error "Container with name already exists"))
names_example = create_container-remove_container store 3 4 "t" store-Inv refl

scan_example :
    (it : ValueIterator) × (items : List (Bytes × ValueId)) × (get_iterator store 7 ≡ ok it)
    × (drain 2 2 values it ≡ ok items)
    × (items ≡ stored_from values 7 0 (slot_or_zero (store.last_insert 7) + 1))
    × ((v : ValueId) (b : Bytes)
        → values v ≡ some b
        → (k : ℕ) × (v ≡ value_slot 7 k) × Listed (b, value_slot 7 (k + 1)) items)
scan_example = get_iterator-stored_from store 7 values 2 store-Inv refl (omega arith) (omega arith)

-- The iterator gives the value under slot 0 with the identifier of slot 1, which has no value.
iterated_wrong_id :
    (drain 2 2 values (record { tracker = value_slot 7 0; max = 0; current = 0 })
      ≡ ok ((1 ∷ 2 ∷ [], value_slot 7 1) ∷ []))
    × (get_value store (value_slot 7 1) ≡ err (execution_error "Record ID not found {:?}"))
unfolding drain next advance next_u16
iterated_wrong_id = (refl, refl)

panic_example : (insert_value store 7 (5 ∷ []) ≡ panic) ↔ (2 ^ 16 ≤ 0 + 1)
panic_example = insert_value-panic store 7 0 values (5 ∷ []) refl refl
