-- ===== src/Mem.antt =====
-- The memory store: storage/memstore/src/storage_manager.rs. A `HashMap` is the function of its entries.
-- The maps of the containers are shared under locks: an iterator reads the contents of its container
-- as they are at each call, and takes them as an argument. Persisting and loading of files is not modelled.
-- A slot is a `u16`, of which an overflow is a panic, as in a build with overflow checks.
pub mod Values
pub mod Deletion
pub mod Scan
pub mod Containers
mod Tests
use crustydb_labs_cs378_spri.Prelude.{
  ℕ, zero, suc, ◌+◌, ◌^◌, Bool, true, false, List, [], ◌∷◌, Option, none, some, String, string_eq,
  nat_eq, ltb, leb, if◌then◌else◌, update, delete, Outcome, ok, err, panic, crusty_error,
  execution_error, ◌>>=◌, unwrap,
}
use crustydb_labs_cs378_spri.Common.Ids.{ValueId, value_id_eq, new_container}

abbrev pub Bytes : Type 0
Bytes = List ℕ

abbrev pub ContainerMap : Type 0
ContainerMap = ValueId → Option Bytes

pub record StorageManager : Type 0 where
  pub containers : ℕ → Option ContainerMap
  pub last_insert : ℕ → Option ValueId
  pub container_names : String → Option ℕ

abbrev pub new_test_sm : StorageManager
new_test_sm = record {
  containers = λ _. none;
  last_insert = λ _. none;
  container_names = λ _. none;
}

-- `slot + 1` on `u16`.
unfoldable pub next_u16 : ℕ → Outcome ℕ
next_u16 n = if ltb (n + 1) (2 ^ 16) then ok (n + 1) else panic

abbrev pub value_slot : ℕ → ℕ → ValueId
value_slot c s = record { container_id = c; segment_id = none; page_id = none; slot_id = some s }

unfoldable pub next_slot : Option ValueId → Outcome ℕ
next_slot none = ok 0
next_slot (some slot) = do s ← unwrap slot.slot_id; next_u16 s

unfoldable pub insert_value : StorageManager → ℕ → Bytes → Outcome (ValueId × StorageManager)
insert_value sm container_id value = do
  vals ← unwrap (sm.containers container_id)
  slot ← next_slot (sm.last_insert container_id)
  let rid = value_slot container_id slot
  ok (
    rid,
    record sm {
      containers = update sm.containers container_id (update vals rid value);
      last_insert = update sm.last_insert container_id rid;
    },
  )

unfoldable pub insert_values :
    StorageManager → ℕ → List Bytes → Outcome (List ValueId × StorageManager)
insert_values sm container_id [] = ok ([], sm)
insert_values sm container_id (x ∷ values) = do
  first ← insert_value sm container_id x
  rest ← insert_values first.1 container_id values
  ok (first.0 ∷ rest.0, rest.1)

-- A key that is not there need not be deleted.
unfoldable pub delete_value : StorageManager → ValueId → Outcome StorageManager
delete_value sm id = elim (sm.containers id.container_id) [
  | some table_map ↦
      ok (record sm { containers = update sm.containers id.container_id (delete table_map id) })
  | none ↦ err (crusty_error "File ID not found for recordID")
]

unfoldable pub update_value : StorageManager → Bytes → ValueId → Outcome (ValueId × StorageManager)
update_value sm value id = do sm' ← delete_value sm id; insert_value sm' id.container_id value

abbrev pub is_vacant : Option ℕ → Bool
is_vacant none = true
is_vacant (some c) = false

-- The entry for the name, made before anything else.
unfoldable pub register_name : StorageManager → ℕ → Option String → Outcome StorageManager
register_name sm container_id none = ok sm
register_name sm container_id (some name) =
    if is_vacant (sm.container_names name)
    then ok (record sm { container_names = update sm.container_names name container_id })
    else err (execution_error "Container with name already exists")

-- A container that exists stays as it is.
unfoldable pub add_container : StorageManager → ℕ → StorageManager
add_container sm container_id = elim (sm.containers container_id) [
  | some m ↦ sm
  | none ↦ record sm { containers = update sm.containers container_id (λ _. none) }
]

-- Dependencies are not implemented: a panic.
unfoldable pub create_container :
    StorageManager → ℕ → Option String → Option (List ℕ) → Outcome StorageManager
create_container sm container_id name dependencies = do
  sm' ← register_name sm container_id name
  elim dependencies [ some ds ↦ panic | none ↦ ok (add_container sm' container_id) ]

abbrev pub create_table : StorageManager → ℕ → Outcome StorageManager
create_table sm container_id = create_container sm container_id none none

abbrev pub remove_container : StorageManager → ℕ → Outcome StorageManager
remove_container sm container_id = ok (record sm { containers = delete sm.containers container_id })

abbrev pub found : Option Bytes → Outcome Bytes
found (some value) = ok value
found none = err (execution_error "Record ID not found {:?}")

abbrev pub value_in : Option ContainerMap → ValueId → Outcome Bytes
value_in (some map) id = found (map id)
value_in none id = err (execution_error "File ID not found {:?}")

abbrev pub get_value : StorageManager → ValueId → Outcome Bytes
get_value sm id = value_in (sm.containers id.container_id) id

abbrev pub reset : StorageManager → Outcome StorageManager
reset sm = ok new_test_sm

pub record ValueIterator : Type 0 where
  pub tracker : ValueId
  pub max : ℕ
  pub current : ℕ

abbrev pub new_iterator : ℕ → ℕ → ValueIterator
new_iterator container_id max = record {
  tracker = record (new_container container_id) { slot_id = some 0 };
  max = max;
  current = 0;
}

abbrev pub slot_or_zero : Option ValueId → ℕ
slot_or_zero none = 0
slot_or_zero (some v) = elim (v.slot_id) [ some s ↦ s | none ↦ 0 ]

unfoldable pub get_iterator : StorageManager → ℕ → Outcome ValueIterator
get_iterator sm container_id = do
  table_map ← unwrap (sm.containers container_id)
  ok (new_iterator container_id (slot_or_zero (sm.last_insert container_id)))

-- One step to the next slot.
unfoldable pub advance : ValueIterator → Outcome ValueIterator
advance it = do
  s ← unwrap it.tracker.slot_id
  s' ← next_u16 s
  current ← next_u16 it.current
  ok (record it { tracker = record it.tracker { slot_id = some s' }; current = current })

-- `next`: the loop over the slots up to the max. A loop out of fuel would be a panic.
unfoldable pub next :
    ℕ → ContainerMap → ValueIterator → Outcome (Option (Bytes × ValueId) × ValueIterator)
next zero table_map it = if leb it.current it.max then panic else ok (none, it)
next (suc fuel) table_map it = elim (leb it.current it.max) [
  | false ↦ ok (none, it)
  | true ↦ elim (table_map it.tracker) [
    | some res ↦ do it' ← advance it; ok (some (res, it'.tracker), it')
    | none ↦ do it' ← advance it; next fuel table_map it'
  ]
]
