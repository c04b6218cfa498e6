-- ===== src/Mem/Containers.antt =====
-- Containers and their names: creation and removal.
use crustydb_labs_cs378_spri.Prelude.{
  ℕ, ◌≡◌, refl, sym, ap, ◌∙◌, Option, none, some, String, string_eq, ◌==◌, nat_eq, beq_refl, update,
  delete, ok, err, execution_error, >>=-ok, inl, inr, Option-cases, Bool-cases, if◌then◌else◌,
}
use crustydb_labs_cs378_spri.Common.Ids.{ValueId}
use crustydb_labs_cs378_spri.Mem.{
  ContainerMap, Bytes, StorageManager, register_name, add_container, create_container,
  remove_container, get_value, value_in,
}
use crustydb_labs_cs378_spri.Mem.Values.{Inv}

-- What there is under a container after it was created: what was there, or nothing yet.
abbrev pub or_empty : Option ContainerMap → ContainerMap
or_empty none = λ _. none
or_empty (some m) = m

add_container-containers :
    (sm : StorageManager) (c : ℕ)
    → (add_container sm c).containers c ≡ some (or_empty (sm.containers c))
unfolding add_container
add_container-containers sm c = elim (Option-cases (sm.containers c)) [
  | inl absent ↦ rw (absent, add_container) (rw (beq_refl c) refl)
  | inr (m, there) ↦ rw (there, add_container, there) refl
]

abbrev contents : Option ContainerMap → ValueId → Option Bytes
contents none v = none
contents (some m) v = m v

abbrev pub with_empty : StorageManager → ℕ → StorageManager
with_empty sm c = record sm { containers = update sm.containers c (λ _. none) }

pub with_empty-Inv : (sm : StorageManager) (c : ℕ) → Inv sm → Inv (with_empty sm c)
with_empty-Inv sm c inv = record {
  placed = λ d m v b at there. elim (Bool-cases (c == d)) [
    | inl yes_ ↦ absurd (
        nothing (
          sym (ap (λ t. contents (if t then some (λ _. none) else sm.containers d) v) yes_)
          ∙ ap (λ o. contents o v) at
          ∙ there))
    | inr no_ ↦
        inv.placed d m v b
          (sym (ap (λ t. if t then some (λ _. none) else sm.containers d) no_) ∙ at) there
  ];
  last = inv.last;
}
  where
    nothing : {b : Bytes} → none ≡ some b → ⊥
    nothing e = cc

add_container-Inv : (sm : StorageManager) (c : ℕ) → Inv sm → Inv (add_container sm c)
unfolding add_container
add_container-Inv sm c inv = elim (Option-cases (sm.containers c)) [
  | inl absent ↦ rw (absent, add_container) (with_empty-Inv sm c inv)
  | inr (m, there) ↦ rw (there, add_container) inv
]

without_container-Inv :
    (sm : StorageManager) (c : ℕ) → Inv sm → Inv (record sm { containers = delete sm.containers c })
without_container-Inv sm c inv = record {
  placed = λ d m v b at there. elim (Bool-cases (c == d)) [
    | inl yes_ ↦ absurd (
        nothing (
          sym (ap (λ t. contents (if t then none else sm.containers d) v) yes_)
          ∙ ap (λ o. contents o v) at
          ∙ there))
    | inr no_ ↦
        inv.placed d m v b (sym (ap (λ t. if t then none else sm.containers d) no_) ∙ at) there
  ];
  last = inv.last;
}
  where
    nothing : {b : Bytes} → none ≡ some b → ⊥
    nothing e = cc

-- The names after the registration of a name that was free.
register_name-taken :
    (sm : StorageManager) (c : ℕ) (name : String)
    → sm.container_names name ≡ none
    → (sm' : StorageManager) × (register_name sm c (some name) ≡ ok sm')
      × (sm'.container_names name ≡ some c)
      × (Inv sm → Inv sm')
      × (sm'.containers ≡ sm.containers)
unfolding register_name
register_name-taken sm c name free = (
  record sm { container_names = update sm.container_names name c },
  rw (free) refl,
  rw (beq_refl name) refl,
  (λ inv. record { placed = inv.placed; last = inv.last }),
  refl,
)

add_container-container_names :
    (sm : StorageManager) (c : ℕ) → (add_container sm c).container_names ≡ sm.container_names
unfolding add_container
add_container-container_names sm c = elim (Option-cases (sm.containers c)) [
  | inl absent ↦ rw (absent, add_container) refl
  | inr (m, there) ↦ rw (there, add_container) refl
]

-- In a well-formed store a container is created under a free name, and removed again, and the store stays
-- well formed. The values of the container are those that it had, or none. When it has been
-- removed none of its values can be read, but its name is still taken: no container is created under it.
pub create_container-remove_container :
    (sm : StorageManager) (c d : ℕ) (name : String)
    → Inv sm
    → sm.container_names name ≡ none
    → (sm1 sm2 : StorageManager) × (create_container sm c (some name) none ≡ ok sm1)
      × Inv sm1
      × Inv sm2
      × (sm1.containers c ≡ some (or_empty (sm.containers c)))
      × (remove_container sm1 c ≡ ok sm2)
      × ((v : ValueId)
          → v.container_id ≡ c
          → get_value sm2 v ≡ err (execution_error "File ID not found {:?}"))
      × (create_container sm2 d (some name) none
          ≡ err (execution_error "Container with name already exists"))
unfolding create_container register_name
create_container-remove_container sm c d name inv free =
    let (named, registered, taken, keeps, same) = register_name-taken sm c name free in
    let sm1 = add_container named c in
    (
      sm1,
      record sm1 { containers = delete sm1.containers c },
      >>=-ok _ _ registered refl,
      add_container-Inv named c (keeps inv),
      without_container-Inv sm1 c (add_container-Inv named c (keeps inv)),
      add_container-containers named c ∙ ap (λ cs. some (or_empty (cs c))) same,
      refl,
      (λ v at.
          ap (λ o. value_in o v)
            (ap (λ t. if t then none else sm1.containers v.container_id)
              ((nat_eq.beq_iff c v.container_id).1 (sym at)))),
      rw (ap (λ names. names name) (add_container-container_names named c) ∙ taken) refl,
    )
