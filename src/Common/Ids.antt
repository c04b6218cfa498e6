-- ===== src/Common/Ids.antt =====
-- Identifiers: common/src/ids.rs.
use crustydb_labs_cs378_spri.Prelude.{
  ℕ, ◌+◌, ◌%◌, ◌^◌, ◌≡◌, ◌↔◌, Bool, ◌&&◌, Option, none, some, arith, true, Eq, ◌==◌, option_eq,
  nat_eq, option_beq_iff,
}

pub data Permissions : Type 0 where
  read_only read_write : Permissions

-- `container_id` is a `u16`; the others are optional, as each storage manager uses them.
pub record ValueId : Type 0 where
  pub container_id : ℕ
  pub segment_id : Option ℕ
  pub page_id : Option ℕ
  pub slot_id : Option ℕ

unfoldable pub new_container : ℕ → ValueId
new_container c = record { container_id = c; segment_id = none; page_id = none; slot_id = none }

unfoldable pub new_page : ℕ → ℕ → ValueId
new_page c p = record { container_id = c; segment_id = none; page_id = some p; slot_id = none }

unfoldable pub new_slot : ℕ → ℕ → ℕ → ValueId
new_slot c p s = record { container_id = c; segment_id = none; page_id = some p; slot_id = some s }

-- The derived equality compares every field.
abbrev pub value_id_beq : ValueId → ValueId → Bool
value_id_beq v w =
    v.container_id == w.container_id
    && (v.segment_id == w.segment_id && (v.page_id == w.page_id && v.slot_id == w.slot_id))

pub value_id_beq_iff : (v w : ValueId) → (value_id_beq v w ≡ true) ↔ (v ≡ w)
value_id_beq_iff v w = (
  λ h. ground (
    arith,
    option_beq_iff v.segment_id w.segment_id,
    option_beq_iff v.page_id w.page_id,
    option_beq_iff v.slot_id w.slot_id,
  ),
  λ h. ground (
    arith,
    option_beq_iff v.segment_id w.segment_id,
    option_beq_iff v.page_id w.page_id,
    option_beq_iff v.slot_id w.slot_id,
  ),
)

instance abbrev pub value_id_eq : Eq ValueId
value_id_eq = record { beq = value_id_beq; beq_iff = value_id_beq_iff }

-- `TransactionId::new`: the counter is an atomic 64-bit word, and the identifier is its old value.
unfoldable pub fresh_transaction : ℕ → ℕ × ℕ
fresh_transaction counter = (counter, (counter + 1) % 2 ^ 64)
