-- ===== src/Common/Catalog.antt =====
-- The catalog: common/src/catalog.rs and `TableInfo` of common/src/table.rs. A schema is the list of the names
-- of its attributes. An identifier is a `u16`, of which an overflow is a panic.
pub mod Names
mod Tests
use crustydb_labs_cs378_spri.Prelude.{
  ℕ, ◌+◌, ◌^◌, ◌<◌, ◌≡◌, ◌≢◌, ◌⊎◌, refl, sym, ap, ◌∙◌, Bool, true, false, List, Option, none, some,
  String, string_eq, nat_eq, ◌==◌, beq_refl, ltb, if◌then◌else◌, update, Outcome, ok, panic, ◌>>=◌,
  inl, inr, Bool-cases, Option-cases, arith,
}
use crustydb_labs_cs378_spri.Expr.Ast.{schema_contains}

pub record TableInfo : Type 0 where
  pub c_id : ℕ
  pub name : String
  pub schema : List String

pub record ContainerIdGenerator : Type 0 where
  pub next_id : ℕ
  pub table_to_id : String → Option ℕ

pub record Catalog : Type 0 where
  pub container_id_generator : ContainerIdGenerator
  pub tables : ℕ → Option TableInfo

abbrev pub new_generator : ContainerIdGenerator
new_generator = record { next_id = 0; table_to_id = λ _. none }

abbrev pub new : Catalog
new = record { container_id_generator = new_generator; tables = λ _. none }

-- The branch for what is known of the name. The counter moves on before the name is entered.
abbrev pub known_or_next :
    Option ℕ → ContainerIdGenerator → String → Outcome (ℕ × ContainerIdGenerator)
known_or_next (some c_id) g table_name = ok (c_id, g)
known_or_next none g table_name =
    if ltb (g.next_id + 1) (2 ^ 16)
    then ok (
      g.next_id,
      record { next_id = g.next_id + 1; table_to_id = update g.table_to_id table_name g.next_id },
    )
    else panic

unfoldable pub generate_id : ContainerIdGenerator → String → Outcome (ℕ × ContainerIdGenerator)
generate_id g table_name = known_or_next (g.table_to_id table_name) g table_name

unfoldable pub get_table_id : Catalog → String → Outcome (ℕ × Catalog)
get_table_id c name = do
  generated ← generate_id c.container_id_generator name
  ok (generated.0, record c { container_id_generator = generated.1 })

-- With `true` if the table was added.
unfoldable pub add_table : Catalog → TableInfo → Bool × Catalog
add_table c table_info = elim (c.tables table_info.c_id) [
  | some t ↦ (false, c)
  | none ↦ (true, record c { tables = update c.tables table_info.c_id table_info })
]

abbrev pub get_table : Catalog → ℕ → Option TableInfo
get_table c c_id = c.tables c_id

abbrev pub schema_of_info : Option TableInfo → Option (List String)
schema_of_info none = none
schema_of_info (some info) = some info.schema

abbrev pub get_table_schema : Catalog → ℕ → Option (List String)
get_table_schema c c_id = schema_of_info (c.tables c_id)

abbrev pub is_valid_table : Catalog → ℕ → Bool
is_valid_table c c_id = elim (c.tables c_id) [ some info ↦ true | none ↦ false ]

abbrev pub is_valid_column : Catalog → ℕ → String → Bool
is_valid_column c c_id column_name = elim (c.tables c_id) [
  | some table_info ↦ schema_contains table_info.schema column_name
  | none ↦ false
]
