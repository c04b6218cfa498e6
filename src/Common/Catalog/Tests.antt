-- ===== src/Common/Catalog/Tests.antt =====
-- An empty catalog and a table.
use crustydb_labs_cs378_spri.Prelude.{
  ℕ, ◌≡◌, ◌≢◌, refl, true, false, [], ◌∷◌, some, String, string_eq, nat_eq, ok, arith,
}
use crustydb_labs_cs378_spri.Common.Catalog.{
  TableInfo, Catalog, new, get_table_id, add_table, get_table, get_table_schema,
}
use crustydb_labs_cs378_spri.Common.Catalog.Names.{
  Inv, new_generator-Inv, get_table_id-Inv, add_table-get_table,
}

abbrev table : TableInfo
table = record { c_id = 0; name = "t"; schema = "a" ∷ "b" ∷ [] }

get_table_id-Inv_example :
    (c : ℕ) × (cat' : Catalog) × (get_table_id new "t" ≡ ok (c, cat'))
    × Inv cat'.container_id_generator
    × (get_table_id cat' "t" ≡ ok (c, cat'))
    × ((n : String) (d : ℕ)
        → new.container_id_generator.table_to_id n ≡ some d
        → cat'.container_id_generator.table_to_id n ≡ some d)
    × (cat'.tables ≡ new.tables)
get_table_id-Inv_example = get_table_id-Inv new "t" new_generator-Inv (omega arith)

add_table_example :
    (cat' : Catalog) × (add_table new table ≡ (true, cat'))
    × (get_table cat' 0 ≡ some table)
    × (get_table_schema cat' 0 ≡ some ("a" ∷ "b" ∷ []))
    × ((d : ℕ) → d ≢ 0 → get_table cat' d ≡ get_table new d)
    × (add_table cat' (record table { name = "u" }) ≡ (false, cat'))
add_table_example = add_table-get_table new table (record table { name = "u" }) refl refl
