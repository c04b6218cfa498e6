-- ===== src/Common/Catalog/Names.antt =====
-- The identifiers that the catalog gives to names, and the tables under them.
use crustydb_labs_cs378_spri.Prelude.{
  ℕ, ◌+◌, ◌^◌, ◌<◌, ◌≡◌, ◌≢◌, ◌⊎◌, refl, sym, ap, ◌∙◌, true, false, none, some, String, string_eq,
  nat_eq, ◌==◌, beq_refl, lt→ltb, if◌then◌else◌, update, ok, >>=-ok, inl, inr, Bool-cases,
  Option-cases, arith,
}
use crustydb_labs_cs378_spri.Common.Catalog.{
  TableInfo, ContainerIdGenerator, Catalog, new_generator, known_or_next, generate_id, get_table_id,
  add_table, get_table, get_table_schema,
}

-- Identifiers in use are below the next one, and no two names share one.
pub record Inv (g : ContainerIdGenerator) : Type 0 where
  pub below : (n : String) (c : ℕ) → g.table_to_id n ≡ some c → c < g.next_id
  pub distinct :
      (n n' : String) (c : ℕ) → g.table_to_id n ≡ some c → g.table_to_id n' ≡ some c → n ≡ n'

pub new_generator-Inv : Inv new_generator
new_generator-Inv = record { below = λ n c h. cc; distinct = λ n n' c h h'. cc }

entered :
    (g : ContainerIdGenerator) (name n : String) (c : ℕ)
    → update g.table_to_id name g.next_id n ≡ some c
    → ((name ≡ n) × (c ≡ g.next_id)) ⊎ (g.table_to_id n ≡ some c)
entered g name n c h = elim (Bool-cases (name == n)) [
  | inl yes_ ↦ inl (
    (string_eq.beq_iff name n).0 yes_,
    some_inj (sym h ∙ ap (λ t. if t then some g.next_id else g.table_to_id n) yes_),
  )
  | inr no_ ↦ inr (sym (ap (λ t. if t then some g.next_id else g.table_to_id n) no_) ∙ h)
]
  where
    some_inj : {a b : ℕ} → some a ≡ some b → a ≡ b
    some_inj e = ground (arith, e)

grown-Inv :
    (g : ContainerIdGenerator) (name : String)
    → Inv g
    → Inv (record { next_id = g.next_id + 1; table_to_id = update g.table_to_id name g.next_id })
grown-Inv g name inv = record {
  below = λ n c h. elim (entered g name n c h) [
    | inl (same, at) ↦ omega (arith, at)
    | inr old ↦ omega (arith, inv.below n c old)
  ];
  distinct = λ n n' c h h'. elim (entered g name n c h) [
    | inl (same, at) ↦ elim (entered g name n' c h') [
      | inl (same', at') ↦ sym same ∙ same'
      | inr old' ↦ absurd (omega (arith, at, inv.below n' c old'))
    ]
    | inr old ↦ elim (entered g name n' c h') [
      | inl (same', at') ↦ absurd (omega (arith, at', inv.below n c old))
      | inr old' ↦ inv.distinct n n' c old old'
    ]
  ];
}

generate_id-Inv :
    (g : ContainerIdGenerator) (name : String)
    → Inv g
    → g.next_id + 1 < 2 ^ 16
    → (c : ℕ) × (g' : ContainerIdGenerator) × (generate_id g name ≡ ok (c, g'))
      × Inv g'
      × (g'.table_to_id name ≡ some c)
      × ((n : String) (d : ℕ) → g.table_to_id n ≡ some d → g'.table_to_id n ≡ some d)
unfolding generate_id
generate_id-Inv g name inv room = elim (Option-cases (g.table_to_id name)) [
  | inr (c, known) ↦ (c, g, rw (known) refl, inv, known, λ n d h. h)
  | inl absent ↦ (
    g.next_id,
    record { next_id = g.next_id + 1; table_to_id = update g.table_to_id name g.next_id },
    ap (λ o. known_or_next o g name) absent ∙ rw (lt→ltb (g.next_id + 1) (2 ^ 16) room) refl,
    grown-Inv g name inv,
    rw (beq_refl name) refl,
    λ n d h. elim (Bool-cases (name == n)) [
      | inl yes_ ↦ absurd (
          none_is_some
            (sym absent ∙ ap (λ m. g.table_to_id m) ((string_eq.beq_iff name n).0 yes_) ∙ h))
      | inr no_ ↦ ap (λ t. if t then some g.next_id else g.table_to_id n) no_ ∙ h
    ],
  )
]
  where
    none_is_some : {x : ℕ} → none ≡ some x → ⊥
    none_is_some e = cc

-- While the next identifier is below the largest `u16`, a name gets an identifier: the one that it has, or a new
-- one. The name keeps it, every name keeps the one it had, no two names share one, and the tables stay.
pub get_table_id-Inv :
    (cat : Catalog) (name : String)
    → Inv cat.container_id_generator
    → cat.container_id_generator.next_id + 1 < 2 ^ 16
    → (c : ℕ) × (cat' : Catalog) × (get_table_id cat name ≡ ok (c, cat'))
      × Inv cat'.container_id_generator
      × (get_table_id cat' name ≡ ok (c, cat'))
      × ((n : String) (d : ℕ)
          → cat.container_id_generator.table_to_id n ≡ some d
          → cat'.container_id_generator.table_to_id n ≡ some d)
      × (cat'.tables ≡ cat.tables)
unfolding get_table_id generate_id
get_table_id-Inv cat name inv room =
    let (c, g', done, inv', known, kept) =
      generate_id-Inv cat.container_id_generator name inv room in
    (
      c,
      record cat { container_id_generator = g' },
      >>=-ok _ _ done refl,
      inv',
      rw (known) refl,
      kept,
      refl,
    )

-- A table is added under an identifier that has none: it can be read there, the tables under other
-- identifiers are as before, and a second table under the identifier is refused and changes nothing.
pub add_table-get_table :
    (cat : Catalog) (info other : TableInfo)
    → cat.tables info.c_id ≡ none
    → other.c_id ≡ info.c_id
    → (cat' : Catalog) × (add_table cat info ≡ (true, cat'))
      × (get_table cat' info.c_id ≡ some info)
      × (get_table_schema cat' info.c_id ≡ some info.schema)
      × ((d : ℕ) → d ≢ info.c_id → get_table cat' d ≡ get_table cat d)
      × (add_table cat' other ≡ (false, cat'))
unfolding add_table
add_table-get_table cat info other free same = (
  record cat { tables = update cat.tables info.c_id info },
  rw (free, add_table) refl,
  rw (beq_refl info.c_id) refl,
  rw (beq_refl info.c_id) refl,
  (λ d ne. ground (arith, nat_eq.beq_iff info.c_id d, ne)),
  rw (same, beq_refl info.c_id, add_table) refl,
)
