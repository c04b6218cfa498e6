-- ===== src/Plan/Projection/Kept.antt =====
-- The columns that `new_projection` of optimizer/src/pushdown_projection.rs keeps.
use crustydb_labs_cs378_spri.Prelude.{
  ℕ, ◌&&◌, ◌≡◌, refl, sym, ap, ◌∙◌, subst, map, List, [], ◌∷◌, ◌++◌, some, String, string_eq, ◌==◌,
  contains, Distinct, inl, inr, Bool-cases, if◌then◌else◌, arith,
}
use crustydb_labs_cs378_spri.Expr.Ast.{ident, schema_contains}
use crustydb_labs_cs378_spri.Plan.Graph.Targets.{append_assoc, append_nil}
use crustydb_labs_cs378_spri.Plan.Tree.{PlanTree, leaf, over, both}
use crustydb_labs_cs378_spri.Plan.Projection.{new_projection}
use crustydb_labs_cs378_spri.Plan.Projection.Spec.{
  one_columns, two_columns, columns_read, KeepsColumns, Narrowed, ListsOnce, narrow,
}

schema_contains-contains :
    (schema : List String) (x : String) → schema_contains schema x ≡ contains schema x
unfolding schema_contains contains
schema_contains-contains [] x = refl
schema_contains-contains (attr ∷ attrs) x = elim (Bool-cases (attr == x)) [
  | inl same ↦ rw same refl
  | inr other ↦ rw other (schema_contains-contains attrs x)
]

module _ (schema : List String) where
  -- The names of the new projection.
  abbrev kept_names : List String → List String
  kept_names [] = []
  kept_names (col ∷ cols) =
      if schema_contains schema col then col ∷ kept_names cols else kept_names cols

  new_projection-plain :
      (cols : List String) → new_projection schema cols ≡ map (λ n. ident n) (kept_names cols)
  new_projection-plain [] = refl
  new_projection-plain (col ∷ cols) = elim (Bool-cases (schema_contains schema col)) [
    | inl in_it ↦ rw (in_it, new_projection-plain cols) refl
    | inr out ↦ rw (out, new_projection-plain cols) refl
  ]

  contains-kept_names :
      (cols : List String) (x : String)
      → contains (kept_names cols) x ≡ (contains cols x && contains schema x)
  unfolding contains
  contains-kept_names [] x = refl
  contains-kept_names (col ∷ cols) x = elim (Bool-cases (schema_contains schema col)) [
    | inl in_it ↦
        rw (in_it, contains, contains-kept_names cols x)
          (ground
            (arith, string_eq.beq_iff col x, sym (schema_contains-contains schema col) ∙ in_it))
    | inr out ↦
        rw (out, contains-kept_names cols x)
          (ground (arith, string_eq.beq_iff col x, sym (schema_contains-contains schema col) ∙ out))
  ]

  kept_names-Distinct : (cols : List String) → Distinct cols → Distinct (kept_names cols)
  kept_names-Distinct [] d = tt
  kept_names-Distinct (col ∷ cols) (out, d) = elim (Bool-cases (schema_contains schema col)) [
    | inl in_it ↦ rw in_it (
      contains-kept_names cols col ∙ ap (λ b. b && contains schema col) out,
      kept_names-Distinct cols d,
    )
    | inr not_in ↦ rw not_in (kept_names-Distinct cols d)
  ]

module _ (in_order : List String → List String) (schema_of : ℕ → List String)
    (listed : ListsOnce in_order) where
  new_projection-KeepsColumns :
      (schema cols : List String)
      → KeepsColumns schema cols (some (new_projection schema (in_order cols)))
  new_projection-KeepsColumns schema cols = record {
    names = kept_names schema (in_order cols);
    plain = ap some (new_projection-plain schema (in_order cols));
    once = kept_names-Distinct schema (in_order cols) (listed.once cols);
    members = λ x.
        contains-kept_names schema (in_order cols) x
        ∙ ap (λ b. b && contains schema x) (listed.members cols x);
  }

  narrow-columns_read :
      (t : PlanTree) (cols : List String)
      → (narrow in_order schema_of t cols).1 ≡ cols ++ columns_read t
  unfolding narrow columns_read
  narrow-columns_read (leaf s) cols = sym (append_nil cols)
  narrow-columns_read (over op t) cols =
      narrow-columns_read t (cols ++ one_columns op)
      ∙ append_assoc cols (one_columns op) (columns_read t)
  narrow-columns_read (both op l r) cols =
      narrow-columns_read r (narrow in_order schema_of l (cols ++ two_columns op)).1
      ∙ ap (λ seen. seen ++ columns_read r) (narrow-columns_read l (cols ++ two_columns op))
      ∙ append_assoc (cols ++ two_columns op) (columns_read l) (columns_read r)
      ∙ append_assoc cols (two_columns op) (columns_read l ++ columns_read r)

  pub narrow-Narrowed :
      (t : PlanTree) (cols : List String)
      → Narrowed schema_of t cols (narrow in_order schema_of t cols).0
  unfolding narrow Narrowed
  narrow-Narrowed (leaf s) cols =
      (_, refl, new_projection-KeepsColumns (schema_of s.container_id) cols)
  narrow-Narrowed (over op t) cols = (_, refl, narrow-Narrowed t (cols ++ one_columns op))
  narrow-Narrowed (both op l r) cols = (
    _,
    _,
    refl,
    narrow-Narrowed l (cols ++ two_columns op),
    subst
        (λ seen.
          Narrowed schema_of r seen
            (narrow in_order schema_of r
              (narrow in_order schema_of l (cols ++ two_columns op)).1).0)
        (narrow-columns_read l (cols ++ two_columns op)) (narrow-Narrowed r _),
  )
