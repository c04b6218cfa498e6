-- ===== src/Prelude/Maps.antt =====
-- `HashMap` as the function of its entries: `insert` is `update`, `remove` is `delete`.
use mathlib.Core.Option.{Option, none, some}
use crustydb_labs_cs378_spri.Prelude.Tests.{if◌then◌else◌}
use crustydb_labs_cs378_spri.Prelude.Equality.{Eq, ◌==◌}

module _ {ℓ κ} {K : Type ℓ} {V : Type κ} ⦃e : Eq K⦄ where
  abbrev pub update : (K → Option V) → K → V → K → Option V
  update m k v j = if k == j then some v else m j

  abbrev pub delete : (K → Option V) → K → K → Option V
  delete m k j = if k == j then none else m j
