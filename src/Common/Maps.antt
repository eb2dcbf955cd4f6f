-- ===== src/Common/Maps.antt =====
-- Go maps, as functions from keys.
use mathlib.Core.Option.{Option, none, some}
use sharm.Common.Tests.{Eq, ◌==◌, if◌then◌else◌}

abbrev pub Map : Type 0 → Type 0 → Type 0
Map K V = K → Option V

module _ {K V : Type 0} ⦃e : Eq K⦄ where
  -- m[k] = v
  abbrev pub update : Map K V → K → V → Map K V
  update m k v j = if j == k then some v else m j

  -- delete(m, k)
  abbrev pub delete : Map K V → K → Map K V
  delete m k j = if j == k then none else m j
