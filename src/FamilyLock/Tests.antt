-- ===== src/FamilyLock/Tests.antt =====
-- Families of concrete instance types, and the theorems at concrete inputs.
use katalyst.Prelude.{◌≡◌, refl, true, none, some, [], ◌∷◌, ◌++◌}
use katalyst.Prelude.GoMap.{lookup, insert}
use katalyst.Prelude.Text.{codes}
use katalyst.FamilyLock.Families.{
  split_once, split, join, family_letters, append_versions, azure_of_parts, extract_azure_family,
  azure_family, extract_family, list_eq, is_same_family,
}
use katalyst.FamilyLock.Families.Extract.{extract_family-dash}
use katalyst.FamilyLock.Guard.{
  NodeGroup, refresh, cache_all, compare_families, validate_scale_up, new_family_lock_guard,
}
use katalyst.FamilyLock.Guard.Safety.{SharesFamily, validate_scale_up-SharesFamily}

gcp_family : extract_family (codes "n2-standard-4") ≡ some (codes "n2-standard")
unfolding extract_family split_once split join
gcp_family = refl

azure_version : extract_family (codes "Standard_D4s_v3") ≡ some (codes "Standard_D_v3")
unfolding extract_family azure_family extract_azure_family azure_of_parts split_once split
    family_letters append_versions
azure_version = refl

-- A constrained size of Azure loses its version.
azure_dash : extract_family (codes "Standard_E4-2s_v3") ≡ some (codes "Standard_E4")
unfolding extract_family split_once split join
azure_dash = refl

same_family : is_same_family (codes "m5.large") (codes "M5.xlarge") ≡ some true
unfolding is_same_family extract_family split_once list_eq
same_family = refl

extract_family-dash_example :
    extract_family (codes "Standard_E4" ++ b'-' ∷ codes "2s_v3") ≡ some (codes "Standard_E4")
extract_family-dash_example = extract_family-dash (codes "Standard_E4") (codes "2s_v3") refl refl

abbrev workers : NodeGroup
workers = record { id = "ng-1"; name = "workers"; instance_type = codes "m5.large" }

-- The group is not cached yet, so that the call refreshes the cache; another size is allowed.
after_refresh :
    validate_scale_up (some (workers ∷ [])) "ng-1" (codes "m5.xlarge") new_family_lock_guard
    ≡ (record { node_groups = ("ng-1", workers) ∷ [] }, none)
unfolding validate_scale_up compare_families extract_family split_once list_eq refresh cache_all
    new_family_lock_guard lookup insert
after_refresh = refl

validate_scale_up-SharesFamily_example :
    let after =
      validate_scale_up (some (workers ∷ [])) "ng-1" (codes "m5.xlarge") new_family_lock_guard in
    (after.1 ≡ none
      → (g : NodeGroup) × (lookup "ng-1" after.0.node_groups ≡ some g)
        × SharesFamily g.instance_type (codes "m5.xlarge"))
    × ((g : NodeGroup)
        → lookup "ng-1" after.0.node_groups ≡ some g
        → SharesFamily g.instance_type (codes "m5.xlarge")
        → after.1 ≡ none)
validate_scale_up-SharesFamily_example =
    validate_scale_up-SharesFamily (some (workers ∷ [])) "ng-1" (codes "m5.xlarge")
      new_family_lock_guard
