-- ===== src/FamilyLock/Guard.antt =====
-- pkg/familylock/guard.go: the cache of node groups, and what is allowed. The cloud provider is an
-- argument: what `DiscoverNodeGroups` returns at a refresh, or `none` for its error. A node group
-- is what the guard reads of it. `GetAllowedSizes` only passes its call on to the provider.
pub mod Safety
use katalyst.Prelude.{
  ℕ, zero, suc, ◌+◌, ◌-◌, ◌*◌, ◌/◌, ◌%◌, ◌^◌, ◌≤◌, ◌<◌, String, ◌≡◌, refl, sym, ap, ◌∙◌, subst, ◌≢◌,
  ◌↔◌, ◌⊎◌, inl, inr, Bool, true, false, ◌&&◌, ◌||◌, not, Option, none, some, List, [], ◌∷◌, ◌++◌,
  map, reverse, arith, str_eq, eq_iff, ltb, leb, ◌==◌, if◌then◌else◌, ltb→lt, lt→ltb, leb→le,
  le→leb, ==_iff, tests, Bool-cases, Option-cases, is_some, &&_iff, not_iff, length, take, drop,
  get_elem?, set, all, any, keep, length-append, length-keep-le, length-take, length-drop, drop-set,
  take-set, length-set, get_elem?-drop, drop-length, drop-drop, drop-append, length-reverse,
  get_elem?-reverse, All, Any, all_iff, any_iff,
}
use katalyst.Prelude.GoMap.{GoMap, lookup, insert}
use katalyst.FamilyLock.Families.{extract_family, list_eq}

pub data NodeGroupAction : Type 0 where
  scale create delete modify_min modify_max change_type : NodeGroupAction
  unknown_action : ℕ → NodeGroupAction

pub record NodeGroup : Type 0 where
  pub id : String
  pub name : String
  pub instance_type : List ℕ

pub record FamilyLockGuard : Type 0 where
  pub node_groups : GoMap NodeGroup

unfoldable pub new_family_lock_guard : FamilyLockGuard
new_family_lock_guard = record { node_groups = [] }

-- The errors, without their texts.
pub data GuardError : Type 0 where
  discovery_failed unknown_node_group current_family proposed_family : GuardError
  family_changed : List ℕ → List ℕ → GuardError
  creating_blocked type_change_blocked deleting_blocked unknown_node_group_action : GuardError

-- The loop that fills the new cache.
unfoldable pub cache_all : List NodeGroup → GoMap NodeGroup → GoMap NodeGroup
cache_all [] cache = cache
cache_all (g ∷ gs) cache = cache_all gs (insert g.id g cache)

unfoldable pub refresh :
    Option (List NodeGroup) → FamilyLockGuard → FamilyLockGuard × Option GuardError
unfolding cache_all
refresh none guard = (guard, some discovery_failed)
refresh (some groups) guard = (record { node_groups = cache_all groups [] }, none)

-- The checks of `ValidateScaleUpCtx` once the group is known.
unfoldable pub compare_families : List ℕ → List ℕ → Option GuardError
compare_families current proposed = elim (extract_family current) [
  | none ↦ some current_family
  | some f ↦ elim (extract_family proposed) [
    | none ↦ some proposed_family
    | some g ↦ if list_eq f g then none else some (family_changed f g)
  ]
]

-- `ValidateScaleUpCtx`, given what the provider would answer to a refresh: an unknown group is
-- looked up again after one refresh.
unfoldable pub validate_scale_up :
    Option (List NodeGroup)
    → String
    → List ℕ
    → FamilyLockGuard
    → FamilyLockGuard × Option GuardError
unfolding refresh compare_families
validate_scale_up answer id proposed guard = elim (lookup id guard.node_groups) [
  | some g ↦ (guard, compare_families g.instance_type proposed)
  | none ↦
      let after = (refresh answer guard).0 in
      elim (lookup id after.node_groups) [
        | some g ↦ (after, compare_families g.instance_type proposed)
        | none ↦ (after, some unknown_node_group)
      ]
]

unfoldable pub validate_node_group_action : NodeGroupAction → Option GuardError
validate_node_group_action create = some creating_blocked
validate_node_group_action change_type = some type_change_blocked
validate_node_group_action delete = some deleting_blocked
validate_node_group_action scale = none
validate_node_group_action modify_min = none
validate_node_group_action modify_max = none
validate_node_group_action (unknown_action n) = some unknown_node_group_action

unfoldable pub get_node_group : String → FamilyLockGuard → Option NodeGroup
get_node_group id guard = lookup id guard.node_groups

unfoldable pub get_all_node_groups : FamilyLockGuard → List NodeGroup
get_all_node_groups guard = map (λ (k, g). g) guard.node_groups
