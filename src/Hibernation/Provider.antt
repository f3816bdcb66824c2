-- ===== src/Hibernation/Provider.antt =====
-- internal/cloud/aws/provider.go: how the AWS provider guards a change of a group's size. The calls of
-- the Auto Scaling API are parameters; a size here is not negative.
use katalyst.Prelude.{ℕ, String, Bool, false, Option, none, some, ltb, if◌then◌else◌}

-- `ScaleNodeGroup`: `get` gives the limits of a group, `none` if it is not found.
unfoldable pub scale_node_group :
    {C : Type 0}
    → (String → C → Option (ℕ × ℕ))
    → (String → ℕ → C → C × Bool)
    → String
    → ℕ
    → C
    → C × Bool
scale_node_group get scale_asg id desired_count c = elim (get id c) [
  | none ↦ (c, false)
  | some (min_count, max_count) ↦
      if ltb desired_count min_count
      then (c, false)
      else if ltb max_count desired_count
      then (c, false)
      else scale_asg id desired_count c
]
