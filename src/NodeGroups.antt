-- ===== src/NodeGroups.antt =====
-- internal/state/nodegroup.go, with what it uses of internal/state/node.go, and two of the analyses
-- of internal/controller/nodegroupmgr: groups that have been empty for a while, and minimum sizes that
-- can be lowered. Node groups and nodes are what these read of them. Integers are `int64` patterns,
-- which are not negative where they are converted to floating point. A method takes the time once.
pub mod EmptyChecker
pub mod MinAdjuster
pub mod Emptiness
pub mod History
mod Tests
use katalyst.Prelude.{
  ℕ, zero, suc, ◌+◌, ◌-◌, ◌*◌, ◌/◌, ◌%◌, ◌^◌, ◌≤◌, ◌<◌, String, ◌≡◌, refl, sym, ap, ◌∙◌, subst, ◌≢◌,
  ◌↔◌, ◌⊎◌, inl, inr, Bool, true, false, ◌&&◌, ◌||◌, not, Option, none, some, List, [], ◌∷◌, ◌++◌,
  map, reverse, arith, str_eq, eq_iff, ltb, leb, ◌==◌, if◌then◌else◌, ltb→lt, lt→ltb, leb→le,
  le→leb, ==_iff, tests, Bool-cases, Option-cases, is_some, &&_iff, not_iff, length, take, drop,
  get_elem?, set, all, any, keep, length-append, length-keep-le, length-take, length-drop, drop-set,
  take-set, length-set, get_elem?-drop, drop-length, drop-drop, drop-append, length-reverse,
  get_elem?-reverse, All, Any, all_iff, any_iff,
}
use katalyst.Prelude.Float64.{Float64}
use katalyst.Prelude.GoMap.{GoMap, lookup, insert}
use katalyst.Prelude.Words.{add64}

-- A pod, by the kinds of its owners.
pub record Pod : Type 0 where
  pub owner_kinds : List String

pub record NodeState (Fl : Float64) : Type 0 where
  pub node_group_id : String
  pub cpu_capacity : ℕ
  pub memory_capacity : ℕ
  pub cpu_used : ℕ
  pub memory_used : ℕ
  pub cpu_requested : ℕ
  pub memory_requested : ℕ
  pub hourly_cost_usd : Fl.F
  pub pods : List Pod

-- `cloudprovider.NodeGroup`.
pub record NodeGroup : Type 0 where
  pub id : String
  pub name : String
  pub min_count : ℕ
  pub max_count : ℕ

pub record NodeGroupInfo (Fl : Float64) : Type 0 where
  pub node_group : NodeGroup
  pub nodes : List (NodeState Fl)
  pub total_cpu : ℕ
  pub total_memory : ℕ
  pub used_cpu : ℕ
  pub used_memory : ℕ
  pub requested_cpu : ℕ
  pub requested_memory : ℕ
  pub total_pods : ℕ
  pub monthly_cost_usd : Fl.F
  pub empty_since : Option ℕ

pub record NodeGroupState (Fl : Float64) : Type 0 where
  pub groups : GoMap (NodeGroupInfo Fl)

unfoldable pub is_daemon_set_pod : Pod → Bool
is_daemon_set_pod pod = any (λ kind. str_eq kind "DaemonSet") pod.owner_kinds

module _ (Fl : Float64) where
  -- `NodeState.IsEmpty`.
  unfoldable pub node_is_empty : NodeState Fl → Bool
  node_is_empty n = all is_daemon_set_pod n.pods

  unfoldable pub new_node_group_state : NodeGroupState Fl
  new_node_group_state = record { groups = [] }

  -- Adds a node to its group; one of no group is left out.
  unfoldable pub file_node :
      NodeState Fl → GoMap (List (NodeState Fl)) → GoMap (List (NodeState Fl))
  file_node n table =
      if str_eq n.node_group_id "" then table else elim (lookup n.node_group_id table) [
        | none ↦ insert n.node_group_id (n ∷ []) table
        | some us ↦ insert n.node_group_id (us ++ n ∷ []) table
      ]

  -- The loop that gathers the nodes of each group.
  unfoldable pub nodes_by_group :
      List (NodeState Fl) → GoMap (List (NodeState Fl)) → GoMap (List (NodeState Fl))
  unfolding file_node
  nodes_by_group [] table = table
  nodes_by_group (n ∷ ns) table = nodes_by_group ns (file_node n table)

  -- Reading a missing key gives no nodes.
  abbrev pub or_none : Option (List (NodeState Fl)) → List (NodeState Fl)
  or_none none = []
  or_none (some ns) = ns

  -- The inner loop, that counts the pods of a node.
  unfoldable pub count_pods : List Pod → ℕ → ℕ
  count_pods [] count = count
  count_pods (p ∷ ps) count = count_pods ps (if is_daemon_set_pod p then count else add64 count 1)

  -- 730.5 hours a month: `cost.HoursPerMonth`.
  abbrev pub hours_per_month : Fl.F
  hours_per_month = Fl.div (Fl.of_nat 1461) (Fl.of_nat 2)

  unfoldable pub add_node : NodeGroupInfo Fl → NodeState Fl → NodeGroupInfo Fl
  unfolding count_pods
  add_node i n = record {
    node_group = i.node_group;
    nodes = i.nodes;
    total_cpu = add64 i.total_cpu n.cpu_capacity;
    total_memory = add64 i.total_memory n.memory_capacity;
    used_cpu = add64 i.used_cpu n.cpu_used;
    used_memory = add64 i.used_memory n.memory_used;
    requested_cpu = add64 i.requested_cpu n.cpu_requested;
    requested_memory = add64 i.requested_memory n.memory_requested;
    total_pods = count_pods n.pods i.total_pods;
    monthly_cost_usd = Fl.add i.monthly_cost_usd (Fl.mul n.hourly_cost_usd hours_per_month);
    empty_since = i.empty_since;
  }

  unfoldable pub add_nodes : NodeGroupInfo Fl → List (NodeState Fl) → NodeGroupInfo Fl
  unfolding add_node
  add_nodes i [] = i
  add_nodes i (n ∷ ns) = add_nodes (add_node i n) ns

  abbrev pub new_info : NodeGroup → List (NodeState Fl) → NodeGroupInfo Fl
  new_info g ns = record {
    node_group = g;
    nodes = ns;
    total_cpu = 0;
    total_memory = 0;
    used_cpu = 0;
    used_memory = 0;
    requested_cpu = 0;
    requested_memory = 0;
    total_pods = 0;
    monthly_cost_usd = Fl.of_nat 0;
    empty_since = none;
  }

  -- Since when the group is empty, given its earlier state and its count of pods.
  unfoldable pub track_empty : ℕ → Option (NodeGroupInfo Fl) → ℕ → Option ℕ
  track_empty now none pods = if pods == 0 then some now else none
  track_empty now (some prev) pods = elim prev.empty_since [
    | none ↦ if pods == 0 then some now else none
    | some t ↦ if pods == 0 then some t else none
  ]

  unfoldable pub info_of :
      ℕ → NodeGroupState Fl → GoMap (List (NodeState Fl)) → NodeGroup → NodeGroupInfo Fl
  unfolding add_nodes track_empty
  info_of now s table g =
      let ns : List (NodeState Fl) = or_none (lookup g.id table) in
      let i : NodeGroupInfo Fl = add_nodes (new_info g ns) ns in
      record i { empty_since = track_empty now (lookup g.id s.groups) i.total_pods }

  -- The loop over the groups, into the new map.
  unfoldable pub update_all :
      ℕ
      → NodeGroupState Fl
      → GoMap (List (NodeState Fl))
      → List NodeGroup
      → GoMap (NodeGroupInfo Fl)
      → GoMap (NodeGroupInfo Fl)
  unfolding info_of
  update_all now s table [] new_groups = new_groups
  update_all now s table (g ∷ gs) new_groups =
      update_all now s table gs (insert g.id (info_of now s table g) new_groups)

  unfoldable pub update :
      ℕ → List NodeGroup → List (NodeState Fl) → NodeGroupState Fl → NodeGroupState Fl
  unfolding update_all nodes_by_group
  update now groups nodes s = record {
    groups = update_all now s (nodes_by_group nodes []) groups [];
  }

  unfoldable pub get : String → NodeGroupState Fl → Option (NodeGroupInfo Fl)
  get id s = lookup id s.groups

  unfoldable pub get_all : NodeGroupState Fl → List (NodeGroupInfo Fl)
  get_all s = map (λ (k, i). i) s.groups

  -- Percentages of the capacity, 0 of none.
  abbrev pub percentage : ℕ → ℕ → Fl.F
  percentage part total =
      if total == 0
      then Fl.of_nat 0
      else Fl.mul (Fl.div (Fl.of_nat part) (Fl.of_nat total)) (Fl.of_nat 100)

  unfoldable pub cpu_utilization : NodeGroupInfo Fl → Fl.F
  cpu_utilization i = percentage i.used_cpu i.total_cpu

  unfoldable pub memory_utilization : NodeGroupInfo Fl → Fl.F
  memory_utilization i = percentage i.used_memory i.total_memory

  unfoldable pub cpu_allocation : NodeGroupInfo Fl → Fl.F
  cpu_allocation i = percentage i.requested_cpu i.total_cpu

  unfoldable pub memory_allocation : NodeGroupInfo Fl → Fl.F
  memory_allocation i = percentage i.requested_memory i.total_memory

  abbrev pub is_empty : NodeGroupInfo Fl → Bool
  is_empty i = i.total_pods == 0
