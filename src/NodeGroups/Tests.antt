-- ===== src/NodeGroups/Tests.antt =====
-- Runs of the node group state and of the two analyses, and the theorems at concrete inputs.
use katalyst.Prelude.{ℕ, ◌≡◌, refl, ap, false, some, List, [], ◌∷◌, arith}
use katalyst.Prelude.Thousandths.{thousandths, plus}
use katalyst.Prelude.GoMap.{GoMap, lookup, insert}
use katalyst.Prelude.Words.{add64}
use katalyst.NodeGroups.{
  Pod, NodeState, NodeGroup, NodeGroupInfo, new_info, update, update_all, info_of, add_nodes,
  add_node, count_pods, track_empty, nodes_by_group, file_node, is_daemon_set_pod,
  new_node_group_state, get, node_is_empty, cpu_utilization, memory_utilization,
}
use katalyst.NodeGroups.Emptiness.{since_of}
use katalyst.NodeGroups.History.{Snapshot, HasCounts, run, since, run-since}
use katalyst.NodeGroups.MinAdjuster.{track, is_low, recommend, analyze_one}
use katalyst.NodeGroups.MinAdjuster.{analyze_all as adjust_all}
use katalyst.NodeGroups.MinAdjuster.Tracking.{
  IsJustified, after_turn, find_id, analyze_one-IsJustified, analyze_all-low_since,
}

abbrev group : NodeGroup
group = record { id = "g"; name = "workers"; min_count = 5; max_count = 9 }

abbrev node : List Pod → NodeState thousandths
node pods = record {
  node_group_id = "g";
  cpu_capacity = 4000;
  memory_capacity = 16;
  cpu_used = 400;
  memory_used = 1;
  cpu_requested = 0;
  memory_requested = 0;
  hourly_cost_usd = plus 100;
  pods = pods;
}

abbrev daemon : Pod
daemon = record { owner_kinds = "DaemonSet" ∷ [] }

abbrev server : Pod
server = record { owner_kinds = "ReplicaSet" ∷ [] }

abbrev snapshot : ℕ → List Pod → Snapshot thousandths
snapshot t pods = record { now = t; groups = group ∷ []; nodes = node pods ∷ [] }

-- Newest first: a server at 10, and only a daemon at 20 and 30.
abbrev history : List (Snapshot thousandths)
history =
    snapshot 30 (daemon ∷ []) ∷ snapshot 20 (daemon ∷ []) ∷ snapshot 10 (server ∷ daemon ∷ []) ∷ []

empty_since_20 : since_of thousandths (get thousandths "g" (run thousandths history)) ≡ some 20
unfolding run update update_all info_of add_nodes add_node count_pods track_empty nodes_by_group
    file_node is_daemon_set_pod new_node_group_state get lookup insert add64
empty_since_20 = refl

since_20 : since thousandths "g" history ≡ some 20
unfolding is_daemon_set_pod node_is_empty
since_20 = refl

counts : HasCounts thousandths "g" history
unfolding is_daemon_set_pod
counts = ground arith

run-since_example :
    since_of thousandths (get thousandths "g" (run thousandths history))
    ≡ since thousandths "g" history
run-since_example = run-since thousandths "g" history counts

-- The group at ten per cent.
abbrev info : NodeGroup → NodeGroupInfo thousandths
info g = record (new_info thousandths g []) {
  total_cpu = 4000;
  used_cpu = 400;
  total_memory = 10;
  used_memory = 1;
}

abbrev low_since : GoMap ℕ
low_since = ("g", 3) ∷ []

recommended : analyze_one thousandths 20 (plus 30000) 10 (info group) low_since ≡ (
  some (record { node_group_id = "g"; new_min = 2; nodes_affected = 3; requires_ai_gate = false }),
  low_since,
)
unfolding analyze_one is_low track lookup cpu_utilization memory_utilization
recommended = refl

analyze_one-IsJustified_example :
    IsJustified thousandths 20
      (plus 30000)
      10
      (info group)
      (analyze_one thousandths 20 (plus 30000) 10 (info group) low_since).1
      (recommend thousandths (info group))
analyze_one-IsJustified_example =
    analyze_one-IsJustified thousandths 20 (plus 30000) 10 (info group) low_since
      (recommend thousandths (info group)) (ap (λ p. p.0) recommended)

-- A busy group whose minimum is 0 stays tracked.
abbrev busy_at_zero : NodeGroupInfo thousandths
busy_at_zero = record (info (record group { min_count = 0 })) { used_cpu = 4000; used_memory = 10 }

analyze_all-low_since_example :
    lookup "g" (adjust_all thousandths 20 (plus 30000) 10 (busy_at_zero ∷ []) low_since).1
    ≡ after_turn thousandths 20
        (plus 30000)
        (find_id thousandths "g" (busy_at_zero ∷ []))
        (lookup "g" low_since)
analyze_all-low_since_example =
    analyze_all-low_since thousandths 20 (plus 30000) 10 (busy_at_zero ∷ []) low_since "g"
      (refl, tt)
