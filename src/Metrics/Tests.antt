-- ===== src/Metrics/Tests.antt =====
-- A store with two points of a node.
use katalyst.Prelude.{ℕ, ◌≤◌, refl, true, List, [], ◌∷◌, length}
use katalyst.Prelude.GoMap.{lookup}
use katalyst.Metrics.Store.{
  DataPoint, Store, PodMetrics, record_pod_metrics, compute_window, cleanup, max_pod_series_keys,
  inline_cleanup_keys,
}
use katalyst.Metrics.Percentiles.{IsWindowOf, compute_window-IsWindowOf}
use katalyst.Metrics.Cap.{Call, record_node, record_pod, clean, IsFew, run, run-IsFew}

abbrev point : ℕ → ℕ → DataPoint
point t v = record { timestamp = t; cpu_usage = v; memory_usage = v }

-- Two of three points are recent.
compute_window-IsWindowOf_example :
    IsWindowOf
      (point 60 3 ∷ point 70 9 ∷ [])
      (compute_window 50 100 (point 10 7 ∷ point 60 3 ∷ point 70 9 ∷ []))
compute_window-IsWindowOf_example =
    compute_window-IsWindowOf 50 100 (point 10 7 ∷ point 60 3 ∷ point 70 9 ∷ [])

-- A store that was filled at the start, and calls that record a pod of two containers.
abbrev filled : Store
filled = record {
  node_series = [];
  pod_series = ("shop/old/main", point 1 3 ∷ []) ∷ [];
  retention = 50;
  has_writer = true;
}

abbrev web : PodMetrics
web = record {
  namespace = "shop";
  name = "web";
  timestamp = 9;
  containers =
      record { name = "main"; cpu_usage = 4; memory_usage = 5 }
      ∷ record { name = "side"; cpu_usage = 1; memory_usage = 2 }
      ∷ [];
}

abbrev calls : List Call
calls =
    record_node 10 (record { name = "a"; timestamp = 9; cpu_usage = 4; memory_usage = 5 })
    ∷ record_pod 11 web
    ∷ clean 20
    ∷ []

run-IsFew_example :
    IsFew filled (run calls filled)
    × (length (record_pod_metrics 30 web (run calls filled)).0.pod_series ≤ inline_cleanup_keys)
    × (length (cleanup 30 (run calls filled)).pod_series ≤ max_pod_series_keys)
unfolding lookup
run-IsFew_example =
    run-IsFew calls filled 30 web (record { nodes_once = tt; pods_once = (refl, tt) })
