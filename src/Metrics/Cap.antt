-- ===== src/Metrics/Cap.antt =====
-- How many series the store keeps, over any sequence of its calls.
use katalyst.Prelude.{
  ℕ, ◌-◌, ◌≤◌, String, ◌≡◌, ◌⊎◌, inl, inr, List, [], ◌∷◌, ◌++◌, arith, ltb, ◌==◌, Bool-cases,
  length, take, length-take,
}
use katalyst.Prelude.GoMap.{
  GoMap, lookup, erase, retain, insert-HasKeysOnce, erase-HasKeysOnce, retain-HasKeysOnce,
  HasKeysOnce,
}
use katalyst.Metrics.Store.{
  DataPoint, NodeMetrics, ContainerMetrics, PodMetrics, Store, put_points, points_or_none, skip_old,
  evict, append_point, pod_key, record_node_metrics, has_points, key_ages, sort_ages, erase_all,
  drop_oldest, enforce_cap, max_pod_series_keys, is_live, cleanup, record_containers,
  record_pod_metrics, inline_cleanup_keys,
}
use katalyst.Metrics.Ages.{
  IsWithin, length-erase_all, sort_ages-none, sort_ages-HasKeysOnce, length-sort_ages, take-none,
  take-HasKeysOnce, key_ages-IsWithin, key_ages-HasKeysOnce, length-key_ages,
}

erase_all-HasKeysOnce :
    (ages : GoMap ℕ) (series : GoMap (List DataPoint))
    → HasKeysOnce series
    → HasKeysOnce (erase_all ages series)
unfolding erase_all
erase_all-HasKeysOnce [] series h = h
erase_all-HasKeysOnce ((k, t) ∷ ages) series h =
    erase_all-HasKeysOnce ages (erase k series) (erase-HasKeysOnce k series h)

length-drop_oldest :
    (limit : ℕ) (series : GoMap (List DataPoint))
    → HasKeysOnce series
    → length (key_ages series) ≡ length series
    → length (drop_oldest limit series) ≤ limit
unfolding drop_oldest
length-drop_oldest limit series h full =
    let n : ℕ = length series - limit in
    let oldest : GoMap ℕ = take n (sort_ages (key_ages series)) in
    let within : IsWithin oldest series = λ k e.
      take-none n k (sort_ages (key_ages series))
        (sort_ages-none k (key_ages series) (key_ages-IsWithin series k e)) in
    let once : HasKeysOnce oldest =
      take-HasKeysOnce n (sort_ages (key_ages series))
        (sort_ages-HasKeysOnce (key_ages series) (key_ages-HasKeysOnce series h)) in
    let size = length-take n (sort_ages (key_ages series)) in
    let sorted = length-sort_ages (key_ages series) in
    let left = length-erase_all oldest series once h within in
    omega (arith, size, sorted, left, full)

-- The series of a store have their keys once.
pub record IsWellFormed (s : Store) : Type 0 where
  pub nodes_once : HasKeysOnce s.node_series
  pub pods_once : HasKeysOnce s.pod_series

put_points-HasKeysOnce :
    (key : String) (ps : List DataPoint) (series : GoMap (List DataPoint))
    → HasKeysOnce series
    → HasKeysOnce (put_points key ps series)
put_points-HasKeysOnce key [] series h = erase-HasKeysOnce key series h
put_points-HasKeysOnce key (p ∷ ps) series h = insert-HasKeysOnce key (p ∷ ps) series h

evict-HasKeysOnce :
    (retention now : ℕ) (key : String) (series : GoMap (List DataPoint))
    → HasKeysOnce series
    → HasKeysOnce (evict retention now key series)
unfolding evict
evict-HasKeysOnce retention now key series h =
    let points = points_or_none (lookup key series) in
    elim (Bool-cases (length (skip_old retention now points) == length points)) [
      | inl y ↦ rw y h
      | inr n ↦ rw n (put_points-HasKeysOnce key (skip_old retention now points) series h)
    ]

append_evict-HasKeysOnce :
    (retention now : ℕ) (key : String) (p : DataPoint) (series : GoMap (List DataPoint))
    → HasKeysOnce series
    → HasKeysOnce (evict retention now key (append_point key p series))
unfolding append_point
append_evict-HasKeysOnce retention now key p series h =
    evict-HasKeysOnce retention now key (append_point key p series)
      (insert-HasKeysOnce key (points_or_none (lookup key series) ++ p ∷ []) series h)

record_containers-HasKeysOnce :
    (retention now : ℕ) (m : PodMetrics) (cs : List ContainerMetrics)
    (series : GoMap (List DataPoint))
    → HasKeysOnce series
    → HasKeysOnce (record_containers retention now m cs series)
unfolding record_containers
record_containers-HasKeysOnce retention now m [] series h = h
record_containers-HasKeysOnce retention now m (c ∷ cs) series h =
    record_containers-HasKeysOnce retention now m cs _ (
      append_evict-HasKeysOnce retention now (pod_key m.namespace m.name c.name)
        (record { timestamp = m.timestamp; cpu_usage = c.cpu_usage; memory_usage = c.memory_usage })
        series h)

enforce_cap-HasKeysOnce :
    (limit : ℕ) (series : GoMap (List DataPoint))
    → HasKeysOnce series
    → HasKeysOnce (enforce_cap limit series)
unfolding enforce_cap drop_oldest
enforce_cap-HasKeysOnce limit series h = elim (Bool-cases (ltb limit (length series))) [
  | inl y ↦ rw y (
      erase_all-HasKeysOnce
        (take (length (retain has_points series) - limit)
          (sort_ages (key_ages (retain has_points series))))
        (retain has_points series) (retain-HasKeysOnce has_points series h))
  | inr n ↦ rw n h
]

length-enforce_cap :
    (limit : ℕ) (series : GoMap (List DataPoint))
    → HasKeysOnce series
    → length (enforce_cap limit series) ≤ limit
unfolding enforce_cap
length-enforce_cap limit series h = elim (Bool-cases (ltb limit (length series))) [
  | inl y ↦ rw y (
      length-drop_oldest limit (retain has_points series) (retain-HasKeysOnce has_points series h)
        (length-key_ages series))
  | inr n ↦ rw n (ground (arith, n))
]

cleanup-IsWellFormed :
    (now : ℕ) (s : Store)
    → IsWellFormed s
    → IsWellFormed (cleanup now s) × (length (cleanup now s).pod_series ≤ max_pod_series_keys)
unfolding cleanup
cleanup-IsWellFormed now s h =
    let live_once = retain-HasKeysOnce (is_live s.retention now) s.pod_series h.pods_once in
    let well : IsWellFormed (cleanup now s) = record {
      nodes_once = retain-HasKeysOnce (is_live s.retention now) s.node_series h.nodes_once;
      pods_once = enforce_cap-HasKeysOnce max_pod_series_keys _ live_once;
    } in
    (
      well,
      length-enforce_cap max_pod_series_keys (retain (is_live s.retention now) s.pod_series)
          live_once,
    )

-- A call that changes the store, at a time.
pub data Call : Type 0 where
  record_node : ℕ → NodeMetrics → Call
  record_pod : ℕ → PodMetrics → Call
  clean : ℕ → Call

unfoldable pub step : Call → Store → Store
unfolding record_node_metrics record_pod_metrics cleanup
step (record_node now m) s = (record_node_metrics now m s).0
step (record_pod now m) s = (record_pod_metrics now m s).0
step (clean now) s = cleanup now s

unfoldable pub run : List Call → Store → Store
unfolding step
run [] s = s
run (c ∷ cs) s = run cs (step c s)

record_pod_metrics-IsWellFormed :
    (now : ℕ) (m : PodMetrics) (s : Store)
    → IsWellFormed s
    → IsWellFormed (record_pod_metrics now m s).0
      × (length (record_pod_metrics now m s).0.pod_series ≤ inline_cleanup_keys)
unfolding record_pod_metrics
record_pod_metrics-IsWellFormed now m s h =
    let series : GoMap (List DataPoint) =
      record_containers s.retention now m m.containers s.pod_series in
    let recorded : IsWellFormed (record s { pod_series = series }) = record {
      nodes_once = h.nodes_once;
      pods_once =
          record_containers-HasKeysOnce s.retention now m m.containers s.pod_series h.pods_once;
    } in
    elim (Bool-cases (ltb inline_cleanup_keys (length series))) [
      | inl y ↦
          let (well, few) = cleanup-IsWellFormed now (record s { pod_series = series }) recorded in
          rw y (well, omega (arith, few))
      | inr below ↦ rw below (recorded, ground (arith, below))
    ]

-- At most as many series of pods as at first, or as trigger no cleanup.
abbrev pub IsFew : Store → Store → Type 0
IsFew start s =
    (length s.pod_series ≤ length start.pod_series) ⊎ (length s.pod_series ≤ inline_cleanup_keys)

step-IsFew :
    (c : Call) (start s : Store)
    → IsWellFormed s
    → IsFew start s
    → IsWellFormed (step c s) × IsFew start (step c s)
unfolding step record_node_metrics
step-IsFew (record_node now m) start s h few = (
  record {
    nodes_once =
        append_evict-HasKeysOnce s.retention now m.name
          (record {
            timestamp = m.timestamp;
            cpu_usage = m.cpu_usage;
            memory_usage = m.memory_usage;
          })
          s.node_series h.nodes_once;
    pods_once = h.pods_once;
  },
  few,
)
step-IsFew (record_pod now m) start s h few =
    let (well, less) = record_pod_metrics-IsWellFormed now m s h in (well, inr less)
step-IsFew (clean now) start s h few =
    let (well, less) = cleanup-IsWellFormed now s h in (well, inr (omega (arith, less)))

run-IsWellFormed :
    (cs : List Call) (start s : Store)
    → IsWellFormed s
    → IsFew start s
    → IsWellFormed (run cs s) × IsFew start (run cs s)
unfolding run
run-IsWellFormed [] start s h few = (h, few)
run-IsWellFormed (c ∷ cs) start s h few =
    let (well, less) = step-IsFew c start s h few in run-IsWellFormed cs start (step c s) well less

-- From any store whose series have their keys once, also one that is filled from the tables at the
-- start, and however nodes and pods are recorded and the store is cleaned up, the series of pods are
-- never more than 120 000 or than there were at first, whichever is greater; right after a pod is
-- recorded they are at most 120 000, and right after a cleanup at most 100 000.
pub run-IsFew :
    (cs : List Call) (s : Store) (now : ℕ) (m : PodMetrics)
    → IsWellFormed s
    → IsFew s (run cs s)
      × (length (record_pod_metrics now m (run cs s)).0.pod_series ≤ inline_cleanup_keys)
      × (length (cleanup now (run cs s)).pod_series ≤ max_pod_series_keys)
run-IsFew cs s now m h =
    let (well, few) = run-IsWellFormed cs s s h (inl (omega arith)) in
    (
      few,
      (record_pod_metrics-IsWellFormed now m (run cs s) well).1,
      (cleanup-IsWellFormed now (run cs s) well).1,
    )
