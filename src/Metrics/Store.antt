-- ===== src/Metrics/Store.antt =====
-- internal/metrics/store.go. Times are nanoseconds since the epoch, and the current time is an argument.
-- `t.Before(now - d)` is t + d < now. What is handed to the writer is returned: the rows of one write,
-- or nothing. Reading the tables at start is left out. `sort.Slice` leaves the order of equal times
-- open; here it is an insertion sort.
use katalyst.Prelude.{
  ℕ, zero, suc, ◌+◌, ◌-◌, ◌*◌, ◌/◌, String, Bool, true, false, ◌&&◌, not, Option, none, some, List,
  [], ◌∷◌, ◌++◌, map, ltb, leb, ◌==◌, if◌then◌else◌, length, take, keep,
}
use Prim.Native.String.{◌++◌ as str_append}
use katalyst.Prelude.GoMap.{GoMap, lookup, insert, erase, retain}
use katalyst.Prelude.Words.{lt64}

pub record DataPoint : Type 0 where
  pub timestamp : ℕ
  pub cpu_usage : ℕ
  pub memory_usage : ℕ

pub record Store : Type 0 where
  pub node_series : GoMap (List DataPoint)
  pub pod_series : GoMap (List DataPoint)
  pub retention : ℕ
  pub has_writer : Bool

-- A row of `node_metrics` or `pod_metrics`: its key columns, the time in seconds and the values.
pub record Row : Type 0 where
  pub columns : List String
  pub ts : ℕ
  pub cpu : ℕ
  pub mem : ℕ

pub record NodeMetrics : Type 0 where
  pub name : String
  pub timestamp : ℕ
  pub cpu_usage : ℕ
  pub memory_usage : ℕ

pub record ContainerMetrics : Type 0 where
  pub name : String
  pub cpu_usage : ℕ
  pub memory_usage : ℕ

pub record PodMetrics : Type 0 where
  pub namespace : String
  pub name : String
  pub timestamp : ℕ
  pub containers : List ContainerMetrics

pub record MetricsWindow : Type 0 where
  pub start : ℕ
  pub end : ℕ
  pub data_points : ℕ
  pub p50_cpu : ℕ
  pub p95_cpu : ℕ
  pub p99_cpu : ℕ
  pub max_cpu : ℕ
  pub p50_memory : ℕ
  pub p95_memory : ℕ
  pub p99_memory : ℕ
  pub max_memory : ℕ

-- `maxPodSeriesKeys`, and 1.2 times as much.
abbrev pub max_pod_series_keys : ℕ
max_pod_series_keys = 100000

abbrev pub inline_cleanup_keys : ℕ
inline_cleanup_keys = 120000

abbrev pub nanos_per_second : ℕ
nanos_per_second = 1000000000

abbrev pub new_store : ℕ → Bool → Store
new_store retention has_writer = record {
  node_series = [];
  pod_series = [];
  retention = retention;
  has_writer = has_writer;
}

abbrev pub points_or_none : Option (List DataPoint) → List DataPoint
points_or_none none = []
points_or_none (some ps) = ps

-- The points from the first one on that is not too old.
unfoldable pub skip_old : ℕ → ℕ → List DataPoint → List DataPoint
skip_old retention now [] = []
skip_old retention now (p ∷ ps) =
    let rest = skip_old retention now ps in
    if ltb (p.timestamp + retention) now then rest else p ∷ ps

abbrev pub put_points : String → List DataPoint → GoMap (List DataPoint) → GoMap (List DataPoint)
put_points key [] series = erase key series
put_points key (p ∷ ps) series = insert key (p ∷ ps) series

-- Nothing is written when no point is too old.
unfoldable pub evict : ℕ → ℕ → String → GoMap (List DataPoint) → GoMap (List DataPoint)
unfolding skip_old
evict retention now key series =
    let points = points_or_none (lookup key series) in
    let remaining = skip_old retention now points in
    if length remaining == length points then series else put_points key remaining series

unfoldable pub append_point : String → DataPoint → GoMap (List DataPoint) → GoMap (List DataPoint)
append_point key p series = insert key (points_or_none (lookup key series) ++ p ∷ []) series

unfoldable pub record_node_metrics : ℕ → NodeMetrics → Store → Store × Option (List Row)
unfolding append_point evict
record_node_metrics now m s =
    let p : DataPoint = record {
      timestamp = m.timestamp;
      cpu_usage = m.cpu_usage;
      memory_usage = m.memory_usage;
    } in
    let row : Row = record {
      columns = m.name ∷ [];
      ts = m.timestamp / nanos_per_second;
      cpu = m.cpu_usage;
      mem = m.memory_usage;
    } in
    (
      record s { node_series = evict s.retention now m.name (append_point m.name p s.node_series) },
      if s.has_writer then some (row ∷ []) else none,
    )

abbrev pub pod_key : String → String → String → String
pod_key namespace pod container =
    str_append namespace (str_append "/" (str_append pod (str_append "/" container)))

abbrev pub last_timestamp : DataPoint → List DataPoint → ℕ
last_timestamp p [] = p.timestamp
last_timestamp p (q ∷ ps) = last_timestamp q ps

-- Whether a series has a point within the retention time.
abbrev pub is_live : ℕ → ℕ → String → List DataPoint → Bool
is_live retention now key [] = false
is_live retention now key (p ∷ ps) = not (ltb (last_timestamp p ps + retention) now)

-- The keys with the times of their last points; a series without points is left out.
unfoldable pub key_ages : GoMap (List DataPoint) → GoMap ℕ
key_ages [] = []
key_ages ((k, []) ∷ series) = key_ages series
key_ages ((k, p ∷ ps) ∷ series) = (k, last_timestamp p ps) ∷ key_ages series

abbrev pub has_points : String → List DataPoint → Bool
has_points key [] = false
has_points key (p ∷ ps) = true

abbrev pub insert_age : String → ℕ → GoMap ℕ → GoMap ℕ
insert_age k t [] = (k, t) ∷ []
insert_age k t ((j, u) ∷ ages) =
    let rest = insert_age k t ages in if ltb u t then (j, u) ∷ rest else (k, t) ∷ (j, u) ∷ ages

unfoldable pub sort_ages : GoMap ℕ → GoMap ℕ
sort_ages [] = []
sort_ages ((k, t) ∷ ages) = insert_age k t (sort_ages ages)

unfoldable pub erase_all : GoMap ℕ → GoMap (List DataPoint) → GoMap (List DataPoint)
erase_all [] series = series
erase_all ((k, t) ∷ ages) series = erase_all ages (erase k series)

-- The oldest series are evicted until the limit is met.
unfoldable pub drop_oldest : ℕ → GoMap (List DataPoint) → GoMap (List DataPoint)
unfolding key_ages sort_ages erase_all
drop_oldest limit series =
    erase_all (take (length series - limit) (sort_ages (key_ages series))) series

unfoldable pub enforce_cap : ℕ → GoMap (List DataPoint) → GoMap (List DataPoint)
unfolding drop_oldest
enforce_cap limit series =
    if ltb limit (length series) then drop_oldest limit (retain has_points series) else series

-- `cleanupLocked`.
unfoldable pub cleanup : ℕ → Store → Store
unfolding enforce_cap
cleanup now s = record s {
  node_series = retain (is_live s.retention now) s.node_series;
  pod_series = enforce_cap max_pod_series_keys (retain (is_live s.retention now) s.pod_series);
}

-- The loop over the containers.
unfoldable pub record_containers :
    ℕ → ℕ → PodMetrics → List ContainerMetrics → GoMap (List DataPoint) → GoMap (List DataPoint)
unfolding append_point evict
record_containers retention now m [] series = series
record_containers retention now m (c ∷ cs) series =
    let key = pod_key m.namespace m.name c.name in
    let p : DataPoint = record {
      timestamp = m.timestamp;
      cpu_usage = c.cpu_usage;
      memory_usage = c.memory_usage;
    } in
    record_containers retention now m cs (evict retention now key (append_point key p series))

abbrev pub container_row : PodMetrics → ContainerMetrics → Row
container_row m c = record {
  columns = m.namespace ∷ m.name ∷ c.name ∷ [];
  ts = m.timestamp / nanos_per_second;
  cpu = c.cpu_usage;
  mem = c.memory_usage;
}

unfoldable pub record_pod_metrics : ℕ → PodMetrics → Store → Store × Option (List Row)
unfolding record_containers cleanup
record_pod_metrics now m s =
    let t : Store = record s {
      pod_series = record_containers s.retention now m m.containers s.pod_series;
    } in
    (
      if ltb inline_cleanup_keys (length t.pod_series) then cleanup now t else t,
      if s.has_writer && not (length m.containers == 0)
          then some (map (container_row m) m.containers)
          else none,
    )

unfoldable pub insert_value : ℕ → List ℕ → List ℕ
insert_value x [] = x ∷ []
insert_value x (y ∷ ys) = let rest = insert_value x ys in if lt64 y x then y ∷ rest else x ∷ y ∷ ys

unfoldable pub sort_values : List ℕ → List ℕ
unfolding insert_value
sort_values [] = []
sort_values (x ∷ xs) = insert_value x (sort_values xs)

abbrev pub value_at : List ℕ → ℕ → ℕ
value_at [] i = 0
value_at (x ∷ xs) zero = x
value_at (x ∷ xs) (suc i) = value_at xs i

abbrev pub percentile_index : ℕ → ℕ → ℕ
percentile_index pct n = if leb n (pct * n / 100) then n - 1 else pct * n / 100

unfoldable pub percentile : List ℕ → ℕ → ℕ
unfolding sort_values
percentile values pct =
    if length values == 0
    then 0
    else value_at (sort_values values) (percentile_index pct (length (sort_values values)))

abbrev pub greatest : ℕ → List ℕ → ℕ
greatest m [] = m
greatest m (v ∷ vs) = greatest (if lt64 m v then v else m) vs

unfoldable pub max_val : List ℕ → ℕ
max_val [] = 0
max_val (v ∷ vs) = greatest v vs

unfoldable pub window_of : List DataPoint → Option MetricsWindow
unfolding percentile max_val
window_of [] = none
window_of (p ∷ ps) =
    let cpu : List ℕ = map (λ q. q.cpu_usage) (p ∷ ps) in
    let mem : List ℕ = map (λ q. q.memory_usage) (p ∷ ps) in
    some (record {
      start = p.timestamp;
      end = last_timestamp p ps;
      data_points = length (p ∷ ps);
      p50_cpu = percentile cpu 50;
      p95_cpu = percentile cpu 95;
      p99_cpu = percentile cpu 99;
      max_cpu = max_val cpu;
      p50_memory = percentile mem 50;
      p95_memory = percentile mem 95;
      p99_memory = percentile mem 99;
      max_memory = max_val mem;
    })

abbrev pub is_within : ℕ → ℕ → DataPoint → Bool
is_within duration now p = ltb now (p.timestamp + duration)

unfoldable pub compute_window : ℕ → ℕ → List DataPoint → Option MetricsWindow
unfolding window_of
compute_window duration now points = window_of (keep (is_within duration now) points)

unfoldable pub get_node_window : ℕ → ℕ → String → Store → Option MetricsWindow
unfolding compute_window
get_node_window duration now name s =
    compute_window duration now (points_or_none (lookup name s.node_series))

unfoldable pub get_pod_container_window :
    ℕ → ℕ → String → String → String → Store → Option MetricsWindow
unfolding compute_window
get_pod_container_window duration now namespace pod container s =
    compute_window duration now
      (points_or_none (lookup (pod_key namespace pod container) s.pod_series))
