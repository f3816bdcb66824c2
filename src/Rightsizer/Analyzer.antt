-- ===== src/Rightsizer/Analyzer.antt =====
-- internal/controller/rightsizer/analyzer.go, on the store of metrics. Amounts are `int64` patterns.
use katalyst.Prelude.{
  ℕ, String, Bool, true, false, ◌&&◌, ◌||◌, Option, none, some, List, [], ◌∷◌, ltb, ◌==◌,
  if◌then◌else◌,
}
use katalyst.Prelude.Float64.{Float64, of_int64}
use katalyst.Prelude.Words.{add64, lt64}
use katalyst.Metrics.Store.{MetricsWindow, Store, get_pod_container_window}

-- What the rightsizer reads of a `PodInfo`; `containers` are the names in the pod's spec.
pub record PodInfo : Type 0 where
  pub namespace : String
  pub name : String
  pub owner_kind : String
  pub owner_name : String
  pub replica_count : ℕ
  pub containers : List String
  pub cpu_request : ℕ
  pub cpu_usage : ℕ
  pub cpu_limit : ℕ
  pub memory_request : ℕ
  pub memory_usage : ℕ
  pub memory_limit : ℕ

-- The sums over the containers.
pub record Usage : Type 0 where
  pub found : Bool
  pub cpu_p50 : ℕ
  pub cpu_p95 : ℕ
  pub cpu_p99 : ℕ
  pub cpu_max : ℕ
  pub mem_p50 : ℕ
  pub mem_p95 : ℕ
  pub mem_p99 : ℕ
  pub mem_max : ℕ
  pub data_points : ℕ

pub record PodAnalysis (Fl : Float64) : Type 0 where
  pub pod : PodInfo
  pub usage : Usage
  pub is_over_prov_cpu : Bool
  pub is_over_prov_mem : Bool
  pub is_both_over_prov : Bool
  pub cpu_util_ratio : Fl.F
  pub mem_util_ratio : Fl.F
  pub is_under_prov_cpu : Bool
  pub is_under_prov_mem : Bool
  pub node_cpu_cap_milli : ℕ
  pub node_mem_cap_bytes : ℕ

abbrev pub no_usage : Usage
no_usage = record {
  found = false;
  cpu_p50 = 0;
  cpu_p95 = 0;
  cpu_p99 = 0;
  cpu_max = 0;
  mem_p50 = 0;
  mem_p95 = 0;
  mem_p99 = 0;
  mem_max = 0;
  data_points = 0;
}

abbrev pub add_window : Usage → Option MetricsWindow → Usage
add_window u none = u
add_window u (some w) = record {
  found = true;
  cpu_p50 = add64 u.cpu_p50 w.p50_cpu;
  cpu_p95 = add64 u.cpu_p95 w.p95_cpu;
  cpu_p99 = add64 u.cpu_p99 w.p99_cpu;
  cpu_max = add64 u.cpu_max w.max_cpu;
  mem_p50 = add64 u.mem_p50 w.p50_memory;
  mem_p95 = add64 u.mem_p95 w.p95_memory;
  mem_p99 = add64 u.mem_p99 w.p99_memory;
  mem_max = add64 u.mem_max w.max_memory;
  data_points =
      if u.data_points == 0 || ltb w.data_points u.data_points
      then w.data_points
      else u.data_points;
}

-- The loop over the containers.
unfoldable pub sum_windows : ℕ → ℕ → Store → PodInfo → List String → Usage → Usage
sum_windows lookback now store pod [] u = u
sum_windows lookback now store pod (c ∷ cs) u =
    sum_windows lookback now store pod cs
      (add_window u (get_pod_container_window lookback now pod.namespace pod.name c store))

-- Seven days in nanoseconds, when none are configured.
abbrev pub lookback_or_default : ℕ → ℕ
lookback_or_default lookback = if lookback == 0 then 604800000000000 else lookback

-- Without a window the current values stand for all.
abbrev pub usage_of : Usage → PodInfo → Usage
usage_of u pod = if u.found then u else record u {
  cpu_p50 = pod.cpu_usage;
  cpu_p95 = pod.cpu_usage;
  cpu_p99 = pod.cpu_usage;
  cpu_max = pod.cpu_usage;
  mem_p50 = pod.memory_usage;
  mem_p95 = pod.memory_usage;
  mem_p99 = pod.memory_usage;
  mem_max = pod.memory_usage;
}

module _ (Fl : Float64) where
  abbrev pub utilization : ℕ → ℕ → Fl.F
  utilization used request =
      if lt64 0 request
      then Fl.mul (Fl.div (of_int64 Fl used) (of_int64 Fl request)) (Fl.of_nat 100)
      else Fl.of_nat 0

  -- Half of a target.
  abbrev pub half_of : Fl.F → Fl.F
  half_of target = Fl.mul target (Fl.div (Fl.of_nat 1) (Fl.of_nat 2))

  abbrev pub analysis_of : Fl.F → Fl.F → PodInfo → Usage → PodAnalysis Fl
  analysis_of cpu_target memory_target pod u =
      let cpu_util : Fl.F = utilization u.cpu_p95 pod.cpu_request in
      let mem_util : Fl.F = utilization u.mem_p95 pod.memory_request in
      let over_cpu : Bool = Fl.ltb cpu_util (half_of cpu_target) in
      let over_mem : Bool = Fl.ltb mem_util (half_of memory_target) in
      record {
        pod = pod;
        usage = u;
        is_over_prov_cpu = over_cpu;
        is_over_prov_mem = over_mem;
        is_both_over_prov = over_cpu && over_mem;
        cpu_util_ratio = Fl.div cpu_util (Fl.of_nat 100);
        mem_util_ratio = Fl.div mem_util (Fl.of_nat 100);
        is_under_prov_cpu = Fl.ltb (Fl.of_nat 95) cpu_util;
        is_under_prov_mem = Fl.ltb (Fl.of_nat 95) mem_util;
        node_cpu_cap_milli = 0;
        node_mem_cap_bytes = 0;
      }

  -- `AnalyzePod`; the store may be nil. The capacity of the node is filled in by the caller.
  unfoldable pub analyze_pod :
      Fl.F → Fl.F → ℕ → ℕ → Option Store → PodInfo → Option (PodAnalysis Fl)
  unfolding sum_windows
  analyze_pod cpu_target memory_target lookback now none pod =
      if pod.cpu_request == 0 || pod.memory_request == 0
      then none
      else some (analysis_of cpu_target memory_target pod (usage_of no_usage pod))
  analyze_pod cpu_target memory_target lookback now (some store) pod =
      if pod.cpu_request == 0 || pod.memory_request == 0
      then none
      else some (
          analysis_of cpu_target memory_target pod (
            usage_of
              (sum_windows (lookback_or_default lookback) now store pod pod.containers no_usage)
              pod))
