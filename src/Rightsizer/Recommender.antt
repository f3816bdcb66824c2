-- ===== src/Rightsizer/Recommender.antt =====
-- internal/controller/rightsizer/recommender.go. `recommendUpsize` is called nowhere and is left out, as
-- are the texts of a recommendation. Decimal constants are quotients, which Go's conversion of the constant rounds in the same way.
use katalyst.Prelude.{
  ℕ, ◌+◌, ◌-◌, ◌/◌, ◌%◌, String, Bool, false, ◌&&◌, not, Option, none, some, str_eq, ltb, ◌==◌,
  if◌then◌else◌,
}
use Prim.Native.String.{◌++◌ as str_append}
use katalyst.Prelude.Float64.{Float64, FloatText, of_int64}
use katalyst.Prelude.Itoa.{itoa, print_int64}
use katalyst.Prelude.Words.{lt64, mod64}
use katalyst.Rightsizer.Analyzer.{PodInfo, PodAnalysis}

abbrev pub min_cpu_floor_milli : ℕ
min_cpu_floor_milli = 1000

-- 2 GiB and 32 MiB.
abbrev pub min_mem_delta_bytes : ℕ
min_mem_delta_bytes = 2147483648

abbrev pub min_mem_floor_bytes : ℕ
min_mem_floor_bytes = 33554432

abbrev pub min_cpu_absolute : ℕ
min_cpu_absolute = 10

-- x - y on `int64`.
unfoldable pub sub64 : ℕ → ℕ → ℕ
sub64 x y = (x + mod64 - y) % mod64

-- The greater of two `int64`.
abbrev pub at_least : ℕ → ℕ → ℕ
at_least low x = if lt64 x low then low else x

abbrev pub at_most : ℕ → ℕ → ℕ
at_most high x = if lt64 high x then high else x

-- Why `ValidateDownsizeTargets` refuses.
pub data InvalidTarget : Type 0 where
  cpu_not_decreasing memory_increasing cpu_below_floor memory_delta_small : InvalidTarget

unfoldable pub validate_downsize_targets : ℕ → ℕ → ℕ → ℕ → Option InvalidTarget
validate_downsize_targets current_cpu suggested_cpu current_mem suggested_mem =
    if not (lt64 suggested_cpu current_cpu)
    then some cpu_not_decreasing
    else if lt64 current_mem suggested_mem
    then some memory_increasing
    else if lt64 suggested_cpu min_cpu_floor_milli
    then some cpu_below_floor
    else if lt64 (sub64 current_mem suggested_mem) min_mem_delta_bytes
    then some memory_delta_small
    else none

-- What is kept of a recommendation.
pub record Downsize : Type 0 where
  pub target_kind : String
  pub target_name : String
  pub target_namespace : String
  pub auto_executable : Bool
  pub current_cpu : ℕ
  pub suggested_cpu : ℕ
  pub current_mem : ℕ
  pub suggested_mem : ℕ
  pub replica_count : ℕ

-- `formatBytes`: whole GiB, and else MiB or KiB rounded down.
unfoldable pub format_bytes : ℕ → String
format_bytes b =
    if not (lt64 b 1073741824) && b % 1073741824 == 0
    then str_append (itoa (b / 1073741824)) "Gi"
    else if not (lt64 b 1048576)
    then str_append (itoa (b / 1048576)) "Mi"
    else if not (lt64 b 1024)
    then str_append (itoa (b / 1024)) "Ki"
    else print_int64 b

abbrev pub if_valid : Option InvalidTarget → Option Downsize → Option Downsize
if_valid none d = d
if_valid (some e) d = none

module _ (Fl : Float64) (text : FloatText Fl) where
  -- `int64(float64(x) * f)`.
  abbrev pub scaled : ℕ → Fl.F → ℕ
  scaled x f = text.to_int64 (Fl.mul (of_int64 Fl x) f)

  -- 20% above the 95th percentile, and the least share that is kept when none is configured.
  abbrev pub usage_headroom : Fl.F
  usage_headroom = Fl.div (Fl.of_nat 12) (Fl.of_nat 10)

  abbrev pub default_min_keep_ratio : Fl.F
  default_min_keep_ratio = Fl.div (Fl.of_nat 7) (Fl.of_nat 10)

  unfoldable pub compute_cpu_target : ℕ → ℕ → Fl.F → ℕ
  compute_cpu_target cpu_p95 cpu_request min_keep_ratio = at_least min_cpu_floor_milli (
      at_least min_cpu_absolute
        (at_least (scaled cpu_request min_keep_ratio) (scaled cpu_p95 usage_headroom)))

  unfoldable pub compute_mem_floor : ℕ → ℕ
  compute_mem_floor mem_p95 = at_least min_mem_floor_bytes (scaled mem_p95 usage_headroom)

  -- By the ratio of the node, or in proportion to the CPU.
  abbrev pub mem_by_ratio : ℕ → PodAnalysis Fl → ℕ → ℕ
  mem_by_ratio suggested_cpu a floor =
      if lt64 0 a.node_cpu_cap_milli && lt64 0 a.node_mem_cap_bytes
      then scaled suggested_cpu
          (Fl.div (of_int64 Fl a.node_mem_cap_bytes) (of_int64 Fl a.node_cpu_cap_milli))
      else if lt64 0 a.pod.cpu_request
      then scaled a.pod.memory_request
          (Fl.div (of_int64 Fl suggested_cpu) (of_int64 Fl a.pod.cpu_request))
      else floor

  unfoldable pub compute_mem_target : ℕ → PodAnalysis Fl → ℕ → ℕ
  compute_mem_target suggested_cpu a floor = at_least floor (mem_by_ratio suggested_cpu a floor)

  -- n / 10 ^ 6.
  abbrev pub millionths : ℕ → Fl.F
  millionths n = Fl.div (Fl.of_nat n) (Fl.of_nat 1000000)

  abbrev pub vcpu_hourly_cost_by_cloud : String → Fl.F
  vcpu_hourly_cost_by_cloud provider =
      if str_eq provider "gcp"
      then millionths 31611
      else if str_eq provider "azure"
      then millionths 43000
      else millionths 20000

  abbrev pub mem_gib_hourly_cost_by_cloud : String → Fl.F
  mem_gib_hourly_cost_by_cloud provider =
      if str_eq provider "gcp"
      then millionths 4237
      else if str_eq provider "azure"
      then millionths 5000
      else millionths 3220

  abbrev pub hours_per_month : Fl.F
  hours_per_month = Fl.div (Fl.of_nat 7305) (Fl.of_nat 10)

  unfoldable pub estimate_cpu_savings : ℕ → ℕ → String → Fl.F
  estimate_cpu_savings current suggested provider =
      Fl.mul
        (Fl.mul (Fl.div (of_int64 Fl (sub64 current suggested)) (Fl.of_nat 1000))
          (vcpu_hourly_cost_by_cloud provider))
        hours_per_month

  unfoldable pub estimate_memory_savings : ℕ → ℕ → String → Fl.F
  estimate_memory_savings current suggested provider =
      Fl.mul
        (Fl.mul (Fl.div (of_int64 Fl (sub64 current suggested)) (Fl.of_nat 1073741824))
          (mem_gib_hourly_cost_by_cloud provider))
        hours_per_month

  unfoldable pub total_savings : String → ℕ → ℕ → ℕ → ℕ → ℕ → Fl.F
  unfolding estimate_cpu_savings estimate_memory_savings
  total_savings provider current_cpu suggested_cpu current_mem suggested_mem replicas =
      Fl.mul
        (Fl.add (estimate_cpu_savings current_cpu suggested_cpu provider)
          (estimate_memory_savings current_mem suggested_mem provider))
        (of_int64 Fl replicas)

  abbrev pub keep_ratio_or_default : Fl.F → Fl.F
  keep_ratio_or_default r = if Fl.leb r (Fl.of_nat 0) then default_min_keep_ratio else r

  abbrev pub downsize : PodAnalysis Fl → ℕ → ℕ → ℕ → Downsize
  downsize a suggested_cpu suggested_mem replicas = record {
    target_kind = a.pod.owner_kind;
    target_name = a.pod.owner_name;
    target_namespace = a.pod.namespace;
    auto_executable = false;
    current_cpu = a.pod.cpu_request;
    suggested_cpu = suggested_cpu;
    current_mem = a.pod.memory_request;
    suggested_mem = suggested_mem;
    replica_count = replicas;
  }

  unfoldable pub cpu_target : Fl.F → PodAnalysis Fl → ℕ
  unfolding compute_cpu_target
  cpu_target min_keep_ratio a =
      compute_cpu_target a.usage.cpu_p95 a.pod.cpu_request (keep_ratio_or_default min_keep_ratio)

  unfoldable pub mem_target : Fl.F → PodAnalysis Fl → ℕ
  unfolding compute_mem_target compute_mem_floor cpu_target
  mem_target min_keep_ratio a =
      at_most a.pod.memory_request
        (compute_mem_target (cpu_target min_keep_ratio a) a (compute_mem_floor a.usage.mem_p95))

  unfoldable pub compute_downsize : String → Fl.F → PodAnalysis Fl → ℕ → Option Downsize
  unfolding validate_downsize_targets total_savings cpu_target mem_target
  compute_downsize provider min_keep_ratio a replicas =
      let cpu : ℕ = cpu_target min_keep_ratio a in
      let mem : ℕ = mem_target min_keep_ratio a in
      if_valid (validate_downsize_targets a.pod.cpu_request cpu a.pod.memory_request mem) (
        if Fl.leb (total_savings provider a.pod.cpu_request cpu a.pod.memory_request mem replicas)
          (Fl.of_nat 0)
        then none
        else some (downsize a cpu mem replicas))

  abbrev pub replicas_of : PodInfo → ℕ
  replicas_of pod = if lt64 1 pod.replica_count then pod.replica_count else 1

  unfoldable pub recommend : String → Fl.F → PodAnalysis Fl → Option Downsize
  unfolding compute_downsize
  recommend provider min_keep_ratio a =
      if ltb a.usage.data_points 6
      then none
      else if str_eq a.pod.owner_kind "DaemonSet"
      then none
      else if a.is_over_prov_cpu && lt64 0 a.usage.cpu_p95
      then compute_downsize provider min_keep_ratio a (replicas_of a.pod)
      else none
