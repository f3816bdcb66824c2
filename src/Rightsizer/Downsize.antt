-- ===== src/Rightsizer/Downsize.antt =====
-- What every recommendation to reduce requests satisfies.
use katalyst.Prelude.{ℕ, ◌≤◌, String, ◌≡◌, true, false, str_eq}
use katalyst.Prelude.Float64.{Float64, FloatText}
use katalyst.Prelude.Words.{lt64}
use katalyst.Rightsizer.Analyzer.{PodAnalysis}
use katalyst.Rightsizer.Recommender.{
  min_cpu_floor_milli, min_mem_delta_bytes, sub64, Downsize, scaled, usage_headroom,
  compute_mem_floor, total_savings, keep_ratio_or_default,
}

-- x ≤ y on `int64`.
abbrev pub NotBelow : ℕ → ℕ → Type 0
NotBelow y x = lt64 y x ≡ false

-- What the validation accepts.
abbrev pub IsValidTarget : ℕ → ℕ → ℕ → ℕ → Type 0
IsValidTarget current_cpu suggested_cpu current_mem suggested_mem =
    (lt64 suggested_cpu current_cpu ≡ true)
    × NotBelow current_mem suggested_mem
    × NotBelow suggested_cpu min_cpu_floor_milli
    × NotBelow (sub64 current_mem suggested_mem) min_mem_delta_bytes

module _ (Fl : Float64) (text : FloatText Fl) where
  -- What a recommendation is, of the analysis of a pod.
  pub record IsSafe (provider : String) (min_keep_ratio : Fl.F) (a : PodAnalysis Fl) (d : Downsize)
      : Type 0 where
    pub enough_data : 6 ≤ a.usage.data_points
    pub no_daemon_set : str_eq a.pod.owner_kind "DaemonSet" ≡ false
    pub over_provisioned : a.is_over_prov_cpu ≡ true
    pub current : (d.current_cpu ≡ a.pod.cpu_request) × (d.current_mem ≡ a.pod.memory_request)
    pub manual : d.auto_executable ≡ false
    pub valid : IsValidTarget d.current_cpu d.suggested_cpu d.current_mem d.suggested_mem
    pub cpu_for_usage :
        NotBelow d.suggested_cpu (scaled Fl text a.usage.cpu_p95 (usage_headroom Fl text))
    pub cpu_kept :
        NotBelow d.suggested_cpu
          (scaled Fl text a.pod.cpu_request (keep_ratio_or_default Fl text min_keep_ratio))
    pub mem_for_usage : NotBelow d.suggested_mem (compute_mem_floor Fl text a.usage.mem_p95)
    pub saves :
        Fl.leb
          (total_savings Fl text provider d.current_cpu d.suggested_cpu d.current_mem
            d.suggested_mem d.replica_count)
          (Fl.of_nat 0)
        ≡ false
