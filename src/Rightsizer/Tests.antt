-- ===== src/Rightsizer/Tests.antt =====
-- A pod that is reduced, an amount that is printed, and two deaths of a container.
use katalyst.Prelude.{ℕ, ◌+◌, ◌≡◌, refl, true, false, some, List, [], ◌∷◌, arith, none}
use katalyst.Prelude.Float64.{FloatText}
use katalyst.Prelude.Thousandths.{thousandths}
use katalyst.Prelude.Words.{lt64}
use katalyst.Prelude.Itoa.{itoa}
use katalyst.Prelude.Decimal.{print_int}
use katalyst.Rightsizer.Analyzer.{PodInfo, PodAnalysis, no_usage}
use katalyst.Rightsizer.Recommender.{Downsize, format_bytes}
use katalyst.Rightsizer.Rounding.{IsPrintOf, format_bytes-IsPrintOf}
use katalyst.Rightsizer.OomTracker.{ContainerStatus, hour, PodInfo as KilledPod}
use katalyst.Rightsizer.Dedup.{Event, sees, cleans, emissions, AreSpaced, emissions-AreSpaced}

-- The whole part is not read back: every amount is 2000.
abbrev text : FloatText thousandths
text = record { one_decimal = λ x. "x"; to_int64 = λ x. 2000 }

abbrev pod : PodInfo
pod = record {
  namespace = "shop";
  name = "web-1";
  owner_kind = "Deployment";
  owner_name = "web";
  replica_count = 1;
  containers = "main" ∷ [];
  cpu_request = 8000;
  cpu_usage = 100;
  cpu_limit = 0;
  memory_request = 8589934592;
  memory_usage = 100;
  memory_limit = 0;
}

abbrev analysis : PodAnalysis thousandths
analysis = record {
  pod = pod;
  usage = record no_usage { cpu_p95 = 100; mem_p95 = 100; data_points = 10 };
  is_over_prov_cpu = true;
  is_over_prov_mem = true;
  is_both_over_prov = true;
  cpu_util_ratio = thousandths.of_nat 0;
  mem_util_ratio = thousandths.of_nat 0;
  is_under_prov_cpu = false;
  is_under_prov_mem = false;
  node_cpu_cap_milli = 0;
  node_mem_cap_bytes = 0;
}

abbrev reduced : Downsize
reduced = record {
  target_kind = "Deployment";
  target_name = "web";
  target_namespace = "shop";
  auto_executable = false;
  current_cpu = 8000;
  suggested_cpu = 2000;
  current_mem = 8589934592;
  suggested_mem = 33554432;
  replica_count = 1;
}

-- 3 000 000 000 bytes are printed as 2861Mi, which is less.
printed : format_bytes 3000000000 ≡ "2861Mi"
unfolding format_bytes lt64 itoa print_int
printed = refl

format_bytes-IsPrintOf_example : IsPrintOf 3000000000 (format_bytes 3000000000)
format_bytes-IsPrintOf_example = format_bytes-IsPrintOf 3000000000 (omega arith)

abbrev killed : KilledPod
killed = record {
  namespace = "shop";
  name = "web-1";
  owner_kind = "Deployment";
  owner_name = "web";
  statuses = [];
  containers = record { name = "main"; memory_request = some 1000; memory_limit = none } ∷ [];
}

abbrev status : ContainerStatus
status = record { name = "main"; oom_killed = true }

abbrev deaths : List (ℕ × Event)
deaths =
    (5, sees killed status)
    ∷ (6, sees killed status)
    ∷ (7, cleans)
    ∷ (5 + hour, sees killed status)
    ∷ []

emissions-AreSpaced_example :
    AreSpaced thousandths text
      (thousandths.of_nat 2)
      (emissions thousandths text (thousandths.of_nat 2) deaths [])
emissions-AreSpaced_example =
    emissions-AreSpaced thousandths text (thousandths.of_nat 2) 0 deaths
      (omega arith, (omega arith, (omega arith, (omega arith, tt))))
