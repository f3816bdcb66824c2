-- ===== src/PodPurger/Tests.antt =====
-- Four pods that have failed, of which one may be deleted.
use katalyst.Prelude.{
  ℕ, String, ◌≡◌, ◌↔◌, refl, Bool, true, false, none, some, List, [], ◌∷◌, ◌++◌, arith, keep,
}
use katalyst.Prelude.Thousandths.{thousandths}
use katalyst.Prelude.GoMap.{lookup}
use katalyst.PodPurger.{
  Pod, compute_pod_status, init_status, container_status, is_own, World, purge_all,
}
use katalyst.PodPurger.Purge.{is_purgeable, delete_all, deletion_events}
use katalyst.PodPurger.Status.{IsPurgeable}
use katalyst.PodPurger.Round.{purge_all-delete_all}

abbrev failed : String → String → String → ℕ → Pod
failed namespace name app creation = record {
  namespace = namespace;
  name = name;
  labels = ("app", app) ∷ [];
  creation = creation;
  init_containers = 0;
  init_statuses = [];
  statuses = record { waiting = some "CrashLoopBackOff"; terminated = none; running = false } ∷ [];
  phase = "Running";
}

abbrev pods : List Pod
pods =
    failed "kube-system" "dns" "dns" 10
    ∷ failed "shop" "self" "koptimizer" 10
    ∷ failed "shop" "new" "web" 95
    ∷ failed "shop" "old" "web" 10
    ∷ []

only_old : keep (is_purgeable 20 100) pods ≡ failed "shop" "old" "web" 10 ∷ []
unfolding is_purgeable is_own compute_pod_status init_status container_status lookup
only_old = refl

-- The cluster is the list of the pods that were deleted.
abbrev delete : String → String → List String → List String × Bool
delete namespace name c = (name ∷ c, true)

abbrev describe : Pod → Bool → String
describe p ok = "purged"

abbrev world : World thousandths delete describe
world = record {
  cluster = [];
  audit = record { events = []; max_events = 5; has_writer = true; handed_over = [] };
  breaker = record { threshold = thousandths.of_nat 1; window = 10; cooldown = 10; states = [] };
}

purge_all-delete_all_example :
    (v : World thousandths delete describe) × (purge_all thousandths delete describe 20 100 pods
        world
      ≡ some v)
    × (v.cluster ≡ delete_all thousandths delete describe (keep (is_purgeable 20 100) pods) [])
    × (v.audit.handed_over
        ≡ []
          ++ deletion_events thousandths delete describe 100 (keep (is_purgeable 20 100) pods) [])
    × ((p : Pod) → (is_purgeable 20 100 p ≡ true) ↔ IsPurgeable 20 100 p)
purge_all-delete_all_example =
    purge_all-delete_all thousandths delete describe 20 100 pods world (omega arith, refl)
