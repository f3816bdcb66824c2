-- ===== src/Scheduler/Resources.antt =====
-- internal/scheduler/simulator.go and predicates.go: resource requests against capacity. Sums are
-- `int64` and wrap.
pub mod Capacity
use katalyst.Prelude.{
  ℕ, zero, suc, ◌+◌, ◌-◌, ◌*◌, ◌/◌, ◌%◌, ◌^◌, ◌≤◌, ◌<◌, String, ◌≡◌, refl, sym, ap, ◌∙◌, subst, ◌≢◌,
  ◌↔◌, ◌⊎◌, inl, inr, Bool, true, false, ◌&&◌, ◌||◌, not, Option, none, some, List, [], ◌∷◌, ◌++◌,
  map, reverse, arith, str_eq, eq_iff, ltb, leb, ◌==◌, if◌then◌else◌, ltb→lt, lt→ltb, leb→le,
  le→leb, ==_iff, tests, Bool-cases, Option-cases, is_some, &&_iff, not_iff, length, take, drop,
  get_elem?, set, all, any, keep, length-append, length-keep-le, length-take, length-drop, drop-set,
  take-set, length-set, get_elem?-drop, drop-length, drop-drop, drop-append, length-reverse,
  get_elem?-reverse, All, Any, all_iff, any_iff,
}
use katalyst.Prelude.GoMap.{GoMap, lookup}
use katalyst.Prelude.Words.{add64, lt64}
use katalyst.Scheduler.Types.{Quantity, ResourceList, Container, Pod, Node}

-- What a container asks of a resource, by a method of `Quantity`; 0 if it asks nothing.
abbrev pub amount : (Quantity → ℕ) → String → ResourceList → ℕ
amount read name res = elim (lookup name res) [ none ↦ 0 | some q ↦ read q ]

-- The loop `total += ...` over containers.
unfoldable pub sum_requests : (Quantity → ℕ) → String → ℕ → List Container → ℕ
sum_requests read name total [] = total
sum_requests read name total (c ∷ cs) =
    sum_requests read name (add64 total (amount read name c.requests)) cs

-- The loop over init containers: `if ic > total { total = ic }`.
unfoldable pub raise_to_requests : (Quantity → ℕ) → String → ℕ → List Container → ℕ
raise_to_requests read name total [] = total
raise_to_requests read name total (c ∷ cs) =
    let ic = amount read name c.requests in
    raise_to_requests read name (if lt64 total ic then ic else total) cs

unfoldable pub effective_amount : (Quantity → ℕ) → String → Pod → ℕ
effective_amount read name pod =
    raise_to_requests read name (sum_requests read name 0 pod.containers) pod.init_containers

-- `EffectivePodResources`: CPU in millicores and memory in bytes.
unfoldable pub effective_pod_resources : Pod → ℕ × ℕ
effective_pod_resources pod =
    (effective_amount (λ q. q.milli_value) "cpu" pod, effective_amount (λ q. q.value) "memory" pod)

-- `podGPURequest`.
unfoldable pub pod_gpu_request : Pod → ℕ
pod_gpu_request pod = effective_amount (λ q. q.value) "nvidia.com/gpu" pod

-- The sums over the pods on the node.
unfoldable pub sum_pods : (Pod → ℕ) → ℕ → List Pod → ℕ
sum_pods f used [] = used
sum_pods f used (p ∷ ps) = sum_pods f (add64 used (f p)) ps

unfoldable pub has_enough_resources : Pod → Node → List Pod → Bool
unfolding effective_pod_resources pod_gpu_request
has_enough_resources pod node existing =
    let cpu_cap = amount (λ q. q.milli_value) "cpu" node.allocatable in
    let mem_cap = amount (λ q. q.value) "memory" node.allocatable in
    let used_cpu = sum_pods (λ p. (effective_pod_resources p).0) 0 existing in
    let used_mem = sum_pods (λ p. (effective_pod_resources p).1) 0 existing in
    let used_gpu = sum_pods pod_gpu_request 0 existing in
    let (pod_cpu, pod_mem) = effective_pod_resources pod in
    let pod_gpu = pod_gpu_request pod in
    let gpu_cap = amount (λ q. q.value) "nvidia.com/gpu" node.allocatable in
    if lt64 cpu_cap (add64 used_cpu pod_cpu) || lt64 mem_cap (add64 used_mem pod_mem)
    then false
    else if lt64 0 pod_gpu
    then not (lt64 gpu_cap (add64 used_gpu pod_gpu))
    else true

-- predicates.go
unfoldable pub has_gpu_request : Pod → Bool
has_gpu_request pod = any (λ c. is_some (lookup "nvidia.com/gpu" c.requests)) pod.containers

unfoldable pub get_pod_cpu_request : Pod → ℕ
get_pod_cpu_request pod = sum_requests (λ q. q.milli_value) "cpu" 0 pod.containers

unfoldable pub get_pod_memory_request : Pod → ℕ
get_pod_memory_request pod = sum_requests (λ q. q.value) "memory" 0 pod.containers
