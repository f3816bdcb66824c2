-- ===== src/Scheduler/Resources/Capacity.antt =====
-- Requests and capacities as plain numbers, and that the wrapping sums decide by them as long as
-- the true sums fit an `int64`.
use katalyst.Prelude.{
  ℕ, ◌+◌, ◌≤◌, ◌<◌, String, ◌≡◌, ◌∙◌, ◌↔◌, inl, inr, true, List, [], ◌∷◌, arith, ltb, tests,
  Bool-cases,
}
use Prim.Native.Nat.{max}
use katalyst.Prelude.Words.{add64, lt64, sign64, add64_exact, lt64_exact}
use katalyst.Scheduler.Types.{Quantity, Container, Pod, Node}
use katalyst.Scheduler.Resources.{
  amount, sum_requests, raise_to_requests, effective_amount, sum_pods, has_enough_resources,
}

-- The sum of a list's values, and their maximum, without any wrapping.
abbrev pub total {ℓ} : {A : Type ℓ} → (A → ℕ) → List A → ℕ
total f [] = 0
total f (x ∷ xs) = f x + total f xs

abbrev pub largest {ℓ} : {A : Type ℓ} → (A → ℕ) → List A → ℕ
largest f [] = 0
largest f (x ∷ xs) = max (f x) (largest f xs)

-- What a pod needs: its containers run together, its init containers one after the other before.
abbrev pub need : (Quantity → ℕ) → String → Pod → ℕ
need read name pod =
    max (total (λ c. amount read name c.requests) pod.containers)
      (largest (λ c. amount read name c.requests) pod.init_containers)

sum_requests-total :
    (read : Quantity → ℕ) (name : String) (t : ℕ) (cs : List Container)
    → t + total (λ c. amount read name c.requests) cs < sign64
    → sum_requests read name t cs ≡ t + total (λ c. amount read name c.requests) cs
unfolding sum_requests
sum_requests-total read name t [] h = omega arith
sum_requests-total read name t (c ∷ cs) h =
    let exact = add64_exact t (amount read name c.requests) (omega arith) in
    rw exact (
      sum_requests-total read name (t + amount read name c.requests) cs (omega arith) ∙ omega arith)

raise_to_requests-largest :
    (read : Quantity → ℕ) (name : String) (t : ℕ) (cs : List Container)
    → max t (largest (λ c. amount read name c.requests) cs) < sign64
    → raise_to_requests read name t cs ≡ max t (largest (λ c. amount read name c.requests) cs)
unfolding raise_to_requests
raise_to_requests-largest read name t [] h = omega arith
raise_to_requests-largest read name t (c ∷ cs) h =
    let ic : ℕ = amount read name c.requests in
    let exact = lt64_exact t ic (omega arith) (omega arith) in
    elim (Bool-cases (ltb t ic)) [
      | inl more ↦
          rw (exact, more)
            (raise_to_requests-largest read name ic cs (omega (tests, more)) ∙ omega (tests, more))
      | inr less ↦
          let le : ic ≤ t = ground arith in
          rw (exact, less) (raise_to_requests-largest read name t cs (omega arith) ∙ omega arith)
    ]

-- The effective request is the larger of the containers' sum and the init containers' maximum, where
-- that fits an `int64`.
pub effective_amount-need :
    (read : Quantity → ℕ) (name : String) (pod : Pod)
    → need read name pod < sign64
    → effective_amount read name pod ≡ need read name pod
unfolding effective_amount
effective_amount-need read name pod h =
    let sum : sum_requests read name 0 pod.containers
        ≡ total (λ c. amount read name c.requests) pod.containers =
      sum_requests-total read name 0 pod.containers (omega arith) ∙ omega arith in
    rw sum (
      raise_to_requests-largest read name (total (λ c. amount read name c.requests) pod.containers)
        pod.init_containers h)

sum_pods-need :
    (read : Quantity → ℕ) (name : String) (used : ℕ) (ps : List Pod)
    → used + total (need read name) ps < sign64
    → sum_pods (effective_amount read name) used ps ≡ used + total (need read name) ps
unfolding sum_pods
sum_pods-need read name used [] h = omega arith
sum_pods-need read name used (p ∷ ps) h =
    let exact = effective_amount-need read name p (omega arith) in
    let sum = add64_exact used (need read name p) (omega arith) in
    rw (exact, sum)
      (sum_pods-need read name (used + need read name p) ps (omega arith) ∙ omega arith)

-- What the pods on a node and one more need of a resource together.
abbrev pub demand : (Quantity → ℕ) → String → Pod → List Pod → ℕ
demand read name pod existing = total (need read name) existing + need read name pod

-- The sums and the capacity of a resource fit an `int64`.
abbrev pub FitsWord : (Quantity → ℕ) → String → Pod → Node → List Pod → Type 0
FitsWord read name pod node existing =
    (demand read name pod existing < sign64) × (amount read name node.allocatable < sign64)

abbrev pub cpu : Quantity → ℕ
cpu q = q.milli_value

abbrev pub units : Quantity → ℕ
units q = q.value

-- One resource: the test on wrapping sums is the test on the numbers.
sum-demand :
    (read : Quantity → ℕ) (name : String) (pod : Pod) (node : Node) (existing : List Pod)
    → FitsWord read name pod node existing
    → lt64
        (amount read name node.allocatable)
        (add64 (sum_pods (effective_amount read name) 0 existing) (effective_amount read name pod))
      ≡ ltb (amount read name node.allocatable) (demand read name pod existing)
sum-demand read name pod node existing h =
    let used : sum_pods (effective_amount read name) 0 existing ≡ total (need read name) existing =
      sum_pods-need read name 0 existing (omega arith) ∙ omega arith in
    let one = effective_amount-need read name pod (omega arith) in
    let sum = add64_exact (total (need read name) existing) (need read name pod) h.0 in
    rw (used, one, sum) (lt64_exact _ _ h.1 h.0)

-- The node's allocatable CPU, memory and, if the pod asks for GPUs, GPUs cover what the pods there
-- and the new one need together.
pub record HasRoom (pod : Pod) (node : Node) (existing : List Pod) : Type 0 where
  pub cpu_room : demand cpu "cpu" pod existing ≤ amount cpu "cpu" node.allocatable
  pub memory_room : demand units "memory" pod existing ≤ amount units "memory" node.allocatable
  pub gpu_room :
      0 < need units "nvidia.com/gpu" pod
      → demand units "nvidia.com/gpu" pod existing ≤ amount units "nvidia.com/gpu" node.allocatable

-- If no sum and no capacity passes an `int64`, `hasEnoughResources` answers true exactly if there
-- is room, each pod counted at the larger of its containers' sum and its init containers' maximum.
pub has_enough_resources-HasRoom :
    (pod : Pod) (node : Node) (existing : List Pod)
    → FitsWord cpu "cpu" pod node existing
    → FitsWord units "memory" pod node existing
    → FitsWord units "nvidia.com/gpu" pod node existing
    → (has_enough_resources pod node existing ≡ true) ↔ HasRoom pod node existing
unfolding has_enough_resources
has_enough_resources-HasRoom pod node existing c m g = ground (
  arith,
  sum-demand cpu "cpu" pod node existing c,
  sum-demand units "memory" pod node existing m,
  sum-demand units "nvidia.com/gpu" pod node existing g,
  lt64_exact 0 (need units "nvidia.com/gpu" pod) (omega arith) (omega arith),
  effective_amount-need units "nvidia.com/gpu" pod (omega arith),
)
