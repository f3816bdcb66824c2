-- ===== src/PodPurger.antt =====
-- internal/controller/podpurger/controller.go: the purger of pods in error states. Deleting a pod is a
-- call of the Kubernetes client on a state of its own. The texts of the audit events are an argument.
-- The time of a tick is read once.
pub mod Purge
pub mod Status
pub mod Round
mod Tests
use Prim.Native.String.{◌++◌ as str_append}
use katalyst.Prelude.{
  ℕ, zero, suc, ◌+◌, ◌-◌, ◌*◌, ◌/◌, ◌%◌, ◌^◌, ◌≤◌, ◌<◌, String, ◌≡◌, refl, sym, ap, ◌∙◌, subst, ◌≢◌,
  ◌↔◌, ◌⊎◌, inl, inr, Bool, true, false, ◌&&◌, ◌||◌, not, Option, none, some, List, [], ◌∷◌, ◌++◌,
  map, reverse, arith, str_eq, eq_iff, ltb, leb, ◌==◌, if◌then◌else◌, ltb→lt, lt→ltb, leb→le,
  le→leb, ==_iff, tests, Bool-cases, Option-cases, is_some, &&_iff, not_iff, length, take, drop,
  get_elem?, set, all, any, keep, length-append, length-keep-le, length-take, length-drop, drop-set,
  take-set, length-set, get_elem?-drop, drop-length, drop-drop, drop-append, length-reverse,
  get_elem?-reverse, All, Any, All-append, All-map, all_iff, any_iff,
}
use katalyst.Prelude.Float64.{Float64}
use katalyst.Prelude.GoMap.{GoMap, lookup}
use katalyst.Prelude.Itoa.{itoa}
use katalyst.State.AuditLog.{AuditEvent, AuditLog, record_event}
use katalyst.State.CircuitBreaker.{CircuitBreaker, record_success, record_failure, is_tripped}

-- What is read of the state of a container: the reason for which it waits, the reason and exit code
-- with which it ended, and whether it runs.
pub record ContainerStatus : Type 0 where
  pub waiting : Option String
  pub terminated : Option (String × ℕ)
  pub running : Bool

pub record Pod : Type 0 where
  pub namespace : String
  pub name : String
  pub labels : GoMap String
  pub creation : ℕ
  pub init_containers : ℕ
  pub init_statuses : List ContainerStatus
  pub statuses : List ContainerStatus
  pub phase : String

abbrev pub bad_status_set : List String
bad_status_set =
    "Failed" ∷ "Succeeded" ∷ "Unknown" ∷ "CrashLoopBackOff" ∷ "Error" ∷ "OOMKilled"
    ∷ "ImagePullBackOff" ∷ "ErrImagePull" ∷ "ContainerStatusUnknown" ∷ "Evicted" ∷ "Completed"
    ∷ "CreateContainerConfigError" ∷ "Init:OOMKilled" ∷ "Init:CrashLoopBackOff" ∷ "Init:Error"
    ∷ "Init:ImagePullBackOff" ∷ "Init:ErrImagePull" ∷ "Init:ContainerStatusUnknown"
    ∷ "Init:CreateContainerConfigError" ∷ []

abbrev pub system_namespaces : List String
system_namespaces = "kube-system" ∷ "kube-public" ∷ "kube-node-lease" ∷ []

abbrev pub contains : List String → String → Bool
contains texts s = any (λ t. str_eq t s) texts

-- A reason that is there and not empty.
abbrev pub reason_of : Option String → Option String
reason_of none = none
reason_of (some r) = if str_eq r "" then none else some r

abbrev pub ended_reason : Option (String × ℕ) → Option String
ended_reason none = none
ended_reason (some (r, code)) = reason_of (some r)

abbrev pub first_of : Option String → Option String → Option String
first_of none o = o
first_of (some r) o = some r

-- How an init container that has ended counts: not at all with exit code 0.
abbrev pub init_ended : Option (String × ℕ) → Option String
init_ended none = none
init_ended (some (r, code)) =
    if code == 0 then none else some (str_append "Init:" (if str_eq r "" then "Error" else r))

abbrev pub has_succeeded : Option (String × ℕ) → Bool
has_succeeded none = false
has_succeeded (some (r, code)) = code == 0

abbrev pub init_waits : Option String → Option String
init_waits none = none
init_waits (some r) = if str_eq r "" then none else some (str_append "Init:" r)

abbrev pub init_runs : ℕ → ℕ → Bool → Option String
init_runs i n running =
    if running
    then some (str_append "Init:" (str_append (itoa i) (str_append "/" (itoa n))))
    else none

-- The loop over the init containers; the answer of the first that has one.
unfoldable pub init_status : ℕ → ℕ → List ContainerStatus → Option String
init_status i n [] = none
init_status i n (cs ∷ rest) =
    let later = init_status (suc i) n rest in
    first_of (init_waits cs.waiting) (
      if has_succeeded cs.terminated
      then later
      else first_of (init_ended cs.terminated) (first_of (init_runs i n cs.running) later))

unfoldable pub container_status : List ContainerStatus → Option String
container_status [] = none
container_status (cs ∷ rest) =
    first_of (reason_of cs.waiting) (first_of (ended_reason cs.terminated) (container_status rest))

abbrev pub status_or_phase : Option String → Option String → String → String
status_or_phase (some s) o phase = s
status_or_phase none (some s) phase = s
status_or_phase none none phase = if str_eq phase "" then "Unknown" else phase

unfoldable pub compute_pod_status : Pod → String
unfolding init_status container_status
compute_pod_status p =
    status_or_phase (init_status 0 p.init_containers p.init_statuses) (container_status p.statuses)
      p.phase

abbrev pub label_is : List String → Option String → Bool
label_is texts none = false
label_is texts (some v) = contains texts v

-- The purger's own pods, by their labels.
unfoldable pub is_own : Pod → Bool
is_own p =
    label_is ("koptimizer" ∷ []) (lookup "app.kubernetes.io/name" p.labels)
    || label_is ("koptimizer" ∷ "koptimizer-dashboard" ∷ "mockapi" ∷ []) (lookup "app" p.labels)

abbrev pub purger_name : String
purger_name = "pod-purger"

module _ (Fl : Float64) {C : Type 0} (delete : String → String → C → C × Bool)
    (describe : Pod → Bool → String) where
  abbrev pub target : Pod → String
  target p = str_append p.namespace (str_append "/" p.name)

  abbrev pub event : ℕ → Pod → Bool → AuditEvent
  event now p ok = record {
    timestamp = now;
    action = if ok then "auto-purge-pod" else "auto-purge-failed";
    target = target p;
    user = purger_name;
    details = describe p ok;
  }

  abbrev pub record_result : ℕ → Bool → CircuitBreaker Fl → CircuitBreaker Fl
  record_result now ok cb =
      if ok then record_success Fl purger_name now cb else record_failure Fl purger_name now cb

  -- The state that a tick changes; `none` is a panic of the audit log.
  pub record World : Type 0 where
    pub cluster : C
    pub audit : AuditLog
    pub breaker : CircuitBreaker Fl

  abbrev pub audited : World → C → CircuitBreaker Fl → Option AuditLog → Option World
  audited w c cb none = none
  audited w c cb (some a) = some (record { cluster = c; audit = a; breaker = cb })

  unfoldable pub delete_pod : ℕ → Pod → World → Option World
  delete_pod now p w =
      let deleted : C × Bool = delete p.namespace p.name w.cluster in
      audited w deleted.0 (record_result now deleted.1 w.breaker)
        (record_event (event now p deleted.1) w.audit)

  -- The body of the loop over the pods.
  unfoldable pub purge_pod : ℕ → ℕ → Pod → World → Option World
  unfolding delete_pod compute_pod_status is_own
  purge_pod min_age now p w =
      if contains system_namespaces p.namespace
      then some w
      else if is_own p
      then some w
      else if not (contains bad_status_set (compute_pod_status p))
      then some w
      else if ltb now (p.creation + min_age)
      then some w
      else delete_pod now p w

  abbrev pub and_then : Option World → (World → Option World) → Option World
  and_then none f = none
  and_then (some w) f = f w

  unfoldable pub purge_all : ℕ → ℕ → List Pod → World → Option World
  unfolding purge_pod
  purge_all min_age now [] w = some w
  purge_all min_age now (p ∷ pods) w =
      and_then (purge_pod min_age now p w) (purge_all min_age now pods)

  -- One tick of `run`.
  unfoldable pub tick : Bool → ℕ → ℕ → List Pod → World → Option World
  unfolding purge_all
  tick enabled min_age now pods w =
      if not enabled
      then some w
      else let checked : CircuitBreaker Fl × Bool = is_tripped Fl purger_name now w.breaker in
        let u : World = record w { breaker = checked.0 } in
        if checked.1 then some u else purge_all min_age now pods u
