-- ===== src/PodPurger/Status.antt =====
-- Which pods are purged, stated without the code's tests: the status of a pod as a relation, and the pods
-- that are left alone.
pub mod Init
pub mod Decision
use katalyst.Prelude.{
  ℕ, suc, ◌+◌, ◌≤◌, String, ◌≡◌, refl, sym, ap, ◌∙◌, subst, ◌≢◌, ◌↔◌, ◌⊎◌, inl, inr, Bool, true,
  false, not, ◌&&◌, Option, none, some, List, [], ◌∷◌, arith, str_eq, eq_iff, ltb, leb, ◌==◌,
  Bool-cases, Option-cases, if◌then◌else◌, All, Any, any_iff, &&_iff,
}
use Prim.Native.String.{◌++◌ as str_append}
use katalyst.Prelude.GoMap.{lookup}
use katalyst.Prelude.Itoa.{itoa}
use katalyst.PodPurger.{
  ContainerStatus, Pod, bad_status_set, system_namespaces, contains, reason_of, ended_reason,
  first_of, init_ended, has_succeeded, init_waits, init_runs, init_status, container_status,
  status_or_phase, compute_pod_status, label_is, is_own,
}

-- A container does not wait, or for no reason that is named.
abbrev pub HasNoWait : ContainerStatus → Type 0
HasNoWait cs = (cs.waiting ≡ none) ⊎ (cs.waiting ≡ some "")

-- What one init container says of its pod, the i-th of n.
pub data InitSays (i n : ℕ) (cs : ContainerStatus) : String → Type 0 where
  waits : (r : String) → cs.waiting ≡ some r → r ≢ "" → InitSays i n cs (str_append "Init:" r)
  fails :
      (r : String) (code : ℕ)
      → HasNoWait cs
      → cs.terminated ≡ some (r, code)
      → code ≢ 0
      → r ≢ ""
      → InitSays i n cs (str_append "Init:" r)
  fails_unnamed :
      (code : ℕ)
      → HasNoWait cs
      → cs.terminated ≡ some ("", code)
      → code ≢ 0
      → InitSays i n cs "Init:Error"
  runs :
      HasNoWait cs
      → cs.terminated ≡ none
      → cs.running ≡ true
      → InitSays i n cs (str_append "Init:" (str_append (itoa i) (str_append "/" (itoa n))))

-- An init container that says nothing: it succeeded, or its state is empty.
abbrev pub IsInitSilent : ContainerStatus → Type 0
IsInitSilent cs =
    HasNoWait cs
    × (((r : String) × (cs.terminated ≡ some (r, 0)))
        ⊎ ((cs.terminated ≡ none) × (cs.running ≡ false)))

-- What a container says, and when it says nothing.
pub data Says (cs : ContainerStatus) : String → Type 0 where
  waits : (r : String) → cs.waiting ≡ some r → r ≢ "" → Says cs r
  ended :
      (r : String) (code : ℕ) → HasNoWait cs → cs.terminated ≡ some (r, code) → r ≢ "" → Says cs r

abbrev pub IsSilent : ContainerStatus → Type 0
IsSilent cs =
    HasNoWait cs × ((cs.terminated ≡ none) ⊎ ((code : ℕ) × (cs.terminated ≡ some ("", code))))

-- The first that says something, and what it says.
pub data FirstInit (n : ℕ) : ℕ → List ContainerStatus → String → Type 0 where
  this :
      (i : ℕ) (cs : ContainerStatus) (rest : List ContainerStatus) (s : String)
      → InitSays i n cs s
      → FirstInit n i (cs ∷ rest) s
  later :
      (i : ℕ) (cs : ContainerStatus) (rest : List ContainerStatus) (s : String)
      → IsInitSilent cs
      → FirstInit n (suc i) rest s
      → FirstInit n i (cs ∷ rest) s

pub data First : List ContainerStatus → String → Type 0 where
  this :
      (cs : ContainerStatus) (rest : List ContainerStatus) (s : String)
      → Says cs s
      → First (cs ∷ rest) s
  later :
      (cs : ContainerStatus) (rest : List ContainerStatus) (s : String)
      → IsSilent cs
      → First rest s
      → First (cs ∷ rest) s

-- The status of a pod: what its first init container says that says something, else its first container,
-- else its phase.
pub data HasStatus (p : Pod) : String → Type 0 where
  of_init : (s : String) → FirstInit p.init_containers 0 p.init_statuses s → HasStatus p s
  of_container :
      (s : String) → All IsInitSilent p.init_statuses → First p.statuses s → HasStatus p s
  of_phase :
      All IsInitSilent p.init_statuses
      → All IsSilent p.statuses
      → p.phase ≢ ""
      → HasStatus p p.phase
  unknown :
      All IsInitSilent p.init_statuses
      → All IsSilent p.statuses
      → p.phase ≡ ""
      → HasStatus p "Unknown"

-- The program's own pods.
abbrev pub IsOwn : Pod → Type 0
IsOwn p =
    (lookup "app.kubernetes.io/name" p.labels ≡ some "koptimizer")
    ⊎ (lookup "app" p.labels ≡ some "koptimizer")
    ⊎ (lookup "app" p.labels ≡ some "koptimizer-dashboard")
    ⊎ (lookup "app" p.labels ≡ some "mockapi")

-- A pod to purge: in no system namespace, not the program's own, of a bad status, and old enough.
pub record IsPurgeable (min_age now : ℕ) (p : Pod) : Type 0 where
  pub outside : All (λ ns. ns ≢ p.namespace) system_namespaces
  pub foreign : IsOwn p → ⊥
  pub bad : (s : String) × HasStatus p s × Any (λ t. t ≡ s) bad_status_set
  pub old : p.creation + min_age ≤ now
