-- ===== src/Rightsizer/OomTracker.antt =====
-- internal/controller/rightsizer/oomtracker.go. Times are nanoseconds since the epoch, and `Analyze` reads
-- the clock once for each container: an argument gives the time of each reading. A memory amount is the
-- value of a quantity. Of a recommendation its texts are left out, except the printed amounts.
use katalyst.Prelude.{
  ℕ, suc, ◌+◌, ◌*◌, String, Bool, true, false, not, Option, none, some, List, [], ◌∷◌, ◌++◌, map,
  str_eq, ltb, ◌==◌, if◌then◌else◌, any,
}
use Prim.Native.String.{◌++◌ as str_append}
use katalyst.Prelude.Float64.{Float64, FloatText}
use katalyst.Prelude.GoMap.{GoMap, lookup, insert, retain}
use katalyst.Prelude.Words.{lt64}
use katalyst.Rightsizer.Recommender.{scaled, format_bytes}

-- A container's status: whether it was last terminated as "OOMKilled".
pub record ContainerStatus : Type 0 where
  pub name : String
  pub oom_killed : Bool

pub record Container : Type 0 where
  pub name : String
  pub memory_request : Option ℕ
  pub memory_limit : Option ℕ

pub record PodInfo : Type 0 where
  pub namespace : String
  pub name : String
  pub owner_kind : String
  pub owner_name : String
  pub statuses : List ContainerStatus
  pub containers : List Container

pub record Bump : Type 0 where
  pub target_kind : String
  pub target_name : String
  pub target_namespace : String
  pub auto_executable : Bool
  pub current_request : String
  pub suggested_request : String

-- An hour in nanoseconds.
abbrev pub hour : ℕ
hour = 3600000000000

unfoldable pub oom_key : PodInfo → ContainerStatus → String
oom_key p cs = str_append p.namespace (str_append "/" (str_append p.name (str_append "/" cs.name)))

-- Whether a container was dealt with within the last hour.
abbrev pub seen_lately : ℕ → Option ℕ → Bool
seen_lately now none = false
seen_lately now (some last) = ltb now (last + hour)

abbrev pub value_or_zero : Option ℕ → ℕ
value_or_zero none = 0
value_or_zero (some v) = v

-- The request, and else the limit.
abbrev pub current_memory : Container → ℕ
current_memory c =
    if value_or_zero c.memory_request == 0
    then value_or_zero c.memory_limit
    else value_or_zero c.memory_request

-- `Cleanup`: what was seen more than two hours ago is forgotten.
unfoldable pub cleanup : ℕ → GoMap ℕ → GoMap ℕ
cleanup now seen = retain (λ k v. not (ltb (v + 2 * hour) now)) seen

module _ (Fl : Float64) (text : FloatText Fl) (bump_multiplier : Fl.F) where
  abbrev pub bump : PodInfo → ℕ → ℕ → Bump
  bump p current suggested = record {
    target_kind = p.owner_kind;
    target_name = p.owner_name;
    target_namespace = p.namespace;
    auto_executable = true;
    current_request = format_bytes current;
    suggested_request = format_bytes suggested;
  }

  -- What a container of the spec adds: nothing without a known amount or without an increase.
  unfoldable pub bump_container : PodInfo → ContainerStatus → Container → List Bump
  bump_container p cs c =
      let current : ℕ = current_memory c in
      let suggested : ℕ = scaled Fl text current bump_multiplier in
      if not (str_eq c.name cs.name)
      then []
      else if current == 0
      then []
      else if not (lt64 current suggested)
      then []
      else bump p current suggested ∷ []

  unfoldable pub bump_containers : PodInfo → ContainerStatus → List Container → List Bump
  unfolding bump_container
  bump_containers p cs [] = []
  bump_containers p cs (c ∷ containers) = bump_container p cs c ++ bump_containers p cs containers

  -- One status, at a time: what is seen after it, and the recommendations.
  unfoldable pub track_status : PodInfo → ContainerStatus → ℕ → GoMap ℕ → GoMap ℕ × List Bump
  unfolding bump_containers oom_key
  track_status p cs now seen =
      if not cs.oom_killed
      then (seen, [])
      else if seen_lately now (lookup (oom_key p cs) seen)
      then (seen, [])
      else (insert (oom_key p cs) now seen, bump_containers p cs p.containers)

  -- The two loops over the statuses of all pods, as one list; the clock gives the time of the i-th.
  unfoldable pub track_all :
      (ℕ → ℕ) → ℕ → List (PodInfo × ContainerStatus) → GoMap ℕ → GoMap ℕ × List Bump
  unfolding track_status
  track_all clock i [] seen = (seen, [])
  track_all clock i ((p, cs) ∷ rest) seen =
      let here : GoMap ℕ × List Bump = track_status p cs (clock i) seen in
      let later : GoMap ℕ × List Bump = track_all clock (suc i) rest here.0 in
      (later.0, here.1 ++ later.1)

  unfoldable pub statuses_of : List String → List PodInfo → List (PodInfo × ContainerStatus)
  statuses_of exclude [] = []
  statuses_of exclude (p ∷ pods) =
      let rest = statuses_of exclude pods in
      if any (λ ns. str_eq ns p.namespace) exclude
      then rest
      else map (λ cs. (p, cs)) p.statuses ++ rest

  -- `Analyze`.
  unfoldable pub analyze : (ℕ → ℕ) → List String → List PodInfo → GoMap ℕ → GoMap ℕ × List Bump
  unfolding track_all statuses_of
  analyze clock exclude pods seen = track_all clock 0 (statuses_of exclude pods) seen
