-- ===== src/Scheduler/Types.antt =====
-- The parts of the Kubernetes API objects (k8s.io/api/core/v1) that the scheduler reads. A Go map
-- is a `GoMap`; a pointer that may be nil is an `Option`, and a list behind such pointers, where
-- the code treats nil as empty, a list.
use katalyst.Prelude.{ℕ, String, Bool, Option, List}
use katalyst.Prelude.GoMap.{GoMap}

-- A `resource.Quantity` by what its methods `Value` and `MilliValue` return, as `int64`.
pub record Quantity : Type 0 where
  pub value : ℕ
  pub milli_value : ℕ

abbrev pub ResourceList : Type 0
ResourceList = GoMap Quantity

pub record Container : Type 0 where
  pub requests : ResourceList

pub record Taint : Type 0 where
  pub key : String
  pub value : String
  pub effect : String

pub record Toleration : Type 0 where
  pub key : String
  pub operator : String
  pub value : String
  pub effect : String

-- `NodeSelectorOperator` and `LabelSelectorOperator`; `other` is any other text.
pub data Operator : Type 0 where
  op_in op_not_in op_exists op_does_not_exist op_gt op_lt other : Operator

-- `NodeSelectorRequirement` and `LabelSelectorRequirement`.
pub record Requirement : Type 0 where
  pub key : String
  pub operator : Operator
  pub values : List String

pub record NodeSelectorTerm : Type 0 where
  pub match_expressions : List Requirement
  pub match_fields : List Requirement

pub record LabelSelector : Type 0 where
  pub match_labels : GoMap String
  pub match_expressions : List Requirement

-- `namespace_selector` only matters as nil or not, and neither filters.
pub record PodAffinityTerm : Type 0 where
  pub label_selector : Option LabelSelector
  pub namespaces : List String
  pub topology_key : String

-- `max_skew` is an `int32`; `do_not_schedule` is `WhenUnsatisfiable == DoNotSchedule`.
pub record SpreadConstraint : Type 0 where
  pub max_skew : ℕ
  pub topology_key : String
  pub do_not_schedule : Bool
  pub label_selector : Option LabelSelector

-- `required_node_terms` are the terms under `Affinity.NodeAffinity.Required...`, `none` if a
-- pointer on that path is nil; the two lists of pod terms are those of the same paths.
pub record Pod : Type 0 where
  pub namespace : String
  pub labels : GoMap String
  pub containers : List Container
  pub init_containers : List Container
  pub node_selector : GoMap String
  pub tolerations : List Toleration
  pub required_node_terms : Option (List NodeSelectorTerm)
  pub pod_affinity : List PodAffinityTerm
  pub pod_anti_affinity : List PodAffinityTerm
  pub spread_constraints : List SpreadConstraint
  pub phase : String

pub record Condition : Type 0 where
  pub kind : String
  pub status : String

pub record Node : Type 0 where
  pub name : String
  pub labels : GoMap String
  pub unschedulable : Bool
  pub taints : List Taint
  pub conditions : List Condition
  pub allocatable : ResourceList
