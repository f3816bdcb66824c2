-- ===== src/Lib.antt =====
-- Katalyst (the module koptimizer) is a Kubernetes cost optimiser: controllers look at the state of
-- a cluster and recommend or execute changes. This library models the parts that keep those changes
-- safe.
--
-- The parts and how they interact. Controllers that want to change a node take its lock
-- (internal/state/nodelock.go), and each asks the circuit breaker (internal/state/circuitbreaker.go)
-- before it runs and records how its actions ended. What they do is written to the audit log
-- (internal/state/audit.go), which hands the events to the asynchronous writer of the database
-- (internal/store/writer.go). Before pods are moved, the scheduling simulator
-- (internal/scheduler/simulator.go, predicates.go) tells whether they would fit elsewhere. Scaling is
-- restricted to the instance family of a node group by the family lock (pkg/familylock), and risky
-- changes are reviewed by a language model through the gate (pkg/aigate/gate.go). The state of the
-- node groups (internal/state/nodegroup.go) feeds the node group manager
-- (internal/controller/nodegroupmgr), which reports empty groups and lowers minimum sizes.
-- The workload scaler (internal/controller/workloadscaler) looks for surges of use and for autoscalers
-- at their maximum, and reduces requests; its coordinator keeps horizontal and vertical scaling of one
-- workload apart. The store of metrics (internal/metrics/store.go) keeps the recent use of nodes and
-- containers, from which the rightsizer (internal/controller/rightsizer) recommends smaller requests;
-- its tracker gives containers that ran out of memory more. Hibernation
-- (internal/controller/hibernation/controller.go) scales the node groups down to one node and back, and
-- keeps their sizes in a ConfigMap. The pod purger (internal/controller/podpurger/controller.go) deletes
-- pods that have been in an error state for long.
--
-- Files. A function has the source's name in the spelling `try_lock` for `TryLock`.
--   * Prelude: Boolean tests, lists, Go's maps (GoMap), fixed-width integers (Words), texts (Text,
--     Prefix), decimal numbers (Decimal, Itoa) and floating-point numbers (Float64; Thousandths is an instance for the tests).
--   * State/NodeLock: `NodeLock`. Exclusion and Expiry are about its calls.
--   * State/CircuitBreaker: `CircuitBreaker`; `succeed`, `fail`, `check`, `complete`, `trip_at` and
--     `clear` are the bodies of `RecordSuccess`, `RecordFailure`, `IsTripped`, `ProbeCompleted`,
--     `Trip` and `Reset` on the state of one controller. Prune is `pruneOlderThan`, Local the view of
--     one controller, Trip and Probe are about tripping and the half-open state.
--   * State/AuditLog: the buffer of `AuditLog`; Buffer compares it with the history.
--   * Store/Writer: `Writer` with its goroutine, as a step relation. Order, Drain and Progress
--     are about all interleavings.
--   * Scheduler: Types has the fields of pods and nodes that are read; Labels, Resources, Taints,
--     Topology, Spread and Simulator follow the functions of simulator.go, with the theorems of each
--     in the folder of its name; the Rules files there say what each check asks.
--   * FamilyLock: Families is families.go, Guard is guard.go.
--   * AiGate: gate.go. Extract is about the object cut out of a reply, Decision about what the gate
--     asks and answers; Object has the tree of such an object.
--   * NodeGroups: nodegroup.go; EmptyChecker and MinAdjuster are the files of these names in
--     internal/controller/nodegroupmgr. Emptiness and History are about sequences of updates.
--   * WorkloadScaler/Coordinator: coordinator.go; Grouping is about its map by workload, Conflicts about
--     the recommendations of a workload.
--   * WorkloadScaler/Horizontal, Vertical, Surge and Controller: the files of these names. Bounds and
--     Raise are about the new maximum of an autoscaler, Baselines about the surge detector, Round
--     about a tick of the controller.
--   * Hibernation: controller.go; Entries, Reading and Persistence are about the ConfigMap, Reliable,
--     Asleep, KeysOnce, Waking and Restore about hibernating and waking with a cloud that does what it
--     is asked within the limits of each group, Failures about one that refuses. Provider has the guards
--     of `ScaleNodeGroup` of internal/cloud/aws/provider.go, with which the Tests show such a cloud.
--   * Metrics/Store: store.go. Sorting and Percentiles are about windows, Ages and Cap about cleaning up.
--   * Rightsizer: Analyzer, Recommender and OomTracker are the files of these names; Downsize and
--     Rounding are about recommendations, Dedup about the tracker.
--   * PodPurger: controller.go; Status describes the pods to purge, Purge and Round are about a round over
--     the pods.
--   * A Tests file in each folder runs the definitions on concrete values.
--
-- Representation. `int64`, `int` and `int32` are bit patterns, and sums wrap; a theorem about sums says
-- below which bound it holds. Counts and sizes that are never negative are plain numbers, where the
-- file says so. `float64` is a parameter with its operations, and nothing is assumed of it. Times are
-- numbers, of nanoseconds or, where the source has them, seconds; a method takes the time once, where
-- the code may read the clock more often. Maps are association lists with `insert`, `erase` and
-- `retain`, and no theorem depends on the order of iteration. Mutexes are not modelled: each method
-- that holds one is a single step. The writer, whose goroutine and channel interleave with its callers,
-- is a relation of single steps instead. A panic is `none`. All loops are structural recursion, so
-- there is no fuel.
--
-- Parameters. The answers of the API of the language model and of JSON decoding, the rows of the
-- database, the printing of floats and the parsing of Kubernetes quantities are arguments. The cloud
-- provider and the Kubernetes client are records of their calls on a state of their own, of which only
-- the theorems about hibernation assume anything: that a call on a known group within its limits
-- succeeds and changes this group only.
--
-- Not modelled: the rest of the clients of the cloud providers and of Kubernetes, the HTTP and MCP servers, the
-- dashboard, SQL, exported metrics and log messages, and the texts of errors and of recommendations,
-- since they are input and output or text; the other controllers (spot, GPU, storage, network, alerts,
-- commitments, cost monitor) and the actuator of the rightsizer, the refresh of the
-- cluster's state and the validation of the configuration, which no definition here depends on.
pub mod Prelude
pub mod State
pub mod Store
pub mod Scheduler
pub mod FamilyLock
pub mod AiGate
pub mod NodeGroups
pub mod WorkloadScaler
pub mod Hibernation
pub mod Metrics
pub mod Rightsizer
pub mod PodPurger
