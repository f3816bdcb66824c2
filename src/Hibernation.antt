-- ===== src/Hibernation.antt =====
-- internal/controller/hibernation/controller.go: `Hibernate`, `Wake`, and the state that is kept in a
-- ConfigMap. The cloud provider is a record of its calls on a state of its own. Of the Kubernetes API
-- only the data that is written or read is seen here: `saveState` only logs a failed write. `Analyze`
-- sets metrics, and the timers and the loop `run` only start the two calls.
pub mod Entries
pub mod Reading
pub mod Persistence
pub mod Reliable
pub mod Provider
pub mod Asleep
pub mod KeysOnce
pub mod Waking
pub mod Restore
pub mod Failures
mod Tests
use katalyst.Prelude.{
  ℕ, zero, suc, ◌+◌, ◌-◌, ◌*◌, ◌/◌, ◌%◌, ◌^◌, ◌≤◌, ◌<◌, String, ◌≡◌, refl, sym, ap, ◌∙◌, subst, ◌≢◌,
  ◌↔◌, ◌⊎◌, inl, inr, Bool, true, false, ◌&&◌, ◌||◌, not, Option, none, some, List, [], ◌∷◌, ◌++◌,
  map, reverse, arith, str_eq, eq_iff, ltb, leb, ◌==◌, if◌then◌else◌, ltb→lt, lt→ltb, leb→le,
  le→leb, ==_iff, tests, Bool-cases, Option-cases, is_some, &&_iff, not_iff, length, take, drop,
  get_elem?, set, all, any, keep, length-append, length-keep-le, length-take, length-drop, drop-set,
  take-set, length-set, get_elem?-drop, drop-length, drop-drop, drop-append, length-reverse,
  get_elem?-reverse, All, Any, all_iff, any_iff,
}
use katalyst.Prelude.Float64.{Float64}
use katalyst.Prelude.GoMap.{GoMap, lookup, insert, erase, passing}
use katalyst.Prelude.Decimal.{print_int, scan_int}
use katalyst.Prelude.Prefix.{prepend, strip_prefix}
use katalyst.Prelude.Text.{codes}
use katalyst.Prelude.Words.{lt64}
use katalyst.FamilyLock.Families.{list_eq}
use katalyst.FamilyLock.Guard.{GuardError, scale, validate_node_group_action}
use katalyst.AiGate.{AiGate, Unmarshal, requires_validation, validate}

pub record NodeGroup : Type 0 where
  pub id : String
  pub name : String
  pub desired_count : ℕ
  pub min_count : ℕ

-- The calls of `CloudProvider` that are used; `false` and `none` are errors.
pub record Cloud (C : Type 0) : Type 0 where
  pub discover : C → Option (List NodeGroup)
  pub set_min : String → ℕ → C → C × Bool
  pub scale_to : String → ℕ → C → C × Bool

-- The fields under the mutex.
pub record Controller : Type 0 where
  pub hibernated : Bool
  pub saved_desired : GoMap ℕ
  pub saved_min : GoMap ℕ

unfoldable pub new_controller : Controller
new_controller = record { hibernated = false; saved_desired = []; saved_min = [] }

-- `saveState`: the data of the ConfigMap.
unfoldable pub save_counts : String → GoMap ℕ → GoMap (List ℕ) → GoMap (List ℕ)
save_counts prefix [] entries = entries
save_counts prefix ((id, count) ∷ counts) entries =
    save_counts prefix counts (insert (prepend prefix id) (print_int count) entries)

abbrev pub print_bool : Bool → List ℕ
print_bool true = codes "true"
print_bool false = codes "false"

unfoldable pub save_state : Controller → GoMap (List ℕ)
unfolding save_counts
save_state c =
    save_counts "min-" c.saved_min
      (save_counts "desired-" c.saved_desired (insert "hibernated" (print_bool c.hibernated) []))

-- A count that is read back unless it is corrupt or fails the test.
abbrev pub load_count : (ℕ → Bool) → List ℕ → Option ℕ
load_count good val = passing good (scan_int val)

abbrev pub put : String → Option ℕ → GoMap ℕ → GoMap ℕ
put id none m = m
put id (some count) m = insert id count m

-- One entry of the ConfigMap, for the keys with a prefix.
unfoldable pub load_entry : String → (ℕ → Bool) → String → List ℕ → GoMap ℕ → GoMap ℕ
load_entry prefix good key val m = elim (strip_prefix prefix key) [
  | none ↦ m
  | some id ↦ put id (load_count good val) m
]

-- The loop of `loadState`.
unfoldable pub load_entries : GoMap (List ℕ) → Controller → Controller
unfolding load_entry
load_entries [] c = c
load_entries ((key, val) ∷ entries) c = load_entries entries (record c {
  saved_desired = load_entry "desired-" (λ n. lt64 0 n) key val c.saved_desired;
  saved_min = load_entry "min-" (λ n. not (lt64 n 0)) key val c.saved_min;
})

abbrev pub says_true : Option (List ℕ) → Bool
says_true none = false
says_true (some v) = list_eq v (codes "true")

-- `loadState`, given the data of the ConfigMap.
unfoldable pub load_state : GoMap (List ℕ) → Controller → Controller
unfolding load_entries
load_state entries c =
    load_entries entries
      (if says_true (lookup "hibernated" entries) then record c { hibernated = true } else c)

pub data HibernationError : Type 0 where
  guard_blocked : GuardError → HibernationError
  discovery_failed none_hibernated : HibernationError

-- How a call ends: the controller, the cloud, the error if any, and the data that is saved if any;
-- or with a panic.
pub data Outcome (C : Type 0) : Type 0 where
  returns : Controller → C → Option HibernationError → Option (GoMap (List ℕ)) → Outcome C
  panics : Outcome C

module _ {C : Type 0} (cloud : Cloud C) where
  -- What the loop of `Hibernate` changes: the saved maps, the cloud and the count of groups.
  pub record Progress : Type 0 where
    pub desired : GoMap ℕ
    pub mins : GoMap ℕ
    pub at : C
    pub count : ℕ

  -- The group could not be hibernated: what was saved of it is deleted.
  abbrev pub roll_back : String → Progress → Progress
  roll_back id p = record p { desired = erase id p.desired; mins = erase id p.mins }

  -- At least one node is kept. The minimum is lowered first where it is above.
  abbrev pub lower_to_one : NodeGroup → C → C × Bool
  lower_to_one g c = if ltb 1 g.min_count then cloud.set_min g.id 1 c else (c, true)

  unfoldable pub hibernate_group : NodeGroup → Progress → Progress
  hibernate_group g p =
      let saved : Progress = record p {
        desired = insert g.id g.desired_count p.desired;
        mins = insert g.id g.min_count p.mins;
      } in
      let lowered : C × Bool = lower_to_one g p.at in
      if not lowered.1
      then roll_back g.id (record saved { at = lowered.0 })
      else let scaled : C × Bool = cloud.scale_to g.id 1 lowered.0 in
        if not scaled.1
        then roll_back g.id (record saved { at = scaled.0 })
        else record saved { at = scaled.0; count = p.count + 1 }

  abbrev pub is_excluded : List String → NodeGroup → Bool
  is_excluded exclude g = any (λ name. str_eq name g.name) exclude

  unfoldable pub hibernate_all : List String → List NodeGroup → Progress → Progress
  unfolding hibernate_group
  hibernate_all exclude [] p = p
  hibernate_all exclude (g ∷ gs) p =
      hibernate_all exclude gs (if is_excluded exclude g then p else hibernate_group g p)

  -- From the discovery of the node groups on.
  unfoldable pub hibernate_groups : List String → Controller → C → Outcome C
  unfolding hibernate_all save_state
  hibernate_groups exclude c at = elim (cloud.discover at) [
    | none ↦ returns c at (some discovery_failed) none
    | some groups ↦
        let p : Progress =
          hibernate_all exclude groups
            (record { desired = c.saved_desired; mins = c.saved_min; at = at; count = 0 }) in
        let saved : Controller = record c { saved_desired = p.desired; saved_min = p.mins } in
        if p.count == 0
        then returns saved p.at (some none_hibernated) none
        else let asleep : Controller = record saved { hibernated = true } in
          returns asleep p.at none (some (save_state asleep))
  ]

  -- `Wake`, for one group with a saved size.
  abbrev pub raise_min : NodeGroup → Option ℕ → C → C
  raise_min g none at = at
  raise_min g (some saved) at =
      if ltb g.min_count saved then (cloud.set_min g.id saved at).0 else at

  unfoldable pub wake_group : Controller → NodeGroup → C → C
  wake_group c g at = elim (lookup g.id c.saved_desired) [
    | none ↦ at
    | some desired ↦ (cloud.scale_to g.id desired (raise_min g (lookup g.id c.saved_min) at)).0
  ]

  unfoldable pub wake_all : Controller → List NodeGroup → C → C
  unfolding wake_group
  wake_all c [] at = at
  wake_all c (g ∷ gs) at = wake_all c gs (wake_group c g at)

  -- `active` is whether the mode is "active".
  unfoldable pub wake : Bool → Controller → C → Outcome C
  unfolding wake_all save_state new_controller
  wake active c at =
      if not c.hibernated
      then returns c at none none
      else if not active
      then returns c at none none
      else elim (cloud.discover at) [
        | none ↦ returns c at (some discovery_failed) none
        | some groups ↦
            returns new_controller (wake_all c groups at) none (some (save_state new_controller))
      ]

  module _ (Fl : Float64) where
    -- The review of the gate, given what the API answers. A reply that does not decode is an error, and
    -- then the log line reads the reasoning of a nil response.
    unfoldable pub review :
        Option (AiGate Fl)
        → Unmarshal Fl
        → Option (List (List ℕ))
        → Outcome C
        → Outcome C
        → Outcome C
    review none unmarshal answer rejected approved = approved
    review (some gate) unmarshal answer rejected approved =
        if requires_validation Fl (some gate) (record {
          monthly_cost_change_usd = Fl.of_nat 0;
          nodes_affected = 0;
          requires_ai_gate = true;
        })
        then elim (validate Fl unmarshal answer (some gate)) [
          | none ↦ panics
          | some r ↦ if r.approved then approved else rejected
        ]
        else approved

    -- `Hibernate`; `guarded` is whether there is a family lock guard.
    unfoldable pub hibernate :
        Bool
        → Bool
        → List String
        → Option (AiGate Fl)
        → Unmarshal Fl
        → Option (List (List ℕ))
        → Controller
        → C
        → Outcome C
    unfolding hibernate_groups review validate_node_group_action
    hibernate active guarded exclude gate unmarshal answer c at =
        if c.hibernated
        then returns c at none none
        else if not active
        then returns c at none none
        else elim (if guarded then validate_node_group_action scale else none) [
          | some e ↦ returns c at (some (guard_blocked e)) none
          | none ↦
              review gate unmarshal answer (returns c at none none) (hibernate_groups exclude c at)
        ]

    -- `Execute`, for the action of a recommendation.
    unfoldable pub execute :
        String
        → Bool
        → Bool
        → List String
        → Option (AiGate Fl)
        → Unmarshal Fl
        → Option (List (List ℕ))
        → Controller
        → C
        → Outcome C
    unfolding hibernate wake
    execute action active guarded exclude gate unmarshal answer c at =
        if str_eq action "hibernate"
        then hibernate active guarded exclude gate unmarshal answer c at
        else if str_eq action "wake"
        then wake active c at
        else returns c at none none
