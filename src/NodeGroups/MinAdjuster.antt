-- ===== src/NodeGroups/MinAdjuster.antt =====
-- internal/controller/nodegroupmgr/minadjuster.go: which minimum sizes can be lowered. The state is
-- the map `lowSince`; a recommendation is what depends on the group, without its texts. `Execute`,
-- which parses the text of a recommendation and calls the provider, is left out.
pub mod Tracking
use katalyst.Prelude.{
  ℕ, zero, suc, ◌+◌, ◌-◌, ◌*◌, ◌/◌, ◌%◌, ◌^◌, ◌≤◌, ◌<◌, String, ◌≡◌, refl, sym, ap, ◌∙◌, subst, ◌≢◌,
  ◌↔◌, ◌⊎◌, inl, inr, Bool, true, false, ◌&&◌, ◌||◌, not, Option, none, some, List, [], ◌∷◌, ◌++◌,
  map, reverse, arith, str_eq, eq_iff, ltb, leb, ◌==◌, if◌then◌else◌, ltb→lt, lt→ltb, leb→le,
  le→leb, ==_iff, tests, Bool-cases, Option-cases, is_some, &&_iff, not_iff, length, take, drop,
  get_elem?, set, all, any, keep, length-append, length-keep-le, length-take, length-drop, drop-set,
  take-set, length-set, get_elem?-drop, drop-length, drop-drop, drop-append, length-reverse,
  get_elem?-reverse, All, Any, all_iff, any_iff,
}
use katalyst.Prelude.Float64.{Float64}
use katalyst.Prelude.GoMap.{GoMap, lookup, insert, erase}
use katalyst.NodeGroups.{
  NodeGroupInfo, NodeGroupState, get_all, cpu_utilization, memory_utilization,
}

pub record Recommendation : Type 0 where
  pub node_group_id : String
  pub new_min : ℕ
  pub nodes_affected : ℕ
  pub requires_ai_gate : Bool

abbrev pub lower_min : ℕ → ℕ → ℕ
lower_min min_count max_count = if ltb max_count (min_count / 2) then max_count else min_count / 2

module _ (Fl : Float64) where
  unfoldable pub is_low : Fl.F → NodeGroupInfo Fl → Bool
  unfolding cpu_utilization memory_utilization
  is_low threshold i =
      Fl.ltb (cpu_utilization Fl i) threshold && Fl.ltb (memory_utilization Fl i) threshold

  abbrev pub recommend : NodeGroupInfo Fl → Recommendation
  recommend i =
      let new_min = lower_min i.node_group.min_count i.node_group.max_count in
      record {
        node_group_id = i.node_group.id;
        new_min = new_min;
        nodes_affected = i.node_group.min_count - new_min;
        requires_ai_gate = new_min == 0;
      }

  -- Notes the time unless the group is tracked already: the map, and the time in it.
  unfoldable pub track : String → ℕ → GoMap ℕ → GoMap ℕ × ℕ
  track id now low_since = elim (lookup id low_since) [
    | none ↦ (insert id now low_since, now)
    | some t ↦ (low_since, t)
  ]

  -- The body of the loop.
  unfoldable pub analyze_one :
      ℕ → Fl.F → ℕ → NodeGroupInfo Fl → GoMap ℕ → Option Recommendation × GoMap ℕ
  unfolding is_low track
  analyze_one now threshold period i low_since =
      if i.node_group.min_count == 0
      then (none, low_since)
      else if is_low threshold i
      then (let (after, below_since) = track i.node_group.id now low_since in
          if ltb now (below_since + period) then (none, after) else (some (recommend i), after))
      else (none, erase i.node_group.id low_since)

  abbrev pub with_recommendation : Option Recommendation → List Recommendation → List Recommendation
  with_recommendation none recs = recs
  with_recommendation (some r) recs = r ∷ recs

  unfoldable pub analyze_all :
      ℕ → Fl.F → ℕ → List (NodeGroupInfo Fl) → GoMap ℕ → List Recommendation × GoMap ℕ
  unfolding analyze_one
  analyze_all now threshold period [] low_since = ([], low_since)
  analyze_all now threshold period (i ∷ is) low_since =
      let (rec, after) = analyze_one now threshold period i low_since in
      let (recs, last) = analyze_all now threshold period is after in
      (with_recommendation rec recs, last)

  -- `Analyze`, which has no error.
  unfoldable pub analyze :
      ℕ → Fl.F → ℕ → NodeGroupState Fl → GoMap ℕ → List Recommendation × GoMap ℕ
  unfolding analyze_all
  analyze now threshold period s low_since =
      analyze_all now threshold period (get_all Fl s) low_since
