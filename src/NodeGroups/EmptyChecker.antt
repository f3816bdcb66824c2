-- ===== src/NodeGroups/EmptyChecker.antt =====
-- internal/controller/nodegroupmgr/emptychecker.go: which node groups have been empty for a while.
-- A recommendation is its group and the savings; its texts and constant fields are left out. Times
-- are nanoseconds, but `empty_since` is in seconds.
use katalyst.Prelude.{ℕ, ◌+◌, ◌*◌, String, Bool, not, none, some, List, [], ◌∷◌, ltb, if◌then◌else◌}
use katalyst.Prelude.Float64.{Float64}
use katalyst.NodeGroups.{NodeGroupInfo, NodeGroupState, get_all, is_empty}

module _ (Fl : Float64) where
  pub record Recommendation : Type 0 where
    pub node_group_id : String
    pub monthly_savings_usd : Fl.F
    pub annual_savings_usd : Fl.F

  -- `emptyDuration < emptyPeriod`.
  abbrev pub too_recent : ℕ → ℕ → ℕ → Bool
  too_recent now empty_period t = ltb now (t * 1000000000 + empty_period)

  abbrev pub recommend : NodeGroupInfo Fl → Recommendation
  recommend i = record {
    node_group_id = i.node_group.id;
    monthly_savings_usd = i.monthly_cost_usd;
    annual_savings_usd = Fl.mul i.monthly_cost_usd (Fl.of_nat 12);
  }

  unfoldable pub analyze_all : ℕ → ℕ → List (NodeGroupInfo Fl) → List Recommendation
  analyze_all now empty_period [] = []
  analyze_all now empty_period (i ∷ is) =
      let rest = analyze_all now empty_period is in
      if not (is_empty Fl i) then rest else elim i.empty_since [
        | none ↦ rest
        | some t ↦ if too_recent now empty_period t then rest else recommend i ∷ rest
      ]

  -- `Analyze`, which has no error.
  unfoldable pub analyze : ℕ → ℕ → NodeGroupState Fl → List Recommendation
  unfolding analyze_all
  analyze now empty_period s = analyze_all now empty_period (get_all Fl s)
