-- ===== src/NodeGroups/MinAdjuster/Tracking.antt =====
-- Which groups are tracked as low, and what is recommended of them.
use katalyst.Prelude.{
  ℕ, ◌+◌, ◌-◌, ◌≤◌, ◌<◌, String, ◌≡◌, refl, sym, ap, ◌∙◌, subst, ◌↔◌, inl, inr, true, false, Option,
  none, some, List, [], ◌∷◌, arith, str_eq, eq_iff, ltb, ◌==◌, if◌then◌else◌, Bool-cases,
  Option-cases, any,
}
use katalyst.Prelude.Float64.{Float64}
use katalyst.Prelude.GoMap.{GoMap, lookup, insert, lookup-insert, lookup-erase}
use katalyst.NodeGroups.{NodeGroupInfo}
use katalyst.NodeGroups.MinAdjuster.{
  Recommendation, lower_min, is_low, recommend, track, analyze_one, analyze_all,
}

module _ (Fl : Float64) where
  -- The earlier time, or now.
  abbrev pub or_now : ℕ → Option ℕ → ℕ
  or_now now none = now
  or_now now (some t) = t

  track-new :
      (id : String) (now : ℕ) (low : GoMap ℕ)
      → lookup id low ≡ none
      → track Fl id now low ≡ (insert id now low, now)
  unfolding track
  track-new id now low e = rw (track, e)

  track-old :
      (id : String) (now t : ℕ) (low : GoMap ℕ)
      → lookup id low ≡ some t
      → track Fl id now low ≡ (low, t)
  unfolding track
  track-old id now t low e = rw (track, e)

  lookup-track :
      (id j : String) (now : ℕ) (low : GoMap ℕ)
      → lookup j (track Fl id now low).0
        ≡ (if str_eq id j then some (or_now now (lookup j low)) else lookup j low)
  lookup-track id j now low = elim (Option-cases (lookup id low)) [
    | inl e ↦
        ap (λ p. lookup j p.0) (track-new id now low e)
        ∙ lookup-insert id j now low
        ∙ elim (Bool-cases (str_eq id j)) [
          | inl y ↦
              let gone : lookup j low ≡ none =
                subst (λ k. lookup k low ≡ none) ((eq_iff id j).0 y) e in
              ground (arith, y, gone)
          | inr n ↦ ground (arith, n)
        ]
    | inr (t, e) ↦
        ap (λ p. lookup j p.0) (track-old id now t low e) ∙ elim (Bool-cases (str_eq id j)) [
          | inl y ↦
              let own : lookup j low ≡ some t =
                subst (λ k. lookup k low ≡ some t) ((eq_iff id j).0 y) e in
              ground (arith, y, own)
          | inr n ↦ ground (arith, n)
        ]
  ]

  track-found :
      (id : String) (now : ℕ) (low : GoMap ℕ)
      → lookup id (track Fl id now low).0 ≡ some (track Fl id now low).1
  track-found id now low = elim (Option-cases (lookup id low)) [
    | inl e ↦
        subst (λ p. lookup id p.0 ≡ some p.1) (sym (track-new id now low e))
          (lookup-insert id id now low ∙ ground (arith, eq_iff id id))
    | inr (t, e) ↦ subst (λ p. lookup id p.0 ≡ some p.1) (sym (track-old id now t low e)) e
  ]

  -- What is proved of a recommendation, and of the map that the turn leaves.
  abbrev pub IsJustified : ℕ → Fl.F → ℕ → NodeGroupInfo Fl → GoMap ℕ → Recommendation → Type 0
  IsJustified now threshold period i after r =
      (r.new_min < i.node_group.min_count)
      × (r.new_min ≤ i.node_group.max_count)
      × (r.new_min + r.nodes_affected ≡ i.node_group.min_count)
      × ((r.requires_ai_gate ≡ true) ↔ (r.new_min ≡ 0))
      × (is_low Fl threshold i ≡ true)
      × (t : ℕ) × (lookup i.node_group.id after ≡ some t)
      × (t + period ≤ now)

  lower_min-bounds :
      (lo hi : ℕ)
      → (lo == 0) ≡ false
      → (lower_min lo hi < lo)
        × (lower_min lo hi ≤ hi)
        × (lower_min lo hi + (lo - lower_min lo hi) ≡ lo)
  lower_min-bounds lo hi h = ground arith

  -- A recommended minimum is below the old one and not above the maximum, the gate has to review it
  -- exactly if it is 0, and the group is low now and has been tracked for the whole period.
  pub analyze_one-IsJustified :
      (now : ℕ) (threshold : Fl.F) (period : ℕ) (i : NodeGroupInfo Fl) (low : GoMap ℕ)
      (r : Recommendation)
      → (analyze_one Fl now threshold period i low).0 ≡ some r
      → IsJustified now threshold period i (analyze_one Fl now threshold period i low).1 r
  unfolding analyze_one
  analyze_one-IsJustified now threshold period i low r h =
      let id : String = i.node_group.id in
      elim (Bool-cases (i.node_group.min_count == 0)) [
        | inl z ↦ let absent : none ≡ some r = rw z at h in cc
        | inr z ↦ elim (Bool-cases (is_low Fl threshold i)) [
          | inr n ↦ let absent : none ≡ some r = rw (z, n) at h in cc
          | inl y ↦ elim (Bool-cases (ltb now ((track Fl id now low).1 + period))) [
            | inl early ↦ let absent : none ≡ some r = rw (z, y, early) at h in cc
            | inr late ↦
                let made : some (recommend Fl i) ≡ some r = rw (z, y, late) at h in
                let same : recommend Fl i ≡ r = cc in
                let after : (analyze_one Fl now threshold period i low).1
                    ≡ (track Fl id now low).0 =
                  rw (z, y, late) in
                let (below, within, affected) =
                  lower_min-bounds i.node_group.min_count i.node_group.max_count z in
                subst
                  (IsJustified now threshold period i (analyze_one Fl now threshold period i low).1)
                  same
                  (
                    below,
                    within,
                    affected,
                    ground arith,
                    y,
                    (track Fl id now low).1,
                    ap (lookup id) after ∙ track-found id now low,
                    ground arith,
                  )
          ]
        ]
      ]

  -- The time under a group after a turn for it: kept while the group is low, and also while its
  -- minimum is 0; else removed.
  abbrev pub tracked : ℕ → Fl.F → NodeGroupInfo Fl → Option ℕ → Option ℕ
  tracked now threshold i before =
      if i.node_group.min_count == 0
      then before
      else if is_low Fl threshold i
      then some (or_now now before)
      else none

  analyze_one-low_since :
      (now : ℕ) (threshold : Fl.F) (period : ℕ) (i : NodeGroupInfo Fl) (low : GoMap ℕ) (id : String)
      → lookup id (analyze_one Fl now threshold period i low).1 ≡ (
          if str_eq i.node_group.id id
          then tracked now threshold i (lookup id low)
          else lookup id low)
  unfolding analyze_one
  analyze_one-low_since now threshold period i low id =
      let own = lookup-track i.node_group.id id now low in
      elim (Bool-cases (i.node_group.min_count == 0)) [
        | inl z ↦ rw z (ground arith)
        | inr z ↦ elim (Bool-cases (is_low Fl threshold i)) [
          | inr n ↦ rw (z, n) (lookup-erase i.node_group.id id low)
          | inl y ↦ elim (Bool-cases (ltb now ((track Fl i.node_group.id now low).1 + period))) [
            | inl early ↦ rw (z, y, early) own
            | inr late ↦ rw (z, y, late) own
          ]
        ]
      ]

  -- No two groups of the list have one identifier.
  abbrev pub HasIdsOnce : List (NodeGroupInfo Fl) → Type 0
  HasIdsOnce [] = Unit
  HasIdsOnce (i ∷ is) =
      (any (λ k. str_eq k.node_group.id i.node_group.id) is ≡ false) × HasIdsOnce is

  abbrev pub find_id : String → List (NodeGroupInfo Fl) → Option (NodeGroupInfo Fl)
  find_id id [] = none
  find_id id (i ∷ is) =
      let rest = find_id id is in if str_eq i.node_group.id id then some i else rest

  find_id-none :
      (id : String) (is : List (NodeGroupInfo Fl))
      → any (λ k. str_eq k.node_group.id id) is ≡ false
      → find_id id is ≡ none
  find_id-none id [] h = refl
  find_id-none id (i ∷ is) h = ground (arith, find_id-none id is)

  abbrev pub after_turn : ℕ → Fl.F → Option (NodeGroupInfo Fl) → Option ℕ → Option ℕ
  after_turn now threshold none before = before
  after_turn now threshold (some i) before = tracked now threshold i before

  -- An analysis of node groups with different identifiers, in whatever order they come: a group is
  -- tracked afterwards since the earlier time, or else now, if it is low; a group with minimum 0 or
  -- one that is not among them keeps its time, however high its utilization; any other loses it.
  pub analyze_all-low_since :
      (now : ℕ) (threshold : Fl.F) (period : ℕ) (is : List (NodeGroupInfo Fl)) (low : GoMap ℕ)
      (id : String)
      → HasIdsOnce is
      → lookup id (analyze_all Fl now threshold period is low).1
        ≡ after_turn now threshold (find_id id is) (lookup id low)
  unfolding analyze_all
  analyze_all-low_since now threshold period [] low id h = refl
  analyze_all-low_since now threshold period (i ∷ is) low id (fresh, h) =
      let next : GoMap ℕ = (analyze_one Fl now threshold period i low).1 in
      let ih = analyze_all-low_since now threshold period is next id h in
      let turn = analyze_one-low_since now threshold period i low id in
      elim (Bool-cases (str_eq i.node_group.id id)) [
        | inl y ↦
            let alone : find_id id is ≡ none = find_id-none id is (
              subst (λ k. any (λ j. str_eq j.node_group.id k) is ≡ false)
                ((eq_iff i.node_group.id id).0 y) fresh) in
            rw y (ih ∙ ap (λ o. after_turn now threshold o (lookup id next)) alone ∙ turn ∙ rw y)
        | inr n ↦ rw n (ih ∙ ap (after_turn now threshold (find_id id is)) (turn ∙ rw n))
      ]
