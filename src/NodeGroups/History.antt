-- ===== src/NodeGroups/History.antt =====
-- The state after a history of updates, and which groups are then reported as empty. A history is
-- newest first.
use katalyst.Prelude.{
  ℕ, ◌+◌, ◌*◌, ◌<◌, String, ◌≡◌, refl, sym, ap, ◌∙◌, subst, inl, inr, Bool, true, false, ◌&&◌, not,
  Option, none, some, List, [], ◌∷◌, map, arith, str_eq, eq_iff, leb, ◌==◌, if◌then◌else◌,
  Bool-cases, Option-cases, is_some, any,
}
use katalyst.Prelude.Float64.{Float64}
use katalyst.Prelude.GoMap.{GoMap, lookup, insert, lookup-insert}
use katalyst.Prelude.Words.{sign64}
use katalyst.NodeGroups.{
  NodeState, NodeGroup, NodeGroupInfo, NodeGroupState, new_node_group_state, info_of, update_all,
  update, get, get_all, is_empty, add_nodes, add_node, track_empty, new_info, or_none,
  nodes_by_group,
}
use katalyst.NodeGroups.EmptyChecker.{analyze, analyze_all, too_recent}
use katalyst.NodeGroups.Emptiness.{
  nodes_of, total_pods_of, is_idle, is_listed, since_of, or_now, update-since_of,
}

module _ (Fl : Float64) where
  -- The arguments of an update: the time, the groups and the nodes.
  pub record Snapshot : Type 0 where
    pub now : ℕ
    pub groups : List NodeGroup
    pub nodes : List (NodeState Fl)

  -- The state after the updates.
  unfoldable pub run : List Snapshot → NodeGroupState Fl
  run [] = new_node_group_state Fl
  run (u ∷ older) = update Fl u.now u.groups u.nodes (run older)

  -- The time of the first snapshot of the unbroken run of snapshots, up to the newest, in which the
  -- group is listed and only has pods of daemon sets.
  abbrev pub since : String → List Snapshot → Option ℕ
  since id [] = none
  since id (u ∷ older) =
      if is_listed Fl id u.groups && is_idle Fl id u.nodes
      then some (or_now Fl u.now (since id older))
      else none

  -- In no snapshot the group has 2 ^ 63 pods.
  abbrev pub HasCounts : String → List Snapshot → Type 0
  HasCounts id [] = Unit
  HasCounts id (u ∷ older) =
      (total_pods_of Fl (nodes_of Fl id u.nodes) < sign64) × HasCounts id older

  -- After any history of updates a node group counts as empty since the start of the unbroken run of
  -- snapshots in which it is listed and has no pods but those of daemon sets, and not at all if it
  -- is not so in the newest. The group has fewer than 2 ^ 63 pods in each.
  pub run-since :
      (id : String) (us : List Snapshot)
      → HasCounts id us
      → since_of Fl (get Fl id (run us)) ≡ since id us
  unfolding run
  run-since id [] h = unfold get new_node_group_state lookup in refl
  run-since id (u ∷ older) (bound, h) =
      let ih = run-since id older h in
      update-since_of Fl id u.now u.groups u.nodes (run older) bound
      ∙ ap
          (λ e.
            if is_listed Fl id u.groups && is_idle Fl id u.nodes
            then some (or_now Fl u.now e)
            else none)
          ih

  -- The entries stand under their identifiers, and are empty exactly if they have a time.
  abbrev pub IsTable : GoMap (NodeGroupInfo Fl) → Type 0
  IsTable [] = Unit
  IsTable ((k, i) ∷ m) =
      (k ≡ i.node_group.id)
      × (is_empty Fl i ≡ is_some i.empty_since)
      × (lookup k m ≡ none)
      × IsTable m

  reported : ℕ → ℕ → Option (NodeGroupInfo Fl) → Bool
  reported now period none = false
  reported now period (some i) = elim i.empty_since [
    | none ↦ false
    | some t ↦ not (too_recent Fl now period t)
  ]

  -- A period has passed since a time in seconds.
  abbrev pub old_enough : ℕ → ℕ → Option ℕ → Bool
  old_enough now period none = false
  old_enough now period (some t) = leb (t * 1000000000 + period) now

  reported-old_enough :
      (now period : ℕ) (o : Option (NodeGroupInfo Fl))
      → reported now period o ≡ old_enough now period (since_of Fl o)
  unfolding reported
  reported-old_enough now period none = refl
  reported-old_enough now period (some i) = elim (Option-cases i.empty_since) [
    | inl e ↦ rw e
    | inr (t, e) ↦ ground (arith, e)
  ]

  any-analyze_all :
      (now period : ℕ) (id : String) (m : GoMap (NodeGroupInfo Fl))
      → IsTable m
      → any (λ r. str_eq r.node_group_id id) (analyze_all Fl now period (map (λ (k, i). i) m))
        ≡ reported now period (lookup id m)
  unfolding analyze_all reported lookup
  any-analyze_all now period id [] h = refl
  any-analyze_all now period id ((k, i) ∷ m) (own, idle, fresh, h) =
      let ih = any-analyze_all now period id m h in
      elim (Option-cases i.empty_since) [
        | inl e ↦ ground (
          arith,
          e,
          idle,
          ih,
          own,
          eq_iff k id,
          eq_iff i.node_group.id id,
          ap (reported now period) fresh,
        )
        | inr (t, e) ↦
            let full : is_empty Fl i ≡ true = ground (arith, e, idle) in
            let mine : str_eq i.node_group.id id ≡ str_eq k id = ap (λ j. str_eq j id) (sym own) in
            elim (Bool-cases (str_eq k id)) [
              | inl y ↦
                  let same : k ≡ id = (eq_iff k id).0 y in
                  let gone : lookup id m ≡ none = subst (λ j. lookup j m ≡ none) same fresh in
                  ground (arith, e, full, mine, y, ih ∙ ap (reported now period) gone)
              | inr n ↦ ground (arith, e, full, mine, n, ih)
            ]
      ]

  IsTable-insert :
      (i : NodeGroupInfo Fl) (m : GoMap (NodeGroupInfo Fl))
      → (is_empty Fl i ≡ is_some i.empty_since)
      → IsTable m
      → IsTable (insert i.node_group.id i m)
  unfolding insert lookup
  IsTable-insert i [] e h = (refl, e, refl, tt)
  IsTable-insert i ((k, j) ∷ m) e (own, idle, fresh, h) = ground (
    arith,
    eq_iff k i.node_group.id,
    eq_iff i.node_group.id k,
    lookup-insert i.node_group.id k i m,
    IsTable-insert i m e h,
  )

  add_nodes-node_group :
      (ns : List (NodeState Fl)) (i : NodeGroupInfo Fl)
      → (add_nodes Fl i ns).node_group ≡ i.node_group
  unfolding add_nodes add_node
  add_nodes-node_group [] i = refl
  add_nodes-node_group (n ∷ ns) i = add_nodes-node_group ns (add_node Fl i n)

  track_empty-is_some :
      (now : ℕ) (prev : Option (NodeGroupInfo Fl)) (pods : ℕ)
      → (pods == 0) ≡ is_some (track_empty Fl now prev pods)
  unfolding track_empty
  track_empty-is_some now none pods = ground arith
  track_empty-is_some now (some prev) pods = elim (Option-cases prev.empty_since) [
    | inl e ↦ ground (arith, e)
    | inr (t, e) ↦ ground (arith, e)
  ]

  IsTable-update_all :
      (now : ℕ) (s : NodeGroupState Fl) (table : GoMap (List (NodeState Fl))) (gs : List NodeGroup)
      (acc : GoMap (NodeGroupInfo Fl))
      → IsTable acc
      → IsTable (update_all Fl now s table gs acc)
  unfolding update_all info_of
  IsTable-update_all now s table [] acc h = h
  IsTable-update_all now s table (g ∷ gs) acc h =
      let ns : List (NodeState Fl) = or_none Fl (lookup g.id table) in
      let i : NodeGroupInfo Fl = info_of Fl now s table g in
      let own : i.node_group ≡ g = add_nodes-node_group ns (new_info Fl g ns) in
      let idle : is_empty Fl i ≡ is_some i.empty_since =
        track_empty-is_some now (lookup g.id s.groups)
          (add_nodes Fl (new_info Fl g ns) ns).total_pods in
      IsTable-update_all now s table gs (insert g.id i acc)
        (subst (λ n. IsTable (insert n.id i acc)) own (IsTable-insert i acc idle h))

  run-IsTable : (us : List Snapshot) → IsTable (run us).groups
  unfolding run update new_node_group_state
  run-IsTable [] = tt
  run-IsTable (u ∷ older) =
      IsTable-update_all u.now (run older) (nodes_by_group Fl u.nodes []) u.groups [] tt

  -- After any history of updates the empty groups that are reported are exactly those whose
  -- unbroken run of empty snapshots is at least as long ago as the period. The group has fewer than
  -- 2 ^ 63 pods in each snapshot.
  pub analyze-since :
      (now period : ℕ) (id : String) (us : List Snapshot)
      → HasCounts id us
      → any (λ r. str_eq r.node_group_id id) (analyze Fl now period (run us))
        ≡ old_enough now period (since id us)
  unfolding analyze get_all get
  analyze-since now period id us h =
      any-analyze_all now period id (run us).groups (run-IsTable us)
      ∙ reported-old_enough now period (lookup id (run us).groups)
      ∙ ap (old_enough now period) (run-since id us h)
