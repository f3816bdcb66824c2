-- ===== src/NodeGroups/Emptiness.antt =====
-- Since when a node group is empty, over a history of updates.
use katalyst.Prelude.{
  ℕ, ◌+◌, ◌<◌, String, ◌≡◌, refl, sym, ap, ◌∙◌, subst, ◌⊎◌, inl, inr, Bool, true, false, ◌&&◌,
  Option, none, some, List, [], ◌∷◌, ◌++◌, arith, str_eq, eq_iff, ◌==◌, if◌then◌else◌, Bool-cases,
  Option-cases, all, any, keep,
}
use native.Mathlib.Nat.{zero-add}
use mathlib.Core.List.{append-nil, append_assoc}
use katalyst.Prelude.Float64.{Float64}
use katalyst.Prelude.GoMap.{GoMap, lookup, insert, lookup-insert}
use katalyst.Prelude.Words.{add64, add64_exact, sign64}
use katalyst.NodeGroups.{
  Pod, NodeState, NodeGroup, NodeGroupInfo, NodeGroupState, is_daemon_set_pod, node_is_empty,
  file_node, nodes_by_group, or_none, count_pods, add_node, add_nodes, new_info, track_empty,
  info_of, update_all, update, get, is_empty,
}

-- The pods that no daemon set owns.
abbrev pub pods_of : List Pod → ℕ
pods_of [] = 0
pods_of (p ∷ ps) = if is_daemon_set_pod p then pods_of ps else 1 + pods_of ps

pods_of-all : (ps : List Pod) → (pods_of ps == 0) ≡ all is_daemon_set_pod ps
pods_of-all [] = refl
pods_of-all (p ∷ ps) = ground (arith, pods_of-all ps)

module _ (Fl : Float64) where
  -- The nodes of a group; a group with an empty identifier has none.
  abbrev pub nodes_of : String → List (NodeState Fl) → List (NodeState Fl)
  nodes_of id ns = if str_eq id "" then [] else keep (λ n. str_eq n.node_group_id id) ns

  abbrev pub total_pods_of : List (NodeState Fl) → ℕ
  total_pods_of [] = 0
  total_pods_of (n ∷ ns) = pods_of n.pods + total_pods_of ns

  lookup-file_node :
      (id : String) (n : NodeState Fl) (table : GoMap (List (NodeState Fl)))
      → or_none Fl (lookup id (file_node Fl n table))
        ≡ or_none Fl (lookup id table) ++ nodes_of id (n ∷ [])
  unfolding file_node
  lookup-file_node id n table = elim (Option-cases (lookup n.node_group_id table)) [
    | inl e ↦ ground (
      arith,
      e,
      eq_iff n.node_group_id "",
      eq_iff id "",
      eq_iff n.node_group_id id,
      lookup-insert n.node_group_id id (n ∷ []) table,
      append-nil (or_none Fl (lookup id table)),
    )
    | inr (us, e) ↦ ground (
      arith,
      e,
      eq_iff n.node_group_id "",
      eq_iff id "",
      eq_iff n.node_group_id id,
      lookup-insert n.node_group_id id (us ++ n ∷ []) table,
      append-nil (or_none Fl (lookup id table)),
    )
  ]

  nodes_of-cons :
      (id : String) (n : NodeState Fl) (ns : List (NodeState Fl))
      → nodes_of id (n ∷ ns) ≡ nodes_of id (n ∷ []) ++ nodes_of id ns
  nodes_of-cons id n ns = ground arith

  lookup-nodes_by_group :
      (id : String) (ns : List (NodeState Fl)) (table : GoMap (List (NodeState Fl)))
      → or_none Fl (lookup id (nodes_by_group Fl ns table))
        ≡ or_none Fl (lookup id table) ++ nodes_of id ns
  unfolding nodes_by_group
  lookup-nodes_by_group id [] table = ground (arith, append-nil (or_none Fl (lookup id table)))
  lookup-nodes_by_group id (n ∷ ns) table =
      lookup-nodes_by_group id ns (file_node Fl n table)
      ∙ ap (λ us. us ++ nodes_of id ns) (lookup-file_node id n table)
      ∙ append_assoc (or_none Fl (lookup id table)) (nodes_of id (n ∷ [])) (nodes_of id ns)
      ∙ ap (λ us. or_none Fl (lookup id table) ++ us) (sym (nodes_of-cons id n ns))

  count_pods-exact :
      (ps : List Pod) (count : ℕ)
      → count + pods_of ps < sign64
      → count_pods Fl ps count ≡ count + pods_of ps
  unfolding count_pods
  count_pods-exact [] count h = omega arith
  count_pods-exact (p ∷ ps) count h =
      ground
        (arith, add64_exact count 1, count_pods-exact ps count, count_pods-exact ps (add64 count 1))

  add_nodes-total_pods :
      (ns : List (NodeState Fl)) (i : NodeGroupInfo Fl)
      → i.total_pods + total_pods_of ns < sign64
      → (add_nodes Fl i ns).total_pods ≡ i.total_pods + total_pods_of ns
  unfolding add_nodes add_node
  add_nodes-total_pods [] i h = omega arith
  add_nodes-total_pods (n ∷ ns) i h =
      ground
        (arith, add_nodes-total_pods ns (add_node Fl i n), count_pods-exact n.pods i.total_pods)

  total_pods_of-all :
      (ns : List (NodeState Fl)) → (total_pods_of ns == 0) ≡ all (node_is_empty Fl) ns
  unfolding node_is_empty
  total_pods_of-all [] = refl
  total_pods_of-all (n ∷ ns) = ground (arith, pods_of-all n.pods, total_pods_of-all ns)

  -- Whether the pods of a group, as an update sees them, all belong to daemon sets.
  abbrev pub is_idle : String → List (NodeState Fl) → Bool
  is_idle id nodes = all (node_is_empty Fl) (nodes_of id nodes)

  -- The group is listed by the cloud provider.
  abbrev pub is_listed : String → List NodeGroup → Bool
  is_listed id = any (λ g. str_eq g.id id)

  abbrev pub since_of : Option (NodeGroupInfo Fl) → Option ℕ
  since_of none = none
  since_of (some i) = i.empty_since

  -- The time to go on with: the earlier one, or now.
  abbrev pub or_now : ℕ → Option ℕ → ℕ
  or_now now none = now
  or_now now (some t) = t

  track_empty-or_now :
      (now : ℕ) (prev : Option (NodeGroupInfo Fl)) (pods : ℕ)
      → track_empty Fl now prev pods
        ≡ (if pods == 0 then some (or_now now (since_of prev)) else none)
  unfolding track_empty
  track_empty-or_now now none pods = refl
  track_empty-or_now now (some prev) pods = elim (Option-cases prev.empty_since) [
    | inl e ↦ rw e
    | inr (t, e) ↦ rw e
  ]

  info_of-total_pods :
      (now : ℕ) (nodes : List (NodeState Fl)) (s : NodeGroupState Fl) (g : NodeGroup)
      → total_pods_of (nodes_of g.id nodes) < sign64
      → (is_empty Fl (info_of Fl now s (nodes_by_group Fl nodes []) g) ≡ is_idle g.id nodes)
        × ((info_of Fl now s (nodes_by_group Fl nodes []) g).empty_since ≡ (
            if is_idle g.id nodes
            then some (or_now now (since_of (lookup g.id s.groups)))
            else none))
  unfolding info_of lookup
  info_of-total_pods now nodes s g bound =
      let ns : List (NodeState Fl) = or_none Fl (lookup g.id (nodes_by_group Fl nodes [])) in
      let mine : ns ≡ nodes_of g.id nodes = lookup-nodes_by_group g.id nodes [] in
      let same : total_pods_of ns ≡ total_pods_of (nodes_of g.id nodes) = ap total_pods_of mine in
      let total : (add_nodes Fl (new_info Fl g ns) ns).total_pods ≡ total_pods_of ns =
        add_nodes-total_pods ns (new_info Fl g ns) (omega arith) ∙ zero-add (total_pods_of ns) in
      let none_left : ((add_nodes Fl (new_info Fl g ns) ns).total_pods == 0) ≡ is_idle g.id nodes =
        ap (λ k. k == 0) (total ∙ same) ∙ total_pods_of-all (nodes_of g.id nodes) in
      (
        none_left,
        track_empty-or_now now (lookup g.id s.groups)
              (add_nodes Fl (new_info Fl g ns) ns).total_pods
            ∙ ap (λ b. if b then some (or_now now (since_of (lookup g.id s.groups))) else none)
                none_left,
      )

  -- The entry of a group after the loop is that of a listed group with this identifier.
  lookup-update_all :
      (id : String) (now : ℕ) (s : NodeGroupState Fl) (table : GoMap (List (NodeState Fl)))
      (gs : List NodeGroup) (acc : GoMap (NodeGroupInfo Fl))
      → ((lookup id (update_all Fl now s table gs acc) ≡ lookup id acc) × (is_listed id gs ≡ false))
        ⊎ ((g : NodeGroup) × (g.id ≡ id)
            × (is_listed id gs ≡ true)
            × (lookup id (update_all Fl now s table gs acc) ≡ some (info_of Fl now s table g)))
  unfolding update_all
  lookup-update_all id now s table [] acc = inl (refl, refl)
  lookup-update_all id now s table (g ∷ gs) acc =
      let ih = lookup-update_all id now s table gs (insert g.id (info_of Fl now s table g) acc) in
      let at_id = lookup-insert g.id id (info_of Fl now s table g) acc in
      elim ih [
        | inr (h, e, listed, found) ↦ inr (h, e, ground (arith, listed), found)
        | inl (kept, unlisted) ↦ elim (Bool-cases (str_eq g.id id)) [
          | inl y ↦ inr (g, (eq_iff g.id id).0 y, ground (arith, y), kept ∙ at_id ∙ rw y)
          | inr n ↦ inl (kept ∙ at_id ∙ rw n, ground (arith, n, unlisted))
        ]
      ]

  -- One update, for one group whose pods are fewer than 2 ^ 63.
  pub update-since_of :
      (id : String) (now : ℕ) (groups : List NodeGroup) (nodes : List (NodeState Fl))
      (s : NodeGroupState Fl)
      → total_pods_of (nodes_of id nodes) < sign64
      → since_of (get Fl id (update Fl now groups nodes s)) ≡ (
          if is_listed id groups && is_idle id nodes
          then some (or_now now (since_of (get Fl id s)))
          else none)
  unfolding update get lookup
  update-since_of id now groups nodes s bound =
      elim (lookup-update_all id now s (nodes_by_group Fl nodes []) groups []) [
        | inl (e, unlisted) ↦ ap since_of e ∙ ground (arith, unlisted)
        | inr (g, e, listed, found) ↦
            let entry =
              info_of-total_pods now nodes s g
                (subst (λ k. total_pods_of (nodes_of k nodes) < sign64) (sym e) bound) in
            ap since_of found
            ∙ entry.1
            ∙ ap
                (λ k.
                  if is_idle k nodes
                  then some (or_now now (since_of (lookup k s.groups)))
                  else none)
                e
            ∙ ground (arith, listed)
      ]
