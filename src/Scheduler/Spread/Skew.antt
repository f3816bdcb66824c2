-- ===== src/Scheduler/Spread/Skew.antt =====
-- The spread check over the whole cluster against the rule that it enforces.
use katalyst.Prelude.{
  ℕ, ◌+◌, ◌-◌, ◌≤◌, ◌<◌, String, ◌≡◌, refl, ap, ◌∙◌, ◌↔◌, ◌⊎◌, inl, true, ◌||◌, some, List, [],
  arith, str_eq, eq_iff, if◌then◌else◌, is_some, any,
}
use katalyst.Prelude.GoMap.{GoMap, lookup, HasKeysOnce, insert-HasKeysOnce}
use katalyst.Prelude.Words.{sign32, lt32_exact, sub32_exact}
use katalyst.Scheduler.Types.{SpreadConstraint, Node}
use katalyst.Scheduler.Topology.{PodsByNode, in_domain}
use katalyst.Scheduler.Spread.{or_zero, bump, count_domains, min_max, spread_holds_across}
use katalyst.Scheduler.Spread.Counts.{
  in_domain_count, bump-or_zero, bump-is_some, count_domains-lookup, count_domains-HasKeysOnce,
}
use katalyst.Scheduler.Spread.Extremes.{IsSmall, lookup-IsSmall, min_max-lookup}

-- A value of the topology key that some node carries, or the node that is tried.
abbrev pub IsDomain : SpreadConstraint → String → List Node → String → Type 0
IsDomain c value nodes j = (value ≡ j) ⊎ (any (in_domain c.topology_key j) nodes ≡ true)

-- The matching pods of a domain once the new pod is counted in the domain that is tried.
abbrev pub placed_count : SpreadConstraint → String → List Node → PodsByNode → String → ℕ
placed_count c value nodes m j =
    in_domain_count c.label_selector c.topology_key j m nodes + (if str_eq value j then 1 else 0)

module _ (c : SpreadConstraint) (value : String) (nodes : List Node) (m : PodsByNode)
    (few : (j : String)
      → in_domain_count c.label_selector c.topology_key j m nodes + 1 < sign32) where
  abbrev found : GoMap ℕ
  found = count_domains c.label_selector c.topology_key m nodes []

  found-lookup :
      (j : String)
      → (or_zero (lookup j found) ≡ in_domain_count c.label_selector c.topology_key j m nodes)
        × (is_some (lookup j found) ≡ any (in_domain c.topology_key j) nodes)
  unfolding lookup
  found-lookup j =
      let r = count_domains-lookup c.label_selector c.topology_key m j nodes [] (omega arith) in
      let small = few j in (r.0 ∙ omega arith, r.1)

  placed-lookup :
      (j : String)
      → (or_zero (lookup j (bump value found)) ≡ placed_count c value nodes m j)
        × (is_some (lookup j (bump value found))
            ≡ (str_eq value j || any (in_domain c.topology_key j) nodes))
  placed-lookup j =
      let at_j = found-lookup j in
      let at_value = found-lookup value in
      let small_j = few j in
      let small_value = few value in
      (
        bump-or_zero value j found ∙ ground (arith, eq_iff value j),
        bump-is_some value j found ∙ ap (λ b. str_eq value j || b) at_j.1,
      )

  placed : GoMap ℕ
  placed = bump value found

  placed-HasKeysOnce : HasKeysOnce placed
  unfolding placed bump
  placed-HasKeysOnce =
      insert-HasKeysOnce value _ found
        (count_domains-HasKeysOnce c.label_selector c.topology_key m nodes [] tt)

  placed_value :
      (j : String) (n : ℕ) → lookup j placed ≡ some n → n ≡ placed_count c value nodes m j
  unfolding placed
  placed_value j n e = let p = placed-lookup j in ground arith

  placed-IsDomain : (j : String) (n : ℕ) → lookup j placed ≡ some n → IsDomain c value nodes j
  unfolding placed
  placed-IsDomain j n e = let p = placed-lookup j in ground (arith, eq_iff value j)

  IsDomain-placed :
      (j : String)
      → IsDomain c value nodes j
      → lookup j placed ≡ some (placed_count c value nodes m j)
  unfolding placed
  IsDomain-placed j d = let p = placed-lookup j in ground (arith, eq_iff value j)

  placed-IsSmall : IsSmall placed
  placed-IsSmall =
      lookup-IsSmall placed placed-HasKeysOnce
        λ j n e. let v = placed_value j n e in let s = few j in ground arith

  -- Given the nodes and the pods on each, where each domain's count plus one and the maximal skew
  -- are below 2 ^ 31, the check of a constraint passes exactly if, the new pod counted in its domain, no domain that some
  -- node carries holds more matching pods than another by more than the maximal skew.
  pub spread_holds_across-skew :
      c.max_skew < sign32
      → (spread_holds_across c value nodes m ≡ true) ↔ (
          (a b : String)
          → IsDomain c value nodes a
          → IsDomain c value nodes b
          → placed_count c value nodes m a ≤ placed_count c value nodes m b + c.max_skew)
  unfolding spread_holds_across placed
  spread_holds_across-skew small =
      let here = IsDomain-placed value (inl refl) in
      let ends = min_max-lookup placed value _ placed-HasKeysOnce placed-IsSmall here in
      let lo : ℕ = (min_max placed).0 in
      let hi : ℕ = (min_max placed).1 in
      let (a, at_lo) = ends.1 in
      let (b, at_hi) = ends.2 in
      let lo_is = placed_value a lo at_lo in
      let hi_is = placed_value b hi at_hi in
      let few_hi = few b in
      let ordered = ends.0 a lo at_lo in
      let hi_small : hi < sign32 = ground arith in
      let difference = sub32_exact hi lo ordered.1 hi_small in
      let test = lt32_exact c.max_skew (hi - lo) small (omega arith) in
      (
        λ h x y dx dy.
            let bx = ends.0 x _ (IsDomain-placed x dx) in
            let by_ = ends.0 y _ (IsDomain-placed y dy) in ground (arith, difference, test),
        λ rule.
            let fair = rule b a (placed-IsDomain b hi at_hi) (placed-IsDomain a lo at_lo) in
            ground (arith, difference, test),
      )
