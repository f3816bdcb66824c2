-- ===== src/FamilyLock/Guard/Safety.antt =====
-- What the guard lets through.
use katalyst.Prelude.{
  ℕ, String, ◌≡◌, refl, sym, ◌∙◌, subst, ◌⊎◌, inl, inr, Option, none, some, List, arith,
  Option-cases,
}
use katalyst.Prelude.GoMap.{lookup}
use katalyst.FamilyLock.Families.{extract_family}
use katalyst.FamilyLock.Families.Extract.{list_eq_iff}
use katalyst.FamilyLock.Guard.{
  NodeGroup, FamilyLockGuard, GuardError, refresh, unknown_node_group, compare_families,
  validate_scale_up,
}

-- The two instance types have families, and the same one.
abbrev pub SharesFamily : List ℕ → List ℕ → Type 0
SharesFamily a b = (f : List ℕ) × (extract_family a ≡ some f) × (extract_family b ≡ some f)

compare_families_iff :
    (current proposed : List ℕ)
    → ((compare_families current proposed ≡ none) → SharesFamily current proposed)
      × (SharesFamily current proposed → compare_families current proposed ≡ none)
unfolding compare_families
compare_families_iff current proposed = elim (Option-cases (extract_family current)) [
  | inl e ↦ ((λ h. ground arith), λ (f, p, q). ground arith)
  | inr (f, e) ↦ elim (Option-cases (extract_family proposed)) [
    | inl d ↦ ((λ h. ground arith), λ (g, p, q). ground arith)
    | inr (g, d) ↦ (
      (λ h. (f, e, ground (arith, list_eq_iff f g))),
      λ (k, p, q). ground (arith, list_eq_iff f g),
    )
  ]
]

-- The two ways a scale-up goes: the group is in the cache afterwards, and the families decide, or it
-- is not, and it is refused.
Outcome : String → List ℕ → FamilyLockGuard × Option GuardError → Type 0
Outcome id proposed after =
    ((g : NodeGroup) × (lookup id after.0.node_groups ≡ some g)
      × (after.1 ≡ compare_families g.instance_type proposed))
    ⊎ ((lookup id after.0.node_groups ≡ none) × (after.1 ≡ some unknown_node_group))

validate_scale_up-Outcome :
    (answer : Option (List NodeGroup)) (id : String) (proposed : List ℕ) (guard : FamilyLockGuard)
    → Outcome id proposed (validate_scale_up answer id proposed guard)
unfolding Outcome validate_scale_up refresh
validate_scale_up-Outcome answer id proposed guard =
    elim (Option-cases (lookup id guard.node_groups)) [
      | inr (g, e) ↦
          let whole : validate_scale_up answer id proposed guard
              ≡ (guard, compare_families g.instance_type proposed) =
            rw (validate_scale_up, e) in
          subst (Outcome id proposed) (sym whole) (inl (g, e, refl))
      | inl e ↦
          let after : FamilyLockGuard = (refresh answer guard).0 in
          elim (Option-cases (lookup id after.node_groups)) [
            | inr (g, d) ↦
                let whole : validate_scale_up answer id proposed guard
                    ≡ (after, compare_families g.instance_type proposed) =
                  rw (validate_scale_up, e, d) in
                subst (Outcome id proposed) (sym whole) (inl (g, d, refl))
            | inl d ↦
                let whole : validate_scale_up answer id proposed guard
                    ≡ (after, some unknown_node_group) =
                  rw (validate_scale_up, e, d) in
                subst (Outcome id proposed) (sym whole) (inr (d, refl))
          ]
    ]

-- A scale-up is allowed exactly if the node group is in the cache that the call leaves, and its
-- instance type and the proposed one have the same family.
pub validate_scale_up-SharesFamily :
    (answer : Option (List NodeGroup)) (id : String) (proposed : List ℕ) (guard : FamilyLockGuard)
    → ((validate_scale_up answer id proposed guard).1 ≡ none
        → (g : NodeGroup) × (lookup id (validate_scale_up answer id proposed guard).0.node_groups
            ≡ some g)
          × SharesFamily g.instance_type proposed)
      × ((g : NodeGroup)
          → lookup id (validate_scale_up answer id proposed guard).0.node_groups ≡ some g
          → SharesFamily g.instance_type proposed
          → (validate_scale_up answer id proposed guard).1 ≡ none)
unfolding Outcome
validate_scale_up-SharesFamily answer id proposed guard =
    elim (validate_scale_up-Outcome answer id proposed guard) [
      | inl (g, found, result) ↦ (
        (λ h. (g, found, (compare_families_iff g.instance_type proposed).0 (sym result ∙ h))),
        λ k e shares.
            let same : g ≡ k = cc in
            result
            ∙ (compare_families_iff g.instance_type proposed).1
                (subst (λ n. SharesFamily n.instance_type proposed) (sym same) shares),
      )
      | inr (missing, result) ↦ ((λ h. cc), λ k e shares. cc)
    ]
