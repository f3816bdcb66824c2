-- ===== src/Hibernation/Tests.antt =====
-- The AWS provider over two groups, of which one hibernates.
use katalyst.Prelude.{
  ℕ, ◌≤◌, String, ◌≡◌, refl, ap, ◌∙◌, inl, inr, Bool, true, false, Option, none, some, [], ◌∷◌,
  arith, str_eq, eq_iff, ltb, if◌then◌else◌, Bool-cases, Option-cases,
}
use katalyst.Prelude.GoMap.{GoMap, lookup, insert, lookup-insert}
use katalyst.Hibernation.{
  Controller, new_controller, save_state, load_state, Cloud, returns, hibernate_groups, wake,
}
use katalyst.Hibernation.Reliable.{IsReliable, listing, HasSizesOf}
use katalyst.Hibernation.Provider.{scale_node_group}
use katalyst.Hibernation.Restore.{hibernate-wake, hibernate-load_state}
use katalyst.Hibernation.Failures.{wake-refused}

abbrev Sizes : Type 0
Sizes = GoMap (ℕ × ℕ)

abbrev size_or_none : Option (ℕ × ℕ) → ℕ × ℕ
size_or_none none = (0, 0)
size_or_none (some s) = s

abbrev desired : String → Sizes → ℕ
desired k c = (size_or_none (lookup k c)).0

abbrev minimum : String → Sizes → ℕ
minimum k c = (size_or_none (lookup k c)).1

abbrev registry : GoMap String
registry = ("id-a", "workers") ∷ ("id-b", "control") ∷ []

-- A cloud behind the AWS provider: of the groups of the registry only, with at most ten nodes each.
abbrev limits : String → Sizes → Option (ℕ × ℕ)
limits i c = elim (lookup i registry) [ none ↦ none | some name ↦ some (minimum i c, 10) ]

abbrev scale_asg : String → ℕ → Sizes → Sizes × Bool
scale_asg i n c = (insert i (n, minimum i c) c, true)

-- A minimum above the desired size raises that.
abbrev set_asg_min : String → ℕ → Sizes → Sizes × Bool
set_asg_min i n c = elim (lookup i registry) [
  | none ↦ (c, false)
  | some name ↦
      if ltb 10 n
      then (c, false)
      else (insert i ((if ltb (desired i c) n then n else desired i c), n) c, true)
]

abbrev aws : Cloud Sizes
aws = record {
  discover = λ c. some (listing desired minimum registry c);
  set_min = set_asg_min;
  scale_to = scale_node_group limits scale_asg;
}

insert-HasSizesOf :
    (i : String) (s : ℕ × ℕ) (c : Sizes) (k : String)
    → str_eq i k ≡ false
    → HasSizesOf desired minimum k (insert i s c) c
unfolding HasSizesOf
insert-HasSizesOf i s c k h =
    let e : lookup k (insert i s c) ≡ lookup k c = lookup-insert i k s c ∙ rw h in
    (ap (λ o. (size_or_none o).0) e, ap (λ o. (size_or_none o).1) e)

sizes-insert : (i : String) (s : ℕ × ℕ) (c : Sizes) → size_or_none (lookup i (insert i s c)) ≡ s
sizes-insert i s c =
    let e : lookup i (insert i s c) ≡ some s = lookup-insert i i s c ∙ rw ((eq_iff i i).1 refl) in
    ap size_or_none e

set_asg_min-sets :
    (i name : String) (n : ℕ) (c : Sizes)
    → lookup i registry ≡ some name
    → n ≤ 10
    → ((set_asg_min i n c).1 ≡ true) × (minimum i (set_asg_min i n c).0 ≡ n)
set_asg_min-sets i name n c known h =
    let fine : ltb 10 n ≡ false = ground arith in
    let done : set_asg_min i n c
        ≡ (insert i ((if ltb (desired i c) n then n else desired i c), n) c, true) =
      rw (set_asg_min, known, fine) in
    (ap (λ r. r.1) done, ap (λ r. minimum i r.0) done ∙ ap (λ s. s.1) (sizes-insert i _ c))

set_asg_min-others :
    (i : String) (n : ℕ) (c : Sizes) (k : String)
    → str_eq i k ≡ false
    → HasSizesOf desired minimum k (set_asg_min i n c).0 c
unfolding HasSizesOf
set_asg_min-others i n c k h = elim (Option-cases (lookup i registry)) [
  | inl e ↦ rw (set_asg_min, e) (refl, refl)
  | inr (name, e) ↦ elim (Bool-cases (ltb 10 n)) [
    | inl y ↦ rw (set_asg_min, e, y) (refl, refl)
    | inr fine ↦ rw (set_asg_min, e, fine) (insert-HasSizesOf i _ c k h)
  ]
]

aws-scales :
    (i name : String) (n : ℕ) (c : Sizes)
    → lookup i registry ≡ some name
    → minimum i c ≤ n
    → n ≤ 10
    → scale_node_group limits scale_asg i n c ≡ (insert i (n, minimum i c) c, true)
unfolding scale_node_group
aws-scales i name n c known low high =
    let above : ltb n (minimum i c) ≡ false = ground (arith, low) in
    let below : ltb 10 n ≡ false = ground (arith, high) in
    rw (scale_node_group, limits, known, above, below)

aws-others :
    (i : String) (n : ℕ) (c : Sizes) (k : String)
    → str_eq i k ≡ false
    → HasSizesOf desired minimum k (scale_node_group limits scale_asg i n c).0 c
unfolding HasSizesOf scale_node_group
aws-others i n c k h = elim (Option-cases (lookup i registry)) [
  | inl e ↦ rw (scale_node_group, limits, e) (refl, refl)
  | inr (name, e) ↦ elim (Bool-cases (ltb n (minimum i c))) [
    | inl y ↦ rw (scale_node_group, limits, e, y) (refl, refl)
    | inr above ↦ elim (Bool-cases (ltb 10 n)) [
      | inl y ↦ rw (scale_node_group, limits, e, above, y) (refl, refl)
      | inr below ↦
          rw (scale_node_group, limits, e, above, below)
            (insert-HasSizesOf i (n, minimum i c) c k h)
    ]
  ]
]

abbrev aws-IsReliable : IsReliable desired minimum aws registry
aws-IsReliable = record {
  maximum = λ i. 10;
  discovers = λ c. refl;
  set_min-sets = set_asg_min-sets;
  set_min-others = set_asg_min-others;
  scale_to-sets = λ i name n c known low high.
      let done = aws-scales i name n c known low high in
      (
        ap (λ r. r.1) done,
        ap (λ r. desired i r.0) done ∙ ap (λ s. s.0) (sizes-insert i (n, minimum i c) c),
        ap (λ r. minimum i r.0) done ∙ ap (λ s. s.1) (sizes-insert i (n, minimum i c) c),
      );
  scale_to-others = aws-others;
}

-- Group a has 5 nodes and a minimum of 3, group b is excluded.
abbrev start : Sizes
start = ("id-a", (5, 3)) ∷ ("id-b", (2, 2)) ∷ []

hibernate-wake_example :
    (asleep : Controller) × (slept : Sizes) × (woken : Sizes) × (hibernate_groups aws
        ("control" ∷ [])
        new_controller
        start
      ≡ returns asleep slept none (some (save_state asleep)))
    × (wake aws true asleep slept
        ≡ returns new_controller woken none (some (save_state new_controller)))
    × (desired "id-a" slept ≡ 1)
    × (desired "id-a" woken ≡ desired "id-a" start)
    × (minimum "id-a" woken ≡ minimum "id-a" start)
unfolding lookup
hibernate-wake_example =
    hibernate-wake desired minimum aws registry aws-IsReliable ("control" ∷ []) start "id-a"
      "workers" "id-a" "workers" (refl, (refl, tt)) refl refl (omega arith) refl (omega arith)
      (omega arith) (omega arith)

hibernate-load_state_example :
    (asleep : Controller) × (slept : Sizes) × (woken : Sizes) × (hibernate_groups aws
        ("control" ∷ [])
        new_controller
        start
      ≡ returns asleep slept none (some (save_state asleep)))
    × (wake aws true (load_state (save_state asleep) new_controller) slept
        ≡ returns new_controller woken none (some (save_state new_controller)))
    × (desired "id-a" slept ≡ 1)
    × (desired "id-a" woken ≡ desired "id-a" start)
    × (minimum "id-a" woken ≡ minimum "id-a" start)
unfolding lookup
hibernate-load_state_example =
    hibernate-load_state desired minimum aws registry aws-IsReliable ("control" ∷ []) start "id-a"
      "workers" "id-a" "workers" (refl, (refl, tt)) refl refl (omega arith) refl (omega arith)
      (omega arith) (omega arith) (omega arith)

-- The same cloud, refusing every change.
abbrev broken : Cloud Sizes
broken = record {
  discover = λ c. some (listing desired minimum registry c);
  set_min = λ i n c. (c, false);
  scale_to = λ i n c. (c, false);
}

abbrev sleeping : Controller
sleeping = record {
  hibernated = true;
  saved_desired = ("id-a", 5) ∷ [];
  saved_min = ("id-a", 3) ∷ [];
}

wake-refused_example :
    wake broken true sleeping start
    ≡ returns new_controller start none (some (save_state new_controller))
wake-refused_example =
    wake-refused broken (λ i n at. refl, λ i n at. refl) sleeping
      (listing desired minimum registry start) start refl refl
