-- ===== src/WorkloadScaler/Baselines.antt =====
-- The surge detector, workload by workload.
use katalyst.Prelude.{
  ℕ, String, ◌≡◌, refl, sym, ap, ◌∙◌, subst, inl, inr, Bool, ◌&&◌, not, Option, none, some, List,
  [], ◌∷◌, str_eq, eq_iff, if◌then◌else◌, Bool-cases, keep,
}
use katalyst.Prelude.Float64.{Float64, FloatText, of_int64}
use katalyst.Prelude.GoMap.{GoMap, lookup, insert, lookup-insert, HasKeysOnce, insert-HasKeysOnce}
use katalyst.Prelude.Words.{add64}
use katalyst.WorkloadScaler.Surge.{
  PodInfo, WorkloadUsage, workload_key, usage_or_new, add_usage, add_pod, group_usage, is_surge,
  next_baseline, detect_all, detect,
}

-- The pods of a workload.
abbrev pub belongs_to : String → PodInfo → Bool
belongs_to key p = not (str_eq p.owner_name "") && str_eq (workload_key p) key

abbrev pub accumulate : List PodInfo → Option WorkloadUsage → Option WorkloadUsage
accumulate [] o = o
accumulate (p ∷ pods) o = accumulate pods (some (add_usage p (usage_or_new p o)))

lookup-group_usage :
    (key : String) (pods : List PodInfo) (workloads : GoMap WorkloadUsage)
    → lookup key (group_usage pods workloads)
      ≡ accumulate (keep (belongs_to key) pods) (lookup key workloads)
unfolding group_usage
lookup-group_usage key [] workloads = refl
lookup-group_usage key (p ∷ pods) workloads = elim (Bool-cases (str_eq p.owner_name "")) [
  | inl y ↦ rw y (lookup-group_usage key pods workloads)
  | inr n ↦
      let here =
        lookup-insert (workload_key p) key
          (add_usage p (usage_or_new p (lookup (workload_key p) workloads))) workloads in
      elim (Bool-cases (str_eq (workload_key p) key)) [
        | inr other ↦
            rw (n, other)
              (lookup-group_usage key pods (add_pod p workloads)
                ∙ ap (accumulate (keep (belongs_to key) pods)) (here ∙ rw other))
        | inl y ↦
            let e : workload_key p ≡ key = (eq_iff (workload_key p) key).0 y in
            let own : lookup (workload_key p) workloads ≡ lookup key workloads =
              ap (λ x. lookup x workloads) e in
            rw (n, y)
              (lookup-group_usage key pods (add_pod p workloads)
                ∙ ap (accumulate (keep (belongs_to key) pods)) (here ∙ rw (y, own)))
      ]
]

group_usage-HasKeysOnce :
    (pods : List PodInfo) (workloads : GoMap WorkloadUsage)
    → HasKeysOnce workloads
    → HasKeysOnce (group_usage pods workloads)
unfolding group_usage
group_usage-HasKeysOnce [] workloads h = h
group_usage-HasKeysOnce (p ∷ pods) workloads h = elim (Bool-cases (str_eq p.owner_name "")) [
  | inl y ↦ rw y (group_usage-HasKeysOnce pods workloads h)
  | inr n ↦ rw n (
      group_usage-HasKeysOnce pods (add_pod p workloads)
        (insert-HasKeysOnce (workload_key p) _ workloads h))
]

-- The sum of the pods' use, which wraps.
abbrev pub sum_cpu : ℕ → List PodInfo → ℕ
sum_cpu total [] = total
sum_cpu total (p ∷ pods) = sum_cpu (add64 total p.cpu_usage) pods

accumulate-total :
    (pods : List PodInfo) (w : WorkloadUsage)
    → (v : WorkloadUsage) × (accumulate pods (some w) ≡ some v)
      × (v.total_cpu ≡ sum_cpu w.total_cpu pods)
accumulate-total [] w = (w, refl, refl)
accumulate-total (p ∷ pods) w = accumulate-total pods (add_usage p w)

module _ (Fl : Float64) (text : FloatText Fl) where
  -- A workload's baseline after one round, from its pods alone: none leaves it as it is.
  abbrev pub observed : Fl.F → Option Fl.F → List PodInfo → Option Fl.F
  observed threshold before [] = before
  observed threshold before (p ∷ pods) =
      let current : Fl.F = of_int64 Fl (sum_cpu 0 (p ∷ pods)) in
      if is_surge Fl text threshold before current
      then before
      else some (next_baseline Fl text before current)

  abbrev after_usage : Fl.F → Option Fl.F → Option WorkloadUsage → Option Fl.F
  after_usage threshold before none = before
  after_usage threshold before (some w) =
      let current : Fl.F = of_int64 Fl w.total_cpu in
      if is_surge Fl text threshold before current
      then before
      else some (next_baseline Fl text before current)

  -- The map after one workload.
  abbrev moved : Fl.F → String → WorkloadUsage → GoMap Fl.F → GoMap Fl.F
  moved threshold k w baselines =
      if is_surge Fl text threshold (lookup k baselines) (of_int64 Fl w.total_cpu)
      then baselines
      else insert k (next_baseline Fl text (lookup k baselines) (of_int64 Fl w.total_cpu)) baselines

  lookup-moved :
      (threshold : Fl.F) (k key : String) (w : WorkloadUsage) (baselines : GoMap Fl.F)
      → lookup key (moved threshold k w baselines) ≡ (
          if str_eq k key
          then after_usage threshold (lookup key baselines) (some w)
          else lookup key baselines)
  lookup-moved threshold k key w baselines =
      let before = lookup k baselines in
      let current : Fl.F = of_int64 Fl w.total_cpu in
      let written = lookup-insert k key (next_baseline Fl text before current) baselines in
      elim (Bool-cases (str_eq k key)) [
        | inr other ↦ elim (Bool-cases (is_surge Fl text threshold before current)) [
          | inl y ↦ rw (other, y)
          | inr n ↦ rw (other, n) (written ∙ rw other)
        ]
        | inl y ↦
            let own : lookup key baselines ≡ before =
              ap (λ x. lookup x baselines) (sym ((eq_iff k key).0 y)) in
            elim (Bool-cases (is_surge Fl text threshold before current)) [
              | inl surges ↦ rw (y, own, surges) own
              | inr calm ↦ rw (y, own, calm) (written ∙ rw y)
            ]
      ]

  lookup-detect_all :
      (threshold : Fl.F) (now : ℕ) (key : String) (workloads : GoMap WorkloadUsage)
      (baselines : GoMap Fl.F)
      → HasKeysOnce workloads
      → lookup key (detect_all Fl text threshold now workloads baselines).0
        ≡ after_usage threshold (lookup key baselines) (lookup key workloads)
  unfolding detect_all lookup
  lookup-detect_all threshold now key [] baselines h = refl
  lookup-detect_all threshold now key ((k, w) ∷ workloads) baselines (fresh, once) =
      let ih = lookup-detect_all threshold now key workloads (moved threshold k w baselines) once in
      let here = lookup-moved threshold k key w baselines in
      elim (Bool-cases (str_eq k key)) [
        | inr other ↦
            rw other
              (ih ∙ ap (λ b. after_usage threshold b (lookup key workloads)) (here ∙ rw other))
        | inl y ↦
            let gone : lookup key workloads ≡ none =
              subst (λ x. lookup x workloads ≡ none) ((eq_iff k key).0 y) fresh in
            rw y (ih ∙ rw gone (here ∙ rw y))
      ]

  after_usage-observed :
      (threshold : Fl.F) (before : Option Fl.F) (pods : List PodInfo)
      → after_usage threshold before (accumulate pods none) ≡ observed threshold before pods
  after_usage-observed threshold before [] = refl
  after_usage-observed threshold before (p ∷ pods) =
      let (v, e, total) = accumulate-total pods (add_usage p (usage_or_new p none)) in rw (e, total)

  -- A round moves the baseline of a workload as its own pods' total use says, and of no other: a surge
  -- leaves it, the first use sets it, and else it is averaged with the use.
  pub detect-observed :
      (threshold : Fl.F) (now : ℕ) (key : String) (pods : List PodInfo) (baselines : GoMap Fl.F)
      → lookup key (detect Fl text threshold now pods baselines).0
        ≡ observed threshold (lookup key baselines) (keep (belongs_to key) pods)
  unfolding detect lookup
  detect-observed threshold now key pods baselines =
      lookup-detect_all threshold now key (group_usage pods []) baselines
        (group_usage-HasKeysOnce pods [] tt)
      ∙ ap (after_usage threshold (lookup key baselines)) (lookup-group_usage key pods [])
      ∙ after_usage-observed threshold (lookup key baselines) (keep (belongs_to key) pods)
