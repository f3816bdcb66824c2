-- ===== src/PodPurger/Status/Decision.antt =====
-- The status that the code computes is the pod's, and its guards pick the pods to purge.
use katalyst.Prelude.{
  ℕ, ◌+◌, ◌≤◌, String, ◌≡◌, refl, sym, ap, ◌∙◌, subst, ◌≢◌, ◌↔◌, ◌⊎◌, inl, inr, Bool, true, false,
  not, ◌&&◌, Option, none, some, List, [], ◌∷◌, arith, str_eq, eq_iff, leb, Bool-cases, All, Any,
  any_iff,
}
use katalyst.Prelude.GoMap.{lookup}
use katalyst.PodPurger.{
  ContainerStatus, Pod, bad_status_set, system_namespaces, contains, reason_of, ended_reason,
  first_of, init_status, container_status, status_or_phase, compute_pod_status, label_is, is_own,
}
use katalyst.PodPurger.Status.{
  Says, waits, ended, IsSilent, First, this, later, HasStatus, of_init, of_container, of_phase,
  unknown, IsOwn, IsPurgeable,
}
use katalyst.PodPurger.Status.Init.{
  named, unnamed, reason_of-none, AnswersAllInit, init_status-answers, FirstInit-init_status,
  IsInitSilent-init_status,
}
use katalyst.PodPurger.Purge.{is_purgeable}

-- The code's answer on one container, and on the containers in turn.
abbrev says : ContainerStatus → Option String
says cs = first_of (reason_of cs.waiting) (ended_reason cs.terminated)

abbrev Answers : ContainerStatus → Option String → Type 0
Answers cs none = IsSilent cs
Answers cs (some s) = Says cs s

abbrev AnswersAll : List ContainerStatus → Option String → Type 0
AnswersAll css none = All IsSilent css
AnswersAll css (some s) = First css s

quiet-Answers :
    (w : Option String) (t : Option (String × ℕ)) (running : Bool)
    → (w ≡ none) ⊎ (w ≡ some "")
    → Answers (record { waiting = w; terminated = t; running = running }) (ended_reason t)
quiet-Answers w none running h = (h, inl refl)
quiet-Answers w (some (r, code)) running h = elim (Bool-cases (str_eq r "")) [
  | inr n ↦ rw n (ended r code h refl (unnamed r n))
  | inl y ↦ rw y (h, inr (code, ap (λ x. some (x, code)) ((eq_iff r "").0 y)))
]

says-Answers :
    (w : Option String) (t : Option (String × ℕ)) (running : Bool)
    → Answers
        (record { waiting = w; terminated = t; running = running })
        (says (record { waiting = w; terminated = t; running = running }))
says-Answers none t running = quiet-Answers none t running (inl refl)
says-Answers (some r) t running = elim (Bool-cases (str_eq r "")) [
  | inr n ↦ rw n (waits r refl (unnamed r n))
  | inl y ↦ rw y (quiet-Answers (some r) t running (inr (ap some ((eq_iff r "").0 y))))
]

Says-says : (cs : ContainerStatus) (s : String) → Says cs s → says cs ≡ some s
Says-says cs _ (waits r e h) = rw (e, named r h)
Says-says cs _ (ended r code w e h) = rw (reason_of-none cs w, e, named r h)

IsSilent-says : (cs : ContainerStatus) → IsSilent cs → says cs ≡ none
IsSilent-says cs (w, inl e) = rw (reason_of-none cs w, e)
IsSilent-says cs (w, inr (code, e)) = rw (reason_of-none cs w, e)

first_of_assoc : (a b c : Option String) → first_of a (first_of b c) ≡ first_of (first_of a b) c
first_of_assoc none b c = refl
first_of_assoc (some s) b c = refl

container_status-cons :
    (cs : ContainerStatus) (rest : List ContainerStatus)
    → container_status (cs ∷ rest) ≡ first_of (says cs) (container_status rest)
unfolding container_status
container_status-cons cs rest =
    first_of_assoc (reason_of cs.waiting) (ended_reason cs.terminated) (container_status rest)

join :
    (cs : ContainerStatus) (rest : List ContainerStatus) (o l : Option String)
    → Answers cs o
    → AnswersAll rest l
    → AnswersAll (cs ∷ rest) (first_of o l)
join cs rest (some s) l h k = this cs rest s h
join cs rest none (some s) h k = later cs rest s h k
join cs rest none none h k = (h, k)

container_status-answers : (css : List ContainerStatus) → AnswersAll css (container_status css)
unfolding container_status
container_status-answers [] = tt
container_status-answers (cs ∷ rest) =
    subst (AnswersAll (cs ∷ rest)) (sym (container_status-cons cs rest)) (
      join cs rest (says cs) (container_status rest)
        (says-Answers cs.waiting cs.terminated cs.running) (container_status-answers rest))

First-container_status :
    (css : List ContainerStatus) (s : String) → First css s → container_status css ≡ some s
First-container_status _ _ (this cs rest s h) =
    container_status-cons cs rest ∙ rw (Says-says cs s h)
First-container_status _ _ (later cs rest s h k) =
    container_status-cons cs rest ∙ rw (IsSilent-says cs h) (First-container_status rest s k)

IsSilent-container_status :
    (css : List ContainerStatus) → All IsSilent css → container_status css ≡ none
unfolding container_status
IsSilent-container_status [] h = refl
IsSilent-container_status (cs ∷ rest) (h, k) =
    container_status-cons cs rest ∙ rw (IsSilent-says cs h) (IsSilent-container_status rest k)

of_answers :
    (p : Pod) (o l : Option String)
    → AnswersAllInit p.init_containers 0 p.init_statuses o
    → AnswersAll p.statuses l
    → HasStatus p (status_or_phase o l p.phase)
of_answers p (some s) l h k = of_init s h
of_answers p none (some s) h k = of_container s h k
of_answers p none none h k = elim (Bool-cases (str_eq p.phase "")) [
  | inl y ↦ subst (HasStatus p) (sym (rw y)) (unknown h k ((eq_iff p.phase "").0 y))
  | inr n ↦ subst (HasStatus p) (sym (rw n)) (of_phase h k (unnamed p.phase n))
]

-- The computed status is the only one that the pod has.
compute_pod_status-HasStatus : (p : Pod) → HasStatus p (compute_pod_status p)
unfolding compute_pod_status
compute_pod_status-HasStatus p =
    of_answers p (init_status 0 p.init_containers p.init_statuses) (container_status p.statuses)
      (init_status-answers p.init_containers 0 p.init_statuses)
      (container_status-answers p.statuses)

HasStatus-compute_pod_status : (p : Pod) (s : String) → HasStatus p s → compute_pod_status p ≡ s
unfolding compute_pod_status
HasStatus-compute_pod_status p _ (of_init s h) =
    rw (compute_pod_status, FirstInit-init_status p.init_containers 0 p.init_statuses s h)
HasStatus-compute_pod_status p _ (of_container s h k) = rw (
  compute_pod_status,
  IsInitSilent-init_status p.init_containers 0 p.init_statuses h,
  First-container_status p.statuses s k,
)
HasStatus-compute_pod_status p _ (of_phase h k e) = rw (
  compute_pod_status,
  IsInitSilent-init_status p.init_containers 0 p.init_statuses h,
  IsSilent-container_status p.statuses k,
  named p.phase e,
)
HasStatus-compute_pod_status p _ (unknown h k e) =
    let f : str_eq p.phase "" ≡ true = (eq_iff p.phase "").1 e in
    rw (
      compute_pod_status,
      IsInitSilent-init_status p.init_containers 0 p.init_statuses h,
      IsSilent-container_status p.statuses k,
      f,
    )

no_label : (texts : List String) → Any (λ t. ◌≡◌ {A = Option String} none (some t)) texts → ⊥
no_label [] h = h
no_label (t ∷ texts) (inl h) = cc
no_label (t ∷ texts) (inr h) = no_label texts h

label_is-Any :
    (texts : List String) (o : Option String)
    → (label_is texts o ≡ true) ↔ Any (λ t. o ≡ some t) texts
label_is-Any texts none = ((λ e. cc), λ h. absurd (no_label texts h))
label_is-Any texts (some v) = any_iff (λ t. ground (arith, eq_iff t v)) texts

is_own-IsOwn : (p : Pod) → (is_own p ≡ true) ↔ IsOwn p
unfolding is_own
is_own-IsOwn p =
    let app =
      label_is-Any ("koptimizer" ∷ "koptimizer-dashboard" ∷ "mockapi" ∷ [])
        (lookup "app" p.labels) in
    let name = label_is-Any ("koptimizer" ∷ []) (lookup "app.kubernetes.io/name" p.labels) in
    ground (arith, app, name)

contains-Any :
    (texts : List String) (s : String) → (contains texts s ≡ true) ↔ Any (λ t. t ≡ s) texts
contains-Any texts s = any_iff (λ t. eq_iff t s) texts

contains-All :
    (texts : List String) (s : String) → (contains texts s ≡ false) ↔ All (λ t. t ≢ s) texts
contains-All [] s = ((λ _. tt), λ _. refl)
contains-All (t ∷ texts) s = ground (arith, eq_iff t s, contains-All texts s)

guards_iff :
    (system own bad : Bool) (due now : ℕ)
    → ((not system && (not own && (bad && leb due now))) ≡ true)
      ↔ ((system ≡ false) × (own ≡ false) × (bad ≡ true) × (due ≤ now))
guards_iff system own bad due now = ground arith

-- The guards pick exactly the pods to purge.
pub is_purgeable-IsPurgeable :
    (min_age now : ℕ) (p : Pod) → (is_purgeable min_age now p ≡ true) ↔ IsPurgeable min_age now p
unfolding is_purgeable
is_purgeable-IsPurgeable min_age now p =
    let outside = contains-All system_namespaces p.namespace in
    let own = is_own-IsOwn p in
    let bad = contains-Any bad_status_set (compute_pod_status p) in
    let guards =
      guards_iff (contains system_namespaces p.namespace) (is_own p)
        (contains bad_status_set (compute_pod_status p)) (p.creation + min_age) now in
    (
      λ h.
          let (out, foreign, is_bad, old) = guards.0 h in
          record {
            outside = outside.0 out;
            foreign = λ o. cc (own.1 o, foreign);
            bad = (compute_pod_status p, compute_pod_status-HasStatus p, bad.0 is_bad);
            old = old;
          },
      λ k.
          let (s, status, is_bad) = k.bad in
          let same = HasStatus-compute_pod_status p s status in
          let foreign : is_own p ≡ false = elim (Bool-cases (is_own p)) [
            | inl y ↦ absurd (k.foreign (own.0 y))
            | inr n ↦ n
          ] in
          guards.1 (
            outside.1 k.outside,
            foreign,
            bad.1 (subst (λ t. Any (λ u. u ≡ t) bad_status_set) (sym same) is_bad),
            k.old,
          ),
    )
