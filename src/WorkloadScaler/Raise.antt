-- ===== src/WorkloadScaler/Raise.antt =====
-- A recommendation of the horizontal scaler that is executed raises the maximum that it names.
use katalyst.Prelude.{
  ℕ, ◌%◌, ◌<◌, String, ◌≡◌, refl, ◌∙◌, ◌≢◌, inl, inr, true, false, Option, none, some, List, [],
  ◌∷◌, arith, str_eq, eq_iff, ◌==◌, Bool-cases, All, Any, All-append, All-map,
}
use katalyst.Prelude.GoMap.{lookup}
use katalyst.Prelude.Words.{lt32, lt32_exact, sign32, mod32}
use katalyst.Prelude.Itoa.{itoa, itoa-ne_empty, parse_int32-itoa}
use katalyst.WorkloadScaler.Coordinator.{Recommendation}
use katalyst.WorkloadScaler.Horizontal.{
  Hpa, HorizontalScaler, HpaClient, is_excluded, maxed, maxed_or_none, new_max, recommend,
  recommend_all, print_int32, patch_max, execute,
}
use katalyst.WorkloadScaler.Bounds.{new_max-lt}

-- Kubernetes gives every object a name and a namespace.
abbrev pub IsNamed : Hpa → Type 0
IsNamed hpa = (hpa.name ≢ "") × (hpa.namespace ≢ "")

abbrev pub IsValid : Hpa → Type 0
IsValid hpa = IsNamed hpa × (hpa.max_replicas < sign32)

module _ {C : Type 0} (client : HpaClient C) (h : HorizontalScaler) (now : ℕ) (c : C) where
  -- Executing the recommendation sets a greater maximum on the autoscaler.
  abbrev pub Raises : Recommendation → Hpa → Type 0
  Raises r hpa =
      (n : ℕ) × (hpa.max_replicas < n)
      × (n < sign32)
      × (new_max h.max_replicas_limit hpa.max_replicas ≡ some n)
      × (execute client r c ≡ patch_max client hpa.namespace hpa.name n c)

  str_ne-empty : (s : String) → s ≢ "" → str_eq s "" ≡ false
  str_ne-empty s h = ground (arith, h, eq_iff s "")

  print_int32-itoa : (n : ℕ) → n < sign32 → print_int32 n ≡ itoa n
  print_int32-itoa n small =
      let up : lt32 n 0 ≡ false = lt32_exact n 0 small (omega arith) ∙ (ground arith) in rw up

  execute-maxed :
      (hpa : Hpa) (n : ℕ)
      → h.surge_detection ≡ true
      → IsNamed hpa
      → n < sign32
      → execute client (maxed h now hpa n) c ≡ patch_max client hpa.namespace hpa.name n c
  unfolding execute lookup
  execute-maxed hpa n on (named, spaced) small =
      let printed : print_int32 n ≡ itoa n = print_int32-itoa n small in
      let no_text : str_eq (itoa n) "" ≡ false = str_ne-empty (itoa n) (itoa-ne_empty n) in
      let whole : n % mod32 ≡ n = omega arith in
      rw (
        on,
        str_ne-empty hpa.name named,
        str_ne-empty hpa.namespace spaced,
        printed,
        no_text,
        parse_int32-itoa n small,
        whole,
      )

  maxed_or_none-Raises :
      (hpa : Hpa) (o : Option ℕ)
      → h.surge_detection ≡ true
      → h.max_replicas_limit < sign32
      → IsValid hpa
      → new_max h.max_replicas_limit hpa.max_replicas ≡ o
      → All (λ r. Raises r hpa) (maxed_or_none h now hpa o)
  maxed_or_none-Raises hpa none on low (named, small) e = tt
  maxed_or_none-Raises hpa (some n) on low (named, small) e =
      let (more, fits) = new_max-lt h.max_replicas_limit hpa.max_replicas n low small e in
      ((n, more, fits, e, execute-maxed hpa n on named fits), tt)

  recommend-Raises :
      (hpa : Hpa)
      → h.surge_detection ≡ true
      → h.max_replicas_limit < sign32
      → IsValid hpa
      → All (λ r. Raises r hpa) (recommend h now hpa)
  unfolding recommend
  recommend-Raises hpa on low valid = elim (Bool-cases (is_excluded h hpa.namespace)) [
    | inl y ↦ rw y tt
    | inr n ↦ elim (Bool-cases (hpa.current_replicas == hpa.max_replicas)) [
      | inr below ↦ rw (n, below) tt
      | inl full ↦
          rw (n, full)
            (maxed_or_none-Raises hpa (new_max h.max_replicas_limit hpa.max_replicas) on low valid
              refl)
    ]
  ]

  -- With surge detection on, executing any recommendation of the scaler sets a greater maximum below
  -- 2 ^ 31, the one that was computed, on an autoscaler of the list, and reports exactly the errors
  -- of the client. The limit and the maxima are below 2 ^ 31, and every autoscaler has a name.
  pub recommend_all-execute :
      (hpas : List Hpa)
      → h.surge_detection ≡ true
      → h.max_replicas_limit < sign32
      → All IsValid hpas
      → All (λ r. Any (Raises r) hpas) (recommend_all h now hpas)
  unfolding recommend_all
  recommend_all-execute [] on low valid = tt
  recommend_all-execute (hpa ∷ hpas) on low (here, valid) =
      let Goal : Recommendation → Type 0 = λ r. Any (Raises r) (hpa ∷ hpas) in
      All-append Goal (recommend h now hpa) (recommend_all h now hpas)
        (All-map (λ r. Raises r hpa) Goal (λ r raises. inl raises) (recommend h now hpa)
          (recommend-Raises hpa on low here))
        (All-map (λ r. Any (Raises r) hpas) Goal (λ r raises. inr raises) (recommend_all h now hpas)
          (recommend_all-execute hpas on low valid))
