-- ===== src/AiGate/Decision.antt =====
-- When a change needs a review, and when a review lets it through.
use katalyst.Prelude.{
  ℕ, ◌+◌, ◌-◌, ◌≡◌, refl, ap, ◌∙◌, ◌↔◌, ◌⊎◌, inl, inr, Bool, true, false, Option, none, some, List,
  [], ◌∷◌, arith, ltb, if◌then◌else◌, Bool-cases, Option-cases, take, drop,
}
use katalyst.Prelude.Float64.{Float64}
use katalyst.Prelude.Words.{lt64}
use katalyst.AiGate.{
  ValidationResponse, Config, AiGate, Recommendation, Unmarshal, or_default, float_or_default,
  new_ai_gate, abs, requires_validation, parse_validation_response, parse_embedded, empty_response,
  manual_approval, disabled_response, unavailable_response, validate, find_json_start,
  find_json_end, if_ok,
}

module _ (Fl : Float64) where
  gate_disabled :
      (cfg : Config Fl) (rec : Recommendation Fl)
      → cfg.enabled ≡ false
      → requires_validation Fl (some (new_ai_gate Fl cfg)) rec ≡ false
  unfolding requires_validation new_ai_gate
  gate_disabled cfg rec off = rw off

  gate_enabled :
      (cfg : Config Fl) (rec : Recommendation Fl)
      → cfg.enabled ≡ true
      → requires_validation Fl (some (new_ai_gate Fl cfg)) rec ≡ (
          if Fl.ltb
            (float_or_default Fl 500 cfg.cost_threshold_usd)
            (abs Fl rec.monthly_cost_change_usd)
          then true
          else if lt64 (or_default 3 cfg.max_evict_nodes) rec.nodes_affected
          then true
          else rec.requires_ai_gate)
  unfolding requires_validation new_ai_gate
  gate_enabled cfg rec on = rw on

  -- The gate that a configuration makes asks for a review exactly if it is enabled and the change in
  -- cost is above the threshold, 500 if none is set, or more nodes are affected than the limit, 3 if
  -- none is set, or the recommendation asks for it.
  pub new_ai_gate-requires_validation :
      (cfg : Config Fl) (rec : Recommendation Fl)
      → (requires_validation Fl (some (new_ai_gate Fl cfg)) rec ≡ true) ↔ (
          (cfg.enabled ≡ true)
          × ((Fl.ltb
                  (float_or_default Fl 500 cfg.cost_threshold_usd)
                  (abs Fl rec.monthly_cost_change_usd)
                ≡ true)
              ⊎ (lt64 (or_default 3 cfg.max_evict_nodes) rec.nodes_affected ≡ true)
              ⊎ (rec.requires_ai_gate ≡ true)))
  new_ai_gate-requires_validation cfg rec = elim (Bool-cases cfg.enabled) [
    | inr off ↦ ground (arith, gate_disabled cfg rec off)
    | inl on ↦ ground (arith, gate_enabled cfg rec on)
  ]

  -- The response comes from a decoding that succeeded.
  abbrev pub IsDecoded : Unmarshal Fl → ValidationResponse Fl → Type 0
  IsDecoded unmarshal r =
      (part : List ℕ) × (prior : ValidationResponse Fl) × (unmarshal part prior ≡ (r, true))

  if_ok-some :
      (result : ValidationResponse Fl × Bool) (r : ValidationResponse Fl)
      → if_ok Fl result ≡ some r
      → result ≡ (r, true)
  if_ok-some (q, true) r h = let same : q ≡ r = cc in ap (λ x. (x, true)) same
  if_ok-some (q, false) r h = cc

  parse_embedded-IsDecoded :
      (unmarshal : Unmarshal Fl) (text : List ℕ) (prior r : ValidationResponse Fl)
      → parse_embedded Fl unmarshal text prior ≡ some r
      → IsDecoded unmarshal r
  unfolding parse_embedded
  parse_embedded-IsDecoded unmarshal text prior r h = elim (Option-cases (find_json_start text)) [
    | inl e ↦ let absent : none ≡ some r = rw (parse_embedded, e) at h in cc
    | inr (first, e) ↦ elim (Option-cases (find_json_end text first)) [
      | inl d ↦ let absent : none ≡ some r = rw (parse_embedded, e, d) at h in cc
      | inr (last, d) ↦ elim (Bool-cases (ltb first last)) [
        | inr n ↦ let absent : none ≡ some r = rw (parse_embedded, e, d, n) at h in cc
        | inl y ↦
            let part : List ℕ = take (last + 1 - first) (drop first text) in
            let ok : if_ok Fl (unmarshal part prior) ≡ some r = rw (parse_embedded, e, d, y) at h in
            (part, prior, if_ok-some (unmarshal part prior) r ok)
      ]
    ]
  ]

  parse_validation_response-IsDecoded :
      (unmarshal : Unmarshal Fl) (blocks : List (List ℕ)) (r : ValidationResponse Fl)
      → parse_validation_response Fl unmarshal blocks ≡ some r
      → IsDecoded unmarshal r
  unfolding parse_validation_response
  parse_validation_response-IsDecoded unmarshal [] r h = cc
  parse_validation_response-IsDecoded unmarshal (text ∷ blocks) r h =
      let result : ValidationResponse Fl × Bool = unmarshal text (empty_response Fl) in
      elim (Bool-cases result.1) [
        | inl ok ↦
            let first : some result.0 ≡ some r = rw ok at h in
            let same : result.0 ≡ r = cc in
            (text, empty_response Fl, ap (λ x. (x, result.1)) same ∙ ap (λ x. (r, x)) ok)
        | inr fails ↦
            let second : parse_embedded Fl unmarshal text result.0 ≡ some r = rw fails at h in
            parse_embedded-IsDecoded unmarshal text result.0 r second
      ]

  not_approved :
      (reason warning : List ℕ) (r : ValidationResponse Fl)
      → some (manual_approval Fl reason warning) ≡ some r
      → r.approved ≡ true
      → false ≡ true
  not_approved reason warning r h a =
      let same : manual_approval Fl reason warning ≡ r = cc in ap (λ x. x.approved) same ∙ a

  -- The gate fails closed: a review that approves comes from an enabled gate whose call of the API
  -- succeeded, and from text that decoded without an error; a failed call of the API gives a
  -- response that does not approve.
  pub validate-approved :
      (unmarshal : Unmarshal Fl) (answer : Option (List (List ℕ))) (gate : Option (AiGate Fl))
      → ((r : ValidationResponse Fl)
          → validate Fl unmarshal answer gate ≡ some r
          → r.approved ≡ true
          → (g : AiGate Fl) × (gate ≡ some g)
            × (g.enabled ≡ true)
            × (blocks : List (List ℕ)) × (answer ≡ some blocks)
            × (parse_validation_response Fl unmarshal blocks ≡ some r)
            × IsDecoded unmarshal r)
        × ((answer ≡ none)
            → (r : ValidationResponse Fl) × (validate Fl unmarshal answer gate ≡ some r)
              × (r.approved ≡ false))
  unfolding validate
  validate-approved unmarshal answer none =
      ((λ r h a. let bad : false ≡ true = not_approved _ _ r h a in cc), λ e. (_, refl, refl))
  validate-approved unmarshal none (some g) = elim (Bool-cases g.enabled) [
    | inr off ↦ (
      (λ r h a. let bad : false ≡ true = not_approved _ _ r (rw off at h) a in cc),
      λ e. (disabled_response Fl, rw off, refl),
    )
    | inl on ↦ (
      (λ r h a. let bad : false ≡ true = not_approved _ _ r (rw on at h) a in cc),
      λ e. (unavailable_response Fl, rw on, refl),
    )
  ]
  validate-approved unmarshal (some blocks) (some g) = elim (Bool-cases g.enabled) [
    | inr off ↦
        ((λ r h a. let bad : false ≡ true = not_approved _ _ r (rw off at h) a in cc), λ e. cc)
    | inl on ↦ (
      (λ r h a.
          let parsed : parse_validation_response Fl unmarshal blocks ≡ some r = rw on at h in
          (
            g,
            refl,
            on,
            blocks,
            refl,
            parsed,
            parse_validation_response-IsDecoded unmarshal blocks r parsed,
          )),
      λ e. cc,
    )
  ]
