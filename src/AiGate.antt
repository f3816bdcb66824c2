-- ===== src/AiGate.antt =====
-- pkg/aigate/gate.go: the gate that lets a language model review a risky change. Left out are the
-- prompt, the client with its options, and the texts of errors. The call of the API is an argument:
-- its result, the texts of the content blocks or `none` for an error. So is `json.Unmarshal` into a
-- response: it returns the response as it leaves it and whether it succeeded. A text is the list of
-- its bytes.
pub mod Object
pub mod Extract
pub mod Decision
mod Tests
use katalyst.Prelude.{
  ℕ, zero, suc, ◌+◌, ◌-◌, ◌*◌, ◌/◌, ◌%◌, ◌^◌, ◌≤◌, ◌<◌, String, ◌≡◌, refl, sym, ap, ◌∙◌, subst, ◌≢◌,
  ◌↔◌, ◌⊎◌, inl, inr, Bool, true, false, ◌&&◌, ◌||◌, not, Option, none, some, List, [], ◌∷◌, ◌++◌,
  map, reverse, arith, str_eq, eq_iff, ltb, leb, ◌==◌, if◌then◌else◌, ltb→lt, lt→ltb, leb→le,
  le→leb, ==_iff, tests, Bool-cases, Option-cases, is_some, &&_iff, not_iff, length, take, drop,
  get_elem?, set, all, any, keep, length-append, length-keep-le, length-take, length-drop, drop-set,
  take-set, length-set, get_elem?-drop, drop-length, drop-drop, drop-append, length-reverse,
  get_elem?-reverse, All, Any, all_iff, any_iff,
}
use katalyst.Prelude.Float64.{Float64}
use katalyst.Prelude.Text.{codes}
use katalyst.Prelude.Words.{mod64, add64, lt64}

-- `ValidationResponse`.
pub record ValidationResponse (Fl : Float64) : Type 0 where
  pub approved : Bool
  pub confidence : Fl.F
  pub reasoning : List ℕ
  pub warnings : List (List ℕ)
  pub suggestion : List ℕ

pub record Config (Fl : Float64) : Type 0 where
  pub enabled : Bool
  pub model : String
  pub timeout : ℕ
  pub cost_threshold_usd : Fl.F
  pub scale_threshold_pct : Fl.F
  pub max_evict_nodes : ℕ

pub record AiGate (Fl : Float64) : Type 0 where
  pub model : String
  pub enabled : Bool
  pub timeout : ℕ
  pub cost_threshold_usd : Fl.F
  pub scale_threshold_pct : Fl.F
  pub max_evict_nodes : ℕ

-- What the gate reads of an `optimizer.Recommendation`.
pub record Recommendation (Fl : Float64) : Type 0 where
  pub monthly_cost_change_usd : Fl.F
  pub nodes_affected : ℕ
  pub requires_ai_gate : Bool

abbrev pub default_model : String
default_model = "claude-sonnet-4-6"

-- Ten seconds, in nanoseconds.
abbrev pub default_timeout : ℕ
default_timeout = 10000000000

abbrev pub or_default : ℕ → ℕ → ℕ
or_default standard n = if n == 0 then standard else n

module _ (Fl : Float64) where
  abbrev pub float_or_default : ℕ → Fl.F → Fl.F
  float_or_default standard x = if Fl.eqb x (Fl.of_nat 0) then Fl.of_nat standard else x

  unfoldable pub new_ai_gate : Config Fl → AiGate Fl
  new_ai_gate cfg =
      if not cfg.enabled
      then record {
        model = "";
        enabled = false;
        timeout = 0;
        cost_threshold_usd = Fl.of_nat 0;
        scale_threshold_pct = Fl.of_nat 0;
        max_evict_nodes = 0;
      }
      else record {
        model = if str_eq cfg.model "" then default_model else cfg.model;
        enabled = true;
        timeout = or_default default_timeout cfg.timeout;
        cost_threshold_usd = float_or_default 500 cfg.cost_threshold_usd;
        scale_threshold_pct = float_or_default 30 cfg.scale_threshold_pct;
        max_evict_nodes = or_default 3 cfg.max_evict_nodes;
      }

  unfoldable pub abs : Fl.F → Fl.F
  abs f = if Fl.ltb f (Fl.of_nat 0) then Fl.neg f else f

  -- The receiver may be nil.
  unfoldable pub requires_validation : Option (AiGate Fl) → Recommendation Fl → Bool
  unfolding abs
  requires_validation none rec = false
  requires_validation (some g) rec =
      if not g.enabled
      then false
      else if Fl.ltb g.cost_threshold_usd (abs rec.monthly_cost_change_usd)
      then true
      else if lt64 g.max_evict_nodes rec.nodes_affected
      then true
      else rec.requires_ai_gate

-- The byte index of the first `{`; `none` is -1.
unfoldable pub find_json_start : List ℕ → Option ℕ
find_json_start [] = none
find_json_start (c ∷ s) =
    let rest = find_json_start s in
    if c == b'{' then some 0 else elim rest [ none ↦ none | some i ↦ some (suc i) ]

-- How one turn of the loop of `findJSONEnd` goes on: it returns, or keeps on with this depth, and
-- in a string or not, and after a backslash or not.
pub data Turn : Type 0 where
  found : Turn
  go_on : ℕ → Bool → Bool → Turn

unfoldable pub turn : ℕ → Bool → Bool → ℕ → Turn
unfolding add64
turn depth in_string escaped ch =
    if escaped
    then go_on depth in_string false
    else if (ch == b'\\') && in_string
    then go_on depth in_string true
    else if ch == b'"'
    then go_on depth (not in_string) false
    else if in_string
    then go_on depth in_string false
    else if ch == b'{'
    then go_on (add64 depth 1) in_string false
    else if ch == b'}'
    then (if (depth + mod64 - 1) % mod64 == 0
        then found
        else go_on ((depth + mod64 - 1) % mod64) in_string false)
    else go_on depth in_string false

-- The loop, from the index `i` on, over the rest of the text.
unfoldable pub scan : ℕ → Bool → Bool → ℕ → List ℕ → Option ℕ
unfolding turn
scan depth in_string escaped i [] = none
scan depth in_string escaped i (ch ∷ s) = elim (turn depth in_string escaped ch) [
  | found ↦ some i
  | go_on d q e ↦ scan d q e (suc i) s
]

unfoldable pub find_json_end : List ℕ → ℕ → Option ℕ
unfolding scan
find_json_end s start = scan 0 false false start (drop start s)

module _ (Fl : Float64) where
  abbrev pub empty_response : ValidationResponse Fl
  empty_response = record {
    approved = false;
    confidence = Fl.of_nat 0;
    reasoning = [];
    warnings = [];
    suggestion = [];
  }

  -- What `json.Unmarshal(data, &result)` leaves in `result`, and whether it returned no error.
  abbrev pub Unmarshal : Type 0
  Unmarshal = List ℕ → ValidationResponse Fl → ValidationResponse Fl × Bool

  abbrev pub if_ok : ValidationResponse Fl × Bool → Option (ValidationResponse Fl)
  if_ok (r, ok) = if ok then some r else none

  -- The text between the braces, decoded over what the first attempt left.
  unfoldable pub parse_embedded :
      Unmarshal → List ℕ → ValidationResponse Fl → Option (ValidationResponse Fl)
  unfolding find_json_start find_json_end
  parse_embedded unmarshal text result = elim (find_json_start text) [
    | none ↦ none
    | some first ↦ elim (find_json_end text first) [
      | none ↦ none
      | some last ↦
          if ltb first last
          then if_ok (unmarshal (take (last + 1 - first) (drop first text)) result)
          else none
    ]
  ]

  -- `parseValidationResponse`, on the texts of the content blocks; `none` is an error.
  unfoldable pub parse_validation_response :
      Unmarshal → List (List ℕ) → Option (ValidationResponse Fl)
  unfolding parse_embedded
  parse_validation_response unmarshal [] = none
  parse_validation_response unmarshal (text ∷ blocks) =
      let (result, ok) = unmarshal text empty_response in
      if ok then some result else parse_embedded unmarshal text result

  -- A response of the gate itself, which does not approve.
  abbrev pub manual_approval : List ℕ → List ℕ → ValidationResponse Fl
  manual_approval reason warning = record {
    approved = false;
    confidence = Fl.of_nat 0;
    reasoning = reason;
    warnings = warning ∷ [];
    suggestion = [];
  }

  abbrev pub disabled_response : ValidationResponse Fl
  disabled_response =
      manual_approval (codes "AI Gate disabled, requiring manual approval")
        (codes "AI Gate is disabled, falling back to manual approval")

  abbrev pub unavailable_response : ValidationResponse Fl
  unavailable_response =
      manual_approval (codes "AI Gate API error (falling back to manual approval)")
        (codes "AI Gate unavailable, requiring manual approval")

  -- `Validate`, given the answer of the API to its call.
  unfoldable pub validate :
      Unmarshal → Option (List (List ℕ)) → Option (AiGate Fl) → Option (ValidationResponse Fl)
  unfolding parse_validation_response
  validate unmarshal answer none = some (
      manual_approval (codes "AI Gate not configured, requiring manual approval")
        (codes "AI Gate is nil, falling back to manual approval"))
  validate unmarshal answer (some g) =
      if not g.enabled then some disabled_response else elim answer [
        | none ↦ some unavailable_response
        | some blocks ↦ parse_validation_response unmarshal blocks
      ]
