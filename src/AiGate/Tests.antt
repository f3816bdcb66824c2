-- ===== src/AiGate/Tests.antt =====
-- The gate on concrete replies, and the theorems at concrete inputs. The decoder of the tests
-- accepts exactly one object, and approves.
use katalyst.Prelude.{
  ℕ, String, ◌≡◌, refl, true, false, Option, none, some, List, [], ◌∷◌, ◌++◌, arith, if◌then◌else◌,
}
use katalyst.Prelude.Thousandths.{thousandths, plus, minus}
use katalyst.Prelude.Text.{codes}
use katalyst.Prelude.Words.{lt64, add64}
use katalyst.AiGate.{
  ValidationResponse, Config, AiGate, Recommendation, Unmarshal, new_ai_gate, abs,
  requires_validation, parse_validation_response, parse_embedded, empty_response, validate,
  find_json_start, find_json_end, scan, turn, if_ok,
}
use katalyst.AiGate.Object.{Body, IsBody, plain, quoted, nested, done, char, close, object}
use katalyst.AiGate.Extract.{parse_validation_response-object}
use katalyst.AiGate.Decision.{IsDecoded, validate-approved}
use katalyst.FamilyLock.Families.{list_eq}

abbrev reply : String
reply = "Sure: {\"a\":\"}\",\"b\":{}} Bye }"

object_found : find_json_start (codes reply) ≡ some 6
unfolding find_json_start
object_found = refl

brace_in_string : find_json_end (codes reply) 6 ≡ some 21
unfolding find_json_end scan turn add64
brace_in_string = refl

abbrev config : Config thousandths
config = record {
  enabled = true;
  model = "";
  timeout = 0;
  cost_threshold_usd = plus 0;
  scale_threshold_pct = plus 0;
  max_evict_nodes = 0;
}

abbrev change : ℕ → Recommendation thousandths
change n = record {
  monthly_cost_change_usd = minus 400000;
  nodes_affected = n;
  requires_ai_gate = false;
}

four_nodes :
    requires_validation thousandths (some (new_ai_gate thousandths config)) (change 4) ≡ true
unfolding requires_validation new_ai_gate abs lt64
four_nodes = refl

three_nodes :
    requires_validation thousandths (some (new_ai_gate thousandths config)) (change 3) ≡ false
unfolding requires_validation new_ai_gate abs lt64
three_nodes = refl

-- `"a":"}","b":{}`.
abbrev content : Body
content = quoted (char b'a' close) (
    plain b':' (
      quoted (char b'}' close)
        (plain b',' (quoted (char b'b' close) (plain b':' (nested done done))))))

content-IsBody : IsBody content
content-IsBody = ground arith

abbrev approving : ValidationResponse thousandths
approving = record {
  approved = true;
  confidence = plus 900;
  reasoning = [];
  warnings = [];
  suggestion = [];
}

abbrev decode : Unmarshal thousandths
decode text prior = if list_eq text (object content []) then (approving, true) else (prior, false)

validate-approved_example :
    let gate : Option (AiGate thousandths) = some (new_ai_gate thousandths config) in
    let answer : Option (List (List ℕ)) = some (codes reply ∷ []) in
    ((r : ValidationResponse thousandths)
      → validate thousandths decode answer gate ≡ some r
      → r.approved ≡ true
      → (g : AiGate thousandths) × (gate ≡ some g)
        × (g.enabled ≡ true)
        × (blocks : List (List ℕ)) × (answer ≡ some blocks)
        × (parse_validation_response thousandths decode blocks ≡ some r)
        × IsDecoded thousandths decode r)
    × ((answer ≡ none)
        → (r : ValidationResponse thousandths) × (validate thousandths decode answer gate ≡ some r)
          × (r.approved ≡ false))
validate-approved_example =
    validate-approved thousandths decode (some (codes reply ∷ []))
      (some (new_ai_gate thousandths config))

reply_approved :
    validate thousandths decode (some (codes reply ∷ [])) (some (new_ai_gate thousandths config))
    ≡ some approving
unfolding validate new_ai_gate parse_validation_response parse_embedded find_json_start
    find_json_end scan turn add64 list_eq
reply_approved = refl

does_not_decode :
    (decode (codes "Sure: " ++ object content (codes " Bye }")) (empty_response thousandths)).1
    ≡ false
unfolding list_eq
does_not_decode = refl

parse_validation_response-object_example :
    parse_validation_response thousandths decode
      ((codes "Sure: " ++ object content (codes " Bye }")) ∷ [])
    ≡ if_ok thousandths (
        decode
          (object content [])
          (decode
            (codes "Sure: " ++ object content (codes " Bye }"))
            (empty_response thousandths)).0)
parse_validation_response-object_example =
    parse_validation_response-object thousandths decode (codes "Sure: ") (codes " Bye }") content []
      refl content-IsBody (omega arith) does_not_decode
