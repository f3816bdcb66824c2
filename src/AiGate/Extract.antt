-- ===== src/AiGate/Extract.antt =====
-- The JSON object in a text is the part that the gate decodes.
use katalyst.Prelude.{
  ℕ, suc, ◌+◌, ◌-◌, ◌%◌, ◌<◌, ◌≡◌, refl, ap, ◌∙◌, inl, inr, Bool, true, false, some, List, [], ◌∷◌,
  ◌++◌, arith, ltb, ◌==◌, Bool-cases, length, take, drop, any,
}
use katalyst.Prelude.Words.{mod64, sign64, add64, add64_exact}
use katalyst.Prelude.Float64.{Float64}
use katalyst.AiGate.Object.{
  Quoted, close, escape, char, Body, done, plain, quoted, nested, print_quoted, print, IsQuoted,
  IsBody, size_quoted, size, object, drop_prefix, take-object,
}
use katalyst.AiGate.{
  Unmarshal, find_json_start, find_json_end, scan, turn, go_on, parse_validation_response,
  parse_embedded, empty_response, if_ok,
}

scan-go_on :
    (depth d i : ℕ) (in_string escaped q e : Bool) (ch : ℕ) (s : List ℕ)
    → turn depth in_string escaped ch ≡ go_on d q e
    → scan depth in_string escaped i (ch ∷ s) ≡ scan d q e (suc i) s
unfolding scan
scan-go_on depth d i in_string escaped q e ch s h = rw (scan, h)

scan-print_quoted :
    (q : Quoted) (depth i : ℕ) (s : List ℕ)
    → IsQuoted q
    → scan depth true false i (print_quoted q s) ≡ scan depth false false (size_quoted q + i) s
unfolding scan turn
scan-print_quoted close depth i s h = ap (λ k. scan depth false false k s) (omega arith)
scan-print_quoted (escape c q) depth i s h =
    scan-print_quoted q depth (suc (suc i)) s h ∙ ap (λ k. scan depth false false k s) (omega arith)
scan-print_quoted (char c q) depth i s (h, k, hq) =
    let no_quote : (c == b'"') ≡ false = ground arith in
    let no_escape : (c == b'\\') ≡ false = ground arith in
    let read : scan depth true false i (c ∷ print_quoted q s)
        ≡ scan depth true false (suc i) (print_quoted q s) =
      scan-go_on depth depth i true false true false c (print_quoted q s)
        (rw (no_escape, no_quote)) in
    read
    ∙ scan-print_quoted q depth (suc i) s hq
    ∙ ap (λ k. scan depth false false k s) (omega arith)

opaque_char :
    (c depth i : ℕ) (s : List ℕ)
    → (c == b'"') ≡ false
    → (c == b'{') ≡ false
    → (c == b'}') ≡ false
    → scan depth false false i (c ∷ s) ≡ scan depth false false (suc i) s
unfolding scan turn
opaque_char c depth i s q o e = elim (Bool-cases (c == b'\\')) [
  | inl k ↦ scan-go_on depth depth i false false false false c s (rw (k, q, o, e))
  | inr k ↦ scan-go_on depth depth i false false false false c s (rw (k, q, o, e))
]

-- A closing brace that is not the last.
close_inner :
    (depth j : ℕ) (s : List ℕ)
    → 0 < depth
    → depth + 1 < sign64
    → scan (depth + 1) false false j (b'}' ∷ s) ≡ scan depth false false (suc j) s
unfolding scan turn
close_inner depth j s pos bound =
    let back : ((depth + 1) + mod64 - 1) % mod64 ≡ depth = omega arith in
    let more : (depth == 0) ≡ false = ground arith in
    scan-go_on (depth + 1) depth j false false false false b'}' s (rw (back, more))

-- The loop reads over a body at any depth from 1 on, and comes back to that depth.
scan-print :
    (b : Body) (depth i : ℕ) (s : List ℕ)
    → IsBody b
    → 0 < depth
    → depth + size b < sign64
    → scan depth false false i (print b s) ≡ scan depth false false (size b + i) s
unfolding scan turn add64
scan-print done depth i s h pos bound = ap (λ k. scan depth false false k s) (omega arith)
scan-print (plain c b) depth i s (no_q, no_o, no_c, h) pos bound =
    let q : (c == b'"') ≡ false = ground arith in
    let o : (c == b'{') ≡ false = ground arith in
    let e : (c == b'}') ≡ false = ground arith in
    let skip : scan depth false false i (c ∷ print b s)
        ≡ scan depth false false (suc i) (print b s) =
      opaque_char c depth i (print b s) q o e in
    skip
    ∙ scan-print b depth (suc i) s h pos (omega arith)
    ∙ ap (λ k. scan depth false false k s) (omega arith)
scan-print (quoted q b) depth i s (hq, h) pos bound =
    scan-print_quoted q depth (suc i) (print b s) hq
    ∙ scan-print b depth (size_quoted q + suc i) s h pos (omega arith)
    ∙ ap (λ k. scan depth false false k s) (omega arith)
scan-print (nested a b) depth i s (ha, hb) pos bound =
    let deeper : add64 depth 1 ≡ depth + 1 = add64_exact depth 1 (omega arith) in
    let inner : scan depth false false i (b'{' ∷ print a (b'}' ∷ print b s))
        ≡ scan (depth + 1) false false (size a + suc i) (b'}' ∷ print b s) =
      ap (λ d. scan d false false (suc i) (print a (b'}' ∷ print b s))) deeper
      ∙ scan-print a (depth + 1) (suc i) (b'}' ∷ print b s) ha (omega arith) (omega arith) in
    inner
    ∙ close_inner depth (size a + suc i) (print b s) pos (omega arith)
    ∙ scan-print b depth (suc (size a + suc i)) s hb pos (omega arith)
    ∙ ap (λ k. scan depth false false k s) (omega arith)

-- The first brace of a text, after bytes that are none.
find_json_start-append :
    (pre s : List ℕ)
    → any (λ c. c == b'{') pre ≡ false
    → find_json_start (pre ++ b'{' ∷ s) ≡ some (length pre)
unfolding find_json_start
find_json_start-append [] s h = refl
find_json_start-append (c ∷ pre) s h =
    let ih = find_json_start-append pre s (ground arith) in
    let miss : (c == b'{') ≡ false = ground arith in rw (miss, ih)

find_json_end-object :
    (pre post : List ℕ) (b : Body)
    → IsBody b
    → size b + 1 < sign64
    → find_json_end (pre ++ object b post) (length pre) ≡ some (length pre + size b + 1)
unfolding find_json_end scan turn
find_json_end-object pre post b h bound =
    ap (scan 0 false false (length pre)) (drop_prefix pre (object b post))
    ∙ scan-print b 1 (suc (length pre)) (b'}' ∷ post) h (omega arith) (omega arith)
    ∙ ap (λ k. some k) (index_sum (size b) (length pre))
  where
    index_sum : (m n : ℕ) → m + suc n ≡ n + m + 1
    index_sum m n = omega arith

module _ (Fl : Float64) where
  -- A reply that does not decode as a whole, with a JSON object after text that has no brace, as in
  -- a fenced block: exactly the object is decoded, over what the first attempt left, whatever braces
  -- and quotes there are in its strings and after it. The object is shorter than 2 ^ 63.
  pub parse_validation_response-object :
      (unmarshal : Unmarshal Fl) (pre post : List ℕ) (b : Body) (blocks : List (List ℕ))
      → any (λ c. c == b'{') pre ≡ false
      → IsBody b
      → size b + 1 < sign64
      → (unmarshal (pre ++ object b post) (empty_response Fl)).1 ≡ false
      → parse_validation_response Fl unmarshal ((pre ++ object b post) ∷ blocks)
        ≡ if_ok Fl
            (unmarshal (object b []) (unmarshal (pre ++ object b post) (empty_response Fl)).0)
  unfolding parse_validation_response parse_embedded
  parse_validation_response-object unmarshal pre post b blocks no_brace h bound fails =
      let text : List ℕ = pre ++ object b post in
      let start : find_json_start text ≡ some (length pre) =
        find_json_start-append pre (print b (b'}' ∷ post)) no_brace in
      let end : find_json_end text (length pre) ≡ some (length pre + size b + 1) =
        find_json_end-object pre post b h bound in
      let later : ltb (length pre) (length pre + size b + 1) ≡ true = ground arith in
      let cut : take (length pre + size b + 1 + 1 - length pre) (drop (length pre) text)
          ≡ object b [] =
        ap (take (length pre + size b + 1 + 1 - length pre)) (drop_prefix pre (object b post))
        ∙ take-object b post (length pre + size b + 1 + 1 - length pre) (omega arith) in
      rw (fails, parse_embedded, start, end, later, cut)
