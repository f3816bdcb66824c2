-- ===== src/AiGate/Object.antt =====
-- JSON between braces, with the strings and the nested braces in it, as a tree, and its text.
use katalyst.Prelude.{
  ℕ, ◌+◌, ◌≡◌, refl, ap, ◌∙◌, ◌≢◌, List, [], ◌∷◌, ◌++◌, arith, length, take, drop,
}

-- What follows the opening quote of a string, to the closing one.
pub data Quoted : Type 0 where
  close : Quoted
  escape : ℕ → Quoted → Quoted
  char : ℕ → Quoted → Quoted

-- What stands between two braces.
pub data Body : Type 0 where
  done : Body
  plain : ℕ → Body → Body
  quoted : Quoted → Body → Body
  nested : Body → Body → Body

abbrev pub print_quoted : Quoted → List ℕ → List ℕ
print_quoted close s = b'"' ∷ s
print_quoted (escape c q) s = b'\\' ∷ c ∷ print_quoted q s
print_quoted (char c q) s = c ∷ print_quoted q s

-- The text of a body, before the text `s`.
abbrev pub print : Body → List ℕ → List ℕ
print done s = s
print (plain c b) s = c ∷ print b s
print (quoted q b) s = b'"' ∷ print_quoted q (print b s)
print (nested a b) s = b'{' ∷ print a (b'}' ∷ print b s)

-- No character of a string is a bare quote or backslash.
abbrev pub IsQuoted : Quoted → Type 0
IsQuoted close = Unit
IsQuoted (escape c q) = IsQuoted q
IsQuoted (char c q) = (c ≢ b'"') × (c ≢ b'\\') × IsQuoted q

-- No character outside the strings is a quote or a brace.
abbrev pub IsBody : Body → Type 0
IsBody done = Unit
IsBody (plain c b) = (c ≢ b'"') × (c ≢ b'{') × (c ≢ b'}') × IsBody b
IsBody (quoted q b) = IsQuoted q × IsBody b
IsBody (nested a b) = IsBody a × IsBody b

abbrev pub size_quoted : Quoted → ℕ
size_quoted close = 1
size_quoted (escape c q) = 2 + size_quoted q
size_quoted (char c q) = 1 + size_quoted q

-- The length of the text of a body.
abbrev pub size : Body → ℕ
size done = 0
size (plain c b) = 1 + size b
size (quoted q b) = 1 + size_quoted q + size b
size (nested a b) = 2 + size a + size b

pub drop_prefix : (xs ys : List ℕ) → drop (length xs) (xs ++ ys) ≡ ys
drop_prefix [] ys = refl
drop_prefix (x ∷ xs) ys = drop_prefix xs ys

pub take_prefix : (xs ys : List ℕ) → take (length xs) (xs ++ ys) ≡ xs
take_prefix [] ys = refl
take_prefix (x ∷ xs) ys = ap (◌∷◌ x) (take_prefix xs ys)

-- A JSON object, with any text after it.
abbrev pub object : Body → List ℕ → List ℕ
object b post = b'{' ∷ print b (b'}' ∷ post)

print_quoted-append : (q : Quoted) (s t : List ℕ) → print_quoted q (s ++ t) ≡ print_quoted q s ++ t
print_quoted-append close s t = refl
print_quoted-append (escape c q) s t = ap (λ r. b'\\' ∷ c ∷ r) (print_quoted-append q s t)
print_quoted-append (char c q) s t = ap (◌∷◌ c) (print_quoted-append q s t)

pub print-append : (b : Body) (s t : List ℕ) → print b (s ++ t) ≡ print b s ++ t
print-append done s t = refl
print-append (plain c b) s t = ap (◌∷◌ c) (print-append b s t)
print-append (quoted q b) s t =
    ap (λ r. b'"' ∷ print_quoted q r) (print-append b s t)
    ∙ ap (◌∷◌ b'"') (print_quoted-append q (print b s) t)
print-append (nested a b) s t =
    ap (λ r. b'{' ∷ print a (b'}' ∷ r)) (print-append b s t)
    ∙ ap (◌∷◌ b'{') (print-append a (b'}' ∷ print b s) t)

length-print_quoted :
    (q : Quoted) (s : List ℕ) → length (print_quoted q s) ≡ size_quoted q + length s
length-print_quoted close s = omega arith
length-print_quoted (escape c q) s = omega (arith, length-print_quoted q s)
length-print_quoted (char c q) s = omega (arith, length-print_quoted q s)

length-print : (b : Body) (s : List ℕ) → length (print b s) ≡ size b + length s
length-print done s = omega arith
length-print (plain c b) s = omega (arith, length-print b s)
length-print (quoted q b) s = omega (arith, length-print_quoted q (print b s), length-print b s)
length-print (nested a b) s = omega (arith, length-print a (b'}' ∷ print b s), length-print b s)

-- The text that is cut out is the object.
pub take-object :
    (b : Body) (post : List ℕ) (n : ℕ) → n ≡ size b + 2 → take n (object b post) ≡ object b []
take-object b post n e =
    let whole : object b post ≡ object b [] ++ post =
      ap (◌∷◌ b'{') (print-append b (b'}' ∷ []) post) in
    let len : n ≡ length (object b []) = omega (arith, length-print b (b'}' ∷ [])) in
    ap (take n) whole ∙ ap (λ k. take k (object b [] ++ post)) len ∙ take_prefix (object b []) post
