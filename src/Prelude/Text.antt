-- ===== src/Prelude/Text.antt =====
-- Texts as lists of code points, and what the program uses of `strings` and `strconv` on them. The
-- byte order of UTF-8 is the order of the code points, so Go's `<` on strings is that of the lists.
use Prim.Native.Char.{code}
use Prim.Native.Nat.{ℕ, ◌+◌, ◌-◌, ◌*◌, ◌%◌}
use Prim.Native.String.{String}
use mathlib.Core.Bool.{Bool, true, false, ◌&&◌}
use mathlib.Core.Option.{Option, none, some}
use mathlib.Core.List.{List, [], ◌∷◌}
use katalyst.Prelude.Tests.{ltb, leb, ◌==◌, if◌then◌else◌}
use katalyst.Prelude.Words.{sign64, mod64}

abbrev pub codes : String → List ℕ
codes String.[] = []
codes (String.◌∷◌ first rest) = code first ∷ codes rest

-- `a < b` on texts.
abbrev pub precedes : List ℕ → List ℕ → Bool
precedes [] [] = false
precedes [] (y ∷ ys) = true
precedes (x ∷ xs) [] = false
precedes (x ∷ xs) (y ∷ ys) = let rest = precedes xs ys in if ltb x y then true else (x == y && rest)

abbrev pub is_digit : ℕ → Bool
is_digit c = leb b'0' c && leb c b'9'

-- The number that decimal digits stand for, after those read so far.
abbrev pub digits_value : ℕ → List ℕ → Option ℕ
digits_value acc [] = some acc
digits_value acc (c ∷ cs) =
    let rest = digits_value (acc * 10 + (c - b'0')) cs in if is_digit c then rest else none

abbrev pub magnitude : List ℕ → Option ℕ
magnitude [] = none
magnitude (c ∷ cs) = digits_value 0 (c ∷ cs)

-- A number that has to fit an `int64`, of either sign.
abbrev pub positive : Option ℕ → Option ℕ
positive none = none
positive (some n) = if ltb n sign64 then some n else none

abbrev pub negative : Option ℕ → Option ℕ
negative none = none
negative (some n) = if leb n sign64 then some ((mod64 - n) % mod64) else none

-- `strconv.Atoi`: an optional sign and digits, in the range of an `int64`.
unfoldable pub atoi : List ℕ → Option ℕ
atoi [] = none
atoi (c ∷ cs) =
    if c == b'-'
    then negative (magnitude cs)
    else if c == b'+'
    then positive (magnitude cs)
    else positive (magnitude (c ∷ cs))
