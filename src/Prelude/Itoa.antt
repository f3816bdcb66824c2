-- ===== src/Prelude/Itoa.antt =====
-- `strconv.Itoa` and `%d` as texts, and `strconv.ParseInt` of what they print.
use Prim.Native.Nat.{ℕ, zero, suc, ◌+◌, ◌-◌, ◌<◌}
use Prim.Native.Char.{Char, code}
use Prim.Native.String.{String, ◌++◌ as str_append}
use mathlib.Core.Path.{◌≡◌, refl, sym, ap, ◌∙◌}
use mathlib.Core.Logic.{◌≢◌}
use mathlib.Core.Bool.{true, false, ◌||◌}
use mathlib.Core.Option.{Option, none, some}
use mathlib.Core.List.{List, [], ◌∷◌}
use native.Mathlib.Omega.{arith}
use katalyst.Prelude.Tests.{ltb, leb, ◌==◌, if◌then◌else◌}
use katalyst.Prelude.Lists.{all}
use katalyst.Prelude.Words.{lt64, sign32, sign64, mod64}
use katalyst.Prelude.Text.{codes, is_digit, atoi, digits_value, magnitude, positive}
use katalyst.Prelude.Decimal.{IsDecimal, print_int, print_int-IsDecimal, digits_value-print_int}

-- The digit of a number below ten.
abbrev pub digit : ℕ → Char
digit zero = "0"
digit (suc zero) = "1"
digit (suc (suc zero)) = "2"
digit (suc (suc (suc zero))) = "3"
digit (suc (suc (suc (suc zero)))) = "4"
digit (suc (suc (suc (suc (suc zero))))) = "5"
digit (suc (suc (suc (suc (suc (suc zero)))))) = "6"
digit (suc (suc (suc (suc (suc (suc (suc zero))))))) = "7"
digit (suc (suc (suc (suc (suc (suc (suc (suc zero)))))))) = "8"
digit (suc (suc (suc (suc (suc (suc (suc (suc (suc n))))))))) = "9"

unfoldable pub text_of_digits : List ℕ → String
text_of_digits [] = String.[]
text_of_digits (c ∷ cs) = String.◌∷◌ (digit (c - b'0')) (text_of_digits cs)

-- The decimal print of a number that is not negative.
unfoldable pub itoa : ℕ → String
unfolding text_of_digits
itoa n = text_of_digits (print_int n)

-- `%d` of an `int64`.
abbrev pub print_int64 : ℕ → String
print_int64 n = if lt64 n 0 then str_append "-" (itoa (mod64 - n)) else itoa n

-- `strconv.ParseInt(s, 10, 32)`: an `int64` pattern in the range of an `int32`.
abbrev pub in_int32 : Option ℕ → Option ℕ
in_int32 none = none
in_int32 (some n) = if ltb n sign32 || leb (mod64 - sign32) n then some n else none

unfoldable pub parse_int32 : String → Option ℕ
parse_int32 s = in_int32 (atoi (codes s))

code-digit : (d : ℕ) → d < 10 → code (digit d) ≡ b'0' + d
code-digit zero h = omega arith
code-digit (suc zero) h = omega arith
code-digit (suc (suc zero)) h = omega arith
code-digit (suc (suc (suc zero))) h = omega arith
code-digit (suc (suc (suc (suc zero)))) h = omega arith
code-digit (suc (suc (suc (suc (suc zero))))) h = omega arith
code-digit (suc (suc (suc (suc (suc (suc zero)))))) h = omega arith
code-digit (suc (suc (suc (suc (suc (suc (suc zero))))))) h = omega arith
code-digit (suc (suc (suc (suc (suc (suc (suc (suc zero)))))))) h = omega arith
code-digit (suc (suc (suc (suc (suc (suc (suc (suc (suc n))))))))) h = omega arith

codes-text_of_digits : (cs : List ℕ) → all is_digit cs ≡ true → codes (text_of_digits cs) ≡ cs
unfolding text_of_digits
codes-text_of_digits [] h = refl
codes-text_of_digits (c ∷ cs) h =
    let here : code (digit (c - b'0')) ≡ b'0' + (c - b'0') = code-digit (c - b'0') (ground arith) in
    let same : b'0' + (c - b'0') ≡ c = ground arith in
    rw (here, same) (ap (◌∷◌ c) (codes-text_of_digits cs (ground arith)))

pub codes-itoa : (n : ℕ) → codes (itoa n) ≡ print_int n
unfolding itoa IsDecimal
codes-itoa n =
    let (c, r, e, digits) = print_int-IsDecimal n in codes-text_of_digits (print_int n) digits

atoi-IsDecimal : (s : List ℕ) → IsDecimal s → atoi s ≡ positive (magnitude s)
unfolding atoi IsDecimal
atoi-IsDecimal [] (c, r, e, h) = refl
atoi-IsDecimal (c ∷ s) (d, r, e, h) =
    let no_minus : (c == b'-') ≡ false = ground arith in
    let no_plus : (c == b'+') ≡ false = ground arith in rw (no_minus, no_plus)

pub atoi-print_int : (n : ℕ) → atoi (print_int n) ≡ positive (some n)
unfolding IsDecimal
atoi-print_int n =
    let (c, r, e, digits) = print_int-IsDecimal n in
    let whole : magnitude (print_int n) ≡ some n =
      ap magnitude e ∙ ap (digits_value 0) (sym e) ∙ digits_value-print_int n in
    atoi-IsDecimal (print_int n) (print_int-IsDecimal n) ∙ ap positive whole

-- A number below 2 ^ 31 is read back from its print.
pub parse_int32-itoa : (n : ℕ) → n < sign32 → parse_int32 (itoa n) ≡ some n
unfolding parse_int32
parse_int32-itoa n h =
    let small : ltb n sign64 ≡ true = ground arith in
    let fits : ltb n sign32 ≡ true = ground arith in
    let read : atoi (codes (itoa n)) ≡ some n =
      ap atoi (codes-itoa n) ∙ atoi-print_int n ∙ rw small in
    ap in_int32 read ∙ rw fits

pub itoa-ne_empty : (n : ℕ) → itoa n ≢ ""
unfolding IsDecimal
itoa-ne_empty n h =
    let (c, r, e, digits) = print_int-IsDecimal n in
    let none_left : print_int n ≡ [] = sym (codes-itoa n) ∙ ap codes h in cc
