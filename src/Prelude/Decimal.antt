-- ===== src/Prelude/Decimal.antt =====
-- Decimal numbers: what the program uses of `fmt`'s `%d`, printing and scanning. Scanning skips spaces
-- and tabs, reads a sign and digits, and leaves the rest; its result is an `int64` pattern.
use Prim.Native.Nat.{ℕ, zero, suc, ◌+◌, ◌-◌, ◌*◌, ◌/◌, ◌%◌, ◌≤◌, ◌<◌}
use mathlib.Core.Path.{◌≡◌, refl, ap, ◌∙◌}
use mathlib.Core.Logic.{inl, inr}
use mathlib.Core.Bool.{true, false, ◌||◌}
use mathlib.Core.Option.{Option, none, some}
use mathlib.Core.List.{List, [], ◌∷◌}
use native.Mathlib.Omega.{arith}
use katalyst.Prelude.Tests.{ltb, ◌==◌, if◌then◌else◌, Bool-cases}
use katalyst.Prelude.Lists.{all}
use katalyst.Prelude.Words.{sign64}
use katalyst.Prelude.Text.{is_digit, digits_value, magnitude, positive, negative}

-- The digits of a number, the last one first, in front of a text.
unfoldable pub decimal_onto : ℕ → ℕ → List ℕ → List ℕ
decimal_onto zero n out = out
decimal_onto (suc fuel) n out =
    let more = decimal_onto fuel (n / 10) ((b'0' + n % 10) ∷ out) in if n == 0 then out else more

-- Each round divides by ten, so that the number itself is fuel enough.
unfoldable pub print_int : ℕ → List ℕ
unfolding decimal_onto
print_int n = if n == 0 then b'0' ∷ [] else decimal_onto n n []

unfoldable pub take_digits : List ℕ → List ℕ
take_digits [] = []
take_digits (c ∷ s) = let rest = take_digits s in if is_digit c then c ∷ rest else []

unfoldable pub skip_blanks : List ℕ → List ℕ
skip_blanks [] = []
skip_blanks (c ∷ s) = let rest = skip_blanks s in if c == 32 || c == 9 then rest else c ∷ s

abbrev pub scan_signed : List ℕ → Option ℕ
scan_signed [] = none
scan_signed (c ∷ s) =
    if c == b'-'
    then negative (magnitude (take_digits s))
    else if c == b'+'
    then positive (magnitude (take_digits s))
    else positive (magnitude (take_digits (c ∷ s)))

unfoldable pub scan_int : List ℕ → Option ℕ
unfolding take_digits skip_blanks
scan_int s = scan_signed (skip_blanks s)

last_digit :
    (n : ℕ) (out : List ℕ) → digits_value (n / 10) ((b'0' + n % 10) ∷ out) ≡ digits_value n out
last_digit n out =
    let good : is_digit (b'0' + n % 10) ≡ true = ground arith in
    let whole : n / 10 * 10 + (b'0' + n % 10 - b'0') ≡ n = omega arith in
    rw good (ap (λ k. digits_value k out) whole)

-- The digits of a number, read after nothing, are the number before the rest.
digits_value-decimal_onto :
    (fuel n : ℕ) (out : List ℕ)
    → n ≤ fuel
    → digits_value 0 (decimal_onto fuel n out) ≡ digits_value n out
unfolding decimal_onto
digits_value-decimal_onto zero n out h =
    let e : 0 ≡ n = omega arith in ap (λ k. digits_value k out) e
digits_value-decimal_onto (suc fuel) n out h = elim (Bool-cases (n == 0)) [
  | inl y ↦ let e : 0 ≡ n = ground arith in rw y (ap (λ k. digits_value k out) e)
  | inr more ↦ rw more (
      digits_value-decimal_onto fuel (n / 10) ((b'0' + n % 10) ∷ out) (ground arith)
      ∙ last_digit n out)
]

unfoldable pub IsDecimal : List ℕ → Type 0
IsDecimal s = (c : ℕ) × (r : List ℕ) × (s ≡ c ∷ r) × (all is_digit s ≡ true)

decimal_onto-IsDecimal :
    (fuel n : ℕ) (out : List ℕ) → IsDecimal out → IsDecimal (decimal_onto fuel n out)
unfolding decimal_onto IsDecimal
decimal_onto-IsDecimal zero n out h = h
decimal_onto-IsDecimal (suc fuel) n out (c, r, e, h) = elim (Bool-cases (n == 0)) [
  | inl y ↦ rw y (c, r, e, h)
  | inr more ↦ rw more (
      decimal_onto-IsDecimal fuel (n / 10) ((b'0' + n % 10) ∷ out)
        (b'0' + n % 10, out, refl, ground (arith, h)))
]

pub print_int-IsDecimal : (n : ℕ) → IsDecimal (print_int n)
unfolding print_int decimal_onto IsDecimal
print_int-IsDecimal zero = (b'0', [], refl, refl)
print_int-IsDecimal (suc n) =
    let pos : (suc n == 0) ≡ false = ground arith in
    rw pos (
      decimal_onto-IsDecimal n (suc n / 10) ((b'0' + suc n % 10) ∷ [])
        (b'0' + suc n % 10, [], refl, ground arith))

pub digits_value-print_int : (n : ℕ) → digits_value 0 (print_int n) ≡ some n
unfolding print_int
digits_value-print_int n = elim (Bool-cases (n == 0)) [
  | inl y ↦ let e : 0 ≡ n = ground arith in rw y (ap (λ k. some k) e)
  | inr more ↦ rw more (digits_value-decimal_onto n n [] (omega arith))
]

take_digits-all : (s : List ℕ) → all is_digit s ≡ true → take_digits s ≡ s
unfolding take_digits
take_digits-all [] h = refl
take_digits-all (c ∷ s) h = ground (arith, take_digits-all s)

scan_int-IsDecimal : (s : List ℕ) → IsDecimal s → scan_int s ≡ positive (digits_value 0 s)
unfolding scan_int skip_blanks IsDecimal
scan_int-IsDecimal [] (c, r, e, h) = cc
scan_int-IsDecimal (c ∷ s) (d, r, e, h) =
    let digit : is_digit c ≡ true = ground arith in
    let no_blank : (c == 32 || c == 9) ≡ false = ground arith in
    let no_minus : (c == b'-') ≡ false = ground arith in
    let no_plus : (c == b'+') ≡ false = ground arith in
    rw (no_blank, no_minus, no_plus) (ap (λ t. positive (magnitude t)) (take_digits-all (c ∷ s) h))

-- A number below 2 ^ 63 is read back from its decimal print.
pub scan_int-print_int : (n : ℕ) → n < sign64 → scan_int (print_int n) ≡ some n
scan_int-print_int n h =
    let small : ltb n sign64 ≡ true = ground arith in
    scan_int-IsDecimal (print_int n) (print_int-IsDecimal n)
    ∙ ap positive (digits_value-print_int n)
    ∙ rw small
