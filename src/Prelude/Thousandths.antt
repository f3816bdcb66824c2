-- ===== src/Prelude/Thousandths.antt =====
-- A small instance of `Float64` on which the tests run: signed numbers of thousandths, with
-- division and multiplication that drop the rest.
use Prim.Native.Nat.{ℕ, ◌+◌, ◌-◌, ◌*◌, ◌/◌}
use mathlib.Core.Bool.{Bool, false, ◌||◌}
use katalyst.Prelude.Tests.{ltb, leb, ◌==◌, if◌then◌else◌}
use katalyst.Prelude.Float64.{Float64}

pub data Fixed : Type 0 where
  plus minus : ℕ → Fixed

abbrev negate : Fixed → Fixed
negate (plus n) = minus n
negate (minus n) = plus n

-- a - b.
abbrev difference : ℕ → ℕ → Fixed
difference a b = if leb b a then plus (a - b) else minus (b - a)

abbrev sum : Fixed → Fixed → Fixed
sum (plus a) (plus b) = plus (a + b)
sum (plus a) (minus b) = difference a b
sum (minus a) (plus b) = difference b a
sum (minus a) (minus b) = minus (a + b)

abbrev product : Fixed → Fixed → Fixed
product (plus a) (plus b) = plus (a * b / 1000)
product (plus a) (minus b) = minus (a * b / 1000)
product (minus a) (plus b) = minus (a * b / 1000)
product (minus a) (minus b) = plus (a * b / 1000)

abbrev quotient : Fixed → Fixed → Fixed
quotient (plus a) (plus b) = plus (a * 1000 / b)
quotient (plus a) (minus b) = minus (a * 1000 / b)
quotient (minus a) (plus b) = minus (a * 1000 / b)
quotient (minus a) (minus b) = plus (a * 1000 / b)

abbrev less : Fixed → Fixed → Bool
less (plus a) (plus b) = ltb a b
less (plus a) (minus b) = false
less (minus a) (plus b) = ltb 0 (a + b)
less (minus a) (minus b) = ltb b a

abbrev equal : Fixed → Fixed → Bool
equal (plus a) (plus b) = a == b
equal (plus a) (minus b) = (a + b) == 0
equal (minus a) (plus b) = (a + b) == 0
equal (minus a) (minus b) = a == b

abbrev pub thousandths : Float64
thousandths = record {
  F = Fixed;
  of_nat = λ n. plus (n * 1000);
  add = sum;
  mul = product;
  div = quotient;
  neg = negate;
  ltb = less;
  leb = λ a b. less a b || equal a b;
  eqb = equal;
}
