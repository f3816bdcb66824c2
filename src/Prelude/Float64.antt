-- ===== src/Prelude/Float64.antt =====
-- Go's `float64`, which the program only computes with: the type and its operations are a parameter
-- of the definitions that use them. `ltb` and `leb` are `<` and `<=`, `eqb` is `==`, `of_nat` the
-- conversion of an integer that is not negative.
use Prim.Native.Nat.{ℕ, ◌-◌}
use Prim.Native.String.{String}
use mathlib.Core.Bool.{Bool}
use katalyst.Prelude.Tests.{if◌then◌else◌}
use katalyst.Prelude.Words.{lt64, mod64}

pub record Float64 : Type 1 where
  pub F : Type 0
  pub of_nat : ℕ → F
  pub add : F → F → F
  pub mul : F → F → F
  pub div : F → F → F
  pub neg : F → F
  pub ltb : F → F → Bool
  pub leb : F → F → Bool
  pub eqb : F → F → Bool

-- `float64(x)` of an `int64`.
abbrev pub of_int64 : (Fl : Float64) → ℕ → Fl.F
of_int64 Fl x = if lt64 x 0 then Fl.neg (Fl.of_nat (mod64 - x)) else Fl.of_nat x

-- `%.1f` and the conversion to an `int64`.
pub record FloatText (Fl : Float64) : Type 0 where
  pub one_decimal : Fl.F → String
  pub to_int64 : Fl.F → ℕ
