-- ===== src/WorkloadScaler/Bounds.antt =====
-- The new maximum of an autoscaler against integers without a width.
use katalyst.Prelude.{
  ℕ, ◌+◌, ◌/◌, ◌≤◌, ◌<◌, ◌≡◌, sym, ap, ◌∙◌, false, none, some, arith, ltb, ◌==◌, if◌then◌else◌,
}
use Prim.Native.Nat.{min, max}
use katalyst.Prelude.Words.{sign32, mod32, lt32, lt32_exact, add32, lt64}
use katalyst.WorkloadScaler.Horizontal.{increase, grown, capped, half, new_max}

-- Half as much again, at least one more, at most the greatest `int32` and at most the limit, where 0
-- is no limit.
unfoldable pub ideal_max : ℕ → ℕ → ℕ
ideal_max limit n =
    let grown : ℕ = min (n + max 1 (n / 2)) 2147483647 in
    if limit == 0 then grown else min grown limit

half_exact : (n : ℕ) → n < sign32 → half n ≡ n / 2
unfolding lt32
half_exact n h = ground arith

increase_exact : (n : ℕ) → n < sign32 → increase n ≡ max 1 (n / 2)
unfolding lt32
increase_exact n h = rw (half_exact n h) (ground arith)

grown_exact : (n : ℕ) → n < sign32 → grown n ≡ min (n + max 1 (n / 2)) 2147483647
unfolding lt32 add32
grown_exact n h = rw (increase_exact n h) (ground arith)

capped_exact :
    (limit n : ℕ)
    → limit < sign32
    → n < sign32
    → capped limit n ≡ (if limit == 0 then n else min n limit)
unfolding lt32 lt64
capped_exact limit n h k = ground arith

ideal_max-lt : (limit n : ℕ) → limit < sign32 → ideal_max limit n < sign32
unfolding ideal_max
ideal_max-lt limit n h = ground arith

-- For a limit and a maximum below 2 ^ 31 the new maximum is the ideal one if that is greater than the
-- maximum, and else there is none; so it is greater than the maximum, by half at most or by one, within
-- the limit, and does not overflow.
pub new_max-ideal_max :
    (limit n : ℕ)
    → limit < sign32
    → n < sign32
    → new_max limit n ≡ (if ltb n (ideal_max limit n) then some (ideal_max limit n) else none)
unfolding new_max ideal_max
new_max-ideal_max limit n h k =
    let e : capped limit (grown n) ≡ ideal_max limit n =
      ap (capped limit) (grown_exact n k)
      ∙ capped_exact limit (min (n + max 1 (n / 2)) 2147483647) h (ground arith) in
    let order : lt32 n (ideal_max limit n) ≡ ltb n (ideal_max limit n) =
      lt32_exact n (ideal_max limit n) k (ideal_max-lt limit n h) in
    rw (e, order) (ground arith)

capped_wrapped :
    (limit n : ℕ) → sign32 ≤ limit → limit < mod32 → n < sign32 → capped limit n ≡ limit
unfolding lt32 lt64
capped_wrapped limit n low high k = ground arith

grown-lt : (n : ℕ) → n < sign32 → grown n < sign32
grown-lt n h = ground (arith, grown_exact n h)

lt32-wrapped : (n limit : ℕ) → sign32 ≤ limit → limit < mod32 → n < sign32 → lt32 n limit ≡ false
unfolding lt32
lt32-wrapped n limit low high k = ground arith

pub new_max-lt :
    (limit n m : ℕ)
    → limit < sign32
    → n < sign32
    → new_max limit n ≡ some m
    → (n < m) × (m < sign32)
new_max-lt limit n m h k e =
    let whole : (if ltb n (ideal_max limit n) then some (ideal_max limit n) else none) ≡ some m =
      sym (new_max-ideal_max limit n h k) ∙ e in
    ground (arith, whole, ideal_max-lt limit n h)

-- A limit from 2 ^ 31 up to 2 ^ 32 is negative as an `int32`: no maximum is ever increased.
pub new_max-wrapped :
    (limit n : ℕ) → sign32 ≤ limit → limit < mod32 → n < sign32 → new_max limit n ≡ none
unfolding new_max
new_max-wrapped limit n low high k =
    let e : capped limit (grown n) ≡ limit =
      capped_wrapped limit (grown n) low high (grown-lt n k) in
    let negative : lt32 n limit ≡ false = lt32-wrapped n limit low high k in rw (e, negative)
