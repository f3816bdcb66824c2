-- ===== src/Rightsizer/Rounding.antt =====
-- The amounts of memory that `formatBytes` prints.
use katalyst.Prelude.{
  ℕ, ◌+◌, ◌*◌, ◌/◌, ◌%◌, ◌≤◌, ◌<◌, String, ◌≡◌, ◌≢◌, sym, ◌∙◌, subst, inl, inr, false, ◌&&◌, not,
  arith, ltb, ◌==◌, Bool-cases,
}
use Prim.Native.String.{◌++◌ as str_append}
use katalyst.Prelude.Itoa.{itoa, print_int64}
use katalyst.Prelude.Words.{lt64, sign64, lt64_exact}
use katalyst.Rightsizer.Recommender.{format_bytes}

-- The text of an amount. Only a multiple of a GiB is printed in GiB, and exactly; of the other units the
-- amount takes the largest that it reaches, rounded down.
pub data IsPrintOf (b : ℕ) : String → Type 0 where
  in_gibi : (k : ℕ) → 0 < k → b ≡ k * 1073741824 → IsPrintOf b (str_append (itoa k) "Gi")
  in_mebi :
      (k : ℕ)
      → b % 1073741824 ≢ 0
      → 0 < k
      → k * 1048576 ≤ b
      → b < k * 1048576 + 1048576
      → IsPrintOf b (str_append (itoa k) "Mi")
  in_kibi :
      (k : ℕ)
      → b < 1048576
      → 0 < k
      → k * 1024 ≤ b
      → b < k * 1024 + 1024
      → IsPrintOf b (str_append (itoa k) "Ki")
  in_bytes : b < 1024 → IsPrintOf b (itoa b)

print_int64-itoa : (b : ℕ) → b < sign64 → print_int64 b ≡ itoa b
print_int64-itoa b h =
    let up : lt64 b 0 ≡ false = lt64_exact b 0 h (omega arith) ∙ (ground arith) in rw up

-- A multiple of a GiB above zero is printed as its exact number of GiB. Any other amount below 2 ^ 63
-- is printed in whole MiB from a MiB on, in whole KiB from a KiB on and else in bytes, rounded down by
-- less than the unit and never to zero of a unit.
pub format_bytes-IsPrintOf : (b : ℕ) → b < sign64 → IsPrintOf b (format_bytes b)
unfolding format_bytes
format_bytes-IsPrintOf b h =
    let g : lt64 b 1073741824 ≡ ltb b 1073741824 = lt64_exact b 1073741824 h (omega arith) in
    let m : lt64 b 1048576 ≡ ltb b 1048576 = lt64_exact b 1048576 h (omega arith) in
    let k : lt64 b 1024 ≡ ltb b 1024 = lt64_exact b 1024 h (omega arith) in
    elim (Bool-cases (not (lt64 b 1073741824) && b % 1073741824 == 0)) [
      | inl y ↦
          let whole : b ≡ (b / 1073741824) * 1073741824 = ground (arith, y, g) in
          let more : 0 < b / 1073741824 = ground (arith, y, g) in
          rw y (in_gibi (b / 1073741824) more whole)
      | inr no_gibi ↦ elim (Bool-cases (ltb b 1048576)) [
        | inr large ↦
            let rest : b % 1073741824 ≢ 0 = ground (arith, no_gibi, g, large) in
            let reached : 1048576 ≤ b = ground (arith, large) in
            rw (no_gibi, m, large)
              (in_mebi (b / 1048576) rest (omega (arith, reached)) (omega arith) (omega arith))
        | inl small ↦ elim (Bool-cases (ltb b 1024)) [
          | inr large ↦
              let reached : 1024 ≤ b = ground (arith, large) in
              rw (no_gibi, m, small, k, large)
                (in_kibi (b / 1024) (ground (arith, small)) (omega (arith, reached)) (omega arith)
                  (omega arith))
          | inl tiny ↦
              rw (no_gibi, m, small, k, tiny)
                (subst (IsPrintOf b) (sym (print_int64-itoa b h)) (in_bytes (ground (arith, tiny))))
        ]
      ]
    ]
