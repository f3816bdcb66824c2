-- ===== src/Prelude/Prefix.antt =====
-- Texts with a prefix: `p + s`, and `strings.HasPrefix` with `strings.TrimPrefix` in one.
use Prim.Native.Char.{code}
use Prim.Native.String.{String}
use mathlib.Core.Path.{◌≡◌, refl, sym, ap, ◌∙◌}
use mathlib.Core.Logic.{inl, inr}
use mathlib.Core.Bool.{true}
use mathlib.Core.Option.{Option, none, some}
use native.Mathlib.Omega.{arith}
use text.Mathlib.TextEquality.{Char-path}
use katalyst.Prelude.Tests.{◌==◌, ==_iff, if◌then◌else◌, Bool-cases}

unfoldable pub prepend : String → String → String
prepend String.[] s = s
prepend (String.◌∷◌ c p) s = String.◌∷◌ c (prepend p s)

-- The text after the prefix, if it is there.
unfoldable pub strip_prefix : String → String → Option String
strip_prefix String.[] s = some s
strip_prefix (String.◌∷◌ c p) String.[] = none
strip_prefix (String.◌∷◌ c p) (String.◌∷◌ d s) =
    let rest = strip_prefix p s in if code c == code d then rest else none

pub strip_prefix-prepend : (p s : String) → strip_prefix p (prepend p s) ≡ some s
unfolding strip_prefix prepend
strip_prefix-prepend String.[] s = refl
strip_prefix-prepend (String.◌∷◌ c p) s =
    let same : (code c == code c) ≡ true = ground arith in rw same (strip_prefix-prepend p s)

pub strip_prefix-some : (p k s : String) → strip_prefix p k ≡ some s → prepend p s ≡ k
unfolding strip_prefix prepend
strip_prefix-some String.[] k s h = let e : s ≡ k = cc in e
strip_prefix-some (String.◌∷◌ c p) String.[] s h = cc
strip_prefix-some (String.◌∷◌ c p) (String.◌∷◌ d k) s h = elim (Bool-cases (code c == code d)) [
  | inl y ↦
      let rest : strip_prefix p k ≡ some s = rw y at h in
      let ih = strip_prefix-some p k s rest in
      let same : c ≡ d = Char-path c d ((==_iff (code c) (code d)).0 y) in cc
  | inr n ↦ let absent : none ≡ some s = rw n at h in cc
]

-- A text that is its own prefix twice names the same rest.
pub prepend_injective : (p s t : String) → prepend p s ≡ prepend p t → s ≡ t
prepend_injective p s t h =
    let e : some s ≡ some t =
      sym (strip_prefix-prepend p s) ∙ ap (strip_prefix p) h ∙ strip_prefix-prepend p t in
    cc
