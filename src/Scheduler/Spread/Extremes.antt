-- ===== src/Scheduler/Spread/Extremes.antt =====
-- The smallest and the largest value of a map of counts.
use katalyst.Prelude.{
  false, ℕ, ◌≤◌, ◌<◌, String, ◌≡◌, sym, subst, ◌⊎◌, inl, inr, none, some, [], ◌∷◌, arith, str_eq,
  eq_iff, ltb, Bool-cases, All, Any,
}
use katalyst.Prelude.GoMap.{GoMap, lookup, HasKeysOnce}
use katalyst.Prelude.Words.{sign32, lt32_exact}
use katalyst.Scheduler.Spread.{extremes, min_max}

-- The values stay below the sign bit.
abbrev pub IsSmall : GoMap ℕ → Type 0
IsSmall = All (λ (k, n). n < sign32)

-- Every value of the map lies between the two.
abbrev Between : ℕ → ℕ → GoMap ℕ → Type 0
Between lo hi = All (λ (k, n). (lo ≤ n) × (n ≤ hi))

abbrev Occurs : ℕ → GoMap ℕ → Type 0
Occurs v = Any (λ (k, n). n ≡ v)

Between-mono :
    (lo hi lo' hi' : ℕ) (m : GoMap ℕ) → lo' ≤ lo → hi ≤ hi' → Between lo hi m → Between lo' hi' m
Between-mono lo hi lo' hi' [] a b h = tt
Between-mono lo hi lo' hi' (x ∷ m) a b h =
    ((omega arith, omega arith), Between-mono lo hi lo' hi' m a b h.1)

-- The pair spans a start and the map: it bounds them, and each end is a start or a value.
abbrev Spans : ℕ → ℕ → GoMap ℕ → ℕ × ℕ → Type 0
Spans lo hi m r =
    (r.0 ≤ lo)
    × (hi ≤ r.1)
    × Between r.0 r.1 m
    × ((r.0 ≡ lo) ⊎ Occurs r.0 m)
    × ((r.1 ≡ hi) ⊎ Occurs r.1 m)

extremes-Spans :
    (lo hi : ℕ) (m : GoMap ℕ) → lo ≤ hi → hi < sign32 → IsSmall m → Spans lo hi m (extremes lo hi m)
unfolding extremes
extremes-Spans lo hi [] o h s = ground arith
extremes-Spans lo hi ((k, n) ∷ m) o h s =
    let below = lt32_exact n lo s.0 (omega arith) in
    let above = lt32_exact hi n h s.0 in
    elim (Bool-cases (ltb n lo)) [
      | inl less ↦
          let not_more : ltb hi n ≡ false = ground arith in
          let e : extremes lo hi ((k, n) ∷ m) ≡ extremes n hi m =
            rw (extremes, below, less, above, not_more) in
          let ih = extremes-Spans n hi m (ground arith) h s.1 in
          subst (Spans lo hi ((k, n) ∷ m)) (sym e) (ground arith)
      | inr not_less ↦ elim (Bool-cases (ltb hi n)) [
        | inl more ↦
            let e : extremes lo hi ((k, n) ∷ m) ≡ extremes lo n m =
              rw (extremes, below, not_less, above, more) in
            let ih = extremes-Spans lo n m (ground arith) s.0 s.1 in
            subst (Spans lo hi ((k, n) ∷ m)) (sym e) (ground arith)
        | inr inside ↦
            let e : extremes lo hi ((k, n) ∷ m) ≡ extremes lo hi m =
              rw (extremes, below, not_less, above, inside) in
            let ih = extremes-Spans lo hi m o h s.1 in
            subst (Spans lo hi ((k, n) ∷ m)) (sym e) (ground arith)
      ]
    ]

lookup-Between :
    (lo hi : ℕ) (j : String) (n : ℕ) (m : GoMap ℕ)
    → Between lo hi m
    → lookup j m ≡ some n
    → (lo ≤ n) × (n ≤ hi)
unfolding lookup
lookup-Between lo hi j n [] b e = absurd (cc)
lookup-Between lo hi j n ((k, v) ∷ m) b e = elim (Bool-cases (str_eq k j)) [
  | inl same ↦ ground arith
  | inr other ↦ lookup-Between lo hi j n m b.1 (ground arith)
]

Occurs-lookup :
    (v : ℕ) (m : GoMap ℕ) → HasKeysOnce m → Occurs v m → (j : String) × (lookup j m ≡ some v)
unfolding lookup
Occurs-lookup v [] h o = absurd o
Occurs-lookup v ((k, n) ∷ m) h (inl e) = (k, ground (arith, eq_iff k k))
Occurs-lookup v ((k, n) ∷ m) h (inr o) =
    let (j, found) = Occurs-lookup v m h.1 o in
    elim (Bool-cases (str_eq k j)) [
      | inl same ↦
          let e : k ≡ j = (eq_iff k j).0 same in
          let clash : lookup j m ≡ none = subst (λ i. lookup i m ≡ none) e h.0 in cc
      | inr other ↦ (j, ground arith)
    ]

pub lookup-IsSmall :
    (m : GoMap ℕ)
    → HasKeysOnce m
    → ((j : String) (n : ℕ) → lookup j m ≡ some n → n < sign32)
    → IsSmall m
unfolding lookup
lookup-IsSmall [] h s = tt
lookup-IsSmall ((k, n) ∷ m) h s = (s k n (ground (arith, eq_iff k k)), lookup-IsSmall m h.1 rest)
  where
    rest : (j : String) (v : ℕ) → lookup j m ≡ some v → v < sign32
    rest j v e = elim (Bool-cases (str_eq k j)) [
      | inl same ↦
          let i : k ≡ j = (eq_iff k j).0 same in
          let clash : lookup j m ≡ none = subst (λ i. lookup i m ≡ none) i h.0 in cc
      | inr other ↦ s j v (ground arith)
    ]

-- The two ends of a map's values bound them all and are values of the map.
pub min_max-lookup :
    (m : GoMap ℕ) (k : String) (n : ℕ)
    → HasKeysOnce m
    → IsSmall m
    → lookup k m ≡ some n
    → ((j : String) (v : ℕ) → lookup j m ≡ some v → ((min_max m).0 ≤ v) × (v ≤ (min_max m).1))
      × ((j : String) × (lookup j m ≡ some (min_max m).0))
      × ((j : String) × (lookup j m ≡ some (min_max m).1))
unfolding min_max lookup
min_max-lookup [] k n h s e = cc
min_max-lookup ((i, v) ∷ m) k n h s e =
    let spans = extremes-Spans v v m (omega arith) s.0 s.1 in
    let whole : Between (extremes v v m).0 (extremes v v m).1 ((i, v) ∷ m) =
      ((spans.0, spans.1), spans.2) in
    (
      (λ j u f. lookup-Between _ _ j u ((i, v) ∷ m) whole f),
      Occurs-lookup _ ((i, v) ∷ m) h (ground (arith, spans.3)),
      Occurs-lookup _ ((i, v) ∷ m) h (ground (arith, spans.4)),
    )
