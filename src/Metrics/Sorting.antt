-- ===== src/Metrics/Sorting.antt =====
-- Sorting `int64` values: the order is that of their ranks.
use katalyst.Prelude.{
  ℕ, zero, suc, ◌+◌, ◌%◌, ◌≤◌, ◌<◌, ◌≡◌, refl, ap, ◌∙◌, subst, inl, inr, Bool, true, false, List,
  [], ◌∷◌, arith, ltb, leb, Bool-cases, length, keep, All, All-map,
}
use katalyst.Prelude.Words.{lt64, sign64, mod64}
use katalyst.Metrics.Store.{insert_value, sort_values, value_at, greatest, max_val}

-- The place of a pattern in the signed order.
unfoldable pub rank : ℕ → ℕ
rank x = (x + sign64) % mod64

lt64-rank : (x y : ℕ) → lt64 x y ≡ true → rank x ≤ rank y
unfolding lt64 rank
lt64-rank x y h = ground (arith, h)

not_lt64-rank : (x y : ℕ) → lt64 x y ≡ false → rank y ≤ rank x
unfolding lt64 rank
not_lt64-rank x y h = ground (arith, h)

-- Every value is at most the next.
abbrev pub IsSorted : List ℕ → Type 0
IsSorted [] = Unit
IsSorted (x ∷ xs) = All (λ y. rank x ≤ rank y) xs × IsSorted xs

-- Inserting keeps what holds of all values.
insert_value-All :
    (P : ℕ → Type 0) (x : ℕ) (xs : List ℕ) → P x → All P xs → All P (insert_value x xs)
unfolding insert_value
insert_value-All P x [] h k = (h, tt)
insert_value-All P x (y ∷ ys) h (here, k) = elim (Bool-cases (lt64 y x)) [
  | inl less ↦ rw less (here, insert_value-All P x ys h k)
  | inr more ↦ rw more (h, (here, k))
]

pub sort_values-All : (P : ℕ → Type 0) (xs : List ℕ) → All P xs → All P (sort_values xs)
unfolding sort_values
sort_values-All P [] h = tt
sort_values-All P (x ∷ xs) (here, h) =
    insert_value-All P x (sort_values xs) here (sort_values-All P xs h)

rank-All :
    (x y : ℕ) (ys : List ℕ)
    → rank x ≤ rank y
    → All (λ z. rank y ≤ rank z) ys
    → All (λ z. rank x ≤ rank z) ys
rank-All x y ys h k =
    All-map (λ z. rank y ≤ rank z) (λ z. rank x ≤ rank z) (λ z e. omega arith) ys k

insert_value-IsSorted : (x : ℕ) (xs : List ℕ) → IsSorted xs → IsSorted (insert_value x xs)
unfolding insert_value
insert_value-IsSorted x [] h = (tt, tt)
insert_value-IsSorted x (y ∷ ys) (least, h) = elim (Bool-cases (lt64 y x)) [
  | inl less ↦ rw less (
    insert_value-All (λ z. rank y ≤ rank z) x ys (lt64-rank y x less) least,
    insert_value-IsSorted x ys h,
  )
  | inr more ↦
      let low : rank x ≤ rank y = not_lt64-rank y x more in
      rw more ((low, rank-All x y ys low least), (least, h))
]

pub sort_values-IsSorted : (xs : List ℕ) → IsSorted (sort_values xs)
unfolding sort_values
sort_values-IsSorted [] = tt
sort_values-IsSorted (x ∷ xs) = insert_value-IsSorted x (sort_values xs) (sort_values-IsSorted xs)

insert_value-length : (x : ℕ) (xs : List ℕ) → length (insert_value x xs) ≡ suc (length xs)
unfolding insert_value
insert_value-length x [] = refl
insert_value-length x (y ∷ ys) = ground (arith, insert_value-length x ys)

pub length-sort_values : (xs : List ℕ) → length (sort_values xs) ≡ length xs
unfolding sort_values
length-sort_values [] = refl
length-sort_values (x ∷ xs) =
    insert_value-length x (sort_values xs) ∙ ap suc (length-sort_values xs)

-- What holds of all values holds of one of them.
pub value_at-All :
    (P : ℕ → Type 0) (xs : List ℕ) (i : ℕ) → All P xs → i < length xs → P (value_at xs i)
value_at-All P [] i h k = absurd (omega arith)
value_at-All P (x ∷ xs) zero (here, h) k = here
value_at-All P (x ∷ xs) (suc i) (here, h) k = value_at-All P xs i h (omega arith)

-- A later value of a sorted list is not less.
pub value_at-IsSorted :
    (xs : List ℕ) (i j : ℕ)
    → IsSorted xs
    → i ≤ j
    → j < length xs
    → rank (value_at xs i) ≤ rank (value_at xs j)
value_at-IsSorted [] i j h k m = absurd (omega arith)
value_at-IsSorted (x ∷ xs) zero zero h k m = omega arith
value_at-IsSorted (x ∷ xs) zero (suc j) (least, h) k m =
    value_at-All (λ y. rank x ≤ rank y) xs j least (omega arith)
value_at-IsSorted (x ∷ xs) (suc i) zero h k m = absurd (omega arith)
value_at-IsSorted (x ∷ xs) (suc i) (suc j) (least, h) k m =
    value_at-IsSorted xs i j h (omega arith) (omega arith)

-- The greatest value is at least every value.
greatest-rank :
    (m : ℕ) (vs : List ℕ)
    → (rank m ≤ rank (greatest m vs)) × All (λ v. rank v ≤ rank (greatest m vs)) vs
greatest-rank m [] = (omega arith, tt)
greatest-rank m (v ∷ vs) =
    let IsTop : ℕ → Type 0 = λ g. (rank m ≤ rank g) × All (λ u. rank u ≤ rank g) (v ∷ vs) in
    elim (Bool-cases (lt64 m v)) [
      | inl less ↦
          let (here, rest) = greatest-rank v vs in
          let low = lt64-rank m v less in
          let e : greatest v vs ≡ greatest m (v ∷ vs) = rw less in
          subst IsTop e (omega arith, (here, rest))
      | inr more ↦
          let (here, rest) = greatest-rank m vs in
          let low = not_lt64-rank m v more in
          let e : greatest m vs ≡ greatest m (v ∷ vs) = rw more in
          subst IsTop e (here, (omega arith, rest))
    ]

pub max_val-rank : (vs : List ℕ) → All (λ v. rank v ≤ rank (max_val vs)) vs
unfolding max_val
max_val-rank [] = tt
max_val-rank (v ∷ vs) = greatest-rank v vs

-- The values of a list that are below a value, and those that are not above it.
abbrev pub count_below : ℕ → List ℕ → ℕ
count_below v xs = length (keep (λ x. ltb (rank x) (rank v)) xs)

abbrev pub count_up_to : ℕ → List ℕ → ℕ
count_up_to v xs = length (keep (λ x. leb (rank x) (rank v)) xs)

length-keep-insert_value :
    (p : ℕ → Bool) (x : ℕ) (xs : List ℕ)
    → length (keep p (insert_value x xs)) ≡ length (keep p (x ∷ xs))
unfolding insert_value
length-keep-insert_value p x [] = refl
length-keep-insert_value p x (y ∷ ys) = ground (arith, length-keep-insert_value p x ys)

-- Sorting keeps how many values pass a test.
pub length-keep-sort_values :
    (p : ℕ → Bool) (xs : List ℕ) → length (keep p (sort_values xs)) ≡ length (keep p xs)
unfolding sort_values
length-keep-sort_values p [] = refl
length-keep-sort_values p (x ∷ xs) =
    length-keep-insert_value p x (sort_values xs) ∙ (ground (arith, length-keep-sort_values p xs))

count_below-least : (v : ℕ) (xs : List ℕ) → All (λ x. rank v ≤ rank x) xs → count_below v xs ≡ 0
count_below-least v [] h = refl
count_below-least v (x ∷ xs) (here, h) = ground (arith, count_below-least v xs h, here)

-- Of a sorted list, at most i values are below the i-th, and more than i are not above it.
pub value_at-counts :
    (xs : List ℕ) (i : ℕ)
    → IsSorted xs
    → i < length xs
    → (count_below (value_at xs i) xs ≤ i) × (i < count_up_to (value_at xs i) xs)
value_at-counts [] i h k = absurd (omega arith)
value_at-counts (x ∷ xs) zero (least, h) k =
    let none_below = count_below-least x xs least in ground (arith, none_below)
value_at-counts (x ∷ xs) (suc i) (least, h) k =
    let inside : i < length xs = omega arith in
    let (below, up_to) = value_at-counts xs i h inside in
    let low = value_at-All (λ y. rank x ≤ rank y) xs i least inside in
    ground (arith, below, up_to, low)
