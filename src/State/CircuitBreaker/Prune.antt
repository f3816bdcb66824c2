-- ===== src/State/CircuitBreaker/Prune.antt =====
-- `pruneOlderThan`: the loop that moves the entries to keep to the front of the same slice.
use mathlib.Core.List.{append-nil, append_assoc}
use katalyst.Prelude.{
  ℕ, zero, suc, ◌+◌, ◌≤◌, ◌≡◌, sym, inl, inr, Bool, true, false, none, some, List, [], ◌∷◌, ◌++◌,
  arith, ltb, Bool-cases, length, take, drop, get_elem?, set, keep, drop-set, take-set, length-set,
  get_elem?-drop, drop-length,
}

-- `cutoff` is `now - window`: `t.After(cutoff)`.
abbrev pub is_recent : ℕ → ℕ → ℕ → Bool
is_recent window now t = ltb now (t + window)

-- The loop ranges over the slice that it writes to. `range` has fixed the slice's length, and the
-- write is at `idx`, never beyond the element that is being read, so `read` still finds each one.
prune_loop : ℕ → ℕ → ℕ → ℕ → ℕ → List ℕ → List ℕ
prune_loop window now zero i idx times = take idx times
prune_loop window now (suc rounds) i idx times = elim (get_elem? times i) [
  | none ↦ take idx times
  | some t ↦ elim (is_recent window now t) [
    | true ↦ prune_loop window now rounds (suc i) (suc idx) (set times idx t)
    | false ↦ prune_loop window now rounds (suc i) idx times
  ]
]

unfoldable pub prune_older_than : ℕ → ℕ → List ℕ → List ℕ
unfolding prune_loop
prune_older_than window now times = prune_loop window now (length times) 0 0 times

prune_loop_lem :
    (window now rounds i idx : ℕ) (times : List ℕ)
    → idx ≤ i
    → length times ≡ i + rounds
    → prune_loop window now rounds i idx times
      ≡ take idx times ++ keep (is_recent window now) (drop i times)
unfolding prune_loop
prune_loop_lem window now zero i idx times h e =
    rw (drop-length times i (omega arith)) (sym (append-nil (take idx times)))
prune_loop_lem window now (suc rounds) i idx times h e =
    let (t, here, split) = get_elem?-drop times i (omega arith) in
    elim (Bool-cases (is_recent window now t)) [
      | inl recent ↦
          let ih =
            prune_loop_lem window now rounds (suc i) (suc idx) (set times idx t) (omega arith)
              (omega (arith, length-set times idx t)) in
          rw
            (
              here,
              split,
              recent,
              prune_loop,
              ih,
              take-set times idx t (omega arith),
              drop-set times i idx t h,
            )
            (append_assoc (take idx times) (t ∷ []) _)
      | inr old ↦
          rw (here, split, old, prune_loop)
            (prune_loop_lem window now rounds (suc i) idx times (omega arith) (omega arith))
    ]

-- The in-place loop returns the entries inside the window, in their order.
pub prune_older_than-keep :
    (window now : ℕ) (times : List ℕ)
    → prune_older_than window now times ≡ keep (is_recent window now) times
unfolding prune_older_than
prune_older_than-keep window now times =
    prune_loop_lem window now (length times) 0 0 times (omega arith) (omega arith)
