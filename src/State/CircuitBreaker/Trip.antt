-- ===== src/State/CircuitBreaker/Trip.antt =====
-- When a controller's breaker trips, and for how long it stays so.
use katalyst.Prelude.{
  ℕ, suc, ◌+◌, ◌≤◌, ◌<◌, ◌≡◌, refl, ◌↔◌, ◌⊎◌, true, false, List, [], ◌∷◌, ◌++◌, arith, length, keep,
  length-append, length-keep-le, All,
}
use katalyst.Prelude.Float64.{Float64}
use katalyst.State.CircuitBreaker.Prune.{is_recent, prune_older_than-keep}
use katalyst.State.CircuitBreaker.{
  ControllerState, fresh, succeed, fail, check, Call, record_successes, record_failures,
  is_trippeds, probe_completeds, trips, resets,
}
use katalyst.State.CircuitBreaker.Local.{local, local_run}

module _ (Fl : Float64) where
  open Fl use {F, of_nat, div, leb as leb_f}

  -- The failures of the window and their share of all records, as the policy states them.
  abbrev pub ShouldTrip : F → ℕ → ℕ → ControllerState → Type 0
  ShouldTrip threshold window now s =
      let failed = length (keep (is_recent window now) (s.failures ++ now ∷ [])) in
      let total = length (keep (is_recent window now) s.successes) + failed in
      (5 ≤ total) × (leb_f threshold (div (of_nat failed) (of_nat total)) ≡ true)

  -- After `RecordFailure` the breaker is tripped exactly if it was tripped, was half open, or the
  -- window holds at least five records of which the failures make up the threshold's share.
  pub fail-tripped :
      (threshold : F) (window now : ℕ) (s : ControllerState)
      → ((fail Fl threshold window now s).tripped ≡ true)
        ↔ ((s.tripped ≡ true) ⊎ (s.half_open ≡ true) ⊎ ShouldTrip threshold window now s)
  unfolding fail
  fail-tripped threshold window now s = ground (
    arith,
    prune_older_than-keep window now (s.failures ++ now ∷ []),
    prune_older_than-keep window now s.successes,
  )

  -- The calls that are not a manual trip, and the number of records among them.
  abbrev pub NoTrip : ℕ × Call → Type 0
  NoTrip (now, trips) = ⊥
  NoTrip (now, record_successes) = Unit
  NoTrip (now, _) = Unit

  abbrev pub count_records : List (ℕ × Call) → ℕ
  count_records [] = 0
  count_records ((now, record_successes) ∷ cs) = suc (count_records cs)
  count_records ((now, record_failures) ∷ cs) = suc (count_records cs)
  count_records ((now, _) ∷ cs) = count_records cs

  -- A breaker that is closed and has seen `n` records at most.
  record IsQuiet (n : ℕ) (s : ControllerState) : Type 0 where
    not_tripped : s.tripped ≡ false
    not_half_open : s.half_open ≡ false
    few : length s.successes + length s.failures ≤ n

  succeed-IsQuiet :
      (n window now : ℕ) (s : ControllerState)
      → IsQuiet n s
      → IsQuiet (suc n) (succeed window now s)
  unfolding succeed
  succeed-IsQuiet n window now s q = ground (
    arith,
    prune_older_than-keep window now (s.successes ++ now ∷ []),
    prune_older_than-keep window now s.failures,
    length-keep-le (is_recent window now) (s.successes ++ now ∷ []),
    length-keep-le (is_recent window now) s.failures,
    length-append s.successes (now ∷ []),
  )

  fail-IsQuiet :
      (threshold : F) (n window now : ℕ) (s : ControllerState)
      → n < 4
      → IsQuiet n s
      → IsQuiet (suc n) (fail Fl threshold window now s)
  unfolding fail
  fail-IsQuiet threshold n window now s h q = ground (
    arith,
    prune_older_than-keep window now (s.failures ++ now ∷ []),
    prune_older_than-keep window now s.successes,
    length-keep-le (is_recent window now) (s.failures ++ now ∷ []),
    length-keep-le (is_recent window now) s.successes,
    length-append s.failures (now ∷ []),
  )

  local-IsQuiet :
      (threshold : F) (n window cooldown : ℕ) (s : ControllerState) (c : ℕ × Call)
      → NoTrip c
      → n + count_records (c ∷ []) < 5
      → IsQuiet n s
      → IsQuiet (n + count_records (c ∷ [])) (local Fl threshold window cooldown s c)
  unfolding local check
  local-IsQuiet threshold n window cooldown s (now, record_successes) t h q =
      let r = succeed-IsQuiet n window now s q in ground arith
  local-IsQuiet threshold n window cooldown s (now, record_failures) t h q =
      let r = fail-IsQuiet threshold n window now s (omega arith) q in ground arith
  local-IsQuiet threshold n window cooldown s (now, is_trippeds) t h q = ground arith
  local-IsQuiet threshold n window cooldown s (now, probe_completeds) t h q = ground arith
  local-IsQuiet threshold n window cooldown s (now, trips) t h q = absurd t
  local-IsQuiet threshold n window cooldown s (now, resets) t h q = ground arith

  count_records-cons :
      (c : ℕ × Call) (cs : List (ℕ × Call))
      → count_records (c ∷ cs) ≡ count_records (c ∷ []) + count_records cs
  count_records-cons (now, record_successes) cs = omega arith
  count_records-cons (now, record_failures) cs = omega arith
  count_records-cons (now, is_trippeds) cs = omega arith
  count_records-cons (now, probe_completeds) cs = omega arith
  count_records-cons (now, trips) cs = omega arith
  count_records-cons (now, resets) cs = omega arith

  local_run-IsQuiet :
      (threshold : F) (n window cooldown : ℕ) (s : ControllerState) (cs : List (ℕ × Call))
      → All NoTrip cs
      → n + count_records cs < 5
      → IsQuiet n s
      → (local_run Fl threshold window cooldown s cs).tripped ≡ false
  unfolding local_run
  local_run-IsQuiet threshold n window cooldown s [] t h q = q.not_tripped
  local_run-IsQuiet threshold n window cooldown s (c ∷ cs) t h q =
      let split = count_records-cons c cs in
      local_run-IsQuiet threshold (n + count_records (c ∷ [])) window cooldown
        (local Fl threshold window cooldown s c) cs t.1 (omega arith)
        (local-IsQuiet threshold n window cooldown s c t.0 (omega arith) q)

  -- A new controller's breaker answers `IsTripped` with false after any calls that hold no manual
  -- trip and fewer than five records, whatever the threshold, the window and the times are.
  pub few_records-check :
      (threshold : F) (window cooldown now : ℕ) (cs : List (ℕ × Call))
      → All NoTrip cs
      → count_records cs < 5
      → (check cooldown now (local_run Fl threshold window cooldown fresh cs)).1 ≡ false
  unfolding check
  few_records-check threshold window cooldown now cs t h =
      let quiet =
        local_run-IsQuiet threshold 0 window cooldown fresh cs t (omega arith)
          (record { not_tripped = refl; not_half_open = refl; few = omega arith }) in
      ground arith

  -- A call before a time `end` that is neither a manual trip nor a reset.
  abbrev pub Before : ℕ → ℕ × Call → Type 0
  Before end (now, record_successes) = now < end
  Before end (now, trips) = ⊥
  Before end (now, resets) = ⊥
  Before end (now, _) = now < end

  record IsOpen (end cooldown : ℕ) (s : ControllerState) : Type 0 where
    is_tripped : s.tripped ≡ true
    not_half_open : s.half_open ≡ false
    until : s.tripped_at + cooldown ≡ end

  local-IsOpen :
      (threshold : F) (end window cooldown : ℕ) (s : ControllerState) (c : ℕ × Call)
      → Before end c
      → IsOpen end cooldown s
      → IsOpen end cooldown (local Fl threshold window cooldown s c)
  unfolding local check succeed fail
  local-IsOpen threshold end window cooldown s (now, record_successes) b o = ground arith
  local-IsOpen threshold end window cooldown s (now, record_failures) b o = ground arith
  local-IsOpen threshold end window cooldown s (now, is_trippeds) b o = ground arith
  local-IsOpen threshold end window cooldown s (now, probe_completeds) b o = ground arith
  local-IsOpen threshold end window cooldown s (now, trips) b o = absurd b
  local-IsOpen threshold end window cooldown s (now, resets) b o = absurd b

  local_run-IsOpen :
      (threshold : F) (end window cooldown : ℕ) (s : ControllerState) (cs : List (ℕ × Call))
      → All (Before end) cs
      → IsOpen end cooldown s
      → IsOpen end cooldown (local_run Fl threshold window cooldown s cs)
  unfolding local_run
  local_run-IsOpen threshold end window cooldown s [] b o = o
  local_run-IsOpen threshold end window cooldown s (c ∷ cs) b o =
      local_run-IsOpen threshold end window cooldown (local Fl threshold window cooldown s c) cs b.1
        (local-IsOpen threshold end window cooldown s c b.0 o)

  -- A breaker that is tripped and not half open blocks until its cooldown is over: whatever is
  -- recorded, asked or completed before that time, with no manual trip and no reset, `IsTripped`
  -- answers true at any time before it.
  pub cooldown-check :
      (threshold : F) (window cooldown now : ℕ) (s : ControllerState) (cs : List (ℕ × Call))
      → s.tripped ≡ true
      → s.half_open ≡ false
      → All (Before (s.tripped_at + cooldown)) cs
      → now < s.tripped_at + cooldown
      → (check cooldown now (local_run Fl threshold window cooldown s cs)).1 ≡ true
  unfolding check
  cooldown-check threshold window cooldown now s cs t h b early =
      let still =
        local_run-IsOpen threshold (s.tripped_at + cooldown) window cooldown s cs b
          (record { is_tripped = t; not_half_open = h; until = refl }) in
      ground arith
