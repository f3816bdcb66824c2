-- ===== src/Rightsizer/Dedup.antt =====
-- Recommendations for one container, over any sequence of statuses and cleanups.
use katalyst.Prelude.{
  ℕ, ◌+◌, ◌*◌, ◌≤◌, String, ◌≡◌, refl, sym, ap, ◌∙◌, subst, ◌⊎◌, inl, inr, Bool, true, false, ◌&&◌,
  not, some, List, [], ◌∷◌, arith, str_eq, eq_iff, ltb, ◌==◌, if◌then◌else◌, length, Bool-cases,
  All,
}
use katalyst.Prelude.Float64.{Float64, FloatText}
use katalyst.Prelude.GoMap.{
  GoMap, lookup, insert, lookup-insert, lookup-retain, insert-HasKeysOnce, retain-HasKeysOnce,
  HasKeysOnce,
}
use katalyst.Rightsizer.OomTracker.{
  ContainerStatus, PodInfo, Bump, hour, oom_key, seen_lately, bump_containers, track_status,
  cleanup,
}

pub data Event : Type 0 where
  sees : PodInfo → ContainerStatus → Event
  cleans : Event

-- The two guards of a status.
abbrev is_handled : PodInfo → ContainerStatus → ℕ → GoMap ℕ → Bool
is_handled p cs now seen = cs.oom_killed && not (seen_lately now (lookup (oom_key p cs) seen))

-- The two guards of a status, as one.
guards :
    (a b : Bool) (x y : GoMap ℕ × List Bump)
    → (if not a then x else if b then x else y).0 ≡ (if a && not b then y.0 else x.0)
guards false b x y = refl
guards true false x y = refl
guards true true x y = refl

module _ (Fl : Float64) (text : FloatText Fl) (bump_multiplier : Fl.F) where
  unfoldable pub step : ℕ → Event → GoMap ℕ → GoMap ℕ
  step now (sees p cs) seen = (track_status Fl text bump_multiplier p cs now seen).0
  step now cleans seen = cleanup now seen

  -- Whether a status adds a recommendation.
  unfoldable pub emits : PodInfo → ContainerStatus → ℕ → GoMap ℕ → Bool
  emits p cs now seen = not (length (track_status Fl text bump_multiplier p cs now seen).1 == 0)

  abbrev pub note : ℕ → Event → GoMap ℕ → List (String × ℕ) → List (String × ℕ)
  note now (sees p cs) seen log = if emits p cs now seen then (oom_key p cs, now) ∷ log else log
  note now cleans seen log = log

  -- The keys for which recommendations are added and when, in order.
  unfoldable pub emissions : List (ℕ × Event) → GoMap ℕ → List (String × ℕ)
  unfolding step
  emissions [] seen = []
  emissions ((now, e) ∷ events) seen = note now e seen (emissions events (step now e seen))

  -- A status that fails a guard adds nothing.
  emits-is_handled :
      (p : PodInfo) (cs : ContainerStatus) (now : ℕ) (seen : GoMap ℕ)
      → emits p cs now seen ≡ true
      → is_handled p cs now seen ≡ true
  unfolding emits track_status
  emits-is_handled p cs now seen h = ground (arith, h)

  step-sees :
      (now : ℕ) (p : PodInfo) (cs : ContainerStatus) (seen : GoMap ℕ)
      → step now (sees p cs) seen
        ≡ (if is_handled p cs now seen then insert (oom_key p cs) now seen else seen)
  unfolding step track_status
  step-sees now p cs seen =
      guards cs.oom_killed (seen_lately now (lookup (oom_key p cs) seen)) (seen, [])
        (insert (oom_key p cs) now seen, bump_containers Fl text bump_multiplier p cs p.containers)

  step-HasKeysOnce :
      (now : ℕ) (e : Event) (seen : GoMap ℕ) → HasKeysOnce seen → HasKeysOnce (step now e seen)
  unfolding step cleanup
  step-HasKeysOnce now cleans seen h =
      retain-HasKeysOnce (λ k v. not (ltb (v + 2 * hour) now)) seen h
  step-HasKeysOnce now (sees p cs) seen h = elim (Bool-cases (is_handled p cs now seen)) [
    | inl y ↦
        subst HasKeysOnce (sym (step-sees now p cs seen ∙ rw y))
          (insert-HasKeysOnce (oom_key p cs) now seen h)
    | inr n ↦ subst HasKeysOnce (sym (step-sees now p cs seen ∙ rw n)) h
  ]

  -- A key that was handled at a time: it is remembered since, or an hour has passed.
  abbrev pub Remembers : String → ℕ → ℕ → GoMap ℕ → Type 0
  Remembers k last now seen =
      ((l : ℕ) × (lookup k seen ≡ some l) × (last ≤ l)) ⊎ (last + hour ≤ now)

  later-Remembers :
      (k : String) (last now soon : ℕ) (seen : GoMap ℕ)
      → now ≤ soon
      → Remembers k last now seen
      → Remembers k last soon seen
  later-Remembers k last now soon seen h (inl r) = inl r
  later-Remembers k last now soon seen h (inr old) = inr (omega arith)

  step-Remembers :
      (k : String) (last now : ℕ) (e : Event) (seen : GoMap ℕ)
      → HasKeysOnce seen
      → last ≤ now
      → Remembers k last now seen
      → Remembers k last now (step now e seen)
  unfolding step cleanup
  step-Remembers k last now e seen once h (inr old) = inr old
  step-Remembers k last now cleans seen once h (inl (l, e, low)) =
      let kept = lookup-retain (λ j v. not (ltb (v + 2 * hour) now)) k seen once in
      elim (Bool-cases (ltb (l + 2 * hour) now)) [
        | inl y ↦ inr (ground (arith, y, low))
        | inr n ↦ inl (l, (kept ∙ rw (e, n)), low)
      ]
  step-Remembers k last now (sees p cs) seen once h (inl (l, e, low)) =
      elim (Bool-cases (is_handled p cs now seen)) [
        | inr n ↦ inl (l, ap (lookup k) (step-sees now p cs seen ∙ rw n) ∙ e, low)
        | inl y ↦
            let written : lookup k (step now (sees p cs) seen)
                ≡ (if str_eq (oom_key p cs) k then some now else lookup k seen) =
              ap (lookup k) (step-sees now p cs seen ∙ rw y)
              ∙ lookup-insert (oom_key p cs) k now seen in
            elim (Bool-cases (str_eq (oom_key p cs) k)) [
              | inl same ↦ inl (now, written ∙ rw same, h)
              | inr other ↦ inl (l, written ∙ (rw other) ∙ e, low)
            ]
      ]

  -- A later entry of the same key is an hour later at least.
  abbrev pub IsSpaced : String → ℕ → String × ℕ → Type 0
  IsSpaced k last (j, t) = (str_eq j k ≡ false) ⊎ (last + hour ≤ t)

  -- Times do not fall.
  abbrev pub IsOrdered : ℕ → List (ℕ × Event) → Type 0
  IsOrdered now [] = Unit
  IsOrdered now ((t, e) ∷ events) = (now ≤ t) × IsOrdered t events

  first-IsSpaced :
      (k : String) (last t : ℕ) (p : PodInfo) (cs : ContainerStatus) (seen : GoMap ℕ)
      → Remembers k last t seen
      → is_handled p cs t seen ≡ true
      → IsSpaced k last (oom_key p cs, t)
  first-IsSpaced k last t p cs seen (inr old) y = inr old
  first-IsSpaced k last t p cs seen (inl (l, e, low)) y =
      elim (Bool-cases (str_eq (oom_key p cs) k)) [
        | inr other ↦ inl other
        | inl same ↦
            let here : lookup (oom_key p cs) seen ≡ some l =
              ap (λ x. lookup x seen) ((eq_iff (oom_key p cs) k).0 same) ∙ e in
            let late : seen_lately t (lookup (oom_key p cs) seen) ≡ false = ground (arith, y) in
            let passed : ltb t (l + hour) ≡ false = sym (ap (seen_lately t) here) ∙ late in
            inr (ground (arith, passed, low))
      ]

  emissions-Remembers :
      (k : String) (last now : ℕ) (events : List (ℕ × Event)) (seen : GoMap ℕ)
      → HasKeysOnce seen
      → last ≤ now
      → IsOrdered now events
      → Remembers k last now seen
      → All (IsSpaced k last) (emissions events seen)
  unfolding emissions
  emissions-Remembers k last now [] seen once h ordered r = tt
  emissions-Remembers k last now ((t, cleans) ∷ events) seen once h (soon, ordered) r =
      let known = later-Remembers k last now t seen soon r in
      emissions-Remembers k last t events (step t cleans seen) (step-HasKeysOnce t cleans seen once)
        (omega arith) ordered (step-Remembers k last t cleans seen once (omega arith) known)
  emissions-Remembers k last now ((t, sees p cs) ∷ events) seen once h (soon, ordered) r =
      let known = later-Remembers k last now t seen soon r in
      let rest =
        emissions-Remembers k last t events (step t (sees p cs) seen)
          (step-HasKeysOnce t (sees p cs) seen once) (omega arith) ordered
          (step-Remembers k last t (sees p cs) seen once (omega arith) known) in
      elim (Bool-cases (emits p cs t seen)) [
        | inr n ↦ rw n rest
        | inl y ↦
            rw y (first-IsSpaced k last t p cs seen known (emits-is_handled p cs t seen y), rest)
      ]

  -- Of two recommendations for one container, the later is at least an hour after the earlier.
  abbrev pub AreSpaced : List (String × ℕ) → Type 0
  AreSpaced [] = Unit
  AreSpaced ((k, t) ∷ log) = All (IsSpaced k t) log × AreSpaced log

  from-AreSpaced :
      (now : ℕ) (events : List (ℕ × Event)) (seen : GoMap ℕ)
      → HasKeysOnce seen
      → IsOrdered now events
      → AreSpaced (emissions events seen)
  unfolding emissions
  from-AreSpaced now [] seen once h = tt
  from-AreSpaced now ((t, cleans) ∷ events) seen once (soon, h) =
      from-AreSpaced t events (step t cleans seen) (step-HasKeysOnce t cleans seen once) h
  from-AreSpaced now ((t, sees p cs) ∷ events) seen once (soon, h) =
      let after : GoMap ℕ = step t (sees p cs) seen in
      let after_once = step-HasKeysOnce t (sees p cs) seen once in
      let rest = from-AreSpaced t events after after_once h in
      elim (Bool-cases (emits p cs t seen)) [
        | inr n ↦ rw n rest
        | inl y ↦
            let written : lookup (oom_key p cs) after ≡ some t =
              ap (lookup (oom_key p cs))
                (step-sees t p cs seen ∙ rw (emits-is_handled p cs t seen y))
              ∙ lookup-insert (oom_key p cs) (oom_key p cs) t seen
              ∙ rw ((eq_iff (oom_key p cs) (oom_key p cs)).1 refl) in
            let spaced =
              emissions-Remembers (oom_key p cs) t t events after after_once (omega arith) h
                (inl (t, written, omega arith)) in
            rw y (spaced, rest)
      ]

  -- However statuses are seen and the tracker is cleaned up, in the order of their times and from no
  -- memory, any two times at which it adds recommendations for one container of one pod are at least
  -- an hour apart.
  pub emissions-AreSpaced :
      (now : ℕ) (events : List (ℕ × Event)) → IsOrdered now events → AreSpaced (emissions events [])
  emissions-AreSpaced now events h = from-AreSpaced now events [] tt h
