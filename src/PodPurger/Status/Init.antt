-- ===== src/PodPurger/Status/Init.antt =====
-- The loop over the init containers finds the first that says something.
use katalyst.Prelude.{
  ℕ, zero, suc, String, ◌≡◌, refl, sym, ap, ◌∙◌, subst, ◌≢◌, ◌⊎◌, inl, inr, Bool, true, false,
  Option, none, some, List, [], ◌∷◌, arith, str_eq, eq_iff, ◌==◌, Bool-cases, if◌then◌else◌, All,
}
use katalyst.PodPurger.{
  ContainerStatus, reason_of, first_of, init_ended, has_succeeded, init_waits, init_runs,
  init_status,
}
use katalyst.PodPurger.Status.{
  HasNoWait, InitSays, waits, fails, fails_unnamed, runs, IsInitSilent, FirstInit, this, later,
}

-- The code's answer on one init container, `none` if it says nothing.
abbrev init_says : ℕ → ℕ → ContainerStatus → Option String
init_says i n cs = first_of (init_waits cs.waiting) (
    if has_succeeded cs.terminated
    then none
    else first_of (init_ended cs.terminated) (init_runs i n cs.running))

abbrev AnswersInit : ℕ → ℕ → ContainerStatus → Option String → Type 0
AnswersInit i n cs none = IsInitSilent cs
AnswersInit i n cs (some s) = InitSays i n cs s

pub named : (r : String) → r ≢ "" → str_eq r "" ≡ false
named r h = elim (Bool-cases (str_eq r "")) [ inl y ↦ absurd (h ((eq_iff r "").0 y)) | inr n ↦ n ]

pub unnamed : (r : String) → str_eq r "" ≡ false → r ≢ ""
unnamed r n e = cc (n, (eq_iff r "").1 e)

failed : (code : ℕ) → code ≢ 0 → (code == 0) ≡ false
failed code h = ground arith

init_waits-none : (cs : ContainerStatus) → HasNoWait cs → init_waits cs.waiting ≡ none
init_waits-none cs (inl e) = rw e
init_waits-none cs (inr e) = rw e

pub reason_of-none : (cs : ContainerStatus) → HasNoWait cs → reason_of cs.waiting ≡ none
reason_of-none cs (inl e) = rw e
reason_of-none cs (inr e) = rw e

-- What an init container answers without a reason to wait.
quiet_says :
    (i n : ℕ) (w : Option String) (t : Option (String × ℕ)) (running : Bool)
    → (w ≡ none) ⊎ (w ≡ some "")
    → AnswersInit i n
        (record { waiting = w; terminated = t; running = running })
        (if has_succeeded t then none else first_of (init_ended t) (init_runs i n running))
quiet_says i n w none false h = (h, inr (refl, refl))
quiet_says i n w none true h = runs h refl refl
quiet_says i n w (some (r, zero)) running h = (h, inl (r, refl))
quiet_says i n w (some (r, suc code)) running h =
    let f : (suc code == 0) ≡ false = failed (suc code) (λ e. omega arith) in
    elim (Bool-cases (str_eq r "")) [
      | inr n ↦ rw (f, n) (fails r (suc code) h refl (λ e. omega arith) (unnamed r n))
      | inl y ↦
          let e : r ≡ "" = (eq_iff r "").0 y in
          rw (f, y) (fails_unnamed (suc code) h (ap (λ x. some (x, suc code)) e) (λ d. omega arith))
    ]

says_init :
    (i n : ℕ) (w : Option String) (t : Option (String × ℕ)) (running : Bool)
    → AnswersInit i n
        (record { waiting = w; terminated = t; running = running })
        (init_says i n (record { waiting = w; terminated = t; running = running }))
says_init i n none t running = quiet_says i n none t running (inl refl)
says_init i n (some r) t running = elim (Bool-cases (str_eq r "")) [
  | inr n ↦ rw n (waits r refl (unnamed r n))
  | inl y ↦ rw y (quiet_says i n (some r) t running (inr (ap some ((eq_iff r "").0 y))))
]

InitSays-init_says :
    (i n : ℕ) (cs : ContainerStatus) (s : String) → InitSays i n cs s → init_says i n cs ≡ some s
InitSays-init_says i n cs _ (waits r e h) = rw (e, named r h)
InitSays-init_says i n cs _ (fails r code w e h k) =
    rw (init_waits-none cs w, e, failed code h, named r k)
InitSays-init_says i n cs _ (fails_unnamed code w e h) = rw (init_waits-none cs w, e, failed code h)
InitSays-init_says i n cs _ (runs w e h) = rw (init_waits-none cs w, e, h)

IsInitSilent-init_says :
    (i n : ℕ) (cs : ContainerStatus) → IsInitSilent cs → init_says i n cs ≡ none
IsInitSilent-init_says i n cs (w, inl (r, e)) = rw (init_waits-none cs w, e)
IsInitSilent-init_says i n cs (w, inr (e, h)) = rw (init_waits-none cs w, e, h)

-- The loop asks one init container after the other.
join :
    (a c d : Option String) (b : Bool) (rest : Option String)
    → first_of a (if b then rest else first_of c (first_of d rest))
      ≡ first_of (first_of a (if b then none else first_of c d)) rest
join (some s) c d b rest = refl
join none c d true rest = refl
join none (some s) d false rest = refl
join none none d false rest = refl

init_status-cons :
    (i n : ℕ) (cs : ContainerStatus) (rest : List ContainerStatus)
    → init_status i n (cs ∷ rest) ≡ first_of (init_says i n cs) (init_status (suc i) n rest)
unfolding init_status
init_status-cons i n cs rest =
    join (init_waits cs.waiting) (init_ended cs.terminated) (init_runs i n cs.running)
      (has_succeeded cs.terminated) (init_status (suc i) n rest)

abbrev pub AnswersAllInit : ℕ → ℕ → List ContainerStatus → Option String → Type 0
AnswersAllInit n i css none = All IsInitSilent css
AnswersAllInit n i css (some s) = FirstInit n i css s

join_init :
    (i n : ℕ) (cs : ContainerStatus) (rest : List ContainerStatus) (o l : Option String)
    → AnswersInit i n cs o
    → AnswersAllInit n (suc i) rest l
    → AnswersAllInit n i (cs ∷ rest) (first_of o l)
join_init i n cs rest (some s) l h k = this i cs rest s h
join_init i n cs rest none (some s) h k = later i cs rest s h k
join_init i n cs rest none none h k = (h, k)

pub init_status-answers :
    (n i : ℕ) (css : List ContainerStatus) → AnswersAllInit n i css (init_status i n css)
unfolding init_status
init_status-answers n i [] = tt
init_status-answers n i (cs ∷ rest) =
    subst (AnswersAllInit n i (cs ∷ rest)) (sym (init_status-cons i n cs rest)) (
      join_init i n cs rest (init_says i n cs) (init_status (suc i) n rest)
        (says_init i n cs.waiting cs.terminated cs.running) (init_status-answers n (suc i) rest))

pub FirstInit-init_status :
    (n i : ℕ) (css : List ContainerStatus) (s : String)
    → FirstInit n i css s
    → init_status i n css ≡ some s
FirstInit-init_status n _ _ _ (this i cs rest s h) =
    init_status-cons i n cs rest ∙ rw (InitSays-init_says i n cs s h)
FirstInit-init_status n _ _ _ (later i cs rest s h k) =
    init_status-cons i n cs rest
    ∙ rw (IsInitSilent-init_says i n cs h) (FirstInit-init_status n (suc i) rest s k)

pub IsInitSilent-init_status :
    (n i : ℕ) (css : List ContainerStatus) → All IsInitSilent css → init_status i n css ≡ none
unfolding init_status
IsInitSilent-init_status n i [] h = refl
IsInitSilent-init_status n i (cs ∷ rest) (h, k) =
    init_status-cons i n cs rest
    ∙ rw (IsInitSilent-init_says i n cs h) (IsInitSilent-init_status n (suc i) rest k)
