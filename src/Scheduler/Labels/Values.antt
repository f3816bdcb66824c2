-- ===== src/Scheduler/Labels/Values.antt =====
-- Tests on the value of a label and what they decide.
use katalyst.Prelude.{
  String, ◌≡◌, refl, ◌≢◌, ◌↔◌, inl, inr, Bool, true, not, ◌&&◌, Option, none, some, List, [], ◌∷◌,
  arith, str_eq, eq_iff, &&_iff, All, Any, any_iff,
}
use katalyst.Scheduler.Labels.{holds_value}

pub trans_iff : {P Q R : Type 0} → P ↔ Q → Q ↔ R → P ↔ R
trans_iff (a, b) (c, d) = ((λ p. c (a p)), λ r. b (d r))

pub both_iff :
    {a b : Bool} {P Q : Type 0} → (a ≡ true) ↔ P → (b ≡ true) ↔ Q → ((a && b) ≡ true) ↔ (P × Q)
both_iff {a} {b} p q = (
  (λ h. let both = (&&_iff a b).0 h in (p.0 both.0, q.0 both.1)),
  λ (x, y). (&&_iff a b).1 (p.1 x, q.1 y),
)

pub some_injective : {A : Type 0} (x y : A) → some x ≡ some y → x ≡ y
some_injective x y e = cc

pub holds_value_iff :
    (val : String) (values : List String)
    → (holds_value val values ≡ true) ↔ Any (λ v. v ≡ val) values
holds_value_iff val values = any_iff (λ v. eq_iff v val) values

pub lacks_value_iff :
    (val : String) (values : List String)
    → (not (holds_value val values) ≡ true) ↔ All (λ v. v ≢ val) values
lacks_value_iff val [] = (λ _. tt, λ _. refl)
lacks_value_iff val (v ∷ vs) = ground (arith, eq_iff v val, lacks_value_iff val vs)

pub some_iff : (w v : String) → (str_eq v w ≡ true) ↔ (◌≡◌ {A = Option String} (some w) (some v))
some_iff w v = ground (arith, eq_iff v w)

pub none-Any : (values : List String) → Any (λ v. ◌≡◌ {A = Option String} none (some v)) values → ⊥
none-Any [] h = h
none-Any (v ∷ vs) (inl h) = cc
none-Any (v ∷ vs) (inr h) = none-Any vs h

pub none-All : (values : List String) → All (λ v. ◌≢◌ {A = Option String} none (some v)) values
none-All [] = tt
none-All (v ∷ vs) = ((λ e. cc), none-All vs)

pub lacks_some_iff :
    (w : String) (values : List String)
    → (not (holds_value w values) ≡ true)
      ↔ All (λ v. ◌≢◌ {A = Option String} (some w) (some v)) values
lacks_some_iff w [] = (λ _. tt, λ _. refl)
lacks_some_iff w (v ∷ vs) = ground (arith, eq_iff v w, lacks_some_iff w vs)
