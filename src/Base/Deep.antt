-- ===== src/Base/Deep.antt =====
-- `reflect.DeepEqual` on the types that the program compares: numbers, texts, structures, slices and
-- optional pointers, each an instance of `Eq`. A slice is a list, so that a nil slice and an empty
-- one are not told apart.
use mathlib.Core.Path.{◌≡◌, sym, ap, ◌∙◌}
use mathlib.Core.Logic.{◌↔◌}
use mathlib.Core.Bool.{Bool, true, false, ◌&&◌}
use mathlib.Core.Option.{Option, none, some}
use mathlib.Core.List.{List}
use native.Mathlib.Omega.{arith}
use setpoint_ci_mirror.Base.Tests.{Eq, nat_eq}
use setpoint_ci_mirror.Base.Lists.{list_beq, list_beq_iff}

-- A structure is compared by its fields: `fields` takes it apart and `build` is its inverse.
unfoldable pub eq_by {ℓ κ} :
    {A : Type ℓ} {B : Type κ} (fields : A → B) (build : B → A)
    → ((a : A) → build (fields a) ≡ a)
    → Eq B
    → Eq A
eq_by fields build inverse e = record {
  beq = λ a b. e.beq (fields a) (fields b);
  beq_iff = λ a b. (
    λ h.
        let same : fields a ≡ fields b = (e.beq_iff (fields a) (fields b)).0 h in
        sym (inverse a) ∙ ap build same ∙ inverse b,
    λ h. (e.beq_iff (fields a) (fields b)).1 (ap fields h),
  );
}

module _ {ℓ κ} {A : Type ℓ} {B : Type κ} where
  pair_iff :
      (e : Eq A) (f : Eq B) (p q : A × B) → ((e.beq p.0 q.0 && f.beq p.1 q.1) ≡ true) ↔ (p ≡ q)
  pair_iff e f p q = ground (arith, e.beq_iff p.0 q.0, f.beq_iff p.1 q.1)

  unfoldable pub pair_eq : Eq A → Eq B → Eq (A × B)
  unfolding pair_iff
  pair_eq e f = record {
    beq = λ p q. e.beq p.0 q.0 && f.beq p.1 q.1;
    beq_iff = λ p q. pair_iff e f p q;
  }

module _ {ℓ} {A : Type ℓ} where
  unfoldable pub list_eq : Eq A → Eq (List A)
  list_eq e = record {
    beq = λ xs ys. list_beq ⦃e = e⦄ xs ys;
    beq_iff = λ xs ys. list_beq_iff ⦃e = e⦄ xs ys;
  }

  abbrev pub option_beq : Eq A → Option A → Option A → Bool
  option_beq e none none = true
  option_beq e (some a) (some b) = e.beq a b
  option_beq e _ _ = false

  option_iff : (e : Eq A) (a b : Option A) → (option_beq e a b ≡ true) ↔ (a ≡ b)
  option_iff e none none = ground arith
  option_iff e none (some b) = ground arith
  option_iff e (some a) none = ground arith
  option_iff e (some a) (some b) = ground (arith, e.beq_iff a b)

  unfoldable pub option_eq : Eq A → Eq (Option A)
  unfolding option_iff
  option_eq e = record { beq = λ a b. option_beq e a b; beq_iff = λ a b. option_iff e a b }

abbrev pub bool_beq : Bool → Bool → Bool
bool_beq true b = b
bool_beq false true = false
bool_beq false false = true

pub bool_beq_iff : (a b : Bool) → (bool_beq a b ≡ true) ↔ (a ≡ b)
bool_beq_iff true b = ground arith
bool_beq_iff false true = ground arith
bool_beq_iff false false = ground arith

instance abbrev pub bool_eq : Eq Bool
bool_eq = record { beq = bool_beq; beq_iff = bool_beq_iff }
