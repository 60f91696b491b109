-- ===== src/Base/Text/Trim.antt =====
-- What `strings.TrimSpace` leaves: nothing that it would trim again.
use mathlib.Core.Path.{◌≡◌, refl, ap, ◌∙◌}
use mathlib.Core.Bool.{Bool, true, not}
use mathlib.Core.List.{[], ◌∷◌, ◌++◌, reverse, reverse-append, reverse-reverse}
use native.Mathlib.Omega.{arith}
use mathlib.Core.Logic.{inl, inr}
use setpoint_ci_mirror.Base.Tests.{Bool-cases}
use setpoint_ci_mirror.Base.Text.{Text, is_space, trim_left, trim_space}

abbrev starts_clean : Text → Bool
starts_clean [] = true
starts_clean (c ∷ s) = not (is_space c)

starts_clean-trim_left : (s : Text) → starts_clean (trim_left s) ≡ true
unfolding trim_left
starts_clean-trim_left [] = refl
starts_clean-trim_left (c ∷ s) = elim (Bool-cases (is_space c)) [
  | inl h ↦ rw h (starts_clean-trim_left s)
  | inr h ↦ rw h (rw h)
]

trim_left_clean : (s : Text) → starts_clean s ≡ true → trim_left s ≡ s
unfolding trim_left
trim_left_clean [] h = refl
trim_left_clean (c ∷ s) h = ground arith

starts_clean-init : (s t : Text) → starts_clean (s ++ t) ≡ true → starts_clean s ≡ true
starts_clean-init [] t h = refl
starts_clean-init (c ∷ s) t h = h

-- Trimming on the left keeps the end clean.
ends_clean :
    (s : Text) → starts_clean (reverse s) ≡ true → starts_clean (reverse (trim_left s)) ≡ true
unfolding trim_left
ends_clean [] h = refl
ends_clean (c ∷ s) h = elim (Bool-cases (is_space c)) [
  | inl e ↦
      rw e
        (ends_clean s (starts_clean-init (reverse s) (c ∷ []) (rw (← reverse-append (c ∷ []) s) h)))
  | inr e ↦ rw e h
]

pub trim_space_idem : (s : Text) → trim_space (trim_space s) ≡ trim_space s
unfolding trim_space
trim_space_idem s =
    let v = trim_left (reverse (trim_left s)) in
    let front : starts_clean (reverse v) ≡ true =
      ends_clean (reverse (trim_left s)) (rw reverse-reverse (starts_clean-trim_left s)) in
    ap (λ t. reverse (trim_left (reverse t))) (trim_left_clean (reverse v) front)
    ∙ ap (λ t. reverse (trim_left t)) (reverse-reverse v)
    ∙ ap reverse (trim_left_clean v (starts_clean-trim_left (reverse (trim_left s))))
