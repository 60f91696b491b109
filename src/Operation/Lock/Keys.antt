-- ===== src/Operation/Lock/Keys.antt =====
-- app/internal/operation/lock.go: what the loop of `NormalizeLockRequest` keeps.
use setpoint_ci_mirror.Base.{
  ◌≡◌, sym, ◌∙◌, subst, ◌⊎◌, inl, inr, true, false, not, ◌&&◌, List, [], ◌∷◌, ok, >>=-eq-ok,
  is_empty, contains, All, Bool-cases, arith,
}
use setpoint_ci_mirror.Base.Members.{IsDistinct}
use setpoint_ci_mirror.Base.Text.{Text, text_beq_iff, text_eq, trim_space}
use setpoint_ci_mirror.Base.Text.Trim.{trim_space_idem}
use setpoint_ci_mirror.Operation.Lock.{LockResource, keys, trim_keys}

-- The trimmed keys, as the caller mentions them.
abbrev pub trimmed : List LockResource → List Text
trimmed [] = []
trimmed (r ∷ rs) = trim_space r.key ∷ trimmed rs

-- One round of the loop that did not fail.
trim_keys-cases :
    (seen : List Text) (r : LockResource) (rs out : List LockResource)
    → trim_keys seen (r ∷ rs) ≡ ok out
    → (is_empty (trim_space r.key) ≡ false)
      × ((contains (trim_space r.key) seen ≡ true) × (trim_keys seen rs ≡ ok out)
          ⊎ (contains (trim_space r.key) seen ≡ false)
            × ((new : List LockResource) × (trim_keys (trim_space r.key ∷ seen) rs ≡ ok new)
                × (out ≡ record { key = trim_space r.key } ∷ new)))
unfolding trim_keys
trim_keys-cases seen r rs out h = elim (Bool-cases (is_empty (trim_space r.key))) [
  | inl e ↦ cc (rw e at h)
  | inr e ↦ elim (Bool-cases (contains (trim_space r.key) seen)) [
    | inl old ↦ (e, inl (old, rw (e, old) at h))
    | inr new ↦
        let (rest, g, k) =
          >>=-eq-ok (trim_keys (trim_space r.key ∷ seen) rs)
            (λ out'. ok (record { key = trim_space r.key } ∷ out')) (rw (e, new) at h) in
        (e, inr (new, (rest, g, cc k)))
  ]
]

-- The loop keeps the mentioned keys that were not seen before.
pub contains-trim_keys :
    (k : Text) (seen : List Text) (rs out : List LockResource)
    → trim_keys seen rs ≡ ok out
    → contains k (keys out) ≡ (contains k (trimmed rs) && not (contains k seen))
unfolding trim_keys
contains-trim_keys k seen [] out h = ground arith
contains-trim_keys k seen (r ∷ rs) out h = elim (trim_keys-cases seen r rs out h).1 [
  | inl (old, g) ↦
      ground (arith, contains-trim_keys k seen rs out g, text_beq_iff (trim_space r.key) k)
  | inr (new, (rest, g, e)) ↦ ground (
    arith,
    contains-trim_keys k (trim_space r.key ∷ seen) rs rest g,
    text_beq_iff (trim_space r.key) k,
  )
]

trim_keys-nil : (seen : List Text) (out : List LockResource) → trim_keys seen [] ≡ ok out → [] ≡ out
unfolding trim_keys
trim_keys-nil seen out h = cc

pub trim_keys-IsDistinct :
    (seen : List Text) (rs out : List LockResource)
    → trim_keys seen rs ≡ ok out
    → IsDistinct (keys out)
unfolding trim_keys
trim_keys-IsDistinct seen [] out h = subst (λ o. IsDistinct (keys o)) (trim_keys-nil seen out h) tt
trim_keys-IsDistinct seen (r ∷ rs) out h = elim (trim_keys-cases seen r rs out h).1 [
  | inl (old, g) ↦ trim_keys-IsDistinct seen rs out g
  | inr (new, (rest, g, e)) ↦
      subst (λ o. IsDistinct (keys o)) (sym e)
        (
          contains-trim_keys (trim_space r.key) (trim_space r.key ∷ seen) rs rest g
              ∙ ground (arith, text_beq_iff (trim_space r.key) (trim_space r.key)),
          trim_keys-IsDistinct (trim_space r.key ∷ seen) rs rest g,
        )
]

-- A key that survives: trimmed, and not empty.
abbrev pub IsClean : Text → Type 0
IsClean k = (trim_space k ≡ k) × (is_empty k ≡ false)

pub trim_keys-IsClean :
    (seen : List Text) (rs out : List LockResource)
    → trim_keys seen rs ≡ ok out
    → All IsClean (keys out)
unfolding trim_keys
trim_keys-IsClean seen [] out h = subst (λ o. All IsClean (keys o)) (trim_keys-nil seen out h) tt
trim_keys-IsClean seen (r ∷ rs) out h =
    let (full, c) = trim_keys-cases seen r rs out h in
    elim c [
      | inl (old, g) ↦ trim_keys-IsClean seen rs out g
      | inr (new, (rest, g, e)) ↦
          subst (λ o. All IsClean (keys o)) (sym e)
            ((trim_space_idem r.key, full), trim_keys-IsClean (trim_space r.key ∷ seen) rs rest g)
    ]
