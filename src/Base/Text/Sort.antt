-- ===== src/Base/Text/Sort.antt =====
-- Sorting by a text, as sort.Slice does with `<` on different keys.
use setpoint_ci_mirror.Base.{
  ◌≡◌, refl, ap, ◌∙◌, inl, inr, true, false, ◌||◌, List, [], ◌∷◌, map, contains, ◌==◌, All, All-map,
  Bool-cases, if◌then◌else◌, arith,
}
use setpoint_ci_mirror.Base.Members.{IsDistinct}
use setpoint_ci_mirror.Base.Text.{Text, text_beq_iff, text_eq, text_lt}
use setpoint_ci_mirror.Base.Text.Order.{text_lt_trans, text_lt_total}

-- Each key is below all that follow it.
abbrev pub IsAscending : List Text → Type 0
IsAscending [] = Unit
IsAscending (k ∷ ks) = All (λ j. text_lt k j ≡ true) ks × IsAscending ks

-- Two different keys of which the first is not below the second.
lt_of_new : (s r : Text) → (s == r) ≡ false → text_lt s r ≡ false → text_lt r s ≡ true
lt_of_new s r new e = elim (Bool-cases (text_lt r s)) [
  | inl h ↦ h
  | inr h ↦ cc ((text_beq_iff s r).1 (text_lt_total s r e h))
]

module _ {A : Type 0} (key : A → Text) where
  unfoldable pub insert_by : A → List A → List A
  insert_by x [] = x ∷ []
  insert_by x (y ∷ ys) =
      let later = insert_by x ys in if text_lt (key y) (key x) then y ∷ later else x ∷ y ∷ ys

  unfoldable pub sort_by : List A → List A
  unfolding insert_by
  sort_by [] = []
  sort_by (x ∷ xs) = insert_by x (sort_by xs)

  contains-insert_by :
      (k : Text) (x : A) (xs : List A)
      → contains k (map key (insert_by x xs)) ≡ (key x == k || contains k (map key xs))
  unfolding insert_by
  contains-insert_by k x [] = refl
  contains-insert_by k x (y ∷ ys) = ground (arith, contains-insert_by k x ys)

  pub contains-sort_by :
      (k : Text) (xs : List A) → contains k (map key (sort_by xs)) ≡ contains k (map key xs)
  unfolding sort_by
  contains-sort_by k [] = refl
  contains-sort_by k (x ∷ xs) =
      contains-insert_by k x (sort_by xs) ∙ ap (λ b. key x == k || b) (contains-sort_by k xs)

  All-insert_by : (P : A → Type 0) (x : A) (xs : List A) → P x → All P xs → All P (insert_by x xs)
  unfolding insert_by
  All-insert_by P x [] h hs = (h, tt)
  All-insert_by P x (y ∷ ys) h hs = elim (Bool-cases (text_lt (key y) (key x))) [
    | inl e ↦ rw e (hs.0, All-insert_by P x ys h hs.1)
    | inr e ↦ rw e (h, hs)
  ]

  pub All-sort_by : (P : A → Type 0) (xs : List A) → All P xs → All P (sort_by xs)
  unfolding sort_by
  All-sort_by P [] h = tt
  All-sort_by P (x ∷ xs) h = All-insert_by P x (sort_by xs) h.0 (All-sort_by P xs h.1)

  All-keys : (P : Text → Type 0) (xs : List A) → All (λ x. P (key x)) xs → All P (map key xs)
  All-keys P [] h = tt
  All-keys P (x ∷ xs) h = (h.0, All-keys P xs h.1)

  keys-All : (P : Text → Type 0) (xs : List A) → All P (map key xs) → All (λ x. P (key x)) xs
  keys-All P [] h = tt
  keys-All P (x ∷ xs) h = (h.0, keys-All P xs h.1)

  pub All-keys-sort_by :
      (P : Text → Type 0) (xs : List A) → All P (map key xs) → All P (map key (sort_by xs))
  All-keys-sort_by P xs h =
      All-keys P (sort_by xs) (All-sort_by (λ x. P (key x)) xs (keys-All P xs h))

  insert_by-IsAscending :
      (x : A) (xs : List A)
      → contains (key x) (map key xs) ≡ false
      → IsAscending (map key xs)
      → IsAscending (map key (insert_by x xs))
  unfolding insert_by
  insert_by-IsAscending x [] new h = (tt, tt)
  insert_by-IsAscending x (y ∷ ys) new h = elim (Bool-cases (text_lt (key y) (key x))) [
    | inl e ↦ rw e (
      All-keys (λ j. text_lt (key y) j ≡ true) (insert_by x ys)
          (All-insert_by (λ z. text_lt (key y) (key z) ≡ true) x ys e
            (keys-All (λ j. text_lt (key y) j ≡ true) ys h.0)),
      insert_by-IsAscending x ys (ground arith) h.1,
    )
    | inr e ↦
        let below : text_lt (key x) (key y) ≡ true = lt_of_new (key y) (key x) (ground arith) e in
        rw e ((below, All-map _ _ (map key ys) (λ j. text_lt_trans (key x) (key y) j below) h.0), h)
  ]

  pub sort_by-IsAscending :
      (xs : List A) → IsDistinct (map key xs) → IsAscending (map key (sort_by xs))
  unfolding sort_by
  sort_by-IsAscending [] h = tt
  sort_by-IsAscending (x ∷ xs) h =
      insert_by-IsAscending x (sort_by xs) (contains-sort_by (key x) xs ∙ h.0)
        (sort_by-IsAscending xs h.1)
