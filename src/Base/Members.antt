-- ===== src/Base/Members.antt =====
-- Membership in a list of rows, and columns whose entries are all different.
use mathlib.Core.Path.{◌≡◌, refl, sym, ap, ◌∙◌}
use mathlib.Core.Logic.{◌⊎◌, inl, inr}
use mathlib.Core.Bool.{Bool, true, false}
use mathlib.Core.Option.{none, some}
use mathlib.Core.List.{List, [], ◌∷◌, ◌++◌, map, Memᴰ}
use native.Mathlib.Omega.{arith}
use setpoint_ci_mirror.Base.Tests.{Eq, ◌==◌, Bool-cases}
use setpoint_ci_mirror.Base.Lists.{contains, find, keep, replace}

module _ {ℓ} {A : Type ℓ} where
  pub mem-cases : {x y : A} {ys : List A} → Memᴰ x (y ∷ ys) → (x ≡ y) ⊎ Memᴰ x ys
  mem-cases (Memᴰ.head h) = inl h
  mem-cases (Memᴰ.tail m) = inr m

  pub keep-mem :
      (p : A → Bool) (x : A) (xs : List A) → Memᴰ x (keep p xs) → Memᴰ x xs × (p x ≡ true)
  keep-mem p x [] m = elim m [ ]
  keep-mem p x (y ∷ ys) m = elim (Bool-cases (p y)) [
    | inl e ↦ elim (mem-cases (rw e at m)) [
      | inl h ↦ (Memᴰ.head h, ap p h ∙ e)
      | inr n ↦ let (k, f) = keep-mem p x ys n in (Memᴰ.tail k, f)
    ]
    | inr e ↦ let (n, h) = keep-mem p x ys (rw e at m) in (Memᴰ.tail n, h)
  ]

  pub mem-keep : (p : A → Bool) (x : A) (xs : List A) → Memᴰ x xs → p x ≡ true → Memᴰ x (keep p xs)
  mem-keep p x [] m e = elim m [ ]
  mem-keep p x (y ∷ ys) (Memᴰ.head h) e = rw (sym (ap p h) ∙ e) (Memᴰ.head h)
  mem-keep p x (y ∷ ys) (Memᴰ.tail m) e = elim (Bool-cases (p y)) [
    | inl f ↦ rw f (Memᴰ.tail (mem-keep p x ys m e))
    | inr f ↦ rw f (mem-keep p x ys m e)
  ]

  pub keep-append : (p : A → Bool) (xs ys : List A) → keep p (xs ++ ys) ≡ keep p xs ++ keep p ys
  keep-append p [] ys = refl
  keep-append p (x ∷ xs) ys = elim (Bool-cases (p x)) [
    | inl e ↦ rw e (ap (λ rest. x ∷ rest) (keep-append p xs ys))
    | inr e ↦ rw e (keep-append p xs ys)
  ]

  pub find-none : (p : A → Bool) (x : A) (xs : List A) → find p xs ≡ none → Memᴰ x xs → p x ≡ false
  find-none p x [] h m = elim m [ ]
  find-none p x (y ∷ ys) h (Memᴰ.head e) = rw e (ground arith)
  find-none p x (y ∷ ys) h (Memᴰ.tail m) = find-none p x ys (ground arith) m

  pub find-some :
      (p : A → Bool) (x : A) (xs : List A) → find p xs ≡ some x → Memᴰ x xs × (p x ≡ true)
  find-some p x [] h = cc
  find-some p x (y ∷ ys) h = elim (Bool-cases (p y)) [
    | inl e ↦ (Memᴰ.head (cc (rw e at h)), cc (rw e at h))
    | inr e ↦ let (m, f) = find-some p x ys (rw e at h) in (Memᴰ.tail m, f)
  ]

module _ {ℓ} {A : Type ℓ} (p : A → Bool) (change : A → A) where
  -- The element that was changed is found as changed.
  pub find-replace :
      (xs : List A) {x : A}
      → ((y : A) → p (change y) ≡ p y)
      → find p xs ≡ some x
      → find p (replace p change xs) ≡ some (change x)
  find-replace [] keeps h = cc
  find-replace (y ∷ ys) keeps h = elim (Bool-cases (p y)) [
    | inl e ↦ ground (arith, keeps y)
    | inr e ↦ ground (arith, find-replace ys keeps (rw e at h))
  ]

  -- What another test finds is not changed.
  pub find-replace_other :
      (q : A → Bool) (xs : List A)
      → ((y : A) → q (change y) ≡ q y)
      → ((y : A) → p y ≡ true → q y ≡ false)
      → find q (replace p change xs) ≡ find q xs
  find-replace_other q [] keeps apart = refl
  find-replace_other q (y ∷ ys) keeps apart = elim (Bool-cases (p y)) [
    | inl e ↦ ground (arith, keeps y, apart y e, find-replace_other q ys keeps apart)
    | inr e ↦ ground (arith, find-replace_other q ys keeps apart)
  ]

module _ {ℓ} {A : Type ℓ} ⦃e : Eq A⦄ where
  -- No entry occurs twice.
  abbrev pub IsDistinct : List A → Type 0
  IsDistinct [] = Unit
  IsDistinct (x ∷ xs) = (contains x xs ≡ false) × IsDistinct xs

  pub mem-contains : (x : A) (xs : List A) → Memᴰ x xs → contains x xs ≡ true
  mem-contains x [] m = elim m [ ]
  mem-contains x (y ∷ ys) (Memᴰ.head h) = ground (arith, (e.beq_iff y x).1 (sym h))
  mem-contains x (y ∷ ys) (Memᴰ.tail m) = ground (arith, mem-contains x ys m)

  pub contains-mem : (x : A) (xs : List A) → contains x xs ≡ true → Memᴰ x xs
  contains-mem x (y ∷ ys) h = elim (Bool-cases (y == x)) [
    | inl f ↦ Memᴰ.head (sym ((e.beq_iff y x).0 f))
    | inr f ↦ Memᴰ.tail (contains-mem x ys (ground arith))
  ]
  contains-mem x [] h = absurd (cc)

module _ {ℓ κ} {R : Type ℓ} {A : Type κ} ⦃e : Eq A⦄ (column : R → A) where
  pub contains-column :
      (x : R) (xs : List R) → Memᴰ x xs → contains (column x) (map column xs) ≡ true
  contains-column x [] m = elim m [ ]
  contains-column x (y ∷ ys) (Memᴰ.head h) =
      ground (arith, (e.beq_iff (column y) (column x)).1 (sym (ap column h)))
  contains-column x (y ∷ ys) (Memᴰ.tail m) = ground (arith, contains-column x ys m)

  -- A distinct column tells the rows apart.
  pub row_of :
      (x y : R) (xs : List R)
      → IsDistinct (map column xs)
      → Memᴰ x xs
      → Memᴰ y xs
      → column x ≡ column y
      → x ≡ y
  row_of x y [] d m n c = elim m [ ]
  row_of x y (z ∷ zs) d (Memᴰ.head h) (Memᴰ.head g) c = h ∙ sym g
  row_of x y (z ∷ zs) d (Memᴰ.head h) (Memᴰ.tail n) c =
      absurd (cc (contains-column y zs n, d.0, ap column h, c))
  row_of x y (z ∷ zs) d (Memᴰ.tail m) (Memᴰ.head g) c =
      absurd (cc (contains-column x zs m, d.0, ap column g, c))
  row_of x y (z ∷ zs) d (Memᴰ.tail m) (Memᴰ.tail n) c = row_of x y zs d.1 m n c

  not_kept :
      (p : R → Bool) (a : A) (xs : List R)
      → contains a (map column xs) ≡ false
      → contains a (map column (keep p xs)) ≡ false
  not_kept p a [] h = refl
  not_kept p a (x ∷ xs) h = elim (Bool-cases (p x)) [
    | inl f ↦ rw f (ground (arith, not_kept p a xs (ground arith)))
    | inr f ↦ rw f (not_kept p a xs (ground arith))
  ]

  pub keep-IsDistinct :
      (p : R → Bool) (xs : List R)
      → IsDistinct (map column xs)
      → IsDistinct (map column (keep p xs))
  keep-IsDistinct p [] d = tt
  keep-IsDistinct p (x ∷ xs) d = elim (Bool-cases (p x)) [
    | inl f ↦ rw f (not_kept p (column x) xs d.0, keep-IsDistinct p xs d.1)
    | inr f ↦ rw f (keep-IsDistinct p xs d.1)
  ]
