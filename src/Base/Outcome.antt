-- ===== src/Base/Outcome.antt =====
-- Go's pair of a value and an error, as a sum.
use mathlib.Core.Path.{◌≡◌, refl, subst}
use mathlib.Core.Bool.{Bool, true, false}

pub data Result {ℓ} (E A : Type ℓ) : Type ℓ where
  ok : A → Result E A
  err : E → Result E A

-- `if !condition { return e }`
abbrev pub require : {E : Type 0} → Bool → E → Result E (Unit {0})
require true e = ok tt
require false e = err e

infixl 5 ◌>>=◌
abbrev pub ◌>>=◌ {ℓ} : {E A B : Type ℓ} → Result E A → (A → Result E B) → Result E B
ok x >>= next = next x
err failure >>= next = err failure

-- What a block that returned says of its first action.
pub >>=-eq-ok {ℓ} :
    {E A B : Type ℓ} (first : Result E A) (next : A → Result E B) {out : B}
    → (first >>= next) ≡ ok out
    → (x : A) × (first ≡ ok x) × (next x ≡ ok out)
>>=-eq-ok (err failure) next returned = cc
>>=-eq-ok (ok x) next returned = (x, refl, returned)

infixl 5 ◌>>◌
abbrev pub ◌>>◌ : {E B : Type 0} → Result E (Unit {0}) → Result E B → Result E B
first >> second = first >>= λ _. second

-- What a block that returned says of its first guard.
pub require->>-ok :
    {E A : Type 0} (b : Bool) (e : E) (k : Result E A) {a : A}
    → (require b e >> k) ≡ ok a
    → (b ≡ true) × (k ≡ ok a)
require->>-ok true e k h = (refl, h)
require->>-ok false e k h = cc

pub require-ok : {E : Type 0} (b : Bool) (e : E) {u : Unit {0}} → require b e ≡ ok u → b ≡ true
require-ok true e h = refl
require-ok false e h = cc

-- A predicate that holds of the value, if there is one.
abbrev pub IfOk {ℓ κ} : {E A : Type ℓ} → (A → Type κ) → Result E A → Type κ
IfOk P (ok a) = P a
IfOk P (err e) = Unit

-- A block keeps what its rest keeps after any first value.
pub bind-IfOk {ℓ κ} :
    {E A B : Type ℓ} (P : B → Type κ) (first : Result E A) (next : A → Result E B)
    → ((x : A) → first ≡ ok x → IfOk P (next x))
    → IfOk P (first >>= next)
bind-IfOk P (ok x) next h = h x refl
bind-IfOk P (err e) next h = tt

pub IfOk-ok {ℓ κ} :
    {E A : Type ℓ} (P : A → Type κ) (r : Result E A) {a : A} → IfOk P r → r ≡ ok a → P a
IfOk-ok P (ok b) {a} h e = let same : b ≡ a = cc in subst P same h
IfOk-ok P (err x) h e = absurd (cc)

pub IfOk-map {ℓ κ} :
    {E A : Type ℓ} (P Q : A → Type κ) (r : Result E A) → ((a : A) → P a → Q a) → IfOk P r → IfOk Q r
IfOk-map P Q (ok a) f h = f a h
IfOk-map P Q (err e) f h = tt

pub require-IfOk {κ} :
    {E B : Type 0} (P : B → Type κ) (b : Bool) (e : E) (rest : Result E B)
    → (b ≡ true → IfOk P rest)
    → IfOk P (require b e >> rest)
require-IfOk P true e rest h = h refl
require-IfOk P false e rest h = tt

pub require-IfOk_last {κ} :
    {E : Type 0} (P : Unit {0} → Type κ) (b : Bool) (e : E)
    → (b ≡ true → P tt)
    → IfOk P (require b e)
require-IfOk_last P true e h = h refl
require-IfOk_last P false e h = tt
