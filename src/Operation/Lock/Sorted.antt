-- ===== src/Operation/Lock/Sorted.antt =====
-- app/internal/operation/lock.go: sorting by the keys, and lists in ascending order.
use setpoint_ci_mirror.Base.{
  ◌≡◌, refl, sym, ap₂, subst, true, false, List, [], ◌∷◌, contains, ==-refl, All, arith,
}
use setpoint_ci_mirror.Base.Members.{IsDistinct}
use setpoint_ci_mirror.Base.Text.{Text, text_beq_iff, text_eq, text_lt}
use setpoint_ci_mirror.Base.Text.Sort.{
  IsAscending, contains-sort_by, sort_by-IsAscending, All-keys-sort_by,
}
use setpoint_ci_mirror.Base.Text.Order.{text_lt_irrefl, text_lt_asymm}
use setpoint_ci_mirror.Operation.Lock.{LockResource, key_of, keys, sort_keys}

pub contains-sort_keys :
    (k : Text) (rs : List LockResource) → contains k (keys (sort_keys rs)) ≡ contains k (keys rs)
unfolding sort_keys
contains-sort_keys = contains-sort_by key_of

pub sort_keys-IsAscending :
    (rs : List LockResource) → IsDistinct (keys rs) → IsAscending (keys (sort_keys rs))
unfolding sort_keys
sort_keys-IsAscending = sort_by-IsAscending key_of

pub All-sort_keys :
    (P : Text → Type 0) (rs : List LockResource) → All P (keys rs) → All P (keys (sort_keys rs))
unfolding sort_keys
All-sort_keys = All-keys-sort_by key_of

pub not_below :
    (k : Text) (ks : List Text) → All (λ j. text_lt k j ≡ true) ks → contains k ks ≡ false
not_below k [] h = refl
not_below k (j ∷ ks) h = ground (arith, text_beq_iff j k, text_lt_irrefl k, not_below k ks h.1)

below_of :
    (k j : Text) (ks : List Text)
    → All (λ i. text_lt k i ≡ true) ks
    → contains j ks ≡ true
    → text_lt k j ≡ true
below_of k j [] h m = cc
below_of k j (i ∷ ks) h m = ground (arith, text_beq_iff i j, below_of k j ks h.1)

heads_eq :
    (k j : Text) (ks js : List Text)
    → IsAscending (k ∷ ks)
    → IsAscending (j ∷ js)
    → contains k (j ∷ js) ≡ true
    → contains j (k ∷ ks) ≡ true
    → k ≡ j
heads_eq k j ks js h g m n = ground (
  arith,
  text_beq_iff k j,
  text_beq_iff j k,
  below_of k j ks h.0,
  below_of j k js g.0,
  text_lt_asymm k j,
)

tails_same :
    (k : Text) (ks js : List Text)
    → IsAscending (k ∷ ks)
    → IsAscending (k ∷ js)
    → ((i : Text) → contains i (k ∷ ks) ≡ contains i (k ∷ js))
    → (i : Text) → contains i ks ≡ contains i js
tails_same k ks js h g same i =
    ground (arith, text_beq_iff k i, same i, not_below k ks h.0, not_below k js g.0)

-- Ascending lists with the same members are the same list.
pub IsAscending-unique :
    (ks js : List Text)
    → IsAscending ks
    → IsAscending js
    → ((i : Text) → contains i ks ≡ contains i js)
    → ks ≡ js
IsAscending-unique [] [] h g same = refl
IsAscending-unique [] (j ∷ js) h g same = ground (arith, same j, ==-refl j)
IsAscending-unique (k ∷ ks) [] h g same = ground (arith, same k, ==-refl k)
IsAscending-unique (k ∷ ks) (j ∷ js) h g same =
    let e =
      heads_eq k j ks js h g (ground (arith, same k, text_beq_iff k k))
        (ground (arith, same j, text_beq_iff j j)) in
    let g' = subst (λ i. IsAscending (i ∷ js)) (sym e) g in
    let same' = subst (λ m. (i : Text) → contains i (k ∷ ks) ≡ contains i (m ∷ js)) (sym e) same in
    ap₂ ◌∷◌ e (IsAscending-unique ks js h.1 g'.1 (tails_same k ks js h g' same'))

pub keys-injective : (rs ss : List LockResource) → keys rs ≡ keys ss → rs ≡ ss
keys-injective [] [] h = refl
keys-injective [] (s ∷ ss) h = cc
keys-injective (r ∷ rs) [] h = cc
keys-injective (r ∷ rs) (s ∷ ss) h =
    ap₂ {A = Text} (λ k t. record { key = k } ∷ t) (cc) (keys-injective rs ss (cc))
