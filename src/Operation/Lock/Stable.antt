-- ===== src/Operation/Lock/Stable.antt =====
-- app/internal/operation/lock.go: a normal request is left as it is.
use setpoint_ci_mirror.Base.{
  ◌≡◌, refl, sym, ap, ◌∙◌, inl, inr, true, false, List, [], ◌∷◌, ok, is_empty, contains, All,
  Bool-cases, arith,
}
use setpoint_ci_mirror.Base.Members.{IsDistinct}
use setpoint_ci_mirror.Base.Text.{Text, text_beq_iff, text_eq, trim_space}
use setpoint_ci_mirror.Base.Text.Trim.{trim_space_idem}
use setpoint_ci_mirror.Operation.Lock.{
  LockResource, LockRequest, keys, trim_keys, sort_keys, normalize_lock_request,
}
use setpoint_ci_mirror.Base.Text.Sort.{IsAscending}
use setpoint_ci_mirror.Operation.Lock.Sorted.{
  IsAscending-unique, not_below, keys-injective, contains-sort_keys, sort_keys-IsAscending,
}
use setpoint_ci_mirror.Operation.Lock.Keys.{trimmed, IsClean}
use setpoint_ci_mirror.Operation.Lock.Normal.{accept, IsNormal, normalize-IsNormal}

not_seen :
    (k : Text) (seen ks : List Text)
    → contains k ks ≡ false
    → All (λ j. contains j seen ≡ false) ks
    → All (λ j. contains j (k ∷ seen) ≡ false) ks
not_seen k seen [] h n = tt
not_seen k seen (j ∷ ks) h n =
    (ground (arith, text_beq_iff j k, text_beq_iff k j), not_seen k seen ks (ground arith) n.1)

-- The loop passes on clean and distinct keys as they are.
trim_keys_clean :
    (seen : List Text) (rs : List LockResource)
    → All IsClean (keys rs)
    → IsDistinct (keys rs)
    → All (λ k. contains k seen ≡ false) (keys rs)
    → trim_keys seen rs ≡ ok rs
unfolding trim_keys
trim_keys_clean seen [] c d n = refl
trim_keys_clean seen (r ∷ rs) c d n =
    let rest = trim_keys_clean (r.key ∷ seen) rs c.1 d.1 (not_seen r.key seen (keys rs) d.0 n.1) in
    rw (c.0.0, c.0.1, n.0, rest)

contains-none :
    (rs : List LockResource) → is_empty rs ≡ true → (k : Text) → contains k (keys rs) ≡ false
contains-none [] h k = refl
contains-none (r ∷ rs) h k = cc

not_none :
    (rs : List LockResource)
    → is_empty rs ≡ false
    → ((k : Text) → contains k (trimmed rs) ≡ false)
    → ⊥
not_none [] h n = cc
not_none (r ∷ rs) h n =
    ground (arith, n (trim_space r.key), text_beq_iff (trim_space r.key) (trim_space r.key))

-- A request with a resource has one in its normal form.
not_empty :
    (r out : LockRequest)
    → IsNormal r out
    → is_empty r.resources ≡ false
    → is_empty out.resources ≡ false
not_empty r out n given = elim (Bool-cases (is_empty out.resources)) [
  | inl e ↦
      absurd
        (not_none r.resources given (λ k. sym (n.same_keys k) ∙ contains-none out.resources e k))
  | inr e ↦ e
]

IsAscending-IsDistinct : (ks : List Text) → IsAscending ks → IsDistinct ks
IsAscending-IsDistinct [] h = tt
IsAscending-IsDistinct (k ∷ ks) h = (not_below k ks h.0, IsAscending-IsDistinct ks h.1)

sort_keys_sorted : (rs : List LockResource) → IsAscending (keys rs) → sort_keys rs ≡ rs
sort_keys_sorted rs h = keys-injective (sort_keys rs) rs (
    IsAscending-unique (keys (sort_keys rs)) (keys rs)
      (sort_keys-IsAscending rs (IsAscending-IsDistinct (keys rs) h)) h
      (λ k. contains-sort_keys k rs))

none_seen : (ks : List Text) → All (λ k. contains k [] ≡ false) ks
none_seen [] = tt
none_seen (k ∷ ks) = (refl, none_seen ks)

-- Normalizing a normalized request changes nothing.
pub normalize_idem :
    (r out : LockRequest) → normalize_lock_request r ≡ ok out → normalize_lock_request out ≡ ok out
unfolding normalize_lock_request
normalize_idem r out h =
    let a = accept r out h in
    let n = normalize-IsNormal r out h in
    let owner = ap trim_space n.owner ∙ trim_space_idem r.owner_id ∙ sym n.owner in
    let loop =
      trim_keys_clean [] out.resources n.clean
        (IsAscending-IsDistinct (keys out.resources) n.ascending)
        (none_seen (keys out.resources)) in
    rw (
      owner,
      ap is_empty n.owner ∙ a.owner_given,
      n.ttl,
      a.ttl_given,
      not_empty r out n a.resources_given,
      loop,
      sort_keys_sorted out.resources n.ascending,
    )
