-- ===== src/Operation/Lock/Normal.antt =====
-- app/internal/operation/lock.go: `NormalizeLockRequest` computes a canonical request.
use setpoint_ci_mirror.Base.{
  ◌≡◌, refl, sym, ◌∙◌, subst, Bool, true, false, not, List, [], ok, >>=-eq-ok, require->>-ok,
  is_empty, contains, All, arith,
}
use setpoint_ci_mirror.Base.Int.{is_positive}
use setpoint_ci_mirror.Base.Text.{Text, text_eq, trim_space}
use setpoint_ci_mirror.Operation.Lock.{
  LockResource, LockRequest, keys, trim_keys, sort_keys, normalize_lock_request, owner_required,
  ttl_not_positive, resources_required,
}
use setpoint_ci_mirror.Base.Text.Sort.{IsAscending}
use setpoint_ci_mirror.Operation.Lock.Sorted.{
  IsAscending-unique, keys-injective, All-sort_keys, contains-sort_keys, sort_keys-IsAscending,
}
use setpoint_ci_mirror.Operation.Lock.Keys.{
  trimmed, IsClean, contains-trim_keys, trim_keys-IsDistinct, trim_keys-IsClean,
}

-- What a request that was accepted went through.
pub record Accepted (r out : LockRequest) : Type 0 where
  pub owner_given : is_empty (trim_space r.owner_id) ≡ false
  pub ttl_given : is_positive r.ttl ≡ true
  pub resources_given : is_empty r.resources ≡ false
  pub found : List LockResource
  pub loop : trim_keys [] r.resources ≡ ok found
  pub result :
      out ≡ record { owner_id = trim_space r.owner_id; resources = sort_keys found; ttl = r.ttl }

not-true : (b : Bool) → not b ≡ true → b ≡ false
not-true b h = ground arith

pub accept : (r out : LockRequest) → normalize_lock_request r ≡ ok out → Accepted r out
unfolding normalize_lock_request
accept r out h =
    let (a, h1) = require->>-ok (not (is_empty (trim_space r.owner_id))) owner_required _ h in
    let (b, h2) = require->>-ok (is_positive r.ttl) ttl_not_positive _ h1 in
    let (c, h3) = require->>-ok (not (is_empty r.resources)) resources_required _ h2 in
    let (found, g, e) = >>=-eq-ok (trim_keys [] r.resources) _ h3 in
    record {
      owner_given = not-true _ a;
      ttl_given = b;
      resources_given = not-true _ c;
      found = found;
      loop = g;
      result = cc e;
    }

-- `out` is the normal form of the request `r`.
pub record IsNormal (r out : LockRequest) : Type 0 where
  pub ascending : IsAscending (keys out.resources)
  pub clean : All IsClean (keys out.resources)
  pub same_keys : (k : Text) → contains k (keys out.resources) ≡ contains k (trimmed r.resources)
  pub owner : out.owner_id ≡ trim_space r.owner_id
  pub ttl : out.ttl ≡ r.ttl

IsNormal-of : (r out : LockRequest) → Accepted r out → IsNormal r out
IsNormal-of r out a = subst (IsNormal r) (sym a.result) (record {
  ascending = sort_keys-IsAscending a.found (trim_keys-IsDistinct [] r.resources a.found a.loop);
  clean = All-sort_keys IsClean a.found (trim_keys-IsClean [] r.resources a.found a.loop);
  same_keys = λ k.
      contains-sort_keys k a.found
      ∙ ground (arith, contains-trim_keys k [] r.resources a.found a.loop);
  owner = refl;
  ttl = refl;
})

-- For an accepted request, the keys of the result are in strictly ascending order (so none occurs
-- twice), each is trimmed and not empty, they are exactly the trimmed keys of the request, the
-- owner is the trimmed owner and the TTL is unchanged.
pub normalize-IsNormal : (r out : LockRequest) → normalize_lock_request r ≡ ok out → IsNormal r out
normalize-IsNormal r out h = IsNormal-of r out (accept r out h)

-- Two accepted requests that name the same keys, in any order, any number of times and with any
-- space around them, ask for the same list of resources.
pub normalize_canonical :
    (r s out out' : LockRequest)
    → normalize_lock_request r ≡ ok out
    → normalize_lock_request s ≡ ok out'
    → ((k : Text) → contains k (trimmed r.resources) ≡ contains k (trimmed s.resources))
    → out.resources ≡ out'.resources
normalize_canonical r s out out' h g same =
    let n = normalize-IsNormal r out h in
    let m = normalize-IsNormal s out' g in
    keys-injective out.resources out'.resources (
      IsAscending-unique (keys out.resources) (keys out'.resources) n.ascending m.ascending
        (λ k. n.same_keys k ∙ same k ∙ sym (m.same_keys k)))
