-- ===== src/Operation/Lock/Coverage.antt =====
-- app/internal/operation/lock.go: what `ValidateLeaseCoverage` establishes.
use setpoint_ci_mirror.Base.{
  ℕ, ◌≡◌, refl, sym, ◌∙◌, ◌<◌, true, false, not, ◌||◌, List, [], ◌∷◌, ok, >>=-eq-ok, is_empty,
  contains, ◌==◌, arith, require->>-ok, require-ok, ltb, eqb,
}
use setpoint_ci_mirror.Base.Text.{Text, text_eq, text_beq_iff, is_blank}
use setpoint_ci_mirror.Operation.Lock.{
  LockResource, LockLease, LockRequest, keys, covers, second, validate_lease,
  normalize_lock_request, validate_lease_coverage, lease_identity_incomplete, lease_times_invalid,
  lease_expired, lease_without_resources, not_owned,
}
use setpoint_ci_mirror.Operation.Lock.Keys.{trimmed}
use setpoint_ci_mirror.Operation.Lock.Normal.{normalize-IsNormal}

-- A lease that may be relied on at `now`.
pub record IsLive (lease : LockLease) (now : ℕ) : Type 0 where
  pub named : is_blank lease.id ≡ false
  pub owned : is_blank lease.owner_id ≡ false
  pub acquired : 0 < lease.acquired_at
  pub after : lease.acquired_at < lease.expires_at
  pub unexpired : now < lease.expires_at
  pub holds : is_empty lease.resources ≡ false

pub validate_lease-IsLive :
    (lease : LockLease) (now : ℕ) → validate_lease lease now ≡ ok tt → IsLive lease now
unfolding validate_lease
validate_lease-IsLive lease now h =
    let (a, h1) =
      require->>-ok (not (is_blank lease.id || is_blank lease.owner_id)) lease_identity_incomplete _
        h in
    let (b, h2) =
      require->>-ok
        (not (
          eqb lease.acquired_at 0
          || eqb lease.expires_at 0
          || not (ltb lease.acquired_at lease.expires_at)))
        lease_times_invalid _ h1 in
    let (c, h3) = require->>-ok (ltb now lease.expires_at) (lease_expired lease.id) _ h2 in
    let d = require-ok (not (is_empty lease.resources)) lease_without_resources h3 in
    record {
      named = ground arith;
      owned = ground arith;
      acquired = ground arith;
      after = ground arith;
      unexpired = ground arith;
      holds = ground arith;
    }

pub IsLive-validate_lease :
    (lease : LockLease) (now : ℕ) → IsLive lease now → validate_lease lease now ≡ ok tt
unfolding validate_lease
IsLive-validate_lease lease now h = ground arith

pub covers-All :
    (lease : LockLease) (rs : List LockResource)
    → covers lease rs ≡ ok tt
    → (k : Text) → contains k (keys rs) ≡ true
    → contains k (keys lease.resources) ≡ true
unfolding covers
covers-All lease [] h k m = cc
covers-All lease (r ∷ rs) h k m =
    ground (arith, text_beq_iff r.key k, covers-All lease rs (ground arith) k)

pub All-covers :
    (lease : LockLease) (rs : List LockResource)
    → ((k : Text) → contains k (keys rs) ≡ true → contains k (keys lease.resources) ≡ true)
    → covers lease rs ≡ ok tt
unfolding covers
All-covers lease [] h = refl
All-covers lease (r ∷ rs) h =
    ground
      (arith, h r.key, text_beq_iff r.key r.key, All-covers lease rs (λ k m. h k (ground arith)))

-- The check of coverage passes only for a live lease of exactly this owner that holds every
-- requested key, in its trimmed form.
pub coverage_sound :
    (lease : LockLease) (owner : Text) (resources : List LockResource) (now : ℕ)
    → validate_lease_coverage lease owner resources now ≡ ok tt
    → IsLive lease now
      × (lease.owner_id ≡ owner)
      × ((k : Text)
          → contains k (trimmed resources) ≡ true
          → contains k (keys lease.resources) ≡ true)
unfolding validate_lease_coverage
coverage_sound lease owner resources now h =
    let (u, a, h1) = >>=-eq-ok (validate_lease lease now) _ h in
    let (b, h2) =
      require->>-ok (not (is_blank owner || not (lease.owner_id == owner)))
        (not_owned lease.id owner) _ h1 in
    let (request, c, h3) =
      >>=-eq-ok
        (normalize_lock_request (record { owner_id = owner; resources = resources; ttl = second }))
        _ h2 in
    (
      validate_lease-IsLive lease now a,
      ground (arith, text_beq_iff lease.owner_id owner),
      λ k m. covers-All lease request.resources h3 k (
          (normalize-IsNormal (record { owner_id = owner; resources = resources; ttl = second })
              request c).same_keys
            k
          ∙ m),
    )

-- The check of coverage passes for the owner of a live lease and the resources of a request that can be
-- normalized in the name of that owner, if the lease holds each of their trimmed keys.
pub coverage_complete :
    (lease : LockLease) (request out : LockRequest) (now : ℕ)
    → IsLive lease now
    → normalize_lock_request
        (record { owner_id = lease.owner_id; resources = request.resources; ttl = second })
      ≡ ok out
    → ((k : Text)
        → contains k (trimmed request.resources) ≡ true
        → contains k (keys lease.resources) ≡ true)
    → validate_lease_coverage lease lease.owner_id request.resources now ≡ ok tt
unfolding validate_lease_coverage
coverage_complete lease request out now live e held =
    rw
      (
        IsLive-validate_lease lease now live,
        live.owned,
        (text_beq_iff lease.owner_id lease.owner_id).1 refl,
        e,
      )
      (All-covers lease out.resources (λ k m. held k (
        sym (
          (normalize-IsNormal
              (record { owner_id = lease.owner_id; resources = request.resources; ttl = second })
              out e).same_keys
            k)
        ∙ m)))
