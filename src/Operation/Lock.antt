-- ===== src/Operation/Lock.antt =====
-- app/internal/operation/lock.go: lock requests and leases. Times and durations are nanoseconds; the
-- zero `time.Time` is 0. The proofs are in the modules below.
mod Sorted
pub mod Keys
pub mod Normal
pub mod Stable
pub mod Coverage
use setpoint_ci_mirror.Base.{
  ℕ, ◌≡◌, ◌<◌, Bool, true, false, not, ◌&&◌, ◌||◌, List, [], ◌∷◌, map, ◌++◌, Result, ok, err, ◌>>=◌,
  ◌>>◌, require, if◌then◌else◌, ltb, eqb, is_empty, contains, ◌==◌, Eq,
}
use setpoint_ci_mirror.Base.Int.{ℤ, pos, is_positive}
use setpoint_ci_mirror.Base.Text.Sort.{sort_by}
use setpoint_ci_mirror.Base.Text.{Text, codes, text_eq, text_lt, trim_space, is_blank}
use setpoint_ci_mirror.Operation.Target.{Target, TargetError, validate_target, kind_text}

-- `LockResource` has the one field `Key`.
pub record LockResource : Type 0 where
  pub key : Text

pub record LockRequest : Type 0 where
  pub owner_id : Text
  pub resources : List LockResource
  pub ttl : ℤ

pub record LockLease : Type 0 where
  pub id : Text
  pub owner_id : Text
  pub resources : List LockResource
  pub acquired_at : ℕ
  pub expires_at : ℕ

pub data LockError : Type 0 where
  owner_required ttl_not_positive resources_required key_required : LockError
  lease_identity_incomplete lease_times_invalid lease_without_resources : LockError
  lease_expired : Text → LockError
  not_owned : Text → Text → LockError
  not_covered : Text → Text → LockError
  bad_target : TargetError → LockError

-- `strings.Join(parts, "|")`
abbrev join_bar : List Text → Text
join_bar [] = []
join_bar (p ∷ []) = p
join_bar (p ∷ q ∷ ps) = p ++ codes "|" ++ join_bar (q ∷ ps)

-- `ResourceLockKey`
unfoldable pub resource_lock_key : Target → Result LockError Text
resource_lock_key t = elim (validate_target t) [
  | ok _ ↦
      ok (join_bar (kind_text t.kind ∷ t.site_id ∷ t.node_id ∷ t.component_name ∷ t.resource ∷ []))
  | err e ↦ err (bad_target e)
]

-- The loop of `NormalizeLockRequest`: the trimmed keys, each once, in the order of first mention.
-- `seen` is the map of the loop.
unfoldable pub trim_keys : List Text → List LockResource → Result LockError (List LockResource)
trim_keys seen [] = ok []
trim_keys seen (r ∷ rs) =
    let key = trim_space r.key in
    let again = trim_keys seen rs in
    let fresh = trim_keys (key ∷ seen) rs >>= λ out. ok (record { key = key } ∷ out) in
    if is_empty key then err key_required else if contains key seen then again else fresh

abbrev pub key_of : LockResource → Text
key_of r = r.key

-- `sort.Slice` by the keys. Here the keys differ, so that the sorted list is the only one.
unfoldable pub sort_keys : List LockResource → List LockResource
sort_keys rs = sort_by key_of rs

-- `NormalizeLockRequest`
unfoldable pub normalize_lock_request : LockRequest → Result LockError LockRequest
unfolding trim_keys sort_keys
normalize_lock_request request = do
  let owner = trim_space request.owner_id
  require (not (is_empty owner)) owner_required
  require (is_positive request.ttl) ttl_not_positive
  require (not (is_empty request.resources)) resources_required
  out ← trim_keys [] request.resources
  ok (record { owner_id = owner; resources = sort_keys out; ttl = request.ttl })

-- `ValidateLease`; `After` and `Before` are strict.
unfoldable pub validate_lease : LockLease → ℕ → Result LockError Unit
validate_lease lease now = do
  require (not (is_blank lease.id || is_blank lease.owner_id)) lease_identity_incomplete
  require
      (not (
        eqb lease.acquired_at 0
        || eqb lease.expires_at 0
        || not (ltb lease.acquired_at lease.expires_at)))
      lease_times_invalid
  require (ltb now lease.expires_at) (lease_expired lease.id)
  require (not (is_empty lease.resources)) lease_without_resources

abbrev pub keys : List LockResource → List Text
keys rs = map key_of rs

-- The last loop of `ValidateLeaseCoverage`.
unfoldable pub covers : LockLease → List LockResource → Result LockError Unit
covers lease [] = ok tt
covers lease (r ∷ rs) =
    let rest = covers lease rs in
    if contains r.key (keys lease.resources) then rest else err (not_covered lease.id r.key)

-- `time.Second`
abbrev pub second : ℤ
second = pos 1000000000

-- `ValidateLeaseCoverage`
unfoldable pub validate_lease_coverage :
    LockLease → Text → List LockResource → ℕ → Result LockError Unit
validate_lease_coverage lease owner resources now = do
  validate_lease lease now
  require (not (is_blank owner || not (lease.owner_id == owner))) (not_owned lease.id owner)
  request ←
      normalize_lock_request (record { owner_id = owner; resources = resources; ttl = second })
  covers lease request.resources
