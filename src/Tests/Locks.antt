-- ===== src/Tests/Locks.antt =====
-- Runs of the lock manager.
use setpoint_ci_mirror.Base.{◌≡◌, refl, true, some, List, [], ◌∷◌, ok, contains, Memᴰ, arith}
use setpoint_ci_mirror.Base.Text.{Text, codes, trim_space, text_lt, text_beq, text_eq}
use setpoint_ci_mirror.Operation.Lock.{
  LockResource, LockRequest, LockLease, keys, normalize_lock_request, trim_keys, sort_keys,
  validate_lease, covers, validate_lease_coverage, second,
}
use setpoint_ci_mirror.Operation.Lock.Keys.{trimmed}
use setpoint_ci_mirror.Operation.Lock.Normal.{IsNormal, normalize-IsNormal, normalize_canonical}
use setpoint_ci_mirror.Operation.Lock.Stable.{normalize_idem}
use setpoint_ci_mirror.Operation.Lock.Coverage.{IsLive, coverage_sound, coverage_complete}
use setpoint_ci_mirror.Storage.Locks.{
  acquire, acquire_tx, delete_lease, purge_expired, check_free, insert_reservations, insert_lease,
  acquire_new, set_expiry,
}
use setpoint_ci_mirror.Storage.Locks.Invariant.{empty_tables}
use setpoint_ci_mirror.Storage.Locks.Exclusion.{LockCommand, acquire_call, run, locks_exclusive}

abbrev request : LockRequest
request = record {
  owner_id = codes " run ";
  resources =
      record { key = codes " b" } ∷ record { key = codes "a" } ∷ record { key = codes "b " } ∷ [];
  ttl = second;
}

abbrev same_request : LockRequest
same_request = record {
  owner_id = codes "other";
  resources = record { key = codes "b" } ∷ record { key = codes "a" } ∷ [];
  ttl = second;
}

abbrev resources : List LockResource
resources = record { key = codes "a" } ∷ record { key = codes "b" } ∷ []

abbrev normal : LockRequest
normal = record { owner_id = codes "run"; resources = resources; ttl = second }

request_accepted : normalize_lock_request request ≡ ok normal
unfolding normalize_lock_request trim_keys sort_keys setpoint_ci_mirror.Base.Text.Sort.sort_by
    trim_space text_beq text_lt
request_accepted = refl

same_request_accepted :
    normalize_lock_request same_request
    ≡ ok (record { owner_id = codes "other"; resources = resources; ttl = second })
unfolding normalize_lock_request trim_keys sort_keys setpoint_ci_mirror.Base.Text.Sort.sort_by
    trim_space text_beq text_lt
same_request_accepted = refl

normal_accepted : normalize_lock_request normal ≡ ok normal
unfolding normalize_lock_request trim_keys sort_keys setpoint_ci_mirror.Base.Text.Sort.sort_by
    trim_space text_beq text_lt
normal_accepted = refl

abbrev lease : LockLease
lease = record {
  id = codes "l";
  owner_id = codes "run";
  resources = resources;
  acquired_at = 5;
  expires_at = 1000000005;
}

lease_covers : validate_lease_coverage lease (codes "run") request.resources 7 ≡ ok tt
unfolding validate_lease_coverage validate_lease covers normalize_lock_request trim_keys sort_keys
    setpoint_ci_mirror.Base.Text.Sort.sort_by trim_space text_beq text_lt
lease_covers = refl

lease-IsLive : IsLive lease 7
unfolding trim_space
lease-IsLive = record {
  named = refl;
  owned = refl;
  acquired = omega arith;
  after = omega arith;
  unexpired = omega arith;
  holds = refl;
}

normalize-IsNormal_example : IsNormal request normal
normalize-IsNormal_example = normalize-IsNormal request normal request_accepted

normalize_idem_example : normalize_lock_request normal ≡ ok normal
normalize_idem_example = normalize_idem request normal request_accepted

same_keys :
    (k : Text)
    → contains k (trimmed request.resources) ≡ contains k (trimmed same_request.resources)
unfolding trim_space
same_keys k = ground arith

normalize_canonical_example : resources ≡ resources
normalize_canonical_example =
    normalize_canonical request same_request normal
      (record { owner_id = codes "other"; resources = resources; ttl = second }) request_accepted
      same_request_accepted same_keys

coverage_sound_example :
    IsLive lease 7
    × (lease.owner_id ≡ codes "run")
    × ((k : Text)
        → contains k (trimmed request.resources) ≡ true
        → contains k (keys resources) ≡ true)
coverage_sound_example = coverage_sound lease (codes "run") request.resources 7 lease_covers

coverage_complete_example : validate_lease_coverage lease lease.owner_id resources 7 ≡ ok tt
unfolding trim_space
coverage_complete_example =
    coverage_complete lease normal normal 7 lease-IsLive normal_accepted (λ k h. h)

abbrev calls : List LockCommand
calls =
    acquire_call (some (codes "l")) 5 request ∷ acquire_call (some (codes "m")) 6 same_request ∷ []

lease_stored : Memᴰ lease (run empty_tables calls).leases
unfolding acquire acquire_tx normalize_lock_request trim_keys sort_keys
    setpoint_ci_mirror.Base.Text.Sort.sort_by trim_space validate_lease text_beq text_lt
    delete_lease purge_expired check_free insert_reservations insert_lease acquire_new set_expiry
lease_stored = Memᴰ.head refl

locks_exclusive_example : lease ≡ lease
unfolding text_beq
locks_exclusive_example =
    locks_exclusive calls lease lease (codes "a") lease_stored lease_stored refl refl
