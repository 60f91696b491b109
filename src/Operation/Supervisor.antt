-- ===== src/Operation/Supervisor.antt =====
-- app/internal/operation/lease_supervisor.go: the supervisor that keeps leases alive. Its state is what
-- the mutex guards. Each function is one critical section: a method that gives the mutex up while it
-- asks the lock manager is two, `begin_…` and `finish_…`, and what the manager and the clock answer are
-- arguments, with any time and any other sections in between. The goroutine of a lease ticks by
-- `begin_renewal` and `finish_renewal`; `serial` stands for the identity of its `supervisedLease`.
pub mod Effects
pub mod Granted
pub mod Steps
use setpoint_ci_mirror.Base.{
  ℕ, ◌+◌, Bool, true, false, not, ◌&&◌, ◌||◌, Option, none, some, List, [], ◌∷◌, Result, ok, err,
  ◌>>=◌, ◌>>◌, require, eqb, is_empty, if◌then◌else◌, ◌==◌, find, keep, replace, map,
}
use setpoint_ci_mirror.Base.Int.{ℤ}
use setpoint_ci_mirror.Base.Text.{Text, text_eq, trim_space, is_blank}
use setpoint_ci_mirror.Operation.Target.{Target}
use setpoint_ci_mirror.Operation.Lock.{
  LockResource, LockRequest, LockLease, LockError, normalize_lock_request, validate_lease_coverage,
  keys, second,
}
use setpoint_ci_mirror.Operation.Coordinator.{lock_keys}

pub data SupervisorError : Type 0 where
  authority_unavailable authoritative_absence run_id_required no_frozen_target : SupervisorError
  different_resource_set identity_changed coverage_differs : SupervisorError
  lock_error : LockError → SupervisorError
  manager_error : Text → SupervisorError
  unavailable_since : SupervisorError → SupervisorError

-- `supervisedLease`
pub record SupervisedLease : Type 0 where
  pub run_id : Text
  pub serial : ℕ
  pub lease : LockLease
  pub resources : List LockResource
  pub failure : Option SupervisorError
  pub stopping : Bool

-- `LeaseSupervisor`; the map `active` is a list of entries with different run IDs.
pub record Supervisor : Type 0 where
  pub active : List SupervisedLease
  pub closed : Bool
  pub next_serial : ℕ

abbrev pub lift_lock : {A : Type 0} → Result LockError A → Result SupervisorError A
lift_lock (ok a) = ok a
lift_lock (err e) = err (lock_error e)

-- An answer of the lock manager
abbrev pub answered : {A : Type 0} → Result Text A → Result SupervisorError A
answered (ok a) = ok a
answered (err e) = err (manager_error e)

-- `fmt.Errorf("%w: …", ErrLeaseAuthorityUnavailable, err)`
abbrev pub as_unavailable : {A : Type 0} → Result SupervisorError A → Result SupervisorError A
as_unavailable (ok a) = ok a
as_unavailable (err e) = err (unavailable_since e)

-- `supervisedLockResources`
unfoldable pub supervised_lock_resources :
    Text → List Target → ℤ → Result SupervisorError (List LockResource)
supervised_lock_resources run targets ttl = do
  require (not (is_blank run)) run_id_required
  require (not (is_empty targets)) no_frozen_target
  resources ← lift_lock (lock_keys targets)
  normalized ←
      lift_lock
        (normalize_lock_request (record { owner_id = run; resources = resources; ttl = ttl }))
  ok normalized.resources

-- `reflect.DeepEqual` on resources, which have the one field `Key`
abbrev pub same_resources : List LockResource → List LockResource → Bool
same_resources [] [] = true
same_resources (r ∷ rs) (s ∷ ss) = r.key == s.key && same_resources rs ss
same_resources _ _ = false

-- `validateExactLeaseBinding`
unfoldable pub validate_exact_binding :
    LockLease → Text → List LockResource → ℕ → Result SupervisorError Unit
validate_exact_binding lease run resources now = do
  lift_lock (validate_lease_coverage lease run resources now)
  normalized ← lift_lock (
      normalize_lock_request (record { owner_id = run; resources = lease.resources; ttl = second }))
  require (same_resources normalized.resources resources) coverage_differs

-- `supervisor.active[runID]`
abbrev pub tracked : Text → Supervisor → Option SupervisedLease
tracked run s = find (λ (e : SupervisedLease). e.run_id == run) s.active

-- `startLocked`
abbrev pub start_locked : Text → LockLease → List LockResource → Supervisor → Supervisor
start_locked run lease resources s = record s {
  active =
      record {
        run_id = run;
        serial = s.next_serial;
        lease = lease;
        resources = resources;
        failure = none;
        stopping = false;
      }
      ∷ s.active;
  next_serial = s.next_serial + 1;
}

abbrev pub update_entry : Text → (SupervisedLease → SupervisedLease) → Supervisor → Supervisor
update_entry run change s = record s { active = replace (λ e. e.run_id == run) change s.active }

-- The first failure stays.
abbrev pub first_failure : SupervisorError → Option SupervisorError → Option SupervisorError
first_failure e none = some e
first_failure e (some failure) = some failure

abbrev pub failing : SupervisorError → SupervisedLease → SupervisedLease
failing e entry = record entry { failure = first_failure e entry.failure }

-- `fail`
unfoldable pub fail : Text → SupervisorError → Supervisor → Supervisor
fail run e s = update_entry run (failing e) s

-- A lease that is supervised already
abbrev pub exact_lease :
    Text → List LockResource → ℕ → SupervisedLease → Result SupervisorError LockLease
exact_lease run resources now e = do
  require (same_resources e.resources resources) different_resource_set
  validate_exact_binding e.lease run resources now
  ok e.lease

abbrev pub healthy : {A : Type 0} → A → Option SupervisorError → Result SupervisorError A
healthy a none = ok a
healthy a (some failure) = err (unavailable_since failure)

abbrev pub acquire_untracked :
    Text
    → List LockResource
    → Result Text LockLease
    → ℕ
    → Supervisor
    → Result SupervisorError (LockLease × Supervisor)
acquire_untracked run resources answer now s = do
  lease ← answered answer
  validate_exact_binding lease run resources now
  ok (lease, start_locked run lease resources s)

abbrev pub keeping :
    Supervisor → Result SupervisorError LockLease → Result SupervisorError (LockLease × Supervisor)
keeping s r = r >>= λ lease. ok (lease, s)

abbrev pub acquire_tracked :
    Text
    → List LockResource
    → Result Text LockLease
    → ℕ
    → Supervisor
    → Option SupervisedLease
    → Result SupervisorError (LockLease × Supervisor)
acquire_tracked run resources answer now s none = acquire_untracked run resources answer now s
acquire_tracked run resources answer now s (some e) =
    healthy e e.failure >>= λ h. keeping s (exact_lease run resources now h)

-- `Acquire`, to the answer of `locks.Acquire` and the time that the clock gives
unfoldable pub acquire :
    ℤ
    → Text
    → List Target
    → Result Text LockLease
    → ℕ
    → Supervisor
    → Result SupervisorError (LockLease × Supervisor)
unfolding supervised_lock_resources validate_exact_binding
acquire ttl id targets answer now s =
    let run = trim_space id in
    supervised_lock_resources run targets ttl >>= λ resources.
    require (not s.closed) authority_unavailable
    >> acquire_tracked run resources answer now s (tracked run s)

abbrev pub found_owner : Option LockLease → Result SupervisorError LockLease
found_owner none = err authoritative_absence
found_owner (some lease) = ok lease

abbrev pub resume_untracked :
    Text
    → List LockResource
    → Result Text (Option LockLease)
    → ℕ
    → Result Text LockLease
    → ℕ
    → Supervisor
    → Result SupervisorError (LockLease × Supervisor)
resume_untracked run resources current now renewal later s = do
  owned ← as_unavailable (answered current)
  lease ← found_owner owned
  as_unavailable (validate_exact_binding lease run resources now)
  renewed ← as_unavailable (answered renewal)
  as_unavailable (validate_exact_binding renewed run resources later)
  ok (renewed, start_locked run renewed resources s)

abbrev pub resume_tracked :
    Text
    → List LockResource
    → Result Text (Option LockLease)
    → ℕ
    → Result Text LockLease
    → ℕ
    → Supervisor
    → Option SupervisedLease
    → Result SupervisorError (LockLease × Supervisor)
resume_tracked run resources current now renewal later s none =
    resume_untracked run resources current now renewal later s
resume_tracked run resources current now renewal later s (some e) =
    healthy e e.failure >>= λ h. keeping s (as_unavailable (exact_lease run resources now h))

-- `Resume`, to the answers of `authority.CurrentLeaseByOwner` and `locks.Renew` and two times of the clock
unfoldable pub resume :
    ℤ
    → Text
    → List Target
    → Result Text (Option LockLease)
    → ℕ
    → Result Text LockLease
    → ℕ
    → Supervisor
    → Result SupervisorError (LockLease × Supervisor)
unfolding supervised_lock_resources validate_exact_binding
resume ttl id targets current now renewal later s =
    let run = trim_space id in
    supervised_lock_resources run targets ttl >>= λ resources.
    require (not s.closed) authority_unavailable
    >> resume_tracked run resources current now renewal later s (tracked run s)

-- What a method remembers of an entry when it gives the mutex up
pub record Watch : Type 0 where
  pub run_id : Text
  pub expected_id : Text
  pub expected_acquired_at : ℕ
  pub resources : List LockResource

abbrev pub watch_of : SupervisedLease → Watch
watch_of e = record {
  run_id = e.run_id;
  expected_id = e.lease.id;
  expected_acquired_at = e.lease.acquired_at;
  resources = e.resources;
}

abbrev pub found_tracked : Option SupervisedLease → Result SupervisorError SupervisedLease
found_tracked none = err authority_unavailable
found_tracked (some e) = healthy e e.failure

-- `CurrentLeaseByOwner`, its first critical section
unfoldable pub begin_current : Text → Supervisor → Result SupervisorError Watch
begin_current id s = do
  let run = trim_space id
  require (not (is_empty run)) run_id_required
  require (not s.closed) authority_unavailable
  e ← found_tracked (tracked run s)
  ok (watch_of e)

-- The lease that the authority still has for the one that was remembered
abbrev pub confirm :
    SupervisorError → Watch → Option LockLease → ℕ → Result SupervisorError LockLease
confirm mismatch w none now = err authority_unavailable
confirm mismatch w (some lease) now = do
  require (lease.id == w.expected_id && eqb lease.acquired_at w.expected_acquired_at) mismatch
  validate_exact_binding lease w.run_id w.resources now
  ok lease

abbrev pub is_healthy : Option SupervisorError → Bool
is_healthy none = true
is_healthy (some e) = false

abbrev pub refreshed : LockLease → SupervisedLease → SupervisedLease
refreshed lease e =
    if is_healthy e.failure && e.lease.id == lease.id then record e { lease = lease } else e

abbrev pub current_answer :
    Watch
    → Supervisor
    → Result SupervisorError LockLease
    → Result SupervisorError LockLease × Supervisor
current_answer w s (ok lease) = (ok lease, update_entry w.run_id (refreshed lease) s)
current_answer w s (err e) = (err e, fail w.run_id e s)

-- `CurrentLeaseByOwner`, after the answer of the authority
unfoldable pub finish_current :
    Watch
    → Result Text (Option LockLease)
    → ℕ
    → Supervisor
    → Result SupervisorError LockLease × Supervisor
unfolding validate_exact_binding fail
finish_current w answer now s =
    current_answer w s (answered answer >>= λ owned. confirm identity_changed w owned now)

abbrev pub stopped : SupervisedLease → SupervisedLease
stopped e = record e { stopping = true }

-- `Release`, its first critical section: the renewal is told to stop, and then waited for.
unfoldable pub begin_release : Text → Supervisor → Result SupervisorError (Watch × Supervisor)
begin_release id s = do
  let run = trim_space id
  require (not (is_empty run)) run_id_required
  e ← found_tracked (tracked run s)
  ok (watch_of e, update_entry run stopped s)

abbrev pub release_answer :
    Watch → Supervisor → Result SupervisorError Unit → Result SupervisorError Unit × Supervisor
release_answer w s (ok u) =
    (ok tt, record s { active = keep (λ e. not (e.run_id == w.run_id)) s.active })
release_answer w s (err e) = (err e, fail w.run_id e s)

-- `Release`, after the answers of the authority and of `locks.Release`
unfoldable pub finish_release :
    Watch
    → Result Text (Option LockLease)
    → ℕ
    → Result Text (Unit {0})
    → Supervisor
    → Result SupervisorError Unit × Supervisor
unfolding validate_exact_binding fail
finish_release w answer now released s = release_answer w s (
    answered answer >>= λ owned.
    confirm authority_unavailable w owned now >>= λ lease. answered released)

-- `Close`
unfoldable pub close : Supervisor → Supervisor
close s = if s.closed then s else record s { closed = true; active = map stopped s.active }

-- `current == tracked && !current.stopping && current.failure == nil`
abbrev pub renewable : ℕ → SupervisedLease → Bool
renewable serial e = eqb e.serial serial && not e.stopping && is_healthy e.failure

abbrev pub renewal_of : ℕ → Option SupervisedLease → Option SupervisedLease
renewal_of serial none = none
renewal_of serial (some e) = if renewable serial e then some e else none

-- A tick of `renewLoop`: the entry that is renewed, or the end of the loop
abbrev pub begin_renewal : Text → ℕ → Supervisor → Option SupervisedLease
begin_renewal run serial s = renewal_of serial (tracked run s)

abbrev pub renewed_entry : ℕ → LockLease → SupervisedLease → SupervisedLease
renewed_entry serial lease e = if renewable serial e then record e { lease = lease } else e

abbrev pub renewal_answer :
    SupervisedLease → Supervisor → Result SupervisorError LockLease → Supervisor
renewal_answer e s (ok lease) = update_entry e.run_id (renewed_entry e.serial lease) s
renewal_answer e s (err x) = fail e.run_id x s

-- The tick, after the answer of `locks.Renew`; when the loop was canceled, an error ends it quietly.
unfoldable pub finish_renewal :
    SupervisedLease → Bool → Result Text LockLease → ℕ → Supervisor → Supervisor
unfolding validate_exact_binding fail
finish_renewal e canceled (err x) now s = if canceled then s else fail e.run_id (manager_error x) s
finish_renewal e canceled (ok lease) now s =
    renewal_answer e s (validate_exact_binding lease e.run_id e.resources now >> ok lease)
