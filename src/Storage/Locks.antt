-- ===== src/Storage/Locks.antt =====
-- app/internal/storage/sqlite/operation_locks.go: the lock manager over the tables of schema_v13.go.
-- The tables are lists of rows, and the unique keys of the schema are checked at each insertion. The
-- text forms of resources and times are read back as they were written, and a failing database
-- connection is left out. A method takes the clock's `now` and, where it draws an ID, that ID
-- (`none`: the random source failed). The proofs are in the modules below.
mod Rows
pub mod Invariant
pub mod Exclusion
use setpoint_ci_mirror.Base.{
  ℕ, ◌+◌, ◌≡◌, ◌↔◌, Bool, true, false, not, ◌&&◌, ◌||◌, Option, none, some, List, [], ◌∷◌, Result,
  ok, err, ◌>>=◌, ◌>>◌, require, if◌then◌else◌, ltb, eqb, is_empty, contains, find, keep, ◌==◌, Eq,
  nat_eq, list_beq, arith,
}
use setpoint_ci_mirror.Base.Int.{ℤ, pos_part, is_positive}
use setpoint_ci_mirror.Base.Text.{Text, text_eq, text_beq, text_beq_iff}
use setpoint_ci_mirror.Operation.Lock.{
  LockResource, LockRequest, LockLease, LockError, normalize_lock_request, validate_lease,
}
use setpoint_ci_mirror.Storage.Tx.{transact}

-- A row of `operation_lock_resources`. The rows of `operation_leases` are leases.
pub record Reservation : Type 0 where
  pub resource_key : Text
  pub lease_id : Text

pub record LockTables : Type 0 where
  pub leases : List LockLease
  pub reservations : List Reservation

pub data LockStoreError : Type 0 where
  invalid : LockError → LockStoreError
  different_resource_set id_generation_failed unique_violation ttl_not_positive : LockStoreError
  lease_gone lease_stale identity_incomplete other_owner owner_required : LockStoreError
  resource_busy : Text → Text → LockStoreError

abbrev pub lift : {A : Type 0} → Result LockError A → Result LockStoreError A
lift (ok a) = ok a
lift (err e) = err (invalid e)

abbrev pub resource_beq : LockResource → LockResource → Bool
resource_beq r s = text_beq r.key s.key

pub resource_beq_iff : (r s : LockResource) → (resource_beq r s ≡ true) ↔ (r ≡ s)
resource_beq_iff r s = ground (arith, text_beq_iff r.key s.key)

instance abbrev pub resource_eq : Eq LockResource
resource_eq = record { beq = resource_beq; beq_iff = resource_beq_iff }

-- `DELETE FROM operation_leases WHERE id = ?`; the foreign key deletes the lease's resources too.
unfoldable pub delete_lease : Text → LockTables → LockTables
delete_lease id t = record {
  leases = keep (λ l. not (l.id == id)) t.leases;
  reservations = keep (λ r. not (r.lease_id == id)) t.reservations;
}

abbrev pub delete_all : List Text → LockTables → LockTables
delete_all [] t = t
delete_all (id ∷ ids) t = delete_all ids (delete_lease id t)

-- The first loop of `purgeExpiredOperationLeases`: `!now.Before(expiresAt)`.
abbrev pub expired_ids : ℕ → List LockLease → List Text
expired_ids now [] = []
expired_ids now (l ∷ ls) =
    let rest = expired_ids now ls in if not (ltb now l.expires_at) then l.id ∷ rest else rest

-- `purgeExpiredOperationLeases`
unfoldable pub purge_expired : ℕ → LockTables → LockTables
unfolding delete_lease
purge_expired now t = delete_all (expired_ids now t.leases) t

-- `readOperationLease` and `readOperationLeaseByOwner`
abbrev pub read_lease : Text → LockTables → Option LockLease
read_lease id t = find (λ l. l.id == id) t.leases

abbrev pub read_lease_by_owner : Text → LockTables → Option LockLease
read_lease_by_owner owner t = find (λ l. l.owner_id == owner) t.leases

-- `SELECT lease_id FROM operation_lock_resources WHERE resource_key = ?`
abbrev pub holder : Text → List Reservation → Option Reservation
holder key rows = find (λ r. r.resource_key == key) rows

-- The loop of `Acquire` that looks for a resource in use.
unfoldable pub check_free : List LockResource → List Reservation → Result LockStoreError Unit
check_free [] rows = ok tt
check_free (r ∷ rs) rows =
    let rest = check_free rs rows in
    elim (holder r.key rows) [ none ↦ rest | some row ↦ err (resource_busy r.key row.lease_id) ]

-- `INSERT INTO operation_lock_resources`, once for each resource; `resource_key` is the primary key.
unfoldable pub insert_reservations :
    Text → List LockResource → List Reservation → Result LockStoreError (List Reservation)
insert_reservations id [] rows = ok rows
insert_reservations id (r ∷ rs) rows =
    let rest = insert_reservations id rs (record { resource_key = r.key; lease_id = id } ∷ rows) in
    elim (holder r.key rows) [ none ↦ rest | some _ ↦ err unique_violation ]

-- `INSERT INTO operation_leases`; `id` is the primary key and `owner_id` has a unique index.
unfoldable pub insert_lease : LockLease → List LockLease → Result LockStoreError (List LockLease)
insert_lease lease ls = elim (find (λ l. l.id == lease.id || l.owner_id == lease.owner_id) ls) [
  | none ↦ ok (lease ∷ ls)
  | some _ ↦ err unique_violation
]

abbrev pub generated : Option Text → Result LockStoreError Text
generated none = err id_generation_failed
generated (some id) = ok id

-- The lease that `Acquire` writes.
abbrev pub new_lease : Text → ℕ → LockRequest → LockLease
new_lease id now request = record {
  id = id;
  owner_id = request.owner_id;
  resources = request.resources;
  acquired_at = now;
  expires_at = now + pos_part request.ttl;
}

-- `Acquire` where the owner has no lease yet.
unfoldable pub acquire_new :
    Option Text → ℕ → LockRequest → LockTables → Result LockStoreError (LockLease × LockTables)
acquire_new drawn now request t = do
  check_free request.resources t.reservations
  id ← generated drawn
  let lease = new_lease id now request
  ls ← insert_lease lease t.leases
  rows ← insert_reservations id request.resources t.reservations
  ok (lease, record { leases = ls; reservations = rows })

-- `Acquire` after the purge, with the lease that the owner has. An owner that has the same resources
-- gets its lease back, and the transaction is rolled back (`before`), the purge with it.
abbrev pub acquire_found :
    Option Text
    → ℕ
    → LockRequest
    → LockTables
    → LockTables
    → Option LockLease
    → Result LockStoreError (LockLease × LockTables)
acquire_found drawn now request before t none = acquire_new drawn now request t
acquire_found drawn now request before t (some owned) =
    if list_beq owned.resources request.resources
    then ok (owned, before)
    else err different_resource_set

-- The body of `Acquire`.
unfoldable pub acquire_tx :
    Option Text → ℕ → LockRequest → LockTables → Result LockStoreError (LockLease × LockTables)
acquire_tx drawn now request t = do
  normalized ← lift (normalize_lock_request request)
  let t' = purge_expired now t
  acquire_found drawn now normalized t t' (read_lease_by_owner normalized.owner_id t')

-- `Acquire`
unfoldable pub acquire :
    Option Text → ℕ → LockRequest → LockTables → Result LockStoreError LockLease × LockTables
acquire drawn now request t = transact t (acquire_tx drawn now request t)

-- `UPDATE operation_leases SET expires_at = ? WHERE id = ?`
unfoldable pub set_expiry : Text → ℕ → List LockLease → List LockLease
set_expiry id at [] = []
set_expiry id at (l ∷ ls) =
    (if l.id == id then record l { expires_at = at } else l) ∷ set_expiry id at ls

abbrev pub same_snapshot : LockLease → LockLease → Bool
same_snapshot p l =
    p.owner_id == l.owner_id
    && p.acquired_at == l.acquired_at
    && p.expires_at == l.expires_at
    && list_beq p.resources l.resources

abbrev pub found_lease : Option LockLease → Result LockStoreError LockLease
found_lease none = err lease_gone
found_lease (some l) = ok l

-- The body of `Renew`.
unfoldable pub renew_tx :
    ℕ → LockLease → ℤ → LockTables → Result LockStoreError (LockLease × LockTables)
renew_tx now lease ttl t = do
  require (is_positive ttl) ttl_not_positive
  lift (validate_lease lease now)
  persisted ← found_lease (read_lease lease.id t)
  require (same_snapshot persisted lease) lease_stale
  lift (validate_lease persisted now)
  let until = now + pos_part ttl
  ok (
    record persisted { expires_at = until },
    record t { leases = set_expiry persisted.id until t.leases },
  )

-- `Renew`
unfoldable pub renew : ℕ → LockLease → ℤ → LockTables → Result LockStoreError LockLease × LockTables
renew now lease ttl t = transact t (renew_tx now lease ttl t)

-- `Release` with the stored lease. A lease that is gone is no error.
abbrev pub release_found :
    LockLease → LockTables → Option LockLease → Result LockStoreError (Unit × LockTables)
release_found lease t none = ok (tt, t)
release_found lease t (some persisted) =
    if persisted.owner_id == lease.owner_id
    then ok (tt, delete_lease lease.id t)
    else err other_owner

-- The body of `Release`.
unfoldable pub release_tx : LockLease → LockTables → Result LockStoreError (Unit × LockTables)
release_tx lease t = do
  require (not (is_empty lease.id || is_empty lease.owner_id)) identity_incomplete
  release_found lease t (read_lease lease.id t)

-- `Release`
unfoldable pub release : LockLease → LockTables → Result LockStoreError Unit × LockTables
release lease t = transact t (release_tx lease t)

abbrev pub checked_lease : ℕ → Option LockLease → Result LockStoreError (Option LockLease)
checked_lease now none = ok none
checked_lease now (some l) = lift (validate_lease l now) >>= λ _. ok (some l)

-- The body of `CurrentLeaseByOwner`, which commits its purge.
unfoldable pub current_lease_tx :
    ℕ → Text → LockTables → Result LockStoreError (Option LockLease × LockTables)
current_lease_tx now owner t = do
  require (not (is_empty owner)) owner_required
  let t' = purge_expired now t
  lease ← checked_lease now (read_lease_by_owner owner t')
  ok (lease, t')

-- `CurrentLeaseByOwner`
unfoldable pub current_lease_by_owner :
    ℕ → Text → LockTables → Result LockStoreError (Option LockLease) × LockTables
current_lease_by_owner now owner t = transact t (current_lease_tx now owner t)
