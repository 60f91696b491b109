-- ===== src/Storage/Locks/Exclusion.antt =====
-- app/internal/storage/sqlite/operation_locks.go: any sequence of calls keeps the leases exclusive.
use setpoint_ci_mirror.Base.{
  ℕ, ◌+◌, ◌≡◌, refl, sym, ap, subst, inl, inr, true, not, ◌||◌, Option, none, some, List, [], ◌∷◌,
  Memᴰ, ok, >>=-eq-ok, contains, ◌==◌, list_beq, Bool-cases, is_empty, require->>-ok,
}
use setpoint_ci_mirror.Base.Int.{ℤ, is_positive, pos_part}
use setpoint_ci_mirror.Base.Members.{row_of}
use setpoint_ci_mirror.Base.Text.{Text, text_eq}
use setpoint_ci_mirror.Operation.Lock.{
  LockLease, LockRequest, keys, normalize_lock_request, validate_lease,
}
use setpoint_ci_mirror.Storage.Tx.{transact-keeps}
use setpoint_ci_mirror.Storage.Locks.{
  acquire_tx, renew_tx, release_tx, current_lease_tx, LockTables, Reservation, read_lease_by_owner,
  read_lease, found_lease, same_snapshot, lift, set_expiry, purge_expired, acquire_found,
  release_found, resource_eq, acquire, renew, release, current_lease_by_owner, checked_lease,
  ttl_not_positive, lease_stale, identity_incomplete, owner_required,
}
use setpoint_ci_mirror.Storage.Locks.Rows.{id_of, key_of, row}
use setpoint_ci_mirror.Storage.Locks.Invariant.{
  IsConsistent, empty_tables, empty-IsConsistent, delete_lease-IsConsistent,
  purge_expired-IsConsistent, set_expiry-IsConsistent, acquire_new-IsConsistent,
}

acquire_found-IsConsistent :
    (drawn : Option Text) (now : ℕ) (request : LockRequest) (before t : LockTables)
    (o : Option LockLease) (l : LockLease) (t' : LockTables)
    → IsConsistent before
    → IsConsistent t
    → acquire_found drawn now request before t o ≡ ok (l, t')
    → IsConsistent t'
acquire_found-IsConsistent drawn now request before t none l t' b c h =
    acquire_new-IsConsistent drawn now request t l t' c h
acquire_found-IsConsistent drawn now request before t (some owned) l t' b c h =
    elim (Bool-cases (list_beq owned.resources request.resources)) [
      | inl s ↦ subst IsConsistent (cc (rw s at h)) b
      | inr d ↦ cc (rw d at h)
    ]

acquire_tx-IsConsistent :
    (drawn : Option Text) (now : ℕ) (request : LockRequest) (t : LockTables) (l : LockLease)
    (t' : LockTables)
    → IsConsistent t
    → acquire_tx drawn now request t ≡ ok (l, t')
    → IsConsistent t'
unfolding acquire_tx
acquire_tx-IsConsistent drawn now request t l t' c h =
    let (normalized, a, g) = >>=-eq-ok (lift (normalize_lock_request request)) _ h in
    let p = purge_expired now t in
    acquire_found-IsConsistent drawn now normalized t p (read_lease_by_owner normalized.owner_id p)
      l t' c (purge_expired-IsConsistent now t c) g

pub was_found : (o : Option LockLease) (l : LockLease) → found_lease o ≡ ok l → o ≡ some l
was_found none l h = cc
was_found (some m) l h = cc

-- What a successful renewal did.
pub renew_tx-cases :
    (now : ℕ) (lease : LockLease) (ttl : ℤ) (t : LockTables) (l : LockLease) (t' : LockTables)
    → renew_tx now lease ttl t ≡ ok (l, t')
    → (p : LockLease) × (read_lease lease.id t ≡ some p)
      × (same_snapshot p lease ≡ true)
      × (l ≡ record p { expires_at = now + pos_part ttl })
      × (t' ≡ record t { leases = set_expiry p.id (now + pos_part ttl) t.leases })
unfolding renew_tx
renew_tx-cases now lease ttl t l t' h =
    let (a, h1) = require->>-ok (is_positive ttl) ttl_not_positive _ h in
    let (u, b, h2) = >>=-eq-ok (lift (validate_lease lease now)) _ h1 in
    let (p, d, h3) = >>=-eq-ok (found_lease (read_lease lease.id t)) _ h2 in
    let (e, h4) = require->>-ok (same_snapshot p lease) lease_stale _ h3 in
    let (v, f, h5) = >>=-eq-ok (lift (validate_lease p now)) _ h4 in
    (p, was_found (read_lease lease.id t) p d, e, cc h5, cc h5)

renew_tx-IsConsistent :
    (now : ℕ) (lease : LockLease) (ttl : ℤ) (t : LockTables) (l : LockLease) (t' : LockTables)
    → IsConsistent t
    → renew_tx now lease ttl t ≡ ok (l, t')
    → IsConsistent t'
renew_tx-IsConsistent now lease ttl t l t' c h =
    let (p, found, same, e, f) = renew_tx-cases now lease ttl t l t' h in
    subst IsConsistent (sym f) (set_expiry-IsConsistent p.id (now + pos_part ttl) t c)

release_found-IsConsistent :
    (lease : LockLease) (t : LockTables) (o : Option LockLease) (u : Unit) (t' : LockTables)
    → IsConsistent t
    → release_found lease t o ≡ ok (u, t')
    → IsConsistent t'
release_found-IsConsistent lease t none u t' c h = subst IsConsistent (cc h) c
release_found-IsConsistent lease t (some p) u t' c h =
    elim (Bool-cases (p.owner_id == lease.owner_id)) [
      | inl e ↦ subst IsConsistent (cc (rw e at h)) (delete_lease-IsConsistent lease.id t c)
      | inr e ↦ cc (rw e at h)
    ]

release_tx-IsConsistent :
    (lease : LockLease) (t : LockTables) (u : Unit) (t' : LockTables)
    → IsConsistent t
    → release_tx lease t ≡ ok (u, t')
    → IsConsistent t'
unfolding release_tx
release_tx-IsConsistent lease t u t' c h =
    let (a, h1) =
      require->>-ok (not (is_empty lease.id || is_empty lease.owner_id)) identity_incomplete _ h in
    release_found-IsConsistent lease t (read_lease lease.id t) u t' c h1

current_lease_tx-IsConsistent :
    (now : ℕ) (owner : Text) (t : LockTables) (l : Option LockLease) (t' : LockTables)
    → IsConsistent t
    → current_lease_tx now owner t ≡ ok (l, t')
    → IsConsistent t'
unfolding current_lease_tx
current_lease_tx-IsConsistent now owner t l t' c h =
    let (a, h1) = require->>-ok (not (is_empty owner)) owner_required _ h in
    let (x, b, h2) =
      >>=-eq-ok (checked_lease now (read_lease_by_owner owner (purge_expired now t))) _ h1 in
    subst IsConsistent (cc h2) (purge_expired-IsConsistent now t c)

-- A call of the lock manager, with what it draws and reads from outside.
pub data LockCommand : Type 0 where
  acquire_call : Option Text → ℕ → LockRequest → LockCommand
  renew_call : ℕ → LockLease → ℤ → LockCommand
  release_call : LockLease → LockCommand
  current_call : ℕ → Text → LockCommand

abbrev pub step : LockTables → LockCommand → LockTables
step t (acquire_call drawn now request) = (acquire drawn now request t).1
step t (renew_call now lease ttl) = (renew now lease ttl t).1
step t (release_call lease) = (release lease t).1
step t (current_call now owner) = (current_lease_by_owner now owner t).1

abbrev pub run : LockTables → List LockCommand → LockTables
run t [] = t
run t (c ∷ cs) = run (step t c) cs

step-IsConsistent : (t : LockTables) (c : LockCommand) → IsConsistent t → IsConsistent (step t c)
unfolding acquire renew release current_lease_by_owner
step-IsConsistent t (acquire_call drawn now request) c =
    transact-keeps IsConsistent t (acquire_tx drawn now request t) c
      (λ l t' h. acquire_tx-IsConsistent drawn now request t l t' c h)
step-IsConsistent t (renew_call now lease ttl) c =
    transact-keeps IsConsistent t (renew_tx now lease ttl t) c
      (λ l t' h. renew_tx-IsConsistent now lease ttl t l t' c h)
step-IsConsistent t (release_call lease) c =
    transact-keeps IsConsistent t (release_tx lease t) c
      (λ u t' h. release_tx-IsConsistent lease t u t' c h)
step-IsConsistent t (current_call now owner) c =
    transact-keeps IsConsistent t (current_lease_tx now owner t) c
      (λ l t' h. current_lease_tx-IsConsistent now owner t l t' c h)

run-IsConsistent :
    (t : LockTables) (cs : List LockCommand) → IsConsistent t → IsConsistent (run t cs)
run-IsConsistent t [] h = h
run-IsConsistent t (c ∷ cs) h = run-IsConsistent (step t c) cs (step-IsConsistent t c h)

IsConsistent-exclusive :
    (t : LockTables) (l m : LockLease) (k : Text)
    → IsConsistent t
    → Memᴰ l t.leases
    → Memᴰ m t.leases
    → contains k (keys l.resources) ≡ true
    → contains k (keys m.resources) ≡ true
    → l ≡ m
IsConsistent-exclusive t l m k c i j h g =
    let e =
      row_of key_of (row k l.id) (row k m.id) t.reservations c.resource_keys (c.reserved l i k h)
        (c.reserved m j k g) refl in
    row_of id_of l m t.leases c.ids i j (ap (λ (r : Reservation). r.lease_id) e)

-- Mutual exclusion: after any calls of the lock manager, in any order and at any times, two stored
-- leases that have a resource key in common are the same lease.
pub locks_exclusive :
    (cs : List LockCommand) (l m : LockLease) (k : Text)
    → Memᴰ l (run empty_tables cs).leases
    → Memᴰ m (run empty_tables cs).leases
    → contains k (keys l.resources) ≡ true
    → contains k (keys m.resources) ≡ true
    → l ≡ m
locks_exclusive cs l m k =
    IsConsistent-exclusive (run empty_tables cs) l m k
      (run-IsConsistent empty_tables cs empty-IsConsistent)
