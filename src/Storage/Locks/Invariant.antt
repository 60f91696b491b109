-- ===== src/Storage/Locks/Invariant.antt =====
-- app/internal/storage/sqlite/operation_locks.go: the two tables agree, whatever methods are called.
use setpoint_ci_mirror.Base.{
  ℕ, ◌≡◌, refl, sym, ◌∙◌, subst, inl, inr, true, not, Option, List, [], ◌∷◌, map, Memᴰ, ok,
  >>=-eq-ok, contains, ◌==◌,
}
use setpoint_ci_mirror.Base.Members.{IsDistinct, keep-mem, mem-keep, mem-cases, keep-IsDistinct}
use setpoint_ci_mirror.Base.Text.{Text, text_eq}
use setpoint_ci_mirror.Operation.Lock.{LockLease, LockRequest, keys}
use setpoint_ci_mirror.Storage.Locks.{
  Reservation, LockTables, insert_reservations, insert_lease, set_expiry, delete_lease, delete_all,
  expired_ids, purge_expired, acquire_new, new_lease, check_free, generated,
}
use setpoint_ci_mirror.Storage.Locks.Rows.{
  id_of, owner_of, key_of, row, insert_reservations-Reserved, insert_lease-cases, set_expiry-mem,
  mem-set_expiry, map-set_expiry,
}

-- The unique keys of the schema hold, every resource of a lease is reserved for it, and every
-- reservation belongs to a lease that has the resource.
pub record IsConsistent (t : LockTables) : Type 0 where
  pub ids : IsDistinct (map id_of t.leases)
  pub owners : IsDistinct (map owner_of t.leases)
  pub resource_keys : IsDistinct (map key_of t.reservations)
  pub reserved :
      (l : LockLease)
      → Memᴰ l t.leases
      → (k : Text) → contains k (keys l.resources) ≡ true
      → Memᴰ (row k l.id) t.reservations
  pub backed :
      (r : Reservation)
      → Memᴰ r t.reservations
      → (l : LockLease) × Memᴰ l t.leases
        × (l.id ≡ r.lease_id)
        × (contains r.resource_key (keys l.resources) ≡ true)

abbrev pub empty_tables : LockTables
empty_tables = record { leases = []; reservations = [] }

pub empty-IsConsistent : IsConsistent empty_tables
empty-IsConsistent = record {
  ids = tt;
  owners = tt;
  resource_keys = tt;
  reserved = λ l m. elim m [ ];
  backed = λ r m. elim m [ ];
}

other : (i j : Text) → not (i == j) ≡ true → (k : Text) → k ≡ i → not (k == j) ≡ true
other i j h k e = rw e h

pub delete_lease-IsConsistent :
    (id : Text) (t : LockTables) → IsConsistent t → IsConsistent (delete_lease id t)
unfolding delete_lease
delete_lease-IsConsistent id t c = record {
  ids = keep-IsDistinct id_of (λ l. not (l.id == id)) t.leases c.ids;
  owners = keep-IsDistinct owner_of (λ l. not (l.id == id)) t.leases c.owners;
  resource_keys =
      keep-IsDistinct key_of (λ r. not (r.lease_id == id)) t.reservations c.resource_keys;
  reserved = λ l m k h.
      let (n, f) = keep-mem (λ l'. not (l'.id == id)) l t.leases m in
      mem-keep (λ r. not (r.lease_id == id)) (row k l.id) t.reservations (c.reserved l n k h) f;
  backed = λ r m.
      let (n, f) = keep-mem (λ r'. not (r'.lease_id == id)) r t.reservations m in
      let (l, i, e, h) = c.backed r n in
      (l, mem-keep (λ l'. not (l'.id == id)) l t.leases i (other r.lease_id id f l.id e), e, h);
}

delete_all-IsConsistent :
    (ids : List Text) (t : LockTables) → IsConsistent t → IsConsistent (delete_all ids t)
delete_all-IsConsistent [] t c = c
delete_all-IsConsistent (id ∷ ids) t c =
    delete_all-IsConsistent ids (delete_lease id t) (delete_lease-IsConsistent id t c)

pub purge_expired-IsConsistent :
    (now : ℕ) (t : LockTables) → IsConsistent t → IsConsistent (purge_expired now t)
unfolding purge_expired
purge_expired-IsConsistent now t c = delete_all-IsConsistent (expired_ids now t.leases) t c

-- The tables with one more lease and its reservations.
insert-IsConsistent :
    (lease : LockLease) (t : LockTables) (ls : List LockLease) (rows : List Reservation)
    → IsConsistent t
    → insert_lease lease t.leases ≡ ok ls
    → insert_reservations lease.id lease.resources t.reservations ≡ ok rows
    → IsConsistent (record { leases = ls; reservations = rows })
insert-IsConsistent lease t ls rows c h g =
    let (e, new_id, new_owner) = insert_lease-cases lease t.leases ls h in
    let r = insert_reservations-Reserved lease.id lease.resources t.reservations rows g in
    subst (λ ls'. IsConsistent (record { leases = ls'; reservations = rows })) (sym e)
      (record {
        ids = (new_id, c.ids);
        owners = (new_owner, c.owners);
        resource_keys = r.distinct c.resource_keys;
        reserved = λ l m k i. elim (mem-cases m) [
          | inl f ↦
              subst (λ (x : LockLease). Memᴰ (row k x.id) rows) (sym f)
                (r.new k (subst (λ (x : LockLease). contains k (keys x.resources) ≡ true) f i))
          | inr n ↦ r.old (row k l.id) (c.reserved l n k i)
        ];
        backed = λ x m. elim (r.origin x m) [
          | inl o ↦ let (l, n, f, i) = c.backed x o in (l, Memᴰ.tail n, f, i)
          | inr (f, i) ↦ (lease, Memᴰ.head refl, sym f, i)
        ];
      })

pub set_expiry-IsConsistent :
    (id : Text) (at : ℕ) (t : LockTables)
    → IsConsistent t
    → IsConsistent (record t { leases = set_expiry id at t.leases })
set_expiry-IsConsistent id at t c = record {
  ids = rw (map-set_expiry id at id_of (λ l m s. s.id) t.leases) c.ids;
  owners = rw (map-set_expiry id at owner_of (λ l m s. s.owner) t.leases) c.owners;
  resource_keys = c.resource_keys;
  reserved = λ l m k h.
      let (o, n, s) = set_expiry-mem id at l t.leases m in
      subst (λ i. Memᴰ (row k i) t.reservations) (sym s.id)
        (c.reserved o n k (subst (λ rs. contains k (keys rs) ≡ true) s.resources h));
  backed = λ r m.
      let (o, n, e, h) = c.backed r m in
      let (l, i, s) = mem-set_expiry id at o t.leases n in
      (l, i, s.id ∙ e, subst (λ rs. contains r.resource_key (keys rs) ≡ true) (sym s.resources) h);
}

pub acquire_new-IsConsistent :
    (drawn : Option Text) (now : ℕ) (request : LockRequest) (t : LockTables) (l : LockLease)
    (t' : LockTables)
    → IsConsistent t
    → acquire_new drawn now request t ≡ ok (l, t')
    → IsConsistent t'
unfolding acquire_new
acquire_new-IsConsistent drawn now request t l t' c h =
    let (u, a, h1) = >>=-eq-ok (check_free request.resources t.reservations) _ h in
    let (id, b, h2) = >>=-eq-ok (generated drawn) _ h1 in
    let lease = new_lease id now request in
    let (ls, d, h3) = >>=-eq-ok (insert_lease lease t.leases) _ h2 in
    let (rows, e, h4) = >>=-eq-ok (insert_reservations id request.resources t.reservations) _ h3 in
    subst IsConsistent (cc h4) (insert-IsConsistent lease t ls rows c d e)
