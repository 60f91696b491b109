-- ===== src/Storage/Locks/Rows.antt =====
-- app/internal/storage/sqlite/operation_locks.go: what the statements do to the rows.
use setpoint_ci_mirror.Base.{
  ℕ, ◌≡◌, refl, sym, ap, ap₂, subst, ◌⊎◌, inl, inr, true, false, ◌||◌, none, List, [], ◌∷◌, map,
  Memᴰ, ok, if◌then◌else◌, contains, find, ◌==◌, arith, Bool-cases, Option-cases,
}
use setpoint_ci_mirror.Base.Members.{IsDistinct, mem-cases, find-none}
use setpoint_ci_mirror.Base.Text.{Text, text_eq, text_beq_iff}
use setpoint_ci_mirror.Operation.Lock.{LockResource, LockLease, keys}
use setpoint_ci_mirror.Storage.Locks.{
  Reservation, holder, insert_reservations, insert_lease, set_expiry,
}

abbrev pub id_of : LockLease → Text
id_of l = l.id

abbrev pub owner_of : LockLease → Text
owner_of l = l.owner_id

abbrev pub key_of : Reservation → Text
key_of r = r.resource_key

abbrev pub row : Text → Text → Reservation
row key id = record { resource_key = key; lease_id = id }

-- A reservation of the result is old or belongs to the new lease.
pub record Reserved (id : Text) (rs : List LockResource) (rows rows' : List Reservation)
    : Type 0 where
  pub old : (r : Reservation) → Memᴰ r rows → Memᴰ r rows'
  pub new : (k : Text) → contains k (keys rs) ≡ true → Memᴰ (row k id) rows'
  pub origin :
      (r : Reservation)
      → Memᴰ r rows'
      → Memᴰ r rows ⊎ (r.lease_id ≡ id) × (contains r.resource_key (keys rs) ≡ true)
  pub distinct : IsDistinct (map key_of rows) → IsDistinct (map key_of rows')

-- A key without a holder is in no row.
free_key :
    (k : Text) (rows : List Reservation)
    → holder k rows ≡ none
    → contains k (map key_of rows) ≡ false
free_key k [] h = refl
free_key k (r ∷ rows) h = ground (arith, free_key k rows)

insert_reservations-cases :
    (id : Text) (r : LockResource) (rs : List LockResource) (rows rows' : List Reservation)
    → insert_reservations id (r ∷ rs) rows ≡ ok rows'
    → (holder r.key rows ≡ none) × (insert_reservations id rs (row r.key id ∷ rows) ≡ ok rows')
unfolding insert_reservations
insert_reservations-cases id r rs rows rows' h = elim (Option-cases (holder r.key rows)) [
  | inl e ↦ (e, ground arith)
  | inr (x, e) ↦ ground arith
]

no_more :
    (id : Text) (rows rows' : List Reservation)
    → insert_reservations id [] rows ≡ ok rows'
    → rows ≡ rows'
unfolding insert_reservations
no_more id rows rows' h = cc

none-Reserved : (id : Text) (rows : List Reservation) → Reserved id [] rows rows
none-Reserved id rows = record {
  old = λ r m. m;
  new = λ k h. absurd (ground arith);
  origin = λ r m. inl m;
  distinct = λ d. d;
}

row_eq : {k j : Text} → k ≡ j → (id : Text) → row j id ≡ row k id
row_eq e id = ap (λ i. row i id) (sym e)

pub insert_reservations-Reserved :
    (id : Text) (rs : List LockResource) (rows rows' : List Reservation)
    → insert_reservations id rs rows ≡ ok rows'
    → Reserved id rs rows rows'
unfolding insert_reservations
insert_reservations-Reserved id [] rows rows' h =
    subst (Reserved id [] rows) (no_more id rows rows' h) (none-Reserved id rows)
insert_reservations-Reserved id (r ∷ rs) rows rows' h =
    let (free, g) = insert_reservations-cases id r rs rows rows' h in
    let rest = insert_reservations-Reserved id rs (row r.key id ∷ rows) rows' g in
    record {
      old = λ x m. rest.old x (Memᴰ.tail m);
      new = λ k m. elim (Bool-cases (r.key == k)) [
        | inl e ↦ rest.old (row k id) (Memᴰ.head (row_eq ((text_beq_iff r.key k).0 e) id))
        | inr e ↦ rest.new k (ground arith)
      ];
      origin = λ x m. elim (rest.origin x m) [
        | inl n ↦ elim (mem-cases n) [
          | inl e ↦ inr (
            ap (λ (y : Reservation). y.lease_id) e,
            ground (arith, text_beq_iff r.key x.resource_key),
          )
          | inr o ↦ inl o
        ]
        | inr (e, c) ↦ inr (e, ground arith)
      ];
      distinct = λ d. rest.distinct (free_key r.key rows free, d);
    }

-- A row that no test picks has no entry equal to the one tested for.
no_entry :
    (column : LockLease → Text) (a : Text) (ls : List LockLease)
    → ((l : LockLease) → Memᴰ l ls → (column l == a) ≡ false)
    → contains a (map column ls) ≡ false
no_entry column a [] h = refl
no_entry column a (l ∷ ls) h =
    ground (arith, h l (Memᴰ.head refl), no_entry column a ls (λ m i. h m (Memᴰ.tail i)))

-- `insert_lease` adds a lease with a new ID and a new owner.
pub insert_lease-cases :
    (lease : LockLease) (ls ls' : List LockLease)
    → insert_lease lease ls ≡ ok ls'
    → (ls' ≡ lease ∷ ls)
      × (contains lease.id (map id_of ls) ≡ false)
      × (contains lease.owner_id (map owner_of ls) ≡ false)
unfolding insert_lease
insert_lease-cases lease ls ls' h =
    elim (Option-cases (find (λ l. l.id == lease.id || l.owner_id == lease.owner_id) ls)) [
      | inl e ↦ (
        cc (rw (e, insert_lease) at h),
        no_entry id_of lease.id ls (λ l m.
            ground
              (arith, find-none (λ l. l.id == lease.id || l.owner_id == lease.owner_id) l ls e m)),
        no_entry owner_of lease.owner_id ls (λ l m.
            ground
              (arith, find-none (λ l. l.id == lease.id || l.owner_id == lease.owner_id) l ls e m)),
      )
      | inr (x, e) ↦ cc (rw (e, insert_lease) at h)
    ]

-- What `UPDATE … SET expires_at` leaves of a row.
pub record SameLease (l m : LockLease) : Type 0 where
  pub id : l.id ≡ m.id
  pub owner : l.owner_id ≡ m.owner_id
  pub resources : l.resources ≡ m.resources
  pub acquired_at : l.acquired_at ≡ m.acquired_at

module _ (id : Text) (at : ℕ) where
  updated : LockLease → LockLease
  updated l = if l.id == id then record l { expires_at = at } else l

  updated-SameLease : (l : LockLease) → SameLease (updated l) l
  unfolding updated
  updated-SameLease l = elim (Bool-cases (l.id == id)) [
    | inl e ↦ rw e (record { id = refl; owner = refl; resources = refl; acquired_at = refl })
    | inr e ↦ rw e (record { id = refl; owner = refl; resources = refl; acquired_at = refl })
  ]

  pub set_expiry-mem :
      (l : LockLease) (ls : List LockLease)
      → Memᴰ l (set_expiry id at ls)
      → (m : LockLease) × Memᴰ m ls × SameLease l m
  unfolding set_expiry updated
  set_expiry-mem l [] i = elim i [ ]
  set_expiry-mem l (m ∷ ls) i = elim (mem-cases i) [
    | inl e ↦ (m, Memᴰ.head refl, subst (λ k. SameLease k m) (sym e) (updated-SameLease m))
    | inr j ↦ let (k, n, s) = set_expiry-mem l ls j in (k, Memᴰ.tail n, s)
  ]

  pub mem-set_expiry :
      (m : LockLease) (ls : List LockLease)
      → Memᴰ m ls
      → (l : LockLease) × Memᴰ l (set_expiry id at ls) × SameLease l m
  unfolding set_expiry updated
  mem-set_expiry m [] i = elim i [ ]
  mem-set_expiry m (l ∷ ls) (Memᴰ.head e) = (
    updated l,
    Memᴰ.head refl,
    subst (λ k. SameLease (updated l) k) (sym e) (updated-SameLease l),
  )
  mem-set_expiry m (l ∷ ls) (Memᴰ.tail i) =
      let (k, n, s) = mem-set_expiry m ls i in (k, Memᴰ.tail n, s)

  pub map-set_expiry :
      (column : LockLease → Text)
      → ((l m : LockLease) → SameLease l m → column l ≡ column m)
      → (ls : List LockLease) → map column (set_expiry id at ls) ≡ map column ls
  unfolding set_expiry updated
  map-set_expiry column same [] = refl
  map-set_expiry column same (l ∷ ls) =
      ap₂ ◌∷◌ (same (updated l) l (updated-SameLease l)) (map-set_expiry column same ls)
