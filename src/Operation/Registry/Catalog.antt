-- ===== src/Operation/Registry/Catalog.antt =====
-- What the registry of operations (app/internal/operation/registry.go) holds after any registrations.
use setpoint_ci_mirror.Base.{
  ◌≡◌, refl, sym, ap, ◌∙◌, subst, inl, inr, Bool, true, false, not, Option, none, some, List, [],
  ◌∷◌, map, Result, ok, err, IfOk, bind-IfOk, require-IfOk, All, All-map, Bool-cases, ◌==◌, ==-refl,
  contains, arith,
}
use setpoint_ci_mirror.Base.Members.{IsDistinct}
use setpoint_ci_mirror.Base.Text.{Text, text_eq, text_beq_iff}
use setpoint_ci_mirror.Base.Text.Sort.{
  IsAscending, contains-sort_by, All-sort_by, sort_by-IsAscending,
}
use setpoint_ci_mirror.Operation.Metadata.{Metadata, MetadataError, validate_metadata}
use setpoint_ci_mirror.Operation.Registry.{
  RegistryError, Candidate, OperationRegistry, put, checked_metadata, id_of, by_id, is_registered,
  new_operations, register, get_metadata, list_metadata, registered, register_all,
}

abbrev pub IsValid : Metadata → Type 0
IsValid m = validate_metadata m ≡ ok tt

abbrev pub is_found : Option Metadata → Bool
is_found none = false
is_found (some m) = true

is_found-by_id : (id : Text) (ms : List Metadata) → is_found (by_id id ms) ≡ is_registered id ms
is_found-by_id id [] = refl
is_found-by_id id (m ∷ ms) = ground (arith, is_found-by_id id ms)

-- A row before the others does not hide one with another ID.
by_id-behind :
    (c m : Metadata) (ms : List Metadata)
    → is_registered c.id ms ≡ false
    → by_id m.id ms ≡ some m
    → by_id m.id (c ∷ ms) ≡ some m
by_id-behind c m ms new found = elim (Bool-cases (c.id == m.id)) [
  | inl e ↦
      let same = (text_beq_iff c.id m.id).0 e in
      let there = is_found-by_id m.id ms in
      cc (ap is_found found, there, subst (λ id. is_registered id ms ≡ false) same new)
  | inr e ↦ rw e found
]

-- The rows of a registry
abbrev HasRows : {A : Type 0} → List Metadata → List (Text × A) → Type 0
HasRows ms es = All (λ e. is_registered e.0 ms ≡ true) es

later :
    (id j : Text) (ms : List Metadata) (c : Metadata)
    → c.id ≡ id
    → is_registered j ms ≡ true
    → is_registered j (c ∷ ms) ≡ true
later id j ms c same h = ground (arith, h)

put-HasRows :
    {A : Type 0} (c : Metadata) (a : Option A) (ms : List Metadata) (es : List (Text × A))
    → HasRows ms es
    → HasRows (c ∷ ms) (put c.id a es)
put-HasRows c none ms es h = All-map _ _ es (λ e. later c.id e.0 ms c refl) h
put-HasRows c (some a) ms es h =
    (ground (arith, ==-refl c.id), All-map _ _ es (λ e. later c.id e.0 ms c refl) h)

checked-IsValid :
    (m : Metadata) (o : Result MetadataError Unit)
    → validate_metadata m ≡ o
    → checked_metadata o ≡ ok tt
    → IsValid m
checked-IsValid m (ok u) h e = h
checked-IsValid m (err x) h e = cc

module _ {P D : Type 0} where
  record IsCatalog (r : OperationRegistry P D) : Type 0 where
    distinct : IsDistinct (map id_of r.metadata)
    valid : All IsValid r.metadata
    found : All (λ (m : Metadata). by_id m.id r.metadata ≡ some m) r.metadata
    planned : HasRows r.metadata r.planning
    defined : HasRows r.metadata r.definitions

  -- The list and the lookups of a registry `r`, and of a later one `r'`
  pub record IsListed (r r' : OperationRegistry P D) : Type 0 where
    pub ascending : IsAscending (map id_of (list_metadata r))
    pub valid : All IsValid (list_metadata r)
    pub complete :
        (id : Text) → contains id (map id_of (list_metadata r)) ≡ is_found (get_metadata id r)
    pub kept : All (λ (m : Metadata). get_metadata m.id r' ≡ some m) (list_metadata r)
    pub planned : All (λ e. is_found (get_metadata e.0 r) ≡ true) r.planning
    pub defined : All (λ e. is_found (get_metadata e.0 r) ≡ true) r.definitions

  abbrev Kept : List Metadata → OperationRegistry P D → Type 0
  Kept ms r = All (λ (m : Metadata). by_id m.id r.metadata ≡ some m) ms

  register-IsCatalog :
      (c : Option (Candidate P D)) (r : OperationRegistry P D) (ms : List Metadata)
      → IsCatalog r
      → Kept ms r
      → IfOk (λ r'. IsCatalog r' × Kept ms r') (register c r)
  unfolding register
  register-IsCatalog none r ms h k = tt
  register-IsCatalog (some c) r ms h k =
      let Good : OperationRegistry P D → Type 0 = λ r'. IsCatalog r' × Kept ms r' in
      let m = c.metadata in
      bind-IfOk Good (checked_metadata (validate_metadata m)) _ (λ u valid.
        require-IfOk Good (not (is_registered m.id r.metadata)) _ _ (λ free.
          let new : is_registered m.id r.metadata ≡ false = ground arith in
          (
            record {
              distinct = (new, h.distinct);
              valid = (checked-IsValid m (validate_metadata m) refl valid, h.valid);
              found = (
                rw (==-refl m.id) refl,
                All-map _ _ r.metadata (λ n. by_id-behind m n r.metadata new) h.found,
              );
              planned = put-HasRows m c.planning r.metadata r.planning h.planned;
              defined = put-HasRows m c.definition r.metadata r.definitions h.defined;
            },
            All-map _ _ ms (λ n. by_id-behind m n r.metadata new) k,
          )))

  registered-IsCatalog :
      (r : OperationRegistry P D) (ms : List Metadata)
      (o : Result RegistryError (OperationRegistry P D))
      → IsCatalog r
      → Kept ms r
      → IfOk (λ r'. IsCatalog r' × Kept ms r') o
      → IsCatalog (registered r o) × Kept ms (registered r o)
  registered-IsCatalog r ms (ok r') h k g = g
  registered-IsCatalog r ms (err e) h k g = (h, k)

  register_all-IsCatalog :
      (cs : List (Option (Candidate P D))) (r : OperationRegistry P D) (ms : List Metadata)
      → IsCatalog r
      → Kept ms r
      → IsCatalog (register_all cs r) × Kept ms (register_all cs r)
  unfolding register_all
  register_all-IsCatalog [] r ms h k = (h, k)
  register_all-IsCatalog (c ∷ cs) r ms h k =
      let (g, l) = registered-IsCatalog r ms (register c r) h k (register-IsCatalog c r ms h k) in
      register_all-IsCatalog cs (registered r (register c r)) ms g l

  seen :
      {A : Type 0} (r : OperationRegistry P D) (es : List (Text × A))
      → HasRows r.metadata es
      → All (λ e. is_found (get_metadata e.0 r) ≡ true) es
  unfolding get_metadata
  seen r es h = All-map _ _ es (λ e there. is_found-by_id e.0 r.metadata ∙ there) h

  catalog-IsListed :
      (r r' : OperationRegistry P D) → IsCatalog r → Kept r.metadata r' → IsListed r r'
  unfolding list_metadata get_metadata
  catalog-IsListed r r' h k = record {
    ascending = sort_by-IsAscending id_of r.metadata h.distinct;
    valid = All-sort_by id_of IsValid r.metadata h.valid;
    complete = λ id. contains-sort_by id_of id r.metadata ∙ sym (is_found-by_id id r.metadata);
    kept = All-sort_by id_of (λ (m : Metadata). by_id m.id r'.metadata ≡ some m) r.metadata k;
    planned = seen r r.planning h.planned;
    defined = seen r r.definitions h.defined;
  }

  -- After any registrations, refused ones included, the registry lists valid metadata in strictly
  -- ascending order of the IDs, namely for the IDs that Get knows; every planning and operation definition
  -- belongs to a listed operation; and Get gives the listed metadata, also after further registrations.
  pub register_all-IsListed :
      (cs ds : List (Option (Candidate P D)))
      → IsListed (register_all cs new_operations) (register_all ds (register_all cs new_operations))
  register_all-IsListed cs ds =
      let start : IsCatalog new_operations = record {
        distinct = tt;
        valid = tt;
        found = tt;
        planned = tt;
        defined = tt;
      } in
      let (now', _) = register_all-IsCatalog cs new_operations [] start tt in
      let r = register_all cs new_operations in
      catalog-IsListed r (register_all ds r) now'
        (register_all-IsCatalog ds r r.metadata now' now'.found).1
