-- ===== src/Operation/Supervisor/Granted.antt =====
-- What the supervisor of app/internal/operation/lease_supervisor.go hands out, and to whom it refuses.
use setpoint_ci_mirror.Base.{
  ℕ, ◌≡◌, refl, ap, subst, Bool, true, false, not, Option, none, some, List, [], ◌∷◌, Result, ok,
  err, IfOk, bind-IfOk, IfOk-ok, >>=-eq-ok, require-ok, require->>-ok, ==-refl, ◌⊎◌, inl, inr,
  if◌then◌else◌, arith,
}
use setpoint_ci_mirror.Base.Int.{ℤ}
use setpoint_ci_mirror.Base.Text.{Text, text_eq, text_beq_iff, trim_space}
use setpoint_ci_mirror.Operation.Target.{Target}
use setpoint_ci_mirror.Operation.Lock.{
  LockResource, LockRequest, LockLease, normalize_lock_request, validate_lease_coverage, second,
}
use setpoint_ci_mirror.Operation.Supervisor.{
  SupervisorError, SupervisedLease, Supervisor, authority_unavailable, coverage_differs,
  different_resource_set, lift_lock, answered, as_unavailable, same_resources,
  supervised_lock_resources, validate_exact_binding, tracked, start_locked, exact_lease, healthy,
  acquire_untracked, acquire_tracked, acquire, found_owner, resume_untracked, resume_tracked,
  resume,
}

-- A lease that is bound to a run and its resources, exactly
abbrev pub IsBound : LockLease → Text → List LockResource → ℕ → Type 0
IsBound lease run resources now =
    (validate_lease_coverage lease run resources now ≡ ok tt)
    × ((normal : LockRequest) × (normalize_lock_request
            (record { owner_id = run; resources = lease.resources; ttl = second })
          ≡ ok normal)
        × (normal.resources ≡ resources))

same_resources-eq : (a b : List LockResource) → same_resources a b ≡ true → a ≡ b
same_resources-eq [] [] h = refl
same_resources-eq [] (s ∷ ss) h = cc
same_resources-eq (r ∷ rs) [] h = cc
same_resources-eq (r ∷ rs) (s ∷ ss) h =
    ground (arith, text_beq_iff r.key s.key, same_resources-eq rs ss)

lift-ok : (r : Result _ (Unit {0})) {u : Unit {0}} → lift_lock r ≡ ok u → r ≡ ok tt
lift-ok (ok tt) h = refl
lift-ok (err e) h = cc

lift-ok_value : {A : Type 0} (r : Result _ A) {a : A} → lift_lock r ≡ ok a → r ≡ ok a
lift-ok_value (ok b) h = cc
lift-ok_value (err e) h = cc

exact-IsBound :
    (lease : LockLease) (run : Text) (resources : List LockResource) (now : ℕ) {u : Unit {0}}
    → validate_exact_binding lease run resources now ≡ ok u
    → IsBound lease run resources now
unfolding validate_exact_binding
exact-IsBound lease run resources now h =
    let (_, covered, h1) =
      >>=-eq-ok (lift_lock (validate_lease_coverage lease run resources now)) _ h in
    let (normal, made, h2) =
      >>=-eq-ok
        (lift_lock (
          normalize_lock_request
            (record { owner_id = run; resources = lease.resources; ttl = second })))
        _ h1 in
    (
      lift-ok (validate_lease_coverage lease run resources now) covered,
      (
        normal,
        lift-ok_value
            (normalize_lock_request
              (record { owner_id = run; resources = lease.resources; ttl = second }))
            made,
        same_resources-eq normal.resources resources
            (require-ok (same_resources normal.resources resources) coverage_differs h2),
      ),
    )

healthy-same :
    {A : Type 0} (a : A) (o : Option SupervisorError) {b : A}
    → healthy a o ≡ ok b
    → (b ≡ a) × (o ≡ none)
healthy-same a none h = (cc, refl)
healthy-same a (some f) h = absurd (cc)

unavailable-ok :
    {A : Type 0} (r : Result SupervisorError A) {a : A} → as_unavailable r ≡ ok a → r ≡ ok a
unavailable-ok (ok b) h = cc
unavailable-ok (err e) h = absurd (cc)

-- A lease that the supervisor handed out for the targets of a run
pub record IsGranted (ttl : ℤ) (run : Text) (targets : List Target) (now : ℕ) (s : Supervisor)
    (lease : LockLease) (s' : Supervisor) : Type 0 where
  pub resources : List LockResource
  pub planned : supervised_lock_resources run targets ttl ≡ ok resources
  pub still_open : s.closed ≡ false
  pub never_failed : (e : SupervisedLease) → tracked run s ≡ some e → e.failure ≡ none
  pub bound : IsBound lease run resources now
  pub supervised :
      (e : SupervisedLease) × (tracked run s' ≡ some e)
      × (e.lease ≡ lease)
      × (e.resources ≡ resources)
      × (e.failure ≡ none)

not-false : (b : Bool) → not b ≡ true → b ≡ false
not-false true h = cc
not-false false h = refl

started :
    (run : Text) (lease : LockLease) (resources : List LockResource) (s : Supervisor)
    → (e : SupervisedLease) × (tracked run (start_locked run lease resources s) ≡ some e)
      × (e.lease ≡ lease)
      × (e.resources ≡ resources)
      × (e.failure ≡ none)
started run lease resources s =
    let e : SupervisedLease = record {
      run_id = run;
      serial = s.next_serial;
      lease = lease;
      resources = resources;
      failure = none;
      stopping = false;
    } in
    (e, ap (λ b. if b then some e else tracked run s) (==-refl run), refl, refl, refl)

module _ (ttl : ℤ) (run : Text) (targets : List Target) (s : Supervisor)
    (resources : List LockResource)
    (planned : supervised_lock_resources run targets ttl ≡ ok resources)
    (still_open : s.closed ≡ false) where
  abbrev Given : ℕ → LockLease × Supervisor → Type 0
  Given now p = IsGranted ttl run targets now s p.0 p.1

  -- A lease that is supervised already
  held :
      (now : ℕ) (e : SupervisedLease) (lease : LockLease)
      → tracked run s ≡ some e
      → e.failure ≡ none
      → exact_lease run resources now e ≡ ok lease
      → IsGranted ttl run targets now s lease s
  held now e lease known sound h =
      let (same, h1) =
        require->>-ok (same_resources e.resources resources) different_resource_set _ h in
      let (_, exact, h2) = >>=-eq-ok (validate_exact_binding e.lease run resources now) _ h1 in
      let is : e.lease ≡ lease = cc in
      record {
        resources = resources;
        planned = planned;
        still_open = still_open;
        never_failed = λ f k.
            let same' : e ≡ f = cc (known, k) in
            subst (λ (x : SupervisedLease). x.failure ≡ none) same' sound;
        bound =
            subst (λ l. IsBound l run resources now) is
              (exact-IsBound e.lease run resources now exact);
        supervised = (e, known, is, same_resources-eq e.resources resources same, sound);
      }

  acquire_untracked-Given :
      (answer : Result Text LockLease) (now : ℕ)
      → tracked run s ≡ none
      → IfOk (Given now) (acquire_untracked run resources answer now s)
  acquire_untracked-Given answer now absent =
      bind-IfOk (Given now) (answered answer) _ (λ lease given.
        bind-IfOk (Given now) (validate_exact_binding lease run resources now) _ (λ _ exact.
          record {
            resources = resources;
            planned = planned;
            still_open = still_open;
            never_failed = λ f k. absurd (cc (absent, k));
            bound = exact-IsBound lease run resources now exact;
            supervised = started run lease resources s;
          }))

  acquire_tracked-Given :
      (answer : Result Text LockLease) (now : ℕ) (o : Option SupervisedLease)
      → tracked run s ≡ o
      → IfOk (Given now) (acquire_tracked run resources answer now s o)
  acquire_tracked-Given answer now none absent = acquire_untracked-Given answer now absent
  acquire_tracked-Given answer now (some e) known =
      bind-IfOk (Given now) (healthy e e.failure) _ (λ h sound.
        bind-IfOk (Given now) (exact_lease run resources now h) _ (λ lease exact.
          let (same, whole) = healthy-same e e.failure sound in
          held now e lease known whole
            (subst (λ x. exact_lease run resources now x ≡ ok lease) same exact)))

  abbrev GivenBy : ℕ → ℕ → LockLease × Supervisor → Type 0
  GivenBy now later p = Given now p ⊎ Given later p

  resume_untracked-Given :
      (current : Result Text (Option LockLease)) (now : ℕ) (renewal : Result Text LockLease)
      (later : ℕ)
      → tracked run s ≡ none
      → IfOk (GivenBy now later) (resume_untracked run resources current now renewal later s)
  resume_untracked-Given current now renewal later absent =
      let P = GivenBy now later in
      bind-IfOk P (as_unavailable (answered current)) _ (λ owned _.
        bind-IfOk P (found_owner owned) _ (λ lease _.
          bind-IfOk P (as_unavailable (validate_exact_binding lease run resources now)) _ (λ _ _.
            bind-IfOk P (as_unavailable (answered renewal)) _ (λ renewed _.
              bind-IfOk P (as_unavailable (validate_exact_binding renewed run resources later)) _
                (λ _ exact. inr (record {
                  resources = resources;
                  planned = planned;
                  still_open = still_open;
                  never_failed = λ f k. absurd (cc (absent, k));
                  bound =
                      exact-IsBound renewed run resources later
                        (unavailable-ok (validate_exact_binding renewed run resources later) exact);
                  supervised = started run renewed resources s;
                }))))))

  resume_tracked-Given :
      (current : Result Text (Option LockLease)) (now : ℕ) (renewal : Result Text LockLease)
      (later : ℕ) (o : Option SupervisedLease)
      → tracked run s ≡ o
      → IfOk (GivenBy now later) (resume_tracked run resources current now renewal later s o)
  resume_tracked-Given current now renewal later none absent =
      resume_untracked-Given current now renewal later absent
  resume_tracked-Given current now renewal later (some e) known =
      let P = GivenBy now later in
      bind-IfOk P (healthy e e.failure) _ (λ h sound.
        bind-IfOk P (as_unavailable (exact_lease run resources now h)) _ (λ lease exact.
          let (same, whole) = healthy-same e e.failure sound in
          inl (
            held now e lease known whole (
              subst (λ x. exact_lease run resources now x ≡ ok lease) same
                (unavailable-ok (exact_lease run resources now h) exact)))))

-- A lease that Acquire returns is live, owned by the run and bound to exactly the normalized resources
-- of its targets; the supervisor was not closed and the run's lease had not failed, and afterwards the
-- run is supervised with this lease. Whatever the lock manager answers.
pub acquire-IsGranted :
    (ttl : ℤ) (id : Text) (targets : List Target) (answer : Result Text LockLease) (now : ℕ)
    (s s' : Supervisor) (lease : LockLease)
    → acquire ttl id targets answer now s ≡ ok (lease, s')
    → IsGranted ttl (trim_space id) targets now s lease s'
unfolding acquire
acquire-IsGranted ttl id targets answer now s s' lease h =
    let run = trim_space id in
    let (resources, planned, h1) = >>=-eq-ok (supervised_lock_resources run targets ttl) _ h in
    let (up, h2) = require->>-ok (not s.closed) authority_unavailable _ h1 in
    IfOk-ok (λ p. IsGranted ttl run targets now s p.0 p.1)
      (acquire_tracked run resources answer now s (tracked run s))
      (acquire_tracked-Given ttl run targets s resources planned (not-false s.closed up) answer now
        (tracked run s) refl)
      h2

-- The same of a lease that Resume returns, at one of the two times that it read.
pub resume-IsGranted :
    (ttl : ℤ) (id : Text) (targets : List Target) (current : Result Text (Option LockLease))
    (now : ℕ) (renewal : Result Text LockLease) (later : ℕ) (s s' : Supervisor) (lease : LockLease)
    → resume ttl id targets current now renewal later s ≡ ok (lease, s')
    → IsGranted ttl (trim_space id) targets now s lease s'
      ⊎ IsGranted ttl (trim_space id) targets later s lease s'
unfolding resume
resume-IsGranted ttl id targets current now renewal later s s' lease h =
    let run = trim_space id in
    let (resources, planned, h1) = >>=-eq-ok (supervised_lock_resources run targets ttl) _ h in
    let (up, h2) = require->>-ok (not s.closed) authority_unavailable _ h1 in
    IfOk-ok
      (λ p. IsGranted ttl run targets now s p.0 p.1 ⊎ IsGranted ttl run targets later s p.0 p.1)
      (resume_tracked run resources current now renewal later s (tracked run s))
      (resume_tracked-Given ttl run targets s resources planned (not-false s.closed up) current now
        renewal later (tracked run s) refl)
      h2
