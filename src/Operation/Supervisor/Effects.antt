-- ===== src/Operation/Supervisor/Effects.antt =====
-- The critical sections of app/internal/operation/lease_supervisor.go: what each of them may do to the
-- entries.
use setpoint_ci_mirror.Base.{
  ℕ, ◌≡◌, refl, ap, Bool, true, false, not, ◌&&◌, Option, none, some, List, Result, ok, err,
  require, IfOk, bind-IfOk, IfOk-ok, >>=-eq-ok, require->>-ok, ◌==◌, if◌then◌else◌, if_holds,
  is_empty, keep,
}
use setpoint_ci_mirror.Base.Int.{ℤ}
use setpoint_ci_mirror.Base.Text.{Text, text_eq, trim_space}
use setpoint_ci_mirror.Operation.Target.{Target}
use setpoint_ci_mirror.Operation.Lock.{LockResource, LockLease}
use setpoint_ci_mirror.Operation.Supervisor.{
  SupervisorError, SupervisedLease, Supervisor, authority_unavailable, run_id_required, answered,
  as_unavailable, supervised_lock_resources, validate_exact_binding, tracked, start_locked,
  update_entry, first_failure, failing, fail, exact_lease, healthy, acquire_tracked, acquire,
  found_owner, resume_tracked, resume, Watch, found_tracked, begin_release, stopped, refreshed,
  current_answer, finish_current, release_answer, finish_release, close, is_healthy, renewable,
  renewed_entry, renewal_answer, finish_renewal,
}

-- One critical section
pub data Step (s : Supervisor) : Supervisor → Type 0 where
  acquired :
      {s' : Supervisor} (ttl : ℤ) (id : Text) (targets : List Target)
      (answer : Result Text LockLease) (now : ℕ) (lease : LockLease)
      → acquire ttl id targets answer now s ≡ ok (lease, s')
      → Step s s'
  resumed :
      {s' : Supervisor} (ttl : ℤ) (id : Text) (targets : List Target)
      (current : Result Text (Option LockLease)) (now : ℕ) (renewal : Result Text LockLease)
      (later : ℕ) (lease : LockLease)
      → resume ttl id targets current now renewal later s ≡ ok (lease, s')
      → Step s s'
  checked :
      (w : Watch) (answer : Result Text (Option LockLease)) (now : ℕ)
      → Step s (finish_current w answer now s).1
  releasing :
      {s' : Supervisor} (id : Text) (w : Watch) → begin_release id s ≡ ok (w, s') → Step s s'
  released :
      (w : Watch) (answer : Result Text (Option LockLease)) (now : ℕ)
      (done : Result Text (Unit {0}))
      → Step s (finish_release w answer now done s).1
  renewed :
      (e : SupervisedLease) (canceled : Bool) (answer : Result Text LockLease) (now : ℕ)
      → Step s (finish_renewal e canceled answer now s)
  closing : Step s (close s)

-- Any number of sections, in any order
pub data Steps (s : Supervisor) : Supervisor → Type 0 where
  here : Steps s s
  after : {t u : Supervisor} → Steps s t → Step t u → Steps s u

-- A change of an entry that neither renames it nor forgets a stop or a failure.
pub record IsMild (change : SupervisedLease → SupervisedLease) : Type 0 where
  pub same_run : (e : SupervisedLease) → (change e).run_id ≡ e.run_id
  pub stays_stopped : (e : SupervisedLease) → e.stopping ≡ true → (change e).stopping ≡ true
  pub stays_failed :
      (e : SupervisedLease) (f : SupervisorError) → e.failure ≡ some f → (change e).failure ≡ some f

-- What a section does to the state
pub data Effect (s : Supervisor) : Supervisor → Type 0 where
  nothing : Effect s s
  started :
      (run : Text) (lease : LockLease) (resources : List LockResource)
      → s.closed ≡ false
      → tracked run s ≡ none
      → Effect s (start_locked run lease resources s)
  changed :
      (run : Text) (change : SupervisedLease → SupervisedLease)
      → IsMild change
      → Effect s (update_entry run change s)
  removed :
      (run : Text) → Effect s (record s { active = keep (λ e. not (e.run_id == run)) s.active })
  shut : Effect s (close s)

failing-IsMild : (x : SupervisorError) → IsMild (failing x)
failing-IsMild x = record {
  same_run = λ e. refl;
  stays_stopped = λ e h. h;
  stays_failed = λ e f h. ap (first_failure x) h;
}

if-IsMild :
    (test : SupervisedLease → Bool) (lease : LockLease)
    → IsMild (λ e. if test e then record e { lease = lease } else e)
if-IsMild test lease = record {
  same_run = λ e.
      if_holds (λ (x : SupervisedLease). x.run_id ≡ e.run_id) (test e) (record e { lease = lease })
        e (λ _. refl) (λ _. refl);
  stays_stopped = λ e h.
      if_holds (λ (x : SupervisedLease). x.stopping ≡ true) (test e) (record e { lease = lease }) e
        (λ _. h) (λ _. h);
  stays_failed = λ e f h.
      if_holds (λ (x : SupervisedLease). x.failure ≡ some f) (test e) (record e { lease = lease }) e
        (λ _. h) (λ _. h);
}

fail-Effect : (run : Text) (x : SupervisorError) (s : Supervisor) → Effect s (fail run x s)
unfolding fail
fail-Effect run x s = changed run (failing x) (failing-IsMild x)

module _ (s : Supervisor) where
  abbrev Does : LockLease × Supervisor → Type 0
  Does p = Effect s p.1

  acquire-Does :
      (run : Text) (resources : List LockResource) (answer : Result Text LockLease) (now : ℕ)
      (o : Option SupervisedLease)
      → s.closed ≡ false
      → tracked run s ≡ o
      → IfOk Does (acquire_tracked run resources answer now s o)
  acquire-Does run resources answer now none up absent =
      bind-IfOk Does (answered answer) _ (λ lease _.
        bind-IfOk Does (validate_exact_binding lease run resources now) _
          (λ _ _. started run lease resources up absent))
  acquire-Does run resources answer now (some e) up known =
      bind-IfOk Does (healthy e e.failure) _
        (λ h _. bind-IfOk Does (exact_lease run resources now h) _ (λ _ _. nothing))

  resume-Does :
      (run : Text) (resources : List LockResource) (current : Result Text (Option LockLease))
      (now : ℕ) (renewal : Result Text LockLease) (later : ℕ) (o : Option SupervisedLease)
      → s.closed ≡ false
      → tracked run s ≡ o
      → IfOk Does (resume_tracked run resources current now renewal later s o)
  resume-Does run resources current now renewal later none up absent =
      bind-IfOk Does (as_unavailable (answered current)) _ (λ owned _.
        bind-IfOk Does (found_owner owned) _ (λ lease _.
          bind-IfOk Does (as_unavailable (validate_exact_binding lease run resources now)) _ (λ _ _.
            bind-IfOk Does (as_unavailable (answered renewal)) _ (λ next _.
              bind-IfOk Does (as_unavailable (validate_exact_binding next run resources later)) _
                (λ _ _. started run next resources up absent)))))
  resume-Does run resources current now renewal later (some e) up known =
      bind-IfOk Does (healthy e e.failure) _ (λ h _.
        bind-IfOk Does (as_unavailable (exact_lease run resources now h)) _ (λ _ _. nothing))

pub not_closed : (b : Bool) → not b ≡ true → b ≡ false
not_closed true h = cc
not_closed false h = refl

release-Effect :
    (w : Watch) (s : Supervisor) (r : Result SupervisorError (Unit {0}))
    → Effect s (release_answer w s r).1
release-Effect w s (ok u) = removed w.run_id
release-Effect w s (err e) = fail-Effect w.run_id e s

current-Effect :
    (w : Watch) (s : Supervisor) (r : Result SupervisorError LockLease)
    → Effect s (current_answer w s r).1
current-Effect w s (ok lease) =
    changed w.run_id (refreshed lease)
      (if-IsMild (λ e. is_healthy e.failure && e.lease.id == lease.id) lease)
current-Effect w s (err e) = fail-Effect w.run_id e s

renewal-Effect :
    (e : SupervisedLease) (s : Supervisor) (r : Result SupervisorError LockLease)
    → Effect s (renewal_answer e s r)
renewal-Effect e s (ok lease) =
    changed e.run_id (renewed_entry e.serial lease) (if-IsMild (renewable e.serial) lease)
renewal-Effect e s (err x) = fail-Effect e.run_id x s

stopped-IsMild : IsMild stopped
stopped-IsMild = record {
  same_run = λ e. refl;
  stays_stopped = λ e h. refl;
  stays_failed = λ e f h. h;
}

begin-Does :
    (id : Text) (s : Supervisor)
    → IfOk (λ (p : Watch × Supervisor). Effect s p.1) (begin_release id s)
unfolding begin_release
begin-Does id s =
    let P : Watch × Supervisor → Type 0 = λ p. Effect s p.1 in
    bind-IfOk P (require (not (is_empty (trim_space id))) run_id_required) _ (λ _ _.
      bind-IfOk P (found_tracked (tracked (trim_space id) s)) _
        (λ e _. changed (trim_space id) stopped stopped-IsMild))

-- Every section has one of these effects.
pub Step-Effect : (s s' : Supervisor) → Step s s' → Effect s s'
unfolding acquire resume finish_current begin_release finish_release finish_renewal
Step-Effect s s' (acquired ttl id targets answer now lease h) =
    let run = trim_space id in
    let (resources, planned, h1) = >>=-eq-ok (supervised_lock_resources run targets ttl) _ h in
    let (up, h2) = require->>-ok (not s.closed) authority_unavailable _ h1 in
    IfOk-ok (Does s) (acquire_tracked run resources answer now s (tracked run s))
      (acquire-Does s run resources answer now (tracked run s) (not_closed s.closed up) refl) h2
Step-Effect s s' (resumed ttl id targets current now renewal later lease h) =
    let run = trim_space id in
    let (resources, planned, h1) = >>=-eq-ok (supervised_lock_resources run targets ttl) _ h in
    let (up, h2) = require->>-ok (not s.closed) authority_unavailable _ h1 in
    IfOk-ok (Does s) (resume_tracked run resources current now renewal later s (tracked run s))
      (resume-Does s run resources current now renewal later (tracked run s)
        (not_closed s.closed up) refl)
      h2
Step-Effect s s' (checked w answer now) = current-Effect w s _
Step-Effect s s' (releasing id w h) =
    IfOk-ok (λ (p : Watch × Supervisor). Effect s p.1) (begin_release id s) (begin-Does id s) h
Step-Effect s s' (released w answer now done) = release-Effect w s _
Step-Effect s s' (renewed e canceled (ok lease) now) = renewal-Effect e s _
Step-Effect s s' (renewed e true (err x) now) = nothing
Step-Effect s s' (renewed e false (err x) now) = fail-Effect e.run_id _ s
Step-Effect s s' closing = shut
