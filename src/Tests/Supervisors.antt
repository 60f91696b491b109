-- ===== src/Tests/Supervisors.antt =====
-- Runs of the lease supervisor.
use setpoint_ci_mirror.Base.{ℕ, List, ◌≡◌, ◌⊎◌, refl, true, false, some, none, [], ◌∷◌, ok, Result}
use setpoint_ci_mirror.Base.Int.{ℤ, pos}
use setpoint_ci_mirror.Base.Text.{Text, codes, text_beq, trim_space}
use setpoint_ci_mirror.Operation.Target.{Target, node, validate_target}
use setpoint_ci_mirror.Operation.Lock.{
  LockLease, resource_lock_key, normalize_lock_request, validate_lease, covers,
  validate_lease_coverage,
}
use setpoint_ci_mirror.Operation.Coordinator.{lock_keys}
use setpoint_ci_mirror.Operation.Supervisor.{
  Supervisor, acquire, resume, close, start_locked, begin_renewal,
}
use setpoint_ci_mirror.Operation.Supervisor.Effects.{here, after, closing}
use setpoint_ci_mirror.Operation.Supervisor.Granted.{IsGranted, acquire-IsGranted, resume-IsGranted}
use setpoint_ci_mirror.Operation.Supervisor.Steps.{IsOrderly, Steps-IsOrderly, Steps-closed_idle}

abbrev idle : Supervisor
idle = record { active = []; closed = false; next_serial = 0 }

abbrev shut : Supervisor
shut = record { active = []; closed = true; next_serial = 0 }

abbrev target : Target
target = record {
  kind = node;
  site_id = [];
  node_id = codes "n";
  component_name = [];
  resource = [];
}

abbrev lease : LockLease
lease = record {
  id = codes "l";
  owner_id = codes "r";
  resources = record { key = codes "node||n||" } ∷ [];
  acquired_at = 1;
  expires_at = 100;
}

abbrev ttl : ℤ
ttl = pos 60

abbrev busy : Supervisor
busy = start_locked (codes "r") lease lease.resources idle

granted : acquire ttl (codes " r ") (target ∷ []) (ok lease) 5 idle ≡ ok (lease, busy)
unfolding acquire trim_space lock_keys resource_lock_key validate_target normalize_lock_request
    validate_lease_coverage validate_lease text_beq covers setpoint_ci_mirror.Base.Text.Sort.sort_by
granted = refl

acquire-IsGranted_example : IsGranted ttl (trim_space (codes " r ")) (target ∷ []) 5 idle lease busy
acquire-IsGranted_example =
    acquire-IsGranted ttl (codes " r ") (target ∷ []) (ok lease) 5 idle busy lease granted

taken_up :
    resume ttl (codes "r") (target ∷ []) (ok (some lease)) 5 (ok lease) 6 idle ≡ ok (lease, busy)
unfolding resume trim_space lock_keys resource_lock_key validate_target normalize_lock_request
    validate_lease_coverage validate_lease text_beq covers setpoint_ci_mirror.Base.Text.Sort.sort_by
taken_up = refl

resume-IsGranted_example :
    IsGranted ttl (trim_space (codes "r")) (target ∷ []) 5 idle lease busy
    ⊎ IsGranted ttl (trim_space (codes "r")) (target ∷ []) 6 idle lease busy
resume-IsGranted_example =
    resume-IsGranted ttl (codes "r") (target ∷ []) (ok (some lease)) 5 (ok lease) 6 idle busy lease
      taken_up

idle-IsOrderly : IsOrderly idle
idle-IsOrderly = record { distinct = tt; stopped_all = λ h. tt }

shut-IsOrderly : IsOrderly shut
shut-IsOrderly = record { distinct = tt; stopped_all = λ h. tt }

Steps-IsOrderly_example : IsOrderly (close idle)
Steps-IsOrderly_example = Steps-IsOrderly idle (close idle) (after here closing) idle-IsOrderly

Steps-closed_idle_example :
    ((ttl : ℤ) (id : Text) (targets : List Target) (answer : Result Text LockLease) (now : ℕ)
        (p : LockLease × Supervisor)
      → acquire ttl id targets answer now (close shut) ≡ ok p
      → ⊥)
    × ((run : Text) (serial : ℕ) → begin_renewal run serial (close shut) ≡ none)
Steps-closed_idle_example =
    Steps-closed_idle shut (close shut) shut-IsOrderly refl (after here closing)
