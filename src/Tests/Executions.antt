-- ===== src/Tests/Executions.antt =====
-- Runs of the coordinator with services that answer at once.
use setpoint_ci_mirror.Base.{◌≤◌, ◌≡◌, refl, true, false, Option, none, some, List, [], ◌∷◌, ok}
use setpoint_ci_mirror.Base.Text.{codes, trim_space}
use setpoint_ci_mirror.Operation.State.{
  State, awaiting_confirmation, draft, discovering, prechecking, planned, rolled_back, succeeded,
  can_transition, transition, state_beq,
}
use setpoint_ci_mirror.Operation.State.Trails.{Trail, start, next}
use setpoint_ci_mirror.Operation.Target.{Target, site, validate_target}
use setpoint_ci_mirror.Operation.Lock.{
  LockLease, resource_lock_key, normalize_lock_request, validate_lease, covers,
  validate_lease_coverage, trim_keys, sort_keys,
}
use setpoint_ci_mirror.Operation.Definition.{
  Discovery, Plan, Verification, zero_discovery, zero_precheck, zero_plan, zero_impact, zero_apply,
  zero_verification, zero_rollback,
}
use setpoint_ci_mirror.Operation.Metadata.{Metadata, low}
use setpoint_ci_mirror.Operation.RestorePoint.{
  RestorePoint, zero_restore_point, validate_restore_point,
}
use setpoint_ci_mirror.Operation.Coordinator.{
  Cause, external, Services, PreparedRun, lock_keys, lock_resources, advance, release_lease,
  is_none, literal,
}
use setpoint_ci_mirror.Operation.Coordinator.Trace.{
  has, is_apply, is_rollback, is_applied, is_verified, is_released, is_rolled, is_rollback_checked,
  is_restore_checked, IsEnded,
}
use setpoint_ci_mirror.Operation.Coordinator.Finish.{
  rollback_released, restored_verified, verify_restored, plugin_verified, verify_rollback,
  call_rollback, session_lost, roll_back,
}
use setpoint_ci_mirror.Operation.Coordinator.Execute.{
  execute_confirmed, start_cursor, complete, verify_answered, call_verify, apply_answered,
  call_apply, start_apply, check_session, point_answered, created, with_lease, acquired,
  with_resources, check_context,
}
use setpoint_ci_mirror.Operation.Coordinator.Safety.{before, execute_confirmed-IsEnded}
use setpoint_ci_mirror.Operation.Coordinator.Protocol.{
  IsGuarded, count, journaled, execute_confirmed-IsGuarded, execute_confirmed-Trail,
  execute_confirmed-succeeded, execute_confirmed-rolled_back,
}
use setpoint_ci_mirror.Operation.Coordinator.Prepare.{fresh_run, prepare}
use setpoint_ci_mirror.Operation.Coordinator.Prepare.Failure.{IsPrepared}
use setpoint_ci_mirror.Operation.Coordinator.Prepare.Ready.{prepare-IsPrepared}

abbrev demo_metadata : Metadata
demo_metadata = record {
  id = codes "demo";
  category = codes "demo";
  name = codes "demo";
  version = codes "1";
  description = codes "demo";
  risk = low;
  impact = codes "none";
  supported_systems = [];
  parameters = [];
  secret_requirements = [];
}

abbrev demo_target : Target
demo_target = record {
  kind = site;
  site_id = codes "s";
  node_id = [];
  component_name = [];
  resource = [];
}

abbrev demo_discovery : Discovery
demo_discovery = record zero_discovery { applicable = true; targets = demo_target ∷ [] }

abbrev demo_run : PreparedRun
demo_run =
    record (fresh_run (codes "run") demo_metadata
      (record { parameters = []; system = []; targets = []; secret_refs = [] })
      awaiting_confirmation) { discovery = demo_discovery; journal_sequence = 4 }

abbrev demo_plan : Plan
demo_plan = record zero_plan {
  schema_version = codes "1";
  execution = record { schema_version = codes "1"; payload = codes "p" };
}

abbrev passed : Verification
passed = record zero_verification { passed = true }

abbrev demo_point : RestorePoint
demo_point = record zero_restore_point {
  id = codes "p";
  provider_id = codes "files";
  operation_id = codes "demo";
  run_id = codes "run";
  targets = demo_target ∷ [];
  created_at = 1;
  manifest = record { schema_version = codes "1"; payload = codes "p" };
}

abbrev demo_lease : LockLease
demo_lease = record {
  id = codes "l";
  owner_id = codes "run";
  resources = record { key = codes "site|s|||" } ∷ [];
  acquired_at = 1;
  expires_at = 9;
}

-- Every service succeeds, but `Apply` where a failure is given.
abbrev demo : Option Cause → Services Unit
demo failure = record {
  now = λ e. (5, e);
  context_error = λ e. (none, e);
  append = λ ctx entry e. (none, e);
  acquire = λ request e. (ok demo_lease, e);
  release = λ lease e. (none, e);
  start_session = λ lease e. e;
  stop_session = λ e. e;
  current_lease = λ e. (demo_lease, e);
  session_error = λ e. (none, e);
  create_point = λ plan targets run_id e. (ok demo_point, e);
  verify_point = λ point e. (ok passed, e);
  verify_restored = λ point rollback e. (ok passed, e);
  metadata = demo_metadata;
  discover = λ runtime e. (ok demo_discovery, e);
  precheck = λ runtime discovery e. (ok (record zero_precheck { passed = true }), e);
  plan = λ runtime discovery precheck e. (ok demo_plan, e);
  impact = λ runtime plan e. (ok zero_impact, e);
  apply = λ runtime plan impact point e. (zero_apply, failure, e);
  verify = λ runtime plan apply e. (passed, none, e);
  rollback = λ runtime plan apply point e. (zero_rollback, none, e);
  verify_rollback = λ runtime plan rollback point e. (passed, none, e);
}

abbrev broken : Services Unit
broken = demo (some (external (codes "disk full")))

run_succeeds : (execute_confirmed (demo none) demo_run (before tt)).0.result.state ≡ succeeded
unfolding execute_confirmed advance transition can_transition state_beq check_context with_resources
    lock_resources lock_keys resource_lock_key validate_target normalize_lock_request trim_keys
    sort_keys setpoint_ci_mirror.Base.Text.Sort.sort_by trim_space acquired validate_lease_coverage
    validate_lease covers with_lease created point_answered validate_restore_point check_session
    start_apply call_apply apply_answered call_verify verify_answered complete release_lease literal
run_succeeds = refl

run_has_no_error : (execute_confirmed (demo none) demo_run (before tt)).0.error ≡ none
unfolding execute_confirmed advance transition can_transition state_beq check_context with_resources
    lock_resources lock_keys resource_lock_key validate_target normalize_lock_request trim_keys
    sort_keys setpoint_ci_mirror.Base.Text.Sort.sort_by trim_space acquired validate_lease_coverage
    validate_lease covers with_lease created point_answered validate_restore_point check_session
    start_apply call_apply apply_answered literal call_verify verify_answered complete release_lease
run_has_no_error = refl

run_rolls_back : (execute_confirmed broken demo_run (before tt)).0.result.state ≡ rolled_back
unfolding execute_confirmed advance transition can_transition state_beq check_context with_resources
    lock_resources lock_keys resource_lock_key validate_target normalize_lock_request trim_keys
    sort_keys setpoint_ci_mirror.Base.Text.Sort.sort_by trim_space acquired validate_lease_coverage
    validate_lease covers with_lease created point_answered validate_restore_point check_session
    start_apply call_apply apply_answered literal roll_back session_lost call_rollback
    verify_rollback plugin_verified verify_restored restored_verified release_lease
    rollback_released
run_rolls_back = refl

planned_past : Trail (awaiting_confirmation ∷ planned ∷ prechecking ∷ discovering ∷ draft ∷ [])
unfolding can_transition
planned_past = next (next (next (next start refl) refl) refl) refl

execute_confirmed-IsEnded_example :
    IsEnded
      (start_cursor demo_run)
      (codes "run")
      (execute_confirmed broken demo_run (before tt)).0
      (execute_confirmed broken demo_run (before tt)).1
unfolding state_beq
execute_confirmed-IsEnded_example = execute_confirmed-IsEnded broken demo_run tt refl

execute_confirmed-IsGuarded_example :
    IsGuarded (execute_confirmed broken demo_run (before tt)).1.calls
    × (count is_apply (execute_confirmed broken demo_run (before tt)).1.calls ≤ 1)
    × (count is_rollback (execute_confirmed broken demo_run (before tt)).1.calls ≤ 1)
execute_confirmed-IsGuarded_example = execute_confirmed-IsGuarded broken demo_run tt refl

execute_confirmed-Trail_example :
    (rest : List State) × (journaled
        (execute_confirmed broken demo_run (before tt)).1.calls
        (awaiting_confirmation ∷ planned ∷ prechecking ∷ discovering ∷ draft ∷ [])
      ≡ (execute_confirmed broken demo_run (before tt)).0.result.state ∷ rest)
    × Trail ((execute_confirmed broken demo_run (before tt)).0.result.state ∷ rest)
execute_confirmed-Trail_example =
    execute_confirmed-Trail broken demo_run tt refl
      (planned ∷ prechecking ∷ discovering ∷ draft ∷ []) planned_past

execute_confirmed-succeeded_example :
    ((execute_confirmed (demo none) demo_run (before tt)).0.result.state ≡ succeeded)
    × (has is_applied (execute_confirmed (demo none) demo_run (before tt)).1.calls ≡ true)
    × (has is_verified (execute_confirmed (demo none) demo_run (before tt)).1.calls ≡ true)
    × (has is_released (execute_confirmed (demo none) demo_run (before tt)).1.calls ≡ true)
execute_confirmed-succeeded_example =
    execute_confirmed-succeeded (demo none) demo_run tt refl run_has_no_error

execute_confirmed-rolled_back_example :
    (is_none (execute_confirmed broken demo_run (before tt)).0.error ≡ false)
    × (has is_rolled (execute_confirmed broken demo_run (before tt)).1.calls ≡ true)
    × (has is_rollback_checked (execute_confirmed broken demo_run (before tt)).1.calls ≡ true)
    × (has is_restore_checked (execute_confirmed broken demo_run (before tt)).1.calls ≡ true)
    × (has is_released (execute_confirmed broken demo_run (before tt)).1.calls ≡ true)
execute_confirmed-rolled_back_example =
    execute_confirmed-rolled_back broken demo_run tt refl run_rolls_back

prepare-IsPrepared_example :
    IsPrepared
      (trim_space (codes " run "))
      (prepare (demo none) (codes " run ") demo_run.runtime (before tt)).0
      (prepare (demo none) (codes " run ") demo_run.runtime (before tt)).1
prepare-IsPrepared_example = prepare-IsPrepared (demo none) (codes " run ") demo_run.runtime tt
