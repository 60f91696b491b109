-- ===== src/Tests/CheckRuns.antt =====
-- Runs of the check run's status and offers.
use setpoint_ci_mirror.Base.{
  ℕ, arith, List, ◌≡◌, refl, true, false, some, none, [], ◌∷◌, ok, err, All, ◌+◌, ◌≤◌, length, Bool,
  Result,
}
use setpoint_ci_mirror.Base.Text.{codes, text_beq, trim_space}
use setpoint_ci_mirror.Task.Phase.{Phase, pending, succeeded, failed, is_pending, terminal_phase}
use setpoint_ci_mirror.Task.Item.{CheckItem, unsafe}
use setpoint_ci_mirror.Remediation.Metadata.{
  auto_safe, valid_disposition, validate_remediation, disposition_eq,
}
use setpoint_ci_mirror.Remediation.Registry.{
  Binding, Registry, new_registry, check_binding, bind_checks,
}
use setpoint_ci_mirror.CheckRun.Aggregate.{RunTask, run_running, run_partial_failed, aggregate}
use setpoint_ci_mirror.CheckRun.Counts.{AllKnown}
use setpoint_ci_mirror.CheckRun.Phases.{aggregate-counts, aggregate-common_phase}
use setpoint_ci_mirror.CheckRun.Offers.{
  RemediationOffer, Declared, actionable, build_remediation_offers,
}
use setpoint_ci_mirror.CheckRun.Actionable.{IsApproved, build_remediation_offers-IsApproved}

abbrev finding : CheckItem
finding = record {
  id = codes "kernel.aslr";
  status = unsafe;
  name = codes "ASLR";
  current_value = codes "0";
  recommended_value = codes "2";
  compliant = some false;
  risk = codes "high";
  risk_description = [];
  remediation = codes "set it to 2";
  evidence_summary = [];
  applicable = true;
  review_reason = [];
  supports_automatic_fix = false;
  supports_rollback = false;
  requires_restart = false;
  may_affect_connection = false;
  may_affect_business = false;
  executed_at = 3;
  error = none;
}

abbrev task_in : Phase → RunTask
task_in p = record {
  id = codes "t";
  node_id = codes "n";
  phase = p;
  updated_at = 7;
  result = some (finding ∷ []);
}

abbrev failing : List RunTask
failing = task_in succeeded ∷ task_in failed ∷ []

abbrev binding : Binding
binding = record {
  check_ids = codes "kernel.aslr" ∷ [];
  operation_id = codes "sysctl.repair";
  disposition = auto_safe;
  impact = record { connection = false; business = false; restart = false };
  supports_rollback = true;
  parameters = some (λ item. ok ((codes "value", item.recommended_value) ∷ []));
}

abbrev registry : Registry
registry =
    record { check_id = codes "kernel.aslr"; binding = record binding { check_ids = [] } } ∷ []

registered : new_registry (binding ∷ []) ≡ ok registry
unfolding new_registry check_binding disposition_eq setpoint_ci_mirror.Base.Deep.eq_by
    setpoint_ci_mirror.Base.Deep.pair_eq text_beq trim_space validate_remediation valid_disposition
    setpoint_ci_mirror.Operation.Metadata.valid_id bind_checks
registered = refl

abbrev remediations : List Declared
remediations =
    record {
      check_id = codes "kernel.aslr";
      remediation = record {
        disposition = auto_safe;
        operation_id = codes "sysctl.repair";
        reason = codes "safe";
      };
    }
    ∷ []

-- A run with a failed task is partly failed, and one with a waiting task goes on.
failing_phase : (aggregate failing).phase ≡ run_partial_failed
unfolding aggregate
failing_phase = refl

going_phase : (aggregate (task_in pending ∷ failing)).phase ≡ run_running
unfolding aggregate
going_phase = refl

aggregate-counts_example :
    ((aggregate failing).tasks.waiting
        + (aggregate failing).tasks.active
        + (aggregate failing).tasks.completed
        + (aggregate failing).tasks.stopped
      ≤ length failing)
    × ((aggregate failing).tasks.total ≡ length failing)
    × (AllKnown failing
        → (aggregate failing).tasks.waiting
            + (aggregate failing).tasks.active
            + (aggregate failing).tasks.completed
            + (aggregate failing).tasks.stopped
          ≡ length failing)
aggregate-counts_example = aggregate-counts failing

aggregate-common_phase_example : (aggregate failing).phase ≡ run_partial_failed
unfolding is_pending terminal_phase
aggregate-common_phase_example = aggregate-common_phase failing (refl, (refl, tt))

build_remediation_offers-IsApproved_example :
    All
      (λ (o : RemediationOffer). o.availability ≡ actionable → IsApproved o)
      (build_remediation_offers (codes "run") failing remediations (some registry))
build_remediation_offers-IsApproved_example =
    build_remediation_offers-IsApproved (codes "run") failing remediations (binding ∷ []) registry
      registered
