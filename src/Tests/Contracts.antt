-- ===== src/Tests/Contracts.antt =====
-- Runs of the contracts of an operation's actions.
use setpoint_ci_mirror.Base.{◌≡◌, refl, subst, true, false, none, some, [], ◌∷◌, ok, err}
use setpoint_ci_mirror.Base.Int.{pos}
use setpoint_ci_mirror.Base.Text.{Text, codes, text_beq, text_beq_iff, trim_space, is_blank}
use setpoint_ci_mirror.Operation.Definition.{zero_plan, Plan}
use setpoint_ci_mirror.OperationRun.Stages.{node_target}
use setpoint_ci_mirror.Task.Execution.{
  ExecutionContract, Encoding, create_restore_point, verify, new_execution_contract,
  validate_execution_contract, canonical_contract, stage_differs, apply_required,
}
use setpoint_ci_mirror.Task.Execution.Accepted.{
  IsAccepted, IsLawful, new_execution_contract-IsAccepted,
}
use setpoint_ci_mirror.Tests.Plannings.{stage_on}

abbrev encoding : Encoding
encoding = record { json_valid = λ t. true; digest = λ c. ok (codes "ab"); equal_fold = text_beq }

encoding-IsLawful : IsLawful encoding
unfolding trim_space
encoding-IsLawful = record {
  same_folds = λ t. (text_beq_iff t t).1 refl;
  trimmed = λ c t h. let same : codes "ab" ≡ t = cc in subst (λ u. trim_space u ≡ u) same refl;
  not_blank = λ c t h. let same : codes "ab" ≡ t = cc in subst (λ u. is_blank u ≡ false) same refl;
}

abbrev planned_steps : Text → Plan
planned_steps executor = record zero_plan {
  schema_version = codes "1";
  steps = stage_on (codes "s1") (codes "b") ∷ stage_on (codes "s2") executor ∷ [];
  execution = record { schema_version = codes "1"; payload = codes "{}" };
}

abbrev contract_on : Text → ExecutionContract
contract_on executor = record {
  schema_version = pos 0;
  operation_id = codes "op ";
  run_id = codes "run";
  action = create_restore_point;
  plan_digest = codes "d";
  participant_node_ids = codes "b" ∷ codes " a" ∷ [];
  stage_index = pos 1;
  stage = stage_on (codes "s2") executor;
  targets = node_target (codes "a") ∷ [];
  plan = planned_steps executor;
  impact = none;
  restore_point = none;
  apply = none;
  rollback = none;
}

made :
    new_execution_contract encoding (contract_on (codes "a"))
    ≡ ok (canonical_contract (contract_on (codes "a")), codes "ab")
unfolding new_execution_contract trim_space setpoint_ci_mirror.Base.Text.Sort.sort_by
    setpoint_ci_mirror.Base.Text.text_lt text_beq
    setpoint_ci_mirror.OperationRun.Stages.validate_execution_stage
    setpoint_ci_mirror.Operation.Target.validate_target
made = refl

new_execution_contract-IsAccepted_example :
    IsAccepted (canonical_contract (contract_on (codes "a")))
    × (validate_execution_contract encoding
          (canonical_contract (contract_on (codes "a")))
          (codes "ab")
        ≡ ok tt)
new_execution_contract-IsAccepted_example =
    new_execution_contract-IsAccepted encoding encoding-IsLawful (contract_on (codes "a"))
      (canonical_contract (contract_on (codes "a"))) (codes "ab") made

-- A planned stage whose executor has spaces around it never gets a contract.
spaced_differs : new_execution_contract encoding (contract_on (codes " a")) ≡ err stage_differs
unfolding new_execution_contract trim_space setpoint_ci_mirror.Base.Text.Sort.sort_by
    setpoint_ci_mirror.Base.Text.text_lt text_beq
spaced_differs = refl

unapplied_verify :
    new_execution_contract encoding (record (contract_on (codes "a")) { action = verify })
    ≡ err apply_required
unfolding new_execution_contract trim_space setpoint_ci_mirror.Base.Text.Sort.sort_by
    setpoint_ci_mirror.Base.Text.text_lt text_beq
    setpoint_ci_mirror.OperationRun.Stages.validate_execution_stage
    setpoint_ci_mirror.Operation.Target.validate_target
unapplied_verify = refl
