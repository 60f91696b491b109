-- ===== src/Task/Execution/Accepted.antt =====
-- What an accepted contract of an operation's action holds
-- (app/internal/task/operation_execution_contract.go).
use setpoint_ci_mirror.Base.{
  ◌≡◌, refl, ◌⊎◌, inl, inr, Bool, true, false, not, ◌&&◌, ◌||◌, Option, none, some, List, [], ◌∷◌,
  Result, ok, err, IfOk, bind-IfOk, IfOk-ok, IfOk-map, require-IfOk, require-IfOk_last, All,
  All-map, is_empty, contains, ◌==◌, if◌then◌else◌, arith,
}
use setpoint_ci_mirror.Base.Text.{Text, text_eq, text_beq_iff, text_lt, trim_space, is_blank}
use setpoint_ci_mirror.Base.Text.Order.{text_lt_trans}
use setpoint_ci_mirror.Base.Text.Sort.{IsAscending}
use setpoint_ci_mirror.Operation.Target.{Target, TargetError, validate_target}
use setpoint_ci_mirror.Operation.Definition.{PlanStep}
use setpoint_ci_mirror.OperationRun.Stages.{StageError, validate_execution_stage}
use setpoint_ci_mirror.OperationRun.Sequence.{IsValidStage, validate-IsValidStage}
use setpoint_ci_mirror.Task.Execution.{
  Action, create_restore_point, apply, verify, rollback, verify_rollback, other_action,
  valid_action, ExecutionContract, Encoding, valid_contract_identifier, follows_participant,
  check_participants, planned_stage, step_at, is_first, check_index, stage_checked, check_staged,
  target_checked, check_targets, is_given, check_inputs, digested, canonical_contract,
  validate_contract, new_execution_contract, validate_execution_contract, is_version,
}

-- What each action takes over from the actions before it
abbrev pub HasInputs : Action → ExecutionContract → Type 0
HasInputs create_restore_point c =
    (is_given c.restore_point ≡ false) × (is_given c.apply ≡ false) × (is_given c.rollback ≡ false)
HasInputs apply c = is_given c.restore_point ≡ true
HasInputs verify c = is_given c.apply ≡ true
HasInputs rollback c = is_given c.restore_point ≡ true
HasInputs verify_rollback c = (is_given c.restore_point ≡ true) × (is_given c.rollback ≡ true)
HasInputs (other_action t) c = false ≡ true

-- Where the stage of a contract stands: with one participant it is the first and is not compared with the
-- plan; else the step of the plan at its index has its ID and its executor.
abbrev pub IsPlaced : ExecutionContract → List Text → Type 0
IsPlaced c (p ∷ []) = is_first c.stage_index ≡ true
IsPlaced c ps =
    (s : PlanStep) × (step_at c.stage_index c.plan.steps ≡ some s)
    × (s.id ≡ c.stage.id)
    × (s.executor_node_id ≡ c.stage.executor_node_id)

pub record IsStaged (c : ExecutionContract) : Type 0 where
  pub ascending : IsAscending c.participant_node_ids
  pub placed : IsPlaced c c.participant_node_ids
  pub inside : contains c.stage.executor_node_id c.participant_node_ids ≡ true
  pub valid : IsValidStage c.participant_node_ids c.stage

pub record IsAccepted (c : ExecutionContract) : Type 0 where
  pub known : valid_action c.action ≡ true
  pub confirmed : is_blank c.plan_digest ≡ false
  pub staged : (is_empty c.participant_node_ids ≡ true) ⊎ IsStaged c
  pub has_targets : is_empty c.targets ≡ false
  pub targets : All (λ t. validate_target t ≡ ok tt) c.targets
  pub inputs : HasInputs c.action c

-- The documented behaviour of the digest in hexadecimal and of `strings.EqualFold`
pub record IsLawful (encoding : Encoding) : Type 0 where
  pub same_folds : (t : Text) → encoding.equal_fold t t ≡ true
  pub trimmed : (c : ExecutionContract) (t : Text) → encoding.digest c ≡ ok t → trim_space t ≡ t
  pub not_blank : (c : ExecutionContract) (t : Text) → encoding.digest c ≡ ok t → is_blank t ≡ false

follows-lt :
    (before : Option Text) (p j : Text)
    → follows_participant before p ≡ true
    → text_lt p j ≡ true
    → follows_participant before j ≡ true
follows-lt none p j h g = refl
follows-lt (some before) p j h g = text_lt_trans before p j h g

check_participants-IsAscending :
    (before : Option Text) (ps : List Text)
    → IfOk
        (λ (u : Unit {0}). All (λ j. follows_participant before j ≡ true) ps × IsAscending ps)
        (check_participants before ps)
unfolding check_participants
check_participants-IsAscending before [] = (tt, tt)
check_participants-IsAscending before (p ∷ ps) =
    let P : Unit {0} → Type 0 =
      λ u. All (λ j. follows_participant before j ≡ true) (p ∷ ps) × IsAscending (p ∷ ps) in
    require-IfOk P (valid_contract_identifier p) _ _ (λ valid.
      require-IfOk P (follows_participant before p) _ _ (λ follows.
        IfOk-map (λ u. All (λ j. text_lt p j ≡ true) ps × IsAscending ps) P
          (check_participants (some p) ps)
          (λ u rest. (
            (follows, All-map _ _ ps (λ j. follows-lt before p j follows) rest.0),
            (rest.0, rest.1),
          ))
          (check_participants-IsAscending (some p) ps)))

planned-IsPlaced :
    (stage : PlanStep) (o : Option PlanStep)
    → IfOk
        (λ (u : Unit {0}).
          (s : PlanStep) × (o ≡ some s)
          × (s.id ≡ stage.id)
          × (s.executor_node_id ≡ stage.executor_node_id))
        (planned_stage stage o)
planned-IsPlaced stage none = tt
planned-IsPlaced stage (some s) =
    require-IfOk_last
      (λ (u : Unit {0}).
        (s' : PlanStep) × (some s ≡ some s')
        × (s'.id ≡ stage.id)
        × (s'.executor_node_id ≡ stage.executor_node_id))
      (s.id == stage.id && s.executor_node_id == stage.executor_node_id) _
      (λ same. (
        s,
        refl,
        (text_beq_iff s.id stage.id).0 (ground arith),
        (text_beq_iff s.executor_node_id stage.executor_node_id).0 (ground arith),
      ))

check_index-IsPlaced :
    (c : ExecutionContract) (ps : List Text)
    → IfOk (λ (u : Unit {0}). IsPlaced c ps) (check_index c ps)
check_index-IsPlaced c [] = planned-IsPlaced c.stage (step_at c.stage_index c.plan.steps)
check_index-IsPlaced c (p ∷ []) =
    require-IfOk_last (λ (u : Unit {0}). IsPlaced c (p ∷ [])) (is_first c.stage_index) _
      (λ first. first)
check_index-IsPlaced c (p ∷ q ∷ ps) = planned-IsPlaced c.stage (step_at c.stage_index c.plan.steps)

stage-ok : (o : Result StageError Unit) → stage_checked o ≡ ok tt → o ≡ ok tt
stage-ok (ok u) h = refl
stage-ok (err e) h = cc

target-ok : (o : Result TargetError Unit) → target_checked o ≡ ok tt → o ≡ ok tt
target-ok (ok u) h = refl
target-ok (err e) h = cc

if_last : {E : Type 0} (P : Unit {0} → Type 0) (r : Result E Unit) → (r ≡ ok tt → P tt) → IfOk P r
if_last P (ok u) h = h refl
if_last P (err e) h = tt

check_staged-IsStaged :
    (c : ExecutionContract) → IfOk (λ (u : Unit {0}). IsStaged c) (check_staged c)
unfolding check_staged
check_staged-IsStaged c =
    let ps = c.participant_node_ids in
    let P : Unit {0} → Type 0 = λ u. IsStaged c in
    bind-IfOk P (check_participants none ps) _ (λ u ordered.
      require-IfOk P (not (is_empty c.stage.id || is_empty c.stage.executor_node_id)) _ _ (λ named.
        bind-IfOk P (check_index c ps) _ (λ v indexed.
          require-IfOk P (contains c.stage.executor_node_id ps) _ _ (λ inside.
            if_last P (stage_checked (validate_execution_stage c.stage ps)) (λ valid. record {
              ascending =
                  (IfOk-ok (λ (u : Unit {0}). All (λ j. true ≡ true) ps × IsAscending ps)
                    (check_participants none ps) (check_participants-IsAscending none ps)
                    ordered).1;
              placed =
                  IfOk-ok (λ (u : Unit {0}). IsPlaced c ps) (check_index c ps)
                    (check_index-IsPlaced c ps) indexed;
              inside = inside;
              valid =
                  IfOk-ok (λ (u : Unit {0}). IsValidStage ps c.stage)
                    (validate_execution_stage c.stage ps) (validate-IsValidStage c.stage ps)
                    (stage-ok _ valid);
            })))))

check_targets-valid :
    (ts : List Target)
    → IfOk (λ (u : Unit {0}). All (λ t. validate_target t ≡ ok tt) ts) (check_targets ts)
unfolding check_targets
check_targets-valid [] = tt
check_targets-valid (t ∷ ts) =
    let P : Unit {0} → Type 0 = λ u. All (λ t. validate_target t ≡ ok tt) (t ∷ ts) in
    bind-IfOk P (target_checked (validate_target t)) _ (λ u valid.
      IfOk-map (λ u. All (λ t. validate_target t ≡ ok tt) ts) P (check_targets ts)
        (λ v rest. (target-ok (validate_target t) valid, rest)) (check_targets-valid ts))

check_inputs-HasInputs :
    (a : Action) (c : ExecutionContract)
    → valid_action a ≡ true
    → IfOk (λ (u : Unit {0}). HasInputs a c) (check_inputs a c)
check_inputs-HasInputs create_restore_point c h =
    require-IfOk_last (λ (u : Unit {0}). HasInputs create_restore_point c)
      (not (is_given c.restore_point || is_given c.apply || is_given c.rollback)) _
      (λ none'. (ground arith, ground arith, ground arith))
check_inputs-HasInputs apply c h =
    require-IfOk_last (λ (u : Unit {0}). HasInputs apply c) (is_given c.restore_point) _ (λ g. g)
check_inputs-HasInputs verify c h =
    require-IfOk_last (λ (u : Unit {0}). HasInputs verify c) (is_given c.apply) _ (λ g. g)
check_inputs-HasInputs rollback c h =
    require-IfOk_last (λ (u : Unit {0}). HasInputs rollback c) (is_given c.restore_point) _ (λ g. g)
check_inputs-HasInputs verify_rollback c h =
    require-IfOk_last (λ (u : Unit {0}). HasInputs verify_rollback c)
      (not (not (is_given c.restore_point) || not (is_given c.rollback))) _
      (λ both. (ground arith, ground arith))
check_inputs-HasInputs (other_action t) c h = cc

staged_or_not :
    (c : ExecutionContract) (b : Bool)
    → is_empty c.participant_node_ids ≡ b
    → (if b then ok tt else check_staged c) ≡ ok tt
    → (is_empty c.participant_node_ids ≡ true) ⊎ IsStaged c
staged_or_not c true h e = inl h
staged_or_not c false h e =
    inr (IfOk-ok (λ (u : Unit {0}). IsStaged c) (check_staged c) (check_staged-IsStaged c) e)

module _ (encoding : Encoding) where
  validate_contract-IsAccepted :
      (c : ExecutionContract) → IfOk (λ (u : Unit {0}). IsAccepted c) (validate_contract encoding c)
  unfolding validate_contract
  validate_contract-IsAccepted c =
      let P : Unit {0} → Type 0 = λ u. IsAccepted c in
      require-IfOk P (is_version c.schema_version) _ _ (λ version.
        require-IfOk P
          (valid_contract_identifier c.operation_id && valid_contract_identifier c.run_id) _ _
          (λ named. require-IfOk P (valid_action c.action) _ _ (λ known.
            require-IfOk P (not (is_blank c.plan_digest)) _ _ (λ confirmed.
              require-IfOk P (not (is_empty c.targets)) _ _ (λ given.
                bind-IfOk P (if is_empty c.participant_node_ids then ok tt else check_staged c) _
                  (λ u staged. bind-IfOk P (check_targets c.targets) _ (λ v targets.
                    require-IfOk P _ _ _ (λ planned. if_last P (check_inputs c.action c) (λ inputs.
                      record {
                        known = known;
                        confirmed = ground arith;
                        staged = staged_or_not c (is_empty c.participant_node_ids) refl staged;
                        has_targets = ground arith;
                        targets =
                            IfOk-ok
                              (λ (u : Unit {0}). All (λ t. validate_target t ≡ ok tt) c.targets)
                              (check_targets c.targets) (check_targets-valid c.targets) targets;
                        inputs =
                            IfOk-ok (λ (u : Unit {0}). HasInputs c.action c)
                              (check_inputs c.action c) (check_inputs-HasInputs c.action c known)
                              inputs;
                      })))))))))

  digested-ok : (o : Result Text Text) (d : Text) → digested o ≡ ok d → o ≡ ok d
  digested-ok (ok t) d h = cc
  digested-ok (err e) d h = cc

  validated_again :
      (law : IsLawful encoding) (c : ExecutionContract) (d : Text)
      → validate_contract encoding c ≡ ok tt
      → digested (encoding.digest c) ≡ ok d
      → validate_execution_contract encoding c d ≡ ok tt
  unfolding validate_execution_contract
  validated_again law c d valid same =
      let made = digested-ok (encoding.digest c) d same in
      rw valid (
        rw same
          (rw (law.not_blank c d made) (rw (law.trimmed c d made) (rw (law.same_folds d) refl))))

  abbrev Passes : ExecutionContract × Text → Type 0
  Passes out = IsAccepted out.0 × (validate_execution_contract encoding out.0 out.1 ≡ ok tt)

  new-Passes :
      (law : IsLawful encoding) (c : ExecutionContract)
      → IfOk Passes (new_execution_contract encoding c)
  unfolding new_execution_contract
  new-Passes law c =
      let out = canonical_contract c in
      bind-IfOk Passes (validate_contract encoding out) _ (λ u valid.
        bind-IfOk Passes (digested (encoding.digest out)) _ (λ d same. (
          IfOk-ok (λ (u : Unit {0}). IsAccepted out) (validate_contract encoding out)
              (validate_contract-IsAccepted out) valid,
          validated_again law out d valid same,
        )))

  -- Where the digest is in hexadecimal, the contract and the digest that NewOperationExecutionContract
  -- returns pass ValidateOperationExecutionContract. The contract has a known action with what it takes over
  -- from the actions before it, a plan digest and valid targets; and if it has participants, they are
  -- strictly ascending, and its stage names one of them as its executor and is valid for them; with one
  -- participant the index of the stage is 0, and with several the step of the plan at this index has the
  -- ID and the executor of the stage.
  pub new_execution_contract-IsAccepted :
      IsLawful encoding
      → (c out : ExecutionContract) (digest : Text)
      → new_execution_contract encoding c ≡ ok (out, digest)
      → IsAccepted out × (validate_execution_contract encoding out digest ≡ ok tt)
  new_execution_contract-IsAccepted law c out digest made =
      IfOk-ok Passes (new_execution_contract encoding c) (new-Passes law c) made
