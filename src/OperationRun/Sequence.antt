-- ===== src/OperationRun/Sequence.antt =====
-- What `ExecutionStages` (app/internal/operationrun/stages.go) accepts.
use setpoint_ci_mirror.Base.{
  ◌≡◌, refl, subst, true, false, not, ◌&&◌, ◌||◌, List, [], ◌∷◌, map, ok, IfOk, bind-IfOk,
  require-IfOk, require-IfOk_last, IfOk-ok, IfOk-map, is_empty, contains, ◌==◌, All, arith,
}
use setpoint_ci_mirror.Base.Members.{IsDistinct}
use setpoint_ci_mirror.Base.Text.{Text, text_eq, text_beq_iff, trim_space}
use setpoint_ci_mirror.Operation.Definition.{PlanStep, StagePrecondition}
use setpoint_ci_mirror.OperationRun.{OperationRun}
use setpoint_ci_mirror.OperationRun.Stages.{
  check_preconditions, owner_verified, vip_owner, agent_reconnect, validate_execution_stage,
  single_stage, check_stages, plan_steps, run_participants, stages_for, execution_stages,
}

-- A precondition that was observed on a participant
abbrev pub IsObserved : List Text → StagePrecondition → Type 0
IsObserved participants c =
    (c.kind ≡ vip_owner)
    × (contains c.participant_node_id participants ≡ true)
    × (c.verified ≡ true)
    × (is_empty c.evidence ≡ false)

-- A stage that `ValidateExecutionStage` accepts. The executor counts without the spaces around it.
pub record IsValidStage (participants : List Text) (s : PlanStep) : Type 0 where
  pub identified : is_empty (trim_space s.id) ≡ false
  pub inside : contains (trim_space s.executor_node_id) participants ≡ true
  pub observed : All (λ c. IsObserved participants c) s.preconditions
  pub owned :
      (s.mutation == vip_owner) ≡ true
      → owner_verified (trim_space s.executor_node_id) s.preconditions ≡ true
  pub barred : (is_empty s.barrier || s.barrier == agent_reconnect) ≡ true

check_preconditions-IsObserved :
    (participants : List Text) (cs : List StagePrecondition)
    → IfOk
        (λ (u : Unit {0}). All (λ c. IsObserved participants c) cs)
        (check_preconditions participants cs)
unfolding check_preconditions
check_preconditions-IsObserved participants [] = tt
check_preconditions-IsObserved participants (c ∷ cs) =
    let P : Unit {0} → Type 0 = λ u. All (λ c. IsObserved participants c) (c ∷ cs) in
    require-IfOk P (c.kind == vip_owner) _ _ (λ kind.
      require-IfOk P (contains c.participant_node_id participants) _ _ (λ inside.
        require-IfOk P (not (not c.verified || is_empty c.evidence)) _ _ (λ seen.
          IfOk-map (λ u. All (λ c. IsObserved participants c) cs) P
            (check_preconditions participants cs)
            (λ u rest.
              (((text_beq_iff c.kind vip_owner).0 kind, inside, ground arith, ground arith), rest))
            (check_preconditions-IsObserved participants cs))))

pub validate-IsValidStage :
    (s : PlanStep) (participants : List Text)
    → IfOk (λ (u : Unit {0}). IsValidStage participants s) (validate_execution_stage s participants)
unfolding validate_execution_stage
validate-IsValidStage s participants =
    let executor = trim_space s.executor_node_id in
    let P : Unit {0} → Type 0 = λ u. IsValidStage participants s in
    require-IfOk P (not (is_empty (trim_space s.id) || is_empty executor)) _ _ (λ named.
      require-IfOk P (contains executor participants) _ _ (λ inside.
        bind-IfOk P (check_preconditions participants s.preconditions) _ (λ u checked.
          require-IfOk P
            (not (s.mutation == vip_owner && not (owner_verified executor s.preconditions))) _ _
            (λ owned.
              require-IfOk_last P (is_empty s.barrier || s.barrier == agent_reconnect) _ (λ barred.
                record {
                  identified = ground arith;
                  inside = inside;
                  observed =
                      IfOk-ok
                        (λ (u : Unit {0}). All (λ c. IsObserved participants c) s.preconditions)
                        (check_preconditions participants s.preconditions)
                        (check_preconditions-IsObserved participants s.preconditions) checked;
                  owned = λ moves. ground arith;
                  barred = barred;
                })))))

-- The IDs of stages that follow others
abbrev ids : List PlanStep → List Text
ids ss = map (λ (s : PlanStep). s.id) ss

abbrev Apart : List Text → List PlanStep → Type 0
Apart seen ss = All (λ (s : PlanStep). contains s.id seen ≡ false) ss

unseen :
    (id : Text) (seen : List Text) (ss : List PlanStep)
    → Apart (id ∷ seen) ss
    → (contains id (ids ss) ≡ false) × Apart seen ss
unseen id seen [] h = (refl, tt)
unseen id seen (s ∷ ss) h =
    let (first, rest) = unseen id seen ss h.1 in
    (
      ground (arith, h.0, text_beq_iff s.id id, text_beq_iff id s.id, first),
      (ground (arith, h.0), rest),
    )

abbrev Accepted : List Text → List Text → List PlanStep → Type 0
Accepted participants seen ss =
    All (λ (s : PlanStep). IsValidStage participants s) ss × IsDistinct (ids ss) × Apart seen ss

check_stages-Accepted :
    (participants seen : List Text) (ss : List PlanStep)
    → IfOk (λ (u : Unit {0}). Accepted participants seen ss) (check_stages participants seen ss)
unfolding check_stages
check_stages-Accepted participants seen [] = (tt, tt, tt)
check_stages-Accepted participants seen (s ∷ ss) =
    let P : Unit {0} → Type 0 = λ u. Accepted participants seen (s ∷ ss) in
    bind-IfOk P (validate_execution_stage s participants) _ (λ u valid.
      require-IfOk P (not (contains s.id seen)) _ _ (λ new.
        IfOk-map (λ u. Accepted participants (s.id ∷ seen) ss) P
          (check_stages participants (s.id ∷ seen) ss)
          (λ u rest.
            let good =
              IfOk-ok (λ (u : Unit {0}). IsValidStage participants s)
                (validate_execution_stage s participants) (validate-IsValidStage s participants)
                valid in
            let (once, others) = unseen s.id seen ss rest.2 in
            ((good, rest.0), (once, rest.1), (ground arith, others)))
          (check_stages-Accepted participants (s.id ∷ seen) ss)))

-- What the stages of a run are
pub record IsSequence (run : OperationRun) (stages : List PlanStep) : Type 0 where
  pub some_stage : is_empty stages ≡ false
  pub valid : All (λ (s : PlanStep). IsValidStage (run_participants run) s) stages
  pub distinct : IsDistinct (map (λ (s : PlanStep). s.id) stages)

stages_for-IsSequence :
    (run : OperationRun) (participants : List Text)
    → participants ≡ run_participants run
    → IfOk (IsSequence run) (stages_for run participants)
stages_for-IsSequence run [] same = tt
stages_for-IsSequence run (p ∷ []) same =
    bind-IfOk (IsSequence run) (validate_execution_stage (single_stage p) (p ∷ [])) _ (λ u valid.
      record {
        some_stage = refl;
        valid = (
          subst (λ ps. IsValidStage ps (single_stage p)) same
              (IfOk-ok (λ (u : Unit {0}). IsValidStage (p ∷ []) (single_stage p))
                (validate_execution_stage (single_stage p) (p ∷ []))
                (validate-IsValidStage (single_stage p) (p ∷ [])) valid),
          tt,
        );
        distinct = (refl, tt);
      })
stages_for-IsSequence run (p ∷ q ∷ ps) same =
    let all_of = p ∷ q ∷ ps in
    let steps = plan_steps run.plan in
    require-IfOk (IsSequence run) (not (is_empty steps)) _ _ (λ given.
      bind-IfOk (IsSequence run) (check_stages all_of [] steps) _ (λ u checked.
        let (good, apart, _) =
          IfOk-ok (λ (u : Unit {0}). Accepted all_of [] steps) (check_stages all_of [] steps)
            (check_stages-Accepted all_of [] steps) checked in
        record {
          some_stage = ground arith;
          valid = subst (λ ps. All (λ (s : PlanStep). IsValidStage ps s) steps) same good;
          distinct = apart;
        }))

-- The stages that ExecutionStages returns are at least one, have different IDs, and of each one the
-- executor, without the spaces around it, is a participant, the preconditions were observed on
-- participants with evidence, and it moves the address owner only where its executor was observed.
pub execution_stages-IsSequence :
    (run : OperationRun) (stages : List PlanStep)
    → execution_stages run ≡ ok stages
    → IsSequence run stages
unfolding execution_stages
execution_stages-IsSequence run stages h =
    IfOk-ok (IsSequence run) (stages_for run (run_participants run))
      (stages_for-IsSequence run (run_participants run) refl) h
