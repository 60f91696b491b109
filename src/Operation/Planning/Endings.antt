-- ===== src/Operation/Planning/Endings.antt =====
-- The two ways in which a planning (app/internal/operation/planning.go) can end.
use setpoint_ci_mirror.Base.{
  ℕ, ◌≡◌, refl, ap, ◌∙◌, true, false, ◌⊎◌, inl, inr, none, some, [], ok, is_empty, if◌then◌else◌,
  Bool-cases,
}
use setpoint_ci_mirror.Base.Text.{Text, codes}
use setpoint_ci_mirror.Operation.State.{awaiting_confirmation, blocked, interrupted}
use setpoint_ci_mirror.Operation.Definition.{RuntimeInput, Discovery, Precheck, Plan, Impact}
use setpoint_ci_mirror.Operation.Planning.{
  PlanningBlock, PlanningFailure, PlanningResult, PlanningError, PlanningDefinition, Digests,
  capability_digest_of, plan_digest_of, finish_failure, finish_blocked,
}

-- A plan that waits for its confirmation, with all that led to it
pub record IsReady (d : Digests) (p : PlanningDefinition) (runtime : RuntimeInput)
    (r : PlanningResult) : Type 0 where
  pub discovery : Discovery
  pub precheck : Precheck
  pub plan : Plan
  pub impact : Impact
  pub described : capability_digest_of d p.metadata ≡ ok r.capability_digest
  pub waits : r.state ≡ awaiting_confirmation
  pub found : (r.discovery ≡ some discovery) × (p.discover runtime ≡ ok discovery)
  pub applicable : discovery.applicable ≡ true
  pub has_targets : is_empty discovery.targets ≡ false
  pub checked : (r.precheck ≡ some precheck) × (p.precheck runtime discovery ≡ ok precheck)
  pub passed : precheck.passed ≡ true
  pub made : (r.plan ≡ some plan) × (p.plan runtime discovery precheck ≡ ok plan)
  pub weighed : (r.impact ≡ some impact) × (p.impact runtime plan ≡ ok impact)
  pub frozen :
      plan_digest_of d r.capability_digest runtime.targets runtime.parameters runtime.secret_refs
        plan impact
      ≡ ok r.plan_digest
  pub no_block : r.block ≡ none
  pub no_error : r.error ≡ none

-- A planning that ended without a plan, with its reason
pub record IsRefused (r : PlanningResult) : Type 0 where
  pub no_plan : r.plan ≡ none
  pub no_impact : r.impact ≡ none
  pub no_digest : r.plan_digest ≡ []
  pub ended :
      ((r.state ≡ blocked) × ((b : PlanningBlock) × (r.block ≡ some b) × (b.manual_review ≡ true)))
      ⊎ ((r.state ≡ interrupted) × (r.block ≡ none) × ((f : PlanningFailure) × (r.error ≡ some f)))

-- Nothing has been planned yet.
pub record IsOpen (r : PlanningResult) : Type 0 where
  pub no_plan : r.plan ≡ none
  pub no_impact : r.impact ≡ none
  pub no_digest : r.plan_digest ≡ []
  pub no_block : r.block ≡ none
  pub no_error : r.error ≡ none

abbrev Ended : PlanningResult → Type 0
Ended r =
    ((r.state ≡ blocked) × ((b : PlanningBlock) × (r.block ≡ some b) × (b.manual_review ≡ true)))
    ⊎ ((r.state ≡ interrupted) × (r.block ≡ none) × ((f : PlanningFailure) × (r.error ≡ some f)))

failure-Ended :
    (code : Text) (e : PlanningError) (at : ℕ) (r : PlanningResult)
    → r.block ≡ none
    → Ended (finish_failure code e at r)
failure-Ended code e at r o = elim (Bool-cases e.stopped) [
  | inl yes' ↦ inr (
    ap (λ b. if b then interrupted else blocked) yes',
    ap (λ b. if b then r.block else (finish_failure code (record e { stopped = false }) at r).block)
          yes'
        ∙ o,
    (record { code = code; message = e.message }, refl),
  )
  | inr no' ↦ inl (
    ap (λ b. if b then interrupted else blocked) no',
    (
      record {
        code = code;
        message = e.message;
        safe_next = codes "inspect_the_failure_and_create_a_new_run";
        manual_review = true;
      },
      ap
          (λ b.
            if b then r.block else (finish_failure code (record e { stopped = false }) at r).block)
          no',
      refl,
    ),
  )
]

pub failure-IsRefused :
    (code : Text) (e : PlanningError) (at : ℕ) (r : PlanningResult)
    → IsOpen r
    → IsRefused (finish_failure code e at r)
failure-IsRefused code e at r o = record {
  no_plan = o.no_plan;
  no_impact = o.no_impact;
  no_digest = o.no_digest;
  ended = failure-Ended code e at r o.no_block;
}

pub blocked-IsRefused :
    (checkpoint code message next : Text) (at : ℕ) (r : PlanningResult)
    → IsOpen r
    → IsRefused (finish_blocked checkpoint code message next at r)
blocked-IsRefused checkpoint code message next at r o = record {
  no_plan = o.no_plan;
  no_impact = o.no_impact;
  no_digest = o.no_digest;
  ended = inl (
    refl,
    (record { code = code; message = message; safe_next = next; manual_review = true }, refl, refl),
  );
}
