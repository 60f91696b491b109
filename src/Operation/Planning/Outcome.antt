-- ===== src/Operation/Planning/Outcome.antt =====
-- How a planning ends (app/internal/operation/planning.go).
use setpoint_ci_mirror.Base.{
  ℕ, ◌≡◌, refl, sym, ap, ◌∙◌, Bool, true, false, not, ◌⊎◌, inl, inr, some, Result, ok, err,
  is_empty, if_holds,
}
use setpoint_ci_mirror.Base.Text.{Text, codes}
use setpoint_ci_mirror.Operation.State.{prechecking}
use setpoint_ci_mirror.Operation.Definition.{RuntimeInput, Discovery, Precheck, Plan, Impact}
use setpoint_ci_mirror.Operation.Planning.{
  PlanningResult, PlanningError, PlanningDefinition, Digests, plain, capability_digest_of,
  plan_digest_of, digest_given, impact_given, plan_given, precheck_given, discovery_given, text_of,
  digested, planning_start, execute_planning,
}
use setpoint_ci_mirror.Operation.Planning.Endings.{
  IsReady, IsRefused, IsOpen, failure-IsRefused, blocked-IsRefused,
}

not-no : (b : Bool) → not b ≡ false → b ≡ true
not-no true h = refl
not-no false h = cc

module _ (d : Digests) (p : PlanningDefinition) (runtime : RuntimeInput) (at : ℕ) where
  abbrev Ends : PlanningResult → Type 0
  Ends r = IsReady d p runtime r ⊎ IsRefused r

  -- The digest of a plan, and what it is made of
  digest-Ends :
      (r : PlanningResult) (found : Discovery) (check : Precheck) (plan : Plan) (impact : Impact)
      (o : Result PlanningError Text)
      → IsOpen r
      → capability_digest_of d p.metadata ≡ ok r.capability_digest
      → (r.discovery ≡ some found) × (p.discover runtime ≡ ok found)
      → found.applicable ≡ true
      → is_empty found.targets ≡ false
      → (r.precheck ≡ some check) × (p.precheck runtime found ≡ ok check)
      → check.passed ≡ true
      → p.plan runtime found check ≡ ok plan
      → p.impact runtime plan ≡ ok impact
      → plan_digest_of d r.capability_digest runtime.targets runtime.parameters runtime.secret_refs
          plan impact
        ≡ o
      → Ends (digest_given d p runtime at r plan impact o)
  digest-Ends r found check plan impact (err e) o hk hd ha ht hc hp hm hi hg =
      inr (failure-IsRefused (codes "operation_plan_digest_failed") e at r o)
  digest-Ends r found check plan impact (ok digest) o hk hd ha ht hc hp hm hi hg = inl (record {
    discovery = found;
    precheck = check;
    plan = plan;
    impact = impact;
    described = hk;
    waits = refl;
    found = hd;
    applicable = ha;
    has_targets = ht;
    checked = hc;
    passed = hp;
    made = (refl, hm);
    weighed = (refl, hi);
    frozen = hg;
    no_block = o.no_block;
    no_error = o.no_error;
  })

  impact-Ends :
      (r : PlanningResult) (found : Discovery) (check : Precheck) (plan : Plan)
      (o : Result PlanningError Impact)
      → IsOpen r
      → capability_digest_of d p.metadata ≡ ok r.capability_digest
      → (r.discovery ≡ some found) × (p.discover runtime ≡ ok found)
      → found.applicable ≡ true
      → is_empty found.targets ≡ false
      → (r.precheck ≡ some check) × (p.precheck runtime found ≡ ok check)
      → check.passed ≡ true
      → p.plan runtime found check ≡ ok plan
      → p.impact runtime plan ≡ o
      → Ends (impact_given d p runtime at r plan o)
  impact-Ends r found check plan (err e) o hk hd ha ht hc hp hm hi =
      inr (failure-IsRefused (codes "operation_impact_failed") e at r o)
  impact-Ends r found check plan (ok impact) o hk hd ha ht hc hp hm hi =
      digest-Ends r found check plan impact _ o hk hd ha ht hc hp hm hi refl

  plan-Ends :
      (r : PlanningResult) (found : Discovery) (check : Precheck) (o : Result PlanningError Plan)
      → IsOpen r
      → capability_digest_of d p.metadata ≡ ok r.capability_digest
      → (r.discovery ≡ some found) × (p.discover runtime ≡ ok found)
      → found.applicable ≡ true
      → is_empty found.targets ≡ false
      → (r.precheck ≡ some check) × (p.precheck runtime found ≡ ok check)
      → check.passed ≡ true
      → p.plan runtime found check ≡ o
      → Ends (plan_given d p runtime at r o)
  plan-Ends r found check (err e) o hk hd ha ht hc hp hm =
      inr (failure-IsRefused (codes "operation_plan_failed") e at r o)
  plan-Ends r found check (ok plan) o hk hd ha ht hc hp hm =
      impact-Ends r found check plan _ o hk hd ha ht hc hp hm refl

  precheck-Ends :
      (r : PlanningResult) (found : Discovery) (o : Result PlanningError Precheck)
      → IsOpen r
      → capability_digest_of d p.metadata ≡ ok r.capability_digest
      → (r.discovery ≡ some found) × (p.discover runtime ≡ ok found)
      → found.applicable ≡ true
      → is_empty found.targets ≡ false
      → p.precheck runtime found ≡ o
      → Ends (precheck_given d p runtime at r found o)
  precheck-Ends r found (err e) o hk hd ha ht hc =
      inr (failure-IsRefused (codes "operation_precheck_failed") e at r o)
  precheck-Ends r found (ok check) o hk hd ha ht hc =
      let checked : PlanningResult = record r { precheck = some check } in
      let open' : IsOpen checked = record {
        no_plan = o.no_plan;
        no_impact = o.no_impact;
        no_digest = o.no_digest;
        no_block = o.no_block;
        no_error = o.no_error;
      } in
      if_holds Ends (not check.passed) _
        (plan_given d p runtime at checked (p.plan runtime found check))
        (λ refused. inr (blocked-IsRefused _ _ _ _ at checked open'))
        (λ passed.
          plan-Ends checked found check _ open' hk hd ha ht (refl, hc) (not-no check.passed passed)
            refl)

  discovery-Ends :
      (r : PlanningResult) (o : Result PlanningError Discovery)
      → IsOpen r
      → capability_digest_of d p.metadata ≡ ok r.capability_digest
      → p.discover runtime ≡ o
      → Ends (discovery_given d p runtime at r o)
  discovery-Ends r (err e) o hk hd =
      inr (failure-IsRefused (codes "operation_discovery_failed") e at r o)
  discovery-Ends r (ok found) o hk hd =
      let seen : PlanningResult = record r { discovery = some found } in
      let open' : IsOpen seen = record {
        no_plan = o.no_plan;
        no_impact = o.no_impact;
        no_digest = o.no_digest;
        no_block = o.no_block;
        no_error = o.no_error;
      } in
      let checking : PlanningResult = record seen {
        state = prechecking;
        checkpoint = codes "prechecking";
      } in
      let open'' : IsOpen checking = record {
        no_plan = o.no_plan;
        no_impact = o.no_impact;
        no_digest = o.no_digest;
        no_block = o.no_block;
        no_error = o.no_error;
      } in
      if_holds Ends (not found.applicable) _ _
        (λ refused. inr (blocked-IsRefused _ _ _ _ at seen open'))
        (λ fits.
          if_holds Ends (is_empty found.targets) _
            (precheck_given d p runtime at checking found (p.precheck runtime found))
            (λ bare. inr (
              failure-IsRefused (codes "operation_discovery_empty")
                (plain (codes "applicable operation discovery returned no physical targets")) at
                seen open'))
            (λ some'.
              precheck-Ends checking found _ open'' hk (refl, hd) (not-no found.applicable fits)
                some' refl))

  digested-Ends :
      (r : PlanningResult) (o : Result PlanningError Text)
      → IsOpen r
      → r.capability_digest ≡ text_of d p runtime at o
      → capability_digest_of d p.metadata ≡ o
      → Ends (digested d p runtime at r o)
  digested-Ends r (err e) o ht hk =
      inr (failure-IsRefused (codes "operation_contract_invalid") e at r o)
  digested-Ends r (ok digest) o ht hk =
      discovery-Ends r (p.discover runtime) o (hk ∙ ap ok (sym ht)) refl

  -- Every planning ends in one of two ways. It awaits the confirmation of a plan that the definition made
  -- from an applicable discovery with targets and a precheck that passed, with the plan's impact and its
  -- digest over the capability digest and the frozen targets, parameters and secrets, and no block or
  -- error. Or it has no plan, no impact and no digest, and is blocked, for manual review, or
  -- interrupted by an error.
  pub execute_planning-ends :
      (started : ℕ)
      → IsReady d p runtime (execute_planning d p runtime at started)
        ⊎ IsRefused (execute_planning d p runtime at started)
  unfolding execute_planning
  execute_planning-ends started =
      digested-Ends (planning_start d p runtime at started) (capability_digest_of d p.metadata)
        (record {
          no_plan = refl;
          no_impact = refl;
          no_digest = refl;
          no_block = refl;
          no_error = refl;
        })
        refl refl
