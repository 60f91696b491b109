-- ===== src/CheckRun/Actionable.antt =====
-- What an offer that is actionable went through (app/internal/checkrun/checkrun.go, with the bindings of
-- app/internal/remediation).
use setpoint_ci_mirror.Base.{
  ◌≡◌, refl, Bool, true, false, not, ◌&&◌, ◌||◌, Option, none, some, List, [], ◌∷◌, Result, ok, err,
  IfOk-ok, is_empty, if◌then◌else◌, All, All-append, arith,
}
use setpoint_ci_mirror.Base.Text.{Text, is_blank}
use setpoint_ci_mirror.Task.Item.{CheckItem}
use setpoint_ci_mirror.Remediation.Metadata.{
  auto_safe, controlled, RemediationMetadata, is_valid_remediation,
}
use setpoint_ci_mirror.Remediation.Registry.{
  Binding, Registry, Capability, resolve, is_disposition, is_unsafe, new_registry,
}
use setpoint_ci_mirror.Remediation.Reviewed.{
  AllReviewed, Fits, new_registry-AllReviewed, resolve-Fits,
}
use setpoint_ci_mirror.CheckRun.Aggregate.{RunTask}
use setpoint_ci_mirror.CheckRun.Offers.{
  RemediationOffer, Declared, actionable, declared, remediation_of, is_declared, capability_of,
  refusal, no_capability, block_by_capability, block_reason, draft_offer, settled, offer,
  item_offers, task_offers, build_remediation_offers,
}

-- An offer that may be carried out
pub record IsApproved (o : RemediationOffer) : Type 0 where
  pub has_value : is_blank o.current_value ≡ false
  pub has_recommendation : is_blank o.recommended_value_for_this_run ≡ false
  pub only_option : o.options ≡ o.recommended_value_for_this_run ∷ []
  pub named : is_empty o.operation_id ≡ false
  pub has_parameters : is_empty o.operation_parameters ≡ false
  pub reversible : o.supports_rollback ≡ true
  pub kind :
      (is_disposition o.disposition auto_safe || is_disposition o.disposition controlled) ≡ true
  pub automatic : o.supports_automatic_fix ≡ is_disposition o.disposition auto_safe
  pub harmless :
      is_disposition o.disposition auto_safe ≡ true
      → (o.may_affect_connection ≡ false)
        × (o.may_affect_business ≡ false)
        × (o.requires_restart ≡ false)

abbrev ApprovedIf : RemediationOffer → Type 0
ApprovedIf o = o.availability ≡ actionable → IsApproved o

-- A case of the `switch` that is passed over
passed :
    {A : Type 0} (b : Bool) (a : A) (rest : Option A)
    → (if b then some a else rest) ≡ none
    → (b ≡ false) × (rest ≡ none)
passed true a rest h = absurd (cc)
passed false a rest h = (refl, h)

never : {A : Type 0} (b : Bool) (x y : A) → (if b then some x else some y) ≡ none → ⊥
never true x y h = cc
never false x y h = cc

resolved_ok :
    (m : RemediationMetadata) (r : Result Text Capability)
    → block_by_capability m (refusal r) (capability_of r) ≡ none
    → r ≡ ok (capability_of r)
resolved_ok m (ok c) h = refl
resolved_ok m (err e) h = absurd (never (is_disposition m.disposition auto_safe) no_capability e h)

-- What the guards of the `switch` leave
unblocked :
    (item : CheckItem) (d : Option Declared) (r : Result Text Capability)
    → block_reason item d r ≡ none
    → (r ≡ ok (capability_of r))
      × ((is_disposition (remediation_of d).disposition auto_safe
            || is_disposition (remediation_of d).disposition controlled)
          ≡ true)
unfolding block_reason
unblocked item d r h =
    let m = remediation_of d in
    let (_, h1) = passed (not (is_unsafe item.status)) _ _ h in
    let (_, h2) = passed (is_blank item.current_value) _ _ h1 in
    let (_, h3) = passed (is_blank item.recommended_value) _ _ h2 in
    let (_, h4) =
      passed
        (is_disposition m.disposition auto_safe
          && (item.may_affect_connection || item.may_affect_business))
        _ _ h3 in
    let (_, h5) = passed (not (is_declared d) || not (is_valid_remediation m)) _ _ h4 in
    let (kind, h6) =
      passed
        (not (is_disposition m.disposition auto_safe)
          && (not (is_disposition m.disposition controlled) || is_empty m.operation_id))
        _ _ h5 in
    (resolved_ok m r h6, ground arith)

module _ (run : Text) (remediations : List Declared) (registry : Registry)
    (every : AllReviewed registry) where
  settled-ApprovedIf :
      (t : RunTask) (item : CheckItem) (d : Option Declared) (o : Option Text)
      → block_reason item d (resolve (some registry) item (remediation_of d)) ≡ o
      → ApprovedIf (
          settled item o (
            draft_offer run t item d
              (capability_of (resolve (some registry) item (remediation_of d)))))
  settled-ApprovedIf t item d (some reason) blocked = λ h. absurd (cc)
  settled-ApprovedIf t item d none open' =
      let m = remediation_of d in
      let r = resolve (some registry) item m in
      let (granted, kind) = unblocked item d r open' in
      let fits : Fits item m (capability_of r) =
        IfOk-ok (Fits item m) r (resolve-Fits registry item m every) granted in
      λ h. record {
        has_value = fits.has_value;
        has_recommendation = fits.has_recommendation;
        only_option = refl;
        named = fits.named;
        has_parameters = fits.has_parameters;
        reversible = fits.reversible;
        kind = kind;
        automatic = fits.automatic;
        harmless = fits.harmless;
      }

  offer-ApprovedIf :
      (t : RunTask) (item : CheckItem) → ApprovedIf (offer run remediations (some registry) t item)
  unfolding offer
  offer-ApprovedIf t item = settled-ApprovedIf t item (declared item.id remediations) _ refl

  items-ApprovedIf :
      (t : RunTask) (items : List CheckItem)
      → All ApprovedIf (item_offers run remediations (some registry) t items)
  items-ApprovedIf t [] = tt
  items-ApprovedIf t (i ∷ is) = (offer-ApprovedIf t i, items-ApprovedIf t is)

  task-ApprovedIf :
      (t : RunTask) (result : Option (List CheckItem))
      → All ApprovedIf (task_offers run remediations (some registry) t result)
  task-ApprovedIf t none = tt
  task-ApprovedIf t (some items) = items-ApprovedIf t items

  offers-ApprovedIf :
      (ts : List RunTask)
      → All ApprovedIf (build_remediation_offers run ts remediations (some registry))
  unfolding build_remediation_offers
  offers-ApprovedIf [] = tt
  offers-ApprovedIf (t ∷ ts) =
      All-append ApprovedIf (task_offers run remediations (some registry) t t.result)
        (build_remediation_offers run ts remediations (some registry)) (task-ApprovedIf t t.result)
        (offers-ApprovedIf ts)

-- With a registry that `NewRegistry` accepted, every actionable offer of a check run has a current and
-- a recommended value, the latter as its only option, names an operation with parameters that can be
-- rolled back, and comes from an AUTO_SAFE or CONTROLLED declaration; an AUTO_SAFE one supports the
-- automatic fix and affects neither the connection nor the business nor needs a restart.
pub build_remediation_offers-IsApproved :
    (run : Text) (ts : List RunTask) (remediations : List Declared) (bindings : List Binding)
    (registry : Registry)
    → new_registry bindings ≡ ok registry
    → All
        (λ (o : RemediationOffer). o.availability ≡ actionable → IsApproved o)
        (build_remediation_offers run ts remediations (some registry))
build_remediation_offers-IsApproved run ts remediations bindings registry made =
    offers-ApprovedIf run remediations registry
      (IfOk-ok AllReviewed (new_registry bindings) (new_registry-AllReviewed bindings) made) ts
