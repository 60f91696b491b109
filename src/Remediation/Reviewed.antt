-- ===== src/Remediation/Reviewed.antt =====
-- What a registry that `NewRegistry` made holds, and what a finding has when `Resolve` gives it a
-- capability (app/internal/remediation/binding.go).
use setpoint_ci_mirror.Base.{
  ◌≡◌, refl, sym, ap, ◌∙◌, subst, true, false, not, ◌&&◌, ◌||◌, Option, none, some, List, [], ◌∷◌,
  IfOk, bind-IfOk, IfOk-ok, require-IfOk, require-IfOk_last, is_empty, ◌==◌, All, Memᴰ, arith,
}
use setpoint_ci_mirror.Base.Members.{find-some}
use setpoint_ci_mirror.Base.Text.{Text, text_eq, text_beq_iff, is_blank, trim_space}
use setpoint_ci_mirror.Task.Item.{CheckItem}
use setpoint_ci_mirror.Remediation.Metadata.{
  auto_safe, controlled, disposition_eq, RemediationMetadata, is_valid_remediation,
}
use setpoint_ci_mirror.Remediation.Registry.{
  Binding, Entry, Registry, Capability, is_disposition, has_impact, check_binding, bind_checks,
  bind_all, new_registry, find_entry, is_bound, is_unsafe, call_parameters, resolve_bound,
  resolve_entry, resolve, as_metadata, has_parameters,
}

-- A binding that was reviewed: it can be rolled back, and one that is applied automatically accepts no
-- impact.
abbrev pub IsReviewed : Binding → Type 0
IsReviewed b =
    (b.supports_rollback ≡ true)
    × (is_empty b.operation_id ≡ false)
    × (is_disposition b.disposition auto_safe ≡ true → has_impact b.impact ≡ false)

abbrev pub AllReviewed : Registry → Type 0
AllReviewed registry = All (λ (e : Entry). IsReviewed e.binding) registry

check_binding-IsReviewed : (b : Binding) → IfOk (λ (u : Unit {0}). IsReviewed b) (check_binding b)
unfolding check_binding
check_binding-IsReviewed b =
    let P : Unit {0} → Type 0 = λ u. IsReviewed b in
    require-IfOk P
      (is_disposition b.disposition auto_safe || is_disposition b.disposition controlled) _ _
      (λ kind.
        require-IfOk P
          (not (
            is_empty b.operation_id
            || not (b.operation_id == trim_space b.operation_id)
            || not (is_valid_remediation (as_metadata b))))
          _ _
          (λ exact.
            require-IfOk P
              (not (
                is_empty b.check_ids
                || not (has_parameters b.parameters)
                || not b.supports_rollback))
              _ _
              (λ complete.
                require-IfOk_last P
                  (not (is_disposition b.disposition auto_safe && has_impact b.impact)) _
                  (λ harmless. (ground arith, ground arith, λ auto. ground arith)))))

bind_checks-AllReviewed :
    (b : Binding) (ids : List Text) (registry : Registry)
    → IsReviewed b
    → AllReviewed registry
    → IfOk AllReviewed (bind_checks b ids registry)
unfolding bind_checks
bind_checks-AllReviewed b [] registry r every = every
bind_checks-AllReviewed b (id ∷ ids) registry r every =
    require-IfOk AllReviewed (not (is_blank id || not (id == trim_space id))) _ _ (λ exact.
      require-IfOk AllReviewed (not (is_bound (find_entry id registry))) _ _ (λ new.
        bind_checks-AllReviewed b ids
          (record { check_id = id; binding = record b { check_ids = [] } } ∷ registry) r
          (r, every)))

bind_all-AllReviewed :
    (bindings : List Binding) (registry : Registry)
    → AllReviewed registry
    → IfOk AllReviewed (bind_all bindings registry)
unfolding bind_all
bind_all-AllReviewed [] registry every = every
bind_all-AllReviewed (b ∷ bs) registry every =
    bind-IfOk AllReviewed (check_binding b) _ (λ u checked.
      bind-IfOk AllReviewed (bind_checks b b.check_ids registry) _ (λ next bound.
        let reviewed =
          IfOk-ok (λ (u : Unit {0}). IsReviewed b) (check_binding b) (check_binding-IsReviewed b)
            checked in
        let every' =
          IfOk-ok AllReviewed (bind_checks b b.check_ids registry)
            (bind_checks-AllReviewed b b.check_ids registry reviewed every) bound in
        bind_all-AllReviewed bs next every'))

-- Every binding of a registry that `NewRegistry` accepted is reviewed.
pub new_registry-AllReviewed : (bindings : List Binding) → IfOk AllReviewed (new_registry bindings)
unfolding new_registry
new_registry-AllReviewed bindings = bind_all-AllReviewed bindings [] tt

-- A finding that may be repaired with a capability.
pub record Fits (item : CheckItem) (m : RemediationMetadata) (c : Capability) : Type 0 where
  pub found_unsafe : is_unsafe item.status ≡ true
  pub has_value : is_blank item.current_value ≡ false
  pub has_recommendation : is_blank item.recommended_value ≡ false
  pub declared_valid : is_valid_remediation m ≡ true
  pub same_operation : c.operation_id ≡ m.operation_id
  pub named : is_empty c.operation_id ≡ false
  pub has_parameters : is_empty c.parameters ≡ false
  pub reversible : c.supports_rollback ≡ true
  pub automatic : c.supports_automatic_fix ≡ is_disposition m.disposition auto_safe
  pub harmless :
      is_disposition m.disposition auto_safe ≡ true
      → (item.may_affect_connection ≡ false)
        × (item.may_affect_business ≡ false)
        × (item.requires_restart ≡ false)

resolve_bound-Fits :
    (b : Binding) (item : CheckItem) (m : RemediationMetadata)
    → IsReviewed b
    → IfOk (Fits item m) (resolve_bound b item m)
resolve_bound-Fits b item m (rollback, named, calm) =
    let P = Fits item m in
    require-IfOk P
      (is_valid_remediation m
        && b.operation_id == m.operation_id
        && is_disposition b.disposition m.disposition)
      _ _
      (λ matched.
        require-IfOk P
          (not (
            not (is_unsafe item.status)
            || is_blank item.current_value
            || is_blank item.recommended_value))
          _ _
          (λ finding.
            require-IfOk P
              (not (
                (item.may_affect_connection && not b.impact.connection)
                || (item.may_affect_business && not b.impact.business)
                || (item.requires_restart && not b.impact.restart)))
              _ _
              (λ inside. bind-IfOk P (call_parameters b.parameters item) _ (λ parameters given.
                require-IfOk P (not (is_empty parameters)) _ _ (λ some'.
                  let kind : b.disposition ≡ m.disposition =
                    (disposition_eq.beq_iff b.disposition m.disposition).0 (ground arith) in
                  let same : b.operation_id ≡ m.operation_id =
                    (text_beq_iff b.operation_id m.operation_id).0 (ground arith) in
                  record {
                    found_unsafe = ground arith;
                    has_value = ground arith;
                    has_recommendation = ground arith;
                    declared_valid = ground arith;
                    same_operation = same;
                    named = named;
                    has_parameters = ground arith;
                    reversible = rollback;
                    automatic = ap (λ d. is_disposition d auto_safe) kind;
                    harmless = λ auto.
                        let none' = calm (ap (λ d. is_disposition d auto_safe) kind ∙ auto) in
                        (ground arith, ground arith, ground arith);
                  })))))

resolve_entry-Fits :
    (o : Option Entry) (item : CheckItem) (m : RemediationMetadata)
    → ((e : Entry) → o ≡ some e → IsReviewed e.binding)
    → IfOk (Fits item m) (resolve_entry o item m)
resolve_entry-Fits none item m reviewed = tt
resolve_entry-Fits (some e) item m reviewed = resolve_bound-Fits e.binding item m (reviewed e refl)

All-mem :
    (registry : Registry) (e : Entry)
    → AllReviewed registry
    → Memᴰ e registry
    → IsReviewed e.binding
All-mem [] e every m = elim m [ ]
All-mem (d ∷ ds) e every (Memᴰ.head h) = subst (λ (x : Entry). IsReviewed x.binding) (sym h) every.0
All-mem (d ∷ ds) e every (Memᴰ.tail m) = All-mem ds e every.1 m

pub resolve-Fits :
    (registry : Registry) (item : CheckItem) (m : RemediationMetadata)
    → AllReviewed registry
    → IfOk (Fits item m) (resolve (some registry) item m)
unfolding resolve
resolve-Fits registry item m every = resolve_entry-Fits (find_entry item.id registry) item m (λ e h.
    All-mem registry e every (find-some (λ (x : Entry). x.check_id == item.id) e registry h).0)
