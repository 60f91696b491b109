-- ===== src/Operation/Equal.antt =====
-- `reflect.DeepEqual` on the facts that a run stores (app/internal/operation/definition.go,
-- restore_point.go and metadata.go): each type is compared by its fields.
use setpoint_ci_mirror.Base.{
  ℕ, ◌≡◌, refl, Bool, Option, none, some, List, [], ◌∷◌, Eq, nat_eq, get_elem?,
}
use setpoint_ci_mirror.Base.Deep.{eq_by, pair_eq, list_eq, option_eq, bool_eq}
use setpoint_ci_mirror.Base.Text.{Text, text_eq}
use setpoint_ci_mirror.Operation.Target.{
  Target, TargetKind, site, node, component, data_object, other_kind,
}
use setpoint_ci_mirror.Operation.RestorePoint.{
  RestorePoint, RestorePointStatus, created, verified, restored, invalid, other_status,
}
use setpoint_ci_mirror.Operation.Definition.{
  Artifact, EvidenceRef, Finding, ReconnectHandoff, ApplyResult, Verification, RollbackResult,
}

abbrev kind_fields : TargetKind → ℕ × Text
kind_fields site = (0, [])
kind_fields node = (1, [])
kind_fields component = (2, [])
kind_fields data_object = (3, [])
kind_fields (other_kind t) = (4, t)

kind_list : List TargetKind
kind_list = site ∷ node ∷ component ∷ data_object ∷ []

or_other_kind : Text → Option TargetKind → TargetKind
or_other_kind t none = other_kind t
or_other_kind t (some k) = k

kind_of : ℕ × Text → TargetKind
unfolding kind_list or_other_kind
kind_of p = or_other_kind p.1 (get_elem? kind_list p.0)

kind_inverse : (k : TargetKind) → kind_of (kind_fields k) ≡ k
unfolding kind_of
kind_inverse site = refl
kind_inverse _ = refl

unfoldable pub target_kind_eq : Eq TargetKind
unfolding kind_of kind_inverse
target_kind_eq = eq_by kind_fields kind_of kind_inverse (pair_eq nat_eq text_eq)

abbrev status_fields : RestorePointStatus → ℕ × Text
status_fields created = (0, [])
status_fields verified = (1, [])
status_fields restored = (2, [])
status_fields invalid = (3, [])
status_fields (other_status t) = (4, t)

status_list : List RestorePointStatus
status_list = created ∷ verified ∷ restored ∷ invalid ∷ []

or_other_status : Text → Option RestorePointStatus → RestorePointStatus
or_other_status t none = other_status t
or_other_status t (some k) = k

status_of : ℕ × Text → RestorePointStatus
unfolding status_list or_other_status
status_of p = or_other_status p.1 (get_elem? status_list p.0)

status_inverse : (k : RestorePointStatus) → status_of (status_fields k) ≡ k
unfolding status_of
status_inverse created = refl
status_inverse _ = refl

unfoldable pub restore_point_status_eq : Eq RestorePointStatus
unfolding status_of status_inverse
restore_point_status_eq = eq_by status_fields status_of status_inverse (pair_eq nat_eq text_eq)

unfoldable pub artifact_eq : Eq Artifact
artifact_eq =
    eq_by (λ (r : Artifact). (r.schema_version, r.payload))
      (λ (p : (Text × Text)). record { schema_version = p.0; payload = p.1 }) (λ r. refl)
      (pair_eq text_eq text_eq)

unfoldable pub evidence_ref_eq : Eq EvidenceRef
evidence_ref_eq =
    eq_by (λ (r : EvidenceRef). (r.id, (r.kind, r.sha256)))
      (λ (p : (Text × (Text × Text))). record { id = p.0; kind = p.1.0; sha256 = p.1.1 })
      (λ r. refl) (pair_eq text_eq (pair_eq text_eq text_eq))

unfoldable pub target_eq : Eq Target
target_eq =
    eq_by (λ (r : Target). (r.kind, (r.site_id, (r.node_id, (r.component_name, r.resource)))))
      (λ (p : (TargetKind × (Text × (Text × (Text × Text))))). record {
        kind = p.0;
        site_id = p.1.0;
        node_id = p.1.1.0;
        component_name = p.1.1.1.0;
        resource = p.1.1.1.1;
      })
      (λ r. refl)
      (pair_eq target_kind_eq (pair_eq text_eq (pair_eq text_eq (pair_eq text_eq text_eq))))

unfoldable pub finding_eq : Eq Finding
finding_eq =
    eq_by (λ (r : Finding). (r.code, (r.severity, (r.summary, (r.detail, r.target)))))
      (λ (p : (Text × (Text × (Text × (Text × Option Target))))). record {
        code = p.0;
        severity = p.1.0;
        summary = p.1.1.0;
        detail = p.1.1.1.0;
        target = p.1.1.1.1;
      })
      (λ r. refl)
      (pair_eq text_eq (pair_eq text_eq (pair_eq text_eq (pair_eq text_eq (option_eq target_eq)))))

unfoldable pub restore_point_eq : Eq RestorePoint
restore_point_eq =
    eq_by
      (λ (r : RestorePoint). (
        r.id,
        (
          r.provider_id,
          (
            r.operation_id,
            (
              r.run_id,
              (r.status, (r.targets, (r.created_at, (r.expires_at, (r.manifest, r.evidence))))),
            ),
          ),
        ),
      ))
      (λ (p : (Text
          × (Text
              × (Text
                  × (Text
                      × (RestorePointStatus
                          × (List Target × (ℕ × (Option ℕ × (Artifact × List EvidenceRef)))))))))).
        record {
          id = p.0;
          provider_id = p.1.0;
          operation_id = p.1.1.0;
          run_id = p.1.1.1.0;
          status = p.1.1.1.1.0;
          targets = p.1.1.1.1.1.0;
          created_at = p.1.1.1.1.1.1.0;
          expires_at = p.1.1.1.1.1.1.1.0;
          manifest = p.1.1.1.1.1.1.1.1.0;
          evidence = p.1.1.1.1.1.1.1.1.1;
        })
      (λ r. refl)
      (pair_eq text_eq (
        pair_eq text_eq (
          pair_eq text_eq (
            pair_eq text_eq (
              pair_eq restore_point_status_eq (
                pair_eq (list_eq target_eq) (
                  pair_eq nat_eq (
                    pair_eq (option_eq nat_eq)
                      (pair_eq artifact_eq (list_eq evidence_ref_eq))))))))))

unfoldable pub reconnect_handoff_eq : Eq ReconnectHandoff
reconnect_handoff_eq =
    eq_by (λ (r : ReconnectHandoff). (r.barrier, (r.reboot, (r.boot_id_before, r.boot_id_after))))
      (λ (p : (Text × (Bool × (Text × Text)))). record {
        barrier = p.0;
        reboot = p.1.0;
        boot_id_before = p.1.1.0;
        boot_id_after = p.1.1.1;
      })
      (λ r. refl) (pair_eq text_eq (pair_eq bool_eq (pair_eq text_eq text_eq)))

unfoldable pub apply_result_eq : Eq ApplyResult
apply_result_eq =
    eq_by
      (λ (r : ApplyResult).
        (r.changed, (r.mutation_state, (r.checkpoint, (r.state, (r.evidence, r.reconnect))))))
      (λ (p : (Bool × (Text × (Text × (Artifact × (List EvidenceRef × Option ReconnectHandoff)))))).
        record {
          changed = p.0;
          mutation_state = p.1.0;
          checkpoint = p.1.1.0;
          state = p.1.1.1.0;
          evidence = p.1.1.1.1.0;
          reconnect = p.1.1.1.1.1;
        })
      (λ r. refl)
      (pair_eq bool_eq (
        pair_eq text_eq (
          pair_eq text_eq (
            pair_eq artifact_eq
              (pair_eq (list_eq evidence_ref_eq) (option_eq reconnect_handoff_eq))))))

unfoldable pub verification_eq : Eq Verification
verification_eq =
    eq_by (λ (r : Verification). (r.passed, (r.summary, (r.findings, r.evidence))))
      (λ (p : (Bool × (Text × (List Finding × List EvidenceRef)))). record {
        passed = p.0;
        summary = p.1.0;
        findings = p.1.1.0;
        evidence = p.1.1.1;
      })
      (λ r. refl)
      (pair_eq bool_eq (pair_eq text_eq (pair_eq (list_eq finding_eq) (list_eq evidence_ref_eq))))

unfoldable pub rollback_result_eq : Eq RollbackResult
rollback_result_eq =
    eq_by
      (λ (r : RollbackResult).
        (r.restored, (r.mutation_state, (r.checkpoint, (r.state, (r.evidence, r.reconnect))))))
      (λ (p : (Bool × (Text × (Text × (Artifact × (List EvidenceRef × Option ReconnectHandoff)))))).
        record {
          restored = p.0;
          mutation_state = p.1.0;
          checkpoint = p.1.1.0;
          state = p.1.1.1.0;
          evidence = p.1.1.1.1.0;
          reconnect = p.1.1.1.1.1;
        })
      (λ r. refl)
      (pair_eq bool_eq (
        pair_eq text_eq (
          pair_eq text_eq (
            pair_eq artifact_eq
              (pair_eq (list_eq evidence_ref_eq) (option_eq reconnect_handoff_eq))))))
