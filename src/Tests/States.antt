-- ===== src/Tests/States.antt =====
-- Runs of the transition table.
use setpoint_ci_mirror.Base.{◌≡◌, refl, ◌≤◌, length, List, [], ◌∷◌, true}
use setpoint_ci_mirror.Operation.State.{
  State, draft, discovering, prechecking, planned, awaiting_confirmation, queued, acquiring_lock,
  creating_restore_point, running, verifying, succeeded, interrupted, can_transition, valid_state,
  terminal, state_beq,
}
use setpoint_ci_mirror.Operation.State.Steps.{Reach, valid-ends}
use setpoint_ci_mirror.Operation.State.Trails.{Trail, start, next, Trail-bounded, Trail-confirmed}

-- The table alone does not ask for a confirmation: an interrupted run may be queued again, and a
-- run that was interrupted in its discovery has no plan and was never confirmed.
resumed_unconfirmed : Trail (
    running ∷ creating_restore_point ∷ acquiring_lock ∷ queued ∷ interrupted ∷ discovering ∷ draft
    ∷ [])
unfolding can_transition
resumed_unconfirmed = next (next (next (next (next (next start refl) refl) refl) refl) refl) refl

abbrev confirmed_past : List State
confirmed_past =
    creating_restore_point ∷ acquiring_lock ∷ queued ∷ awaiting_confirmation ∷ planned ∷ prechecking
    ∷ discovering ∷ draft ∷ []

straight : Trail (running ∷ confirmed_past)
unfolding can_transition
straight =
    next (next (next (next (next (next (next (next start refl) refl) refl) refl) refl) refl) refl)
      refl

straight_to_success : Trail (succeeded ∷ verifying ∷ running ∷ confirmed_past)
unfolding can_transition
straight_to_success = next (next straight refl) refl

valid-ends_example : (t : State) × Reach interrupted t × (terminal t ≡ true)
unfolding valid_state
valid-ends_example = valid-ends interrupted refl

Trail-bounded_example : length (succeeded ∷ verifying ∷ running ∷ confirmed_past) ≤ 13
unfolding state_beq
Trail-bounded_example = Trail-bounded straight_to_success (
  λ e. cc,
  (
    λ e. cc,
    (
      λ e. cc,
      (λ e. cc, (λ e. cc, (λ e. cc, (λ e. cc, (λ e. cc, (λ e. cc, (λ e. cc, (λ e. cc, tt)))))))),
    ),
  ),
)

Trail-confirmed_example :
    confirmed_past
    ≡ creating_restore_point ∷ acquiring_lock ∷ queued ∷ awaiting_confirmation ∷ planned
      ∷ prechecking ∷ discovering ∷ draft ∷ []
Trail-confirmed_example =
    Trail-confirmed straight
      (λ e. cc, (λ e. cc, (λ e. cc, (λ e. cc, (λ e. cc, (λ e. cc, (λ e. cc, (λ e. cc, tt))))))))
