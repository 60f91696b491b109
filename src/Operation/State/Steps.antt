-- ===== src/Operation/State/Steps.antt =====
-- app/internal/operation/state.go: single transitions, and which states a run can end in.
use setpoint_ci_mirror.Base.{◌≡◌, refl, ◌⊎◌, ◌↔◌, Bool-cases, inl, inr, true, false, arith}
use setpoint_ci_mirror.Operation.State.{
  State, draft, discovering, prechecking, planned, awaiting_confirmation, queued, acquiring_lock,
  creating_restore_point, running, verifying, succeeded, blocked, failed, rolling_back,
  rolling_back, rolled_back, rollback_failed, interrupted, canceled_before_apply, unknown,
  state_beq, terminal, valid_state, can_transition,
}

pub terminal-absorbs : (s t : State) → terminal s ≡ true → can_transition s t ≡ false
unfolding terminal can_transition
terminal-absorbs draft t h = cc
terminal-absorbs _ t h = ground arith

-- A valid state that no run ends in has a next state.
has_next :
    (s : State)
    → valid_state s ≡ true
    → terminal s ≡ false
    → (t : State) × (can_transition s t ≡ true)
unfolding terminal can_transition
has_next draft v h = (discovering, refl)
has_next discovering v h = (prechecking, refl)
has_next prechecking v h = (planned, refl)
has_next planned v h = (awaiting_confirmation, refl)
has_next awaiting_confirmation v h = (queued, refl)
has_next queued v h = (acquiring_lock, refl)
has_next acquiring_lock v h = (creating_restore_point, refl)
has_next creating_restore_point v h = (running, refl)
has_next running v h = (verifying, refl)
has_next verifying v h = (succeeded, refl)
has_next failed v h = (rolling_back, refl)
has_next rolling_back v h = (rolled_back, refl)
has_next interrupted v h = (rolling_back, refl)
has_next _ v h = cc

-- A valid state is terminal, as `Terminal` says, exactly when the table has no transition out of it.
terminal-iff-stuck :
    (s : State)
    → valid_state s ≡ true
    → (terminal s ≡ true) ↔ ((t : State) → can_transition s t ≡ false)
terminal-iff-stuck s v = (
  λ h t. terminal-absorbs s t h,
  λ stuck. elim (Bool-cases (terminal s)) [
    | inl yes' ↦ yes'
    | inr no' ↦ let (t, step) = has_next s v no' in cc (stuck t)
  ],
)

-- One allowed transition after another.
pub data Reach (s : State) : State → Type 0 where
  here : Reach s s
  step : {t u : State} → Reach s t → can_transition t u ≡ true → Reach s u

-- From every valid state a run can still come to an end: some allowed transitions lead from it to a
-- terminal state.
pub valid-ends : (s : State) → valid_state s ≡ true → (t : State) × Reach s t × (terminal t ≡ true)
unfolding terminal can_transition
valid-ends draft v = (canceled_before_apply, step here refl, refl)
valid-ends discovering v = (blocked, step here refl, refl)
valid-ends prechecking v = (blocked, step here refl, refl)
valid-ends planned v = (blocked, step here refl, refl)
valid-ends awaiting_confirmation v = (canceled_before_apply, step here refl, refl)
valid-ends queued v = (blocked, step here refl, refl)
valid-ends acquiring_lock v = (blocked, step here refl, refl)
valid-ends creating_restore_point v = (blocked, step here refl, refl)
valid-ends running v = (rolled_back, step {t = rolling_back} (step here refl) refl, refl)
valid-ends verifying v = (succeeded, step here refl, refl)
valid-ends failed v = (rolled_back, step {t = rolling_back} (step here refl) refl, refl)
valid-ends interrupted v = (rolled_back, step {t = rolling_back} (step here refl) refl, refl)
valid-ends rolling_back v = (rolled_back, step here refl, refl)
valid-ends succeeded v = (succeeded, here, refl)
valid-ends blocked v = (blocked, here, refl)
valid-ends canceled_before_apply v = (canceled_before_apply, here, refl)
valid-ends rolled_back v = (rolled_back, here, refl)
valid-ends rollback_failed v = (rollback_failed, here, refl)
valid-ends (unknown x) v = cc

pub into_running : (s : State) → can_transition s running ≡ true → s ≡ creating_restore_point
unfolding can_transition state_beq
into_running draft h = ground arith
into_running _ h = ground arith

pub into_verifying : (s : State) → can_transition s verifying ≡ true → s ≡ running
unfolding can_transition state_beq
into_verifying draft h = ground arith
into_verifying _ h = ground arith

pub into_succeeded : (s : State) → can_transition s succeeded ≡ true → s ≡ verifying
unfolding can_transition state_beq
into_succeeded draft h = ground arith
into_succeeded _ h = ground arith

pub into_creating_restore_point :
    (s : State) → can_transition s creating_restore_point ≡ true → s ≡ acquiring_lock
unfolding can_transition state_beq
into_creating_restore_point draft h = ground arith
into_creating_restore_point _ h = ground arith

pub into_acquiring_lock : (s : State) → can_transition s acquiring_lock ≡ true → s ≡ queued
unfolding can_transition state_beq
into_acquiring_lock draft h = ground arith
into_acquiring_lock _ h = ground arith

pub into_queued :
    (s : State) → can_transition s queued ≡ true → (s ≡ awaiting_confirmation) ⊎ (s ≡ interrupted)
unfolding can_transition state_beq
into_queued draft h = ground arith
into_queued _ h = ground arith

pub into_awaiting_confirmation :
    (s : State) → can_transition s awaiting_confirmation ≡ true → s ≡ planned
unfolding can_transition state_beq
into_awaiting_confirmation draft h = ground arith
into_awaiting_confirmation _ h = ground arith

pub into_planned : (s : State) → can_transition s planned ≡ true → s ≡ prechecking
unfolding can_transition state_beq
into_planned draft h = ground arith
into_planned _ h = ground arith

pub into_prechecking : (s : State) → can_transition s prechecking ≡ true → s ≡ discovering
unfolding can_transition state_beq
into_prechecking draft h = ground arith
into_prechecking _ h = ground arith

pub into_discovering : (s : State) → can_transition s discovering ≡ true → s ≡ draft
unfolding can_transition state_beq
into_discovering draft h = ground arith
into_discovering _ h = ground arith

pub into_draft : (s : State) → can_transition s draft ≡ true → ⊥
unfolding can_transition state_beq
into_draft draft h = ground arith
into_draft _ h = ground arith
