-- ===== src/Task/Phase.antt =====
-- app/internal/task/task.go: the phases of a task.
use setpoint_ci_mirror.Base.{ℕ, Bool, true, false, ◌&&◌, [], eqb}
use setpoint_ci_mirror.Base.Text.{Text, text_beq}

-- `Phase` is a string in the source; `other_phase` is any string that is not one of the constants.
pub data Phase : Type 0 where
  pending claimed running cancel_requested canceled succeeded failed : Phase
  other_phase : Text → Phase

-- `Terminal`, and `ValidResultPhase`
unfoldable pub terminal_phase : Phase → Bool
terminal_phase canceled = true
terminal_phase succeeded = true
terminal_phase failed = true
terminal_phase _ = false

-- The phases of a task that an agent works on.
unfoldable pub is_active : Phase → Bool
is_active claimed = true
is_active running = true
is_active cancel_requested = true
is_active _ = false

unfoldable pub is_pending : Phase → Bool
is_pending pending = true
is_pending _ = false

abbrev rank : Phase → ℕ
rank pending = 0
rank claimed = 1
rank running = 2
rank cancel_requested = 3
rank canceled = 4
rank succeeded = 5
rank failed = 6
rank (other_phase t) = 7

abbrev spelling : Phase → Text
spelling (other_phase t) = t
spelling _ = []

-- `a == b` on phases.
unfoldable pub phase_beq : Phase → Phase → Bool
phase_beq a b = eqb (rank a) (rank b) && text_beq (spelling a) (spelling b)
