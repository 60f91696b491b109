-- ===== src/Operation/Coordinator/Trace.antt =====
-- What the coordinator may do at each point of an execution, in terms of what it did before.
use setpoint_ci_mirror.Base.{◌+◌, ◌≡◌, Bool, true, false, ◌&&◌, ◌||◌, ◌⊎◌, List, [], ◌∷◌}
use setpoint_ci_mirror.Base.Text.{Text}
use setpoint_ci_mirror.Operation.State.{
  State, running, verifying, succeeded, rolling_back, rolled_back, can_transition, state_beq,
}
use setpoint_ci_mirror.Operation.Coordinator.{
  Call, appended, append_failed, lock_granted, released, point_created, point_verified, applied,
  result_verified, rolled, rollback_checked, restore_checked, Cursor, World, Outcome, is_none,
}

-- Some earlier call passes the test. The newest call is the first.
abbrev pub has : (Call → Bool) → List Call → Bool
has test [] = false
has test (c ∷ cs) = test c || has test cs

abbrev pub is_granted : Call → Bool
is_granted lock_granted = true
is_granted _ = false

-- `Release` was called.
abbrev pub is_release : Call → Bool
is_release (released b) = true
is_release _ = false

-- `Release` was called and succeeded.
abbrev pub is_released : Call → Bool
is_released (released b) = b
is_released _ = false

abbrev pub is_point_created : Call → Bool
is_point_created (point_created b) = b
is_point_created _ = false

abbrev pub is_point_verified : Call → Bool
is_point_verified (point_verified b) = b
is_point_verified _ = false

abbrev pub is_apply : Call → Bool
is_apply (applied b) = true
is_apply _ = false

abbrev pub is_applied : Call → Bool
is_applied (applied b) = b
is_applied _ = false

abbrev pub is_verified : Call → Bool
is_verified (result_verified b) = b
is_verified _ = false

abbrev pub is_rollback : Call → Bool
is_rollback (rolled b) = true
is_rollback _ = false

abbrev pub is_rolled : Call → Bool
is_rolled (rolled b) = b
is_rolled _ = false

abbrev pub is_rollback_checked : Call → Bool
is_rollback_checked (rollback_checked b) = b
is_rollback_checked _ = false

abbrev pub is_restore_checked : Call → Bool
is_restore_checked (restore_checked b) = b
is_restore_checked _ = false

-- The last journaled state and sequence number, `start` if nothing was journaled yet.
abbrev pub cursor_of : Cursor → List Call → Cursor
cursor_of start [] = start
cursor_of start (appended e ∷ cs) = record { state = e.state; sequence = e.sequence }
cursor_of start (_ ∷ cs) = cursor_of start cs

-- What must have happened before a state is journaled.
abbrev pub earned : State → List Call → Bool
earned running cs = has is_granted cs && has is_point_created cs && has is_point_verified cs
earned verifying cs = has is_applied cs
earned succeeded cs = has is_applied cs && has is_verified cs && has is_released cs
earned rolling_back cs = has is_apply cs
earned rolled_back cs =
    has is_rolled cs
    && has is_rollback_checked cs
    && has is_restore_checked cs
    && has is_released cs
earned _ cs = true

module _ (start : Cursor) (run_id : Text) where
  -- What must hold of the earlier calls when a call is made.
  abbrev pub IsAllowed : Call → List Call → Type 0
  IsAllowed (appended e) cs =
      (can_transition (cursor_of start cs).state e.state ≡ true)
      × (e.sequence ≡ (cursor_of start cs).sequence + 1)
      × (e.run_id ≡ run_id)
      × (earned e.state cs ≡ true)
  IsAllowed (released b) cs = has is_granted cs ≡ true
  IsAllowed (applied b) cs =
      ((cursor_of start cs).state ≡ running)
      × (has is_apply cs ≡ false)
      × (has is_release cs ≡ false)
  IsAllowed (result_verified b) cs = (cursor_of start cs).state ≡ verifying
  IsAllowed (rolled b) cs =
      ((cursor_of start cs).state ≡ rolling_back)
      × (has is_rollback cs ≡ false)
      × (has is_release cs ≡ false)
  IsAllowed _ cs = Unit

  abbrev pub IsSafe : List Call → Type 0
  IsSafe [] = Unit
  IsSafe (c ∷ cs) = IsAllowed c cs × IsSafe cs

-- The journal entry of a state was refused.
abbrev pub is_failed : State → Call → Bool
is_failed to (append_failed e) = state_beq e.state to
is_failed to _ = false

abbrev pub is_succeeded : State → Bool
is_succeeded s = state_beq s succeeded

-- What is known of the calls, but for the journal.
pub record Facts : Type 0 where
  pub granted : Bool
  pub release : Bool
  pub released : Bool
  pub point_created : Bool
  pub point_verified : Bool
  pub apply : Bool
  pub applied : Bool
  pub verified : Bool
  pub rollback : Bool
  pub rolled : Bool
  pub rollback_checked : Bool
  pub restore_checked : Bool

abbrev pub facts : List Call → Facts
facts cs = record {
  granted = has is_granted cs;
  release = has is_release cs;
  released = has is_released cs;
  point_created = has is_point_created cs;
  point_verified = has is_point_verified cs;
  apply = has is_apply cs;
  applied = has is_applied cs;
  verified = has is_verified cs;
  rollback = has is_rollback cs;
  rolled = has is_rolled cs;
  rollback_checked = has is_rollback_checked cs;
  restore_checked = has is_restore_checked cs;
}

module _ (start : Cursor) (run_id : Text) {E : Type 0} where
  -- What holds while the coordinator stands at the cursor `c`.
  pub record IsAt (c : Cursor) (w : World E) : Type 0 where
    pub safe : IsSafe start run_id w.calls
    pub place : cursor_of start w.calls ≡ c

  -- What holds of a finished execution: every call was allowed when it was made; the reported state
  -- is the last journaled one; a granted lock was given back, unless the journal refused the entry
  -- `rolling_back`; and there is no error exactly in the state `succeeded`.
  pub record IsEnded (o : Outcome) (w : World E) : Type 0 where
    pub safe : IsSafe start run_id w.calls
    pub state : (cursor_of start w.calls).state ≡ o.result.state
    pub lock :
        (has is_granted w.calls ≡ false)
        ⊎ ((has is_release w.calls ≡ true) ⊎ (has (is_failed rolling_back) w.calls ≡ true))
    pub verdict : is_none o.error ≡ is_succeeded o.result.state
