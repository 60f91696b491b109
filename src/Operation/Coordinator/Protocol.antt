-- ===== src/Operation/Coordinator/Protocol.antt =====
-- app/internal/operation/lifecycle.go: what follows for a caller of `ExecuteConfirmed`.
use setpoint_ci_mirror.Base.{
  ℕ, ◌+◌, ◌≤◌, ◌≡◌, ◌≢◌, refl, sym, ap, subst, ◌∙◌, Bool, true, false, ◌&&◌, none, List, [], ◌∷◌,
  arith, if◌then◌else◌,
}
use setpoint_ci_mirror.Operation.State.{
  State, awaiting_confirmation, running, verifying, succeeded, rolling_back, rolled_back, state_beq,
  state_beq_iff,
}
use setpoint_ci_mirror.Operation.State.Trails.{Trail, next}
use setpoint_ci_mirror.Operation.Coordinator.{
  Call, appended, applied, rolled, Cursor, Services, PreparedRun, is_none,
}
use setpoint_ci_mirror.Operation.Coordinator.Trace.{
  has, is_granted, is_released, is_point_created, is_point_verified, is_apply, is_applied,
  is_verified, is_rollback, is_rolled, is_rollback_checked, is_restore_checked, cursor_of, earned,
  IsSafe, is_succeeded, IsEnded,
}
use setpoint_ci_mirror.Operation.Coordinator.Execute.{start_cursor, execute_confirmed}
use setpoint_ci_mirror.Operation.Coordinator.Safety.{before, execute_confirmed-IsEnded}

-- What was earned stays earned.
earned-∷ : (t : State) (c : Call) (cs : List Call) → earned t cs ≡ true → earned t (c ∷ cs) ≡ true
earned-∷ running c cs h = ground arith
earned-∷ verifying c cs h = ground arith
earned-∷ succeeded c cs h = ground arith
earned-∷ rolling_back c cs h = ground arith
earned-∷ rolled_back c cs h = ground arith
earned-∷ _ c cs h = refl

-- The last journaled state was earned, if anything was journaled.
journaled-earned :
    (start : Cursor) (run_id : List ℕ) (t : State) (cs : List Call)
    → IsSafe start run_id cs
    → start.state ≢ t
    → (cursor_of start cs).state ≡ t
    → earned t cs ≡ true
journaled-earned start run_id t [] safe other here = absurd (other here)
journaled-earned start run_id t (appended e ∷ cs) ((can, n, r, ready), safe) other here =
    earned-∷ t (appended e) cs (ap (λ u. earned u cs) (sym here) ∙ ready)
journaled-earned start run_id t (c ∷ cs) (allowed, safe) other here =
    earned-∷ t c cs (journaled-earned start run_id t cs safe other here)

-- Every `Apply` follows a granted lock and a created and verified restore point, and every
-- `Rollback` follows an `Apply`.
abbrev pub IsGuarded : List Call → Type 0
IsGuarded [] = Unit
IsGuarded (applied b ∷ cs) =
    ((has is_granted cs && has is_point_created cs && has is_point_verified cs) ≡ true)
    × IsGuarded cs
IsGuarded (rolled b ∷ cs) = (has is_apply cs ≡ true) × IsGuarded cs
IsGuarded (_ ∷ cs) = IsGuarded cs

guarded :
    (start : Cursor) (run_id : List ℕ) (cs : List Call)
    → start.state ≢ running
    → start.state ≢ rolling_back
    → IsSafe start run_id cs
    → IsGuarded cs
guarded start run_id [] h h' safe = tt
guarded start run_id (applied b ∷ cs) h h' ((at, once, kept), safe) =
    (journaled-earned start run_id running cs safe h at, guarded start run_id cs h h' safe)
guarded start run_id (rolled b ∷ cs) h h' ((at, once, kept), safe) =
    (journaled-earned start run_id rolling_back cs safe h' at, guarded start run_id cs h h' safe)
guarded start run_id (c ∷ cs) h h' (allowed, safe) = guarded start run_id cs h h' safe

-- How many calls pass the test.
abbrev pub count : (Call → Bool) → List Call → ℕ
count test [] = 0
count test (c ∷ cs) = let rest = count test cs in if test c then rest + 1 else rest

count-none : (test : Call → Bool) (cs : List Call) → has test cs ≡ false → count test cs ≡ 0
count-none test [] h = refl
count-none test (c ∷ cs) h =
    let miss : test c ≡ false = ground arith in rw (miss, count-none test cs (ground arith)) refl

apply_once :
    (start : Cursor) (run_id : List ℕ) (cs : List Call)
    → IsSafe start run_id cs
    → count is_apply cs ≤ 1
apply_once start run_id [] safe = omega arith
apply_once start run_id (applied b ∷ cs) ((at, once, kept), safe) =
    omega (arith, count-none is_apply cs once)
apply_once start run_id (c ∷ cs) (allowed, safe) = apply_once start run_id cs safe

rollback_once :
    (start : Cursor) (run_id : List ℕ) (cs : List Call)
    → IsSafe start run_id cs
    → count is_rollback cs ≤ 1
rollback_once start run_id [] safe = omega arith
rollback_once start run_id (rolled b ∷ cs) ((at, once, kept), safe) =
    omega (arith, count-none is_rollback cs once)
rollback_once start run_id (c ∷ cs) (allowed, safe) = rollback_once start run_id cs safe

-- The journaled states, the newest first, before the states `past`.
abbrev pub journaled : List Call → List State → List State
journaled [] past = past
journaled (appended e ∷ cs) past = e.state ∷ journaled cs past
journaled (_ ∷ cs) past = journaled cs past

journaled-Trail :
    (start : Cursor) (run_id : List ℕ) (past : List State) (cs : List Call)
    → IsSafe start run_id cs
    → Trail (start.state ∷ past)
    → (rest : List State) × (journaled cs (start.state ∷ past) ≡ (cursor_of start cs).state ∷ rest)
      × Trail ((cursor_of start cs).state ∷ rest)
journaled-Trail start run_id past [] safe t = (past, refl, t)
journaled-Trail start run_id past (appended e ∷ cs) ((can, n, r, ready), safe) t =
    let (rest, same, t') = journaled-Trail start run_id past cs safe t in
    ((cursor_of start cs).state ∷ rest, ap (λ v. e.state ∷ v) same, next t' can)
journaled-Trail start run_id past (c ∷ cs) (allowed, safe) t =
    journaled-Trail start run_id past cs safe t

module _ {E : Type 0} (s : Services E) (p : PreparedRun) (env : E)
    (confirmed : p.state ≡ awaiting_confirmation) where
  ended :
      IsEnded
        (start_cursor p)
        p.run_id
        (execute_confirmed s p (before env)).0
        (execute_confirmed s p (before env)).1
  unfolding state_beq
  ended = execute_confirmed-IsEnded s p env (ap is_succeeded confirmed)

  -- A run that awaits its confirmation is executed with every write guarded: each `Apply` comes after
  -- a granted lock and a restore point that was created and passed its verification, each `Rollback`
  -- after an `Apply`, and there is at most one `Apply` and one `Rollback`.
  pub execute_confirmed-IsGuarded :
      IsGuarded (execute_confirmed s p (before env)).1.calls
      × (count is_apply (execute_confirmed s p (before env)).1.calls ≤ 1)
      × (count is_rollback (execute_confirmed s p (before env)).1.calls ≤ 1)
  execute_confirmed-IsGuarded = (
    guarded (start_cursor p) p.run_id _ (λ e. cc) (λ e. cc) ended.safe,
    apply_once (start_cursor p) p.run_id _ ended.safe,
    rollback_once (start_cursor p) p.run_id _ ended.safe,
  )

  -- Where a trail of allowed transitions led a run to `awaiting_confirmation`, the journaled states of
  -- its execution continue that trail, and the newest of them is the state of the result.
  pub execute_confirmed-Trail :
      (past : List State)
      → Trail (p.state ∷ past)
      → (rest : List State) × (journaled
            (execute_confirmed s p (before env)).1.calls
            (p.state ∷ past)
          ≡ (execute_confirmed s p (before env)).0.result.state ∷ rest)
        × Trail ((execute_confirmed s p (before env)).0.result.state ∷ rest)
  execute_confirmed-Trail past t =
      let (rest, same, t') = journaled-Trail (start_cursor p) p.run_id past _ ended.safe t in
      (rest, same ∙ ap (λ u. u ∷ rest) ended.state, subst (λ u. Trail (u ∷ rest)) ended.state t')

  -- An execution of a run that awaited its confirmation, if it returns no error, ended in `succeeded`:
  -- the operation was applied, its result passed the verification, and the lock was given back.
  pub execute_confirmed-succeeded :
      (execute_confirmed s p (before env)).0.error ≡ none
      → ((execute_confirmed s p (before env)).0.result.state ≡ succeeded)
        × (has is_applied (execute_confirmed s p (before env)).1.calls ≡ true)
        × (has is_verified (execute_confirmed s p (before env)).1.calls ≡ true)
        × (has is_released (execute_confirmed s p (before env)).1.calls ≡ true)
  execute_confirmed-succeeded fine =
      let w = (execute_confirmed s p (before env)).1 in
      let done =
        (state_beq_iff (execute_confirmed s p (before env)).0.result.state succeeded).0
          (sym ended.verdict ∙ ap is_none fine) in
      let ready =
        journaled-earned (start_cursor p) p.run_id succeeded w.calls ended.safe (λ e. cc)
          (ended.state ∙ done) in
      (done, ground arith, ground arith, ground arith)

  -- An execution of a run that awaited its confirmation, if it ends in `rolled_back`, made the
  -- rollback, passed both of its checks, gave the lock back, and reports an error.
  pub execute_confirmed-rolled_back :
      (execute_confirmed s p (before env)).0.result.state ≡ rolled_back
      → (is_none (execute_confirmed s p (before env)).0.error ≡ false)
        × (has is_rolled (execute_confirmed s p (before env)).1.calls ≡ true)
        × (has is_rollback_checked (execute_confirmed s p (before env)).1.calls ≡ true)
        × (has is_restore_checked (execute_confirmed s p (before env)).1.calls ≡ true)
        × (has is_released (execute_confirmed s p (before env)).1.calls ≡ true)
  unfolding state_beq
  execute_confirmed-rolled_back done =
      let w = (execute_confirmed s p (before env)).1 in
      let ready =
        journaled-earned (start_cursor p) p.run_id rolled_back w.calls ended.safe (λ e. cc)
          (ended.state ∙ done) in
      (ended.verdict ∙ ap is_succeeded done, ground arith, ground arith, ground arith, ground arith)
