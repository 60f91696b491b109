-- ===== src/Operation/State/Trails.antt =====
-- app/internal/operation/state.go: what the transition table allows along a whole run.
use setpoint_ci_mirror.Base.{
  ◌≡◌, ◌≢◌, ap, ap₂, subst, All, refl, ℕ, ◌≤◌, ◌<◌, length, inl, inr, true, List, [], ◌∷◌, arith,
}
use setpoint_ci_mirror.Operation.State.{
  State, draft, discovering, prechecking, planned, awaiting_confirmation, queued, acquiring_lock,
  creating_restore_point, running, verifying, succeeded, failed, rolling_back, interrupted,
  state_beq, can_transition, state_beq_iff,
}
use setpoint_ci_mirror.Operation.State.Steps.{
  into_running, into_verifying, into_succeeded, into_creating_restore_point, into_acquiring_lock,
  into_queued, into_awaiting_confirmation, into_planned, into_prechecking, into_discovering,
  into_draft,
}

-- The states of a run, the newest first, each entered by an allowed transition from the one before
-- it; the first is a draft.
pub data Trail : List State → Type 0 where
  start : Trail (draft ∷ [])
  next :
      {s t : State} {past : List State}
      → Trail (s ∷ past)
      → can_transition s t ≡ true
      → Trail (t ∷ s ∷ past)

-- Where one state alone leads to `t`, a run that stands in `t` came from it.
came_from :
    {t : State} {past : List State} (s : State)
    → t ≢ draft
    → ((u : State) → can_transition u t ≡ true → u ≡ s)
    → Trail (t ∷ past)
    → (rest : List State) × (past ≡ s ∷ rest) × Trail (s ∷ rest)
came_from s other only start = absurd (other refl)
came_from s other only (next {s = u} {past = rest} r h) =
    let e = only u h in (rest, ap (λ v. v ∷ rest) e, subst (λ v. Trail (v ∷ rest)) e r)

past_creating :
    {past : List State}
    → Trail (creating_restore_point ∷ past)
    → (rest : List State) × (past ≡ acquiring_lock ∷ queued ∷ rest) × Trail (queued ∷ rest)
past_creating r =
    let (p, e, r') = came_from acquiring_lock (λ e. cc) into_creating_restore_point r in
    let (q, f, r'') = came_from queued (λ e. cc) into_acquiring_lock r' in (q, cc, r'')

-- A run that stands in `running` has just been queued, has acquired its lock and has created its
-- restore point, in this order.
Trail-running :
    {past : List State}
    → Trail (running ∷ past)
    → (rest : List State) × (past ≡ creating_restore_point ∷ acquiring_lock ∷ queued ∷ rest)
      × Trail (queued ∷ rest)
Trail-running r =
    let (p, e, r') = came_from creating_restore_point (λ e. cc) into_running r in
    let (q, f, r'') = past_creating r' in (q, cc, r'')

-- A run that stands in `succeeded` ended with the states queued, acquiring_lock,
-- creating_restore_point, running and verifying, in this order and with nothing between them.
Trail-succeeded :
    {past : List State}
    → Trail (succeeded ∷ past)
    → (rest : List State) × (past
        ≡ verifying ∷ running ∷ creating_restore_point ∷ acquiring_lock ∷ queued ∷ rest)
Trail-succeeded r =
    let (p, e, r') = came_from verifying (λ e. cc) into_succeeded r in
    let (q, f, r'') = came_from running (λ e. cc) into_verifying r' in
    let (o, g, r''') = Trail-running r'' in (o, cc)

-- Where a state stands in the order of a run that is never interrupted.
abbrev level : State → ℕ
level draft = 1
level discovering = 2
level prechecking = 3
level planned = 4
level awaiting_confirmation = 5
level queued = 6
level acquiring_lock = 7
level creating_restore_point = 8
level running = 9
level verifying = 10
level failed = 11
level rolling_back = 12
level _ = 13

level-lt :
    (s t : State)
    → can_transition s t ≡ true
    → s ≢ interrupted
    → t ≢ interrupted
    → level s < level t
unfolding can_transition state_beq
level-lt draft t h f g = ground (arith, state_beq_iff t interrupted)
level-lt _ t h f g = ground arith

abbrev IsUninterrupted : List State → Type 0
IsUninterrupted = All (λ s. s ≢ interrupted)

length-le-level :
    {t : State} {past : List State}
    → Trail (t ∷ past)
    → IsUninterrupted (t ∷ past)
    → length (t ∷ past) ≤ level t
length-le-level start u = omega arith
length-le-level (next {s = s} {t = t} r h) u =
    omega (arith, length-le-level r u.1, level-lt s t h u.1.0 u.0)

level-le : (s : State) → level s ≤ 13
level-le draft = omega arith
level-le _ = omega arith

-- A run that is never interrupted passes through at most 13 states.
pub Trail-bounded :
    {t : State} {past : List State}
    → Trail (t ∷ past)
    → IsUninterrupted (t ∷ past)
    → length (t ∷ past) ≤ 13
Trail-bounded {t} r u = omega (arith, length-le-level r u, level-le t)

past_draft : {past : List State} → Trail (draft ∷ past) → past ≡ []
past_draft start = refl
past_draft (next {s = s} r h) = absurd (into_draft s h)

past_awaiting_confirmation :
    {past : List State}
    → Trail (awaiting_confirmation ∷ past)
    → past ≡ planned ∷ prechecking ∷ discovering ∷ draft ∷ []
past_awaiting_confirmation r =
    let (p, e, r') = came_from planned (λ e. cc) into_awaiting_confirmation r in
    let (q, f, r'') = came_from prechecking (λ e. cc) into_planned r' in
    let (o, g, r''') = came_from discovering (λ e. cc) into_prechecking r'' in
    let (n, k, r'''') = came_from draft (λ e. cc) into_discovering r''' in cc (past_draft r'''')

past_queued :
    {past : List State}
    → Trail (queued ∷ past)
    → IsUninterrupted past
    → past ≡ awaiting_confirmation ∷ planned ∷ prechecking ∷ discovering ∷ draft ∷ []
past_queued (next {s = s} {past = past} r h) u = elim (into_queued s h) [
  | inl e ↦ ap₂ ◌∷◌ e (past_awaiting_confirmation (subst (λ v. Trail (v ∷ past)) e r))
  | inr e ↦ absurd (u.0 e)
]

-- A run that stands in `running` and was never interrupted has the whole protocol behind it:
-- discovery, precheck, plan, confirmation, queue, lock and restore point, each once and in order.
pub Trail-confirmed :
    {past : List State}
    → Trail (running ∷ past)
    → IsUninterrupted past
    → past
      ≡ creating_restore_point ∷ acquiring_lock ∷ queued ∷ awaiting_confirmation ∷ planned
        ∷ prechecking ∷ discovering ∷ draft ∷ []
Trail-confirmed {past} r u =
    let (rest, e, q) = Trail-running r in
    let v = subst IsUninterrupted e u in cc (past_queued q v.1.1.1)
