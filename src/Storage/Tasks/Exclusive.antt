-- ===== src/Storage/Tasks/Exclusive.antt =====
-- app/internal/storage/sqlite/tasks.go: no sequence of calls gives an agent two tasks at a time.
use setpoint_ci_mirror.Base.{
  ◌+◌, ◌≤◌, ◌≡◌, refl, sym, ap, subst, ◌∙◌, Bool, true, false, not, ◌&&◌, ◌||◌, Option, none, some,
  List, map, Result, ok, err, >>=-eq-ok, require->>-ok, require, Bool-cases, Option-cases, inl, inr,
  arith, ◌>>=◌, ◌==◌, Memᴰ, eqb, length, keep, is_empty,
}
use setpoint_ci_mirror.Base.Members.{IsDistinct, row_of, find-some}
use setpoint_ci_mirror.Base.Text.{Text, text_eq}
use setpoint_ci_mirror.Task.Phase.{
  Phase, pending, claimed, running, cancel_requested, canceled, succeeded, failed, other_phase,
  is_active, is_pending, terminal_phase,
}
use setpoint_ci_mirror.Storage.Tx.{transact}
use setpoint_ci_mirror.Storage.Tasks.{
  TaskRow, TaskTables, TaskError, TaskKind, operation_planning, update, read_task, found, get_task,
  Reply, as_read, after_commit, reply_answer, Claim, held, idle, taken, claimable, take_pending,
  take_existing, claim_tx, claim_answer, claim_task, get_task_for_agent, node_mismatch,
  claim_mismatch, earliest, planning_started, acknowledge_phase, cancel_phase, claimed_concurrently,
}
use setpoint_ci_mirror.Storage.Tasks.Serial.{
  id_of, works_on, active_tasks, update-le, update-le_suc, update-ids, earliest-mem, earliest-none,
}

-- The IDs of the tasks differ, and no agent works on two tasks.
pub record IsSerial (rows : List TaskRow) : Type 0 where
  pub ids : IsDistinct (map id_of rows)
  pub one : (n : Text) → active_tasks n rows ≤ 1

-- What a transaction leaves, if it returns.
abbrev pub Leaves {ℓ} :
    {A : Type 0} → (TaskTables → Type ℓ) → Result TaskError (A × TaskTables) → Type ℓ
Leaves P (ok (a, t)) = P t
Leaves P (err e) = Unit

abbrev pub Serial : TaskTables → Type 0
Serial t = IsSerial t.tasks

pub bind-Leaves :
    {A B : Type 0} (m : Result TaskError A) (k : A → Result TaskError (B × TaskTables))
    → ((a : A) → m ≡ ok a → Leaves Serial (k a))
    → Leaves Serial (m >>= k)
bind-Leaves (ok a) k h = h a refl
bind-Leaves (err e) k h = tt

-- A row with this ID that works already, or that does not work afterwards.
changed-IsSerial :
    (id : Text) (change : TaskRow → TaskRow) (rows : List TaskRow)
    → ((r : TaskRow) → (change r).id ≡ r.id)
    → IsSerial rows
    → ((n : Text) (r : TaskRow)
        → Memᴰ r rows
        → r.id ≡ id
        → works_on n (change r) ≡ true
        → works_on n r ≡ true)
    → IsSerial (update (λ x. x.id == id) change rows)
changed-IsSerial id change rows keeps s h = record {
  ids = subst IsDistinct (sym (update-ids (λ x. x.id == id) change rows keeps)) s.ids;
  one = λ n. omega (
    arith,
    s.one n,
    update-le (λ x. x.id == id) change id (λ r e. (text_eq.beq_iff r.id id).0 e) n rows s.ids
        (λ r m e. h n r m ((text_eq.beq_iff r.id id).0 e)),
  );
}

claimable-id : (p r : TaskRow) → claimable p r ≡ true → r.id ≡ p.id
claimable-id p r h = (text_eq.beq_iff r.id p.id).0 (ground arith)

take_pending-Serial :
    (agent claim_id at : Text) (t : TaskTables) (o : Option TaskRow)
    → IsSerial t.tasks
    → active_tasks agent t.tasks ≡ 0
    → earliest (λ r. r.node_id == agent && is_pending r.phase) t.tasks ≡ o
    → Leaves Serial (take_pending claim_id at t o)
take_pending-Serial agent claim_id at t none s free h = s
take_pending-Serial agent claim_id at t (some p) s free h =
    let change = λ (r : TaskRow). record r {
      phase = claimed;
      claim_id = claim_id;
      attempt = r.attempt + 1;
      claimed_at = some at;
      updated_at = at;
    } in
    let (m, owned) = earliest-mem (λ r. r.node_id == agent && is_pending r.phase) t.tasks p h in
    let only = λ (r : TaskRow) (e : claimable p r ≡ true). claimable-id p r e in
    bind-Leaves (require (eqb (length (keep (claimable p) t.tasks)) 1) claimed_concurrently) _
      (λ u g. record {
        ids = subst IsDistinct (sym (update-ids (claimable p) change t.tasks (λ r. refl))) s.ids;
        one = λ n. elim (Bool-cases (agent == n)) [
          | inl e ↦
              let same = (text_eq.beq_iff agent n).0 e in
              let none_yet = subst (λ v. active_tasks v t.tasks ≡ 0) same free in
              omega (arith, none_yet, update-le_suc (claimable p) change p.id only n t.tasks s.ids)
          | inr e ↦ omega (
            arith,
            s.one n,
            update-le (claimable p) change p.id only n t.tasks s.ids (λ r k te works.
                let same = row_of id_of r p t.tasks s.ids k m (only r te) in
                let theirs : (r.node_id == n) ≡ true = ground arith in
                let mine : p.node_id ≡ agent = (text_eq.beq_iff p.node_id agent).0 (ground arith) in
                let node = ap (λ (x : TaskRow). x.node_id) same ∙ mine in
                absurd (cc (subst (λ v. (v == n) ≡ true) node theirs, e))),
          )
        ];
      })

take_existing-Serial :
    (agent claim_id at : Text) (t : TaskTables) (o : Option TaskRow)
    → IsSerial t.tasks
    → earliest (works_on agent) t.tasks ≡ o
    → Leaves Serial (take_existing agent claim_id at t o)
take_existing-Serial agent claim_id at t (some e) s h = s
take_existing-Serial agent claim_id at t none s h =
    take_pending-Serial agent claim_id at t _ s (earliest-none agent t.tasks h) refl

claim_answered :
    (t : TaskTables) (q : Result TaskError (Claim × TaskTables))
    → Serial t
    → Leaves Serial q
    → Serial (claim_answer (transact t q)).1
claim_answered t (ok (held r, t')) s l = l
claim_answered t (ok (idle, t')) s l = l
claim_answered t (ok (taken id, t')) s l = l
claim_answered t (err e) s l = s

-- A claim keeps the IDs of the tasks different and every agent at one task at most: an agent that works
-- on a task already is given no other.
pub claim_task-IsSerial :
    (agent claim_id at : Text) (t : TaskTables)
    → IsSerial t.tasks
    → IsSerial (claim_task agent claim_id at t).1.tasks
unfolding claim_task claim_tx
claim_task-IsSerial agent claim_id at t s =
    claim_answered t _ s (take_existing-Serial agent claim_id at t _ s refl)

pub reply_answered :
    (t : TaskTables) (q : Result TaskError (Reply × TaskTables))
    → Serial t
    → Leaves Serial q
    → Serial (reply_answer (transact t q)).1
reply_answered t (ok (as_read r, t')) s l = l
reply_answered t (ok (after_commit id, t')) s l = l
reply_answered t (err e) s l = s

pub get-mem :
    (id : Text) (t : TaskTables) (r : TaskRow) → get_task id t ≡ ok r → Memᴰ r t.tasks × (r.id ≡ id)
get-mem id t r h = elim (Option-cases (read_task id t.tasks)) [
  | inl e ↦ absurd (cc)
  | inr (x, e) ↦
      let same : ok x ≡ ok r = sym (ap found e) ∙ h in
      let (m, k) = find-some (λ y. y.id == id) r t.tasks (e ∙ cc same) in
      (m, (text_eq.beq_iff r.id id).0 k)
]

pub get_for_agent-mem :
    (agent id claim_id : Text) (t : TaskTables) (r : TaskRow)
    → get_task_for_agent agent id claim_id t ≡ ok r
    → Memᴰ r t.tasks × (r.id ≡ id)
unfolding get_task_for_agent
get_for_agent-mem agent id claim_id t r h =
    let (y, got, h1) = >>=-eq-ok (get_task id t) _ h in
    let (a, h2) = require->>-ok (y.node_id == agent) node_mismatch _ h1 in
    let (b, h3) =
      require->>-ok (not (is_empty y.claim_id || not (y.claim_id == claim_id))) claim_mismatch _
        h2 in
    let same : y ≡ r = cc in subst (λ x. Memᴰ x t.tasks × (x.id ≡ id)) same (get-mem id t y got)

-- A change of the one row that an agent works on already.
pub active-IsSerial :
    (id : Text) (change : TaskRow → TaskRow) (rows : List TaskRow) (r : TaskRow)
    → ((x : TaskRow) → (change x).id ≡ x.id)
    → ((x : TaskRow) → (change x).node_id ≡ x.node_id)
    → IsSerial rows
    → Memᴰ r rows × (r.id ≡ id)
    → is_active r.phase ≡ true
    → IsSerial (update (λ x. x.id == id) change rows)
active-IsSerial id change rows r keeps stays s (m, named) works =
    changed-IsSerial id change rows keeps s (λ n x k e now.
      let same = row_of id_of x r rows s.ids k m (e ∙ sym named) in
      let busy : is_active x.phase ≡ true = ap (λ (y : TaskRow). is_active y.phase) same ∙ works in
      let theirs : ((change x).node_id == n) ≡ true = ground arith in
      let here : (x.node_id == n) ≡ true = subst (λ v. (v == n) ≡ true) (stays x) theirs in
      ground arith)

planning-tasks :
    (kind : TaskKind) (id at : Text) (t : TaskTables)
    → (planning_started kind id at t).tasks ≡ t.tasks
planning-tasks operation_planning id at t = refl
planning-tasks _ id at t = refl

pub acknowledge_phase-Serial :
    (id at : Text) (t : TaskTables) (r : TaskRow) (phase : Phase)
    → r.phase ≡ phase
    → IsSerial t.tasks
    → Memᴰ r t.tasks × (r.id ≡ id)
    → Leaves Serial (acknowledge_phase id at t r phase)
unfolding is_active
acknowledge_phase-Serial id at t r running e s m = s
acknowledge_phase-Serial id at t r cancel_requested e s m = s
acknowledge_phase-Serial id at t r claimed e s m =
    let change =
      λ (x : TaskRow). record x { phase = running; acknowledged_at = some at; updated_at = at } in
    subst IsSerial (sym (planning-tasks r.kind id at _))
      (active-IsSerial id change t.tasks r (λ x. refl) (λ x. refl) s m (ap is_active e))
acknowledge_phase-Serial id at t r _ e s m = tt

inactive : (b : Bool) → (b && false) ≡ true → ⊥
inactive true h = cc
inactive false h = cc

pub cancel_phase-Serial :
    (id at : Text) (t : TaskTables) (r : TaskRow) (phase : Phase)
    → r.phase ≡ phase
    → IsSerial t.tasks
    → Memᴰ r t.tasks × (r.id ≡ id)
    → Leaves Serial (cancel_phase id at t r phase)
unfolding is_active terminal_phase
cancel_phase-Serial id at t r pending e s m =
    changed-IsSerial id _ t.tasks (λ x. refl) s
      (λ n x k g now. absurd (inactive (x.node_id == n) now))
cancel_phase-Serial id at t r claimed e s m =
    active-IsSerial id _ t.tasks r (λ x. refl) (λ x. refl) s m (ap is_active e)
cancel_phase-Serial id at t r running e s m =
    active-IsSerial id _ t.tasks r (λ x. refl) (λ x. refl) s m (ap is_active e)
cancel_phase-Serial id at t r cancel_requested e s m = s
cancel_phase-Serial id at t r canceled e s m = s
cancel_phase-Serial id at t r succeeded e s m = s
cancel_phase-Serial id at t r failed e s m = s
cancel_phase-Serial id at t r (other_phase v) e s m = tt
