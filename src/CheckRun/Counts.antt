-- ===== src/CheckRun/Counts.antt =====
-- The counts of a check run (app/internal/checkrun/checkrun.go): what the loop over the tasks leaves in
-- its variables.
use setpoint_ci_mirror.Base.{
  ℕ, suc, ◌≡◌, refl, ap, ◌∙◌, ◌+◌, ◌≤◌, Bool, true, false, ◌&&◌, List, [], ◌∷◌, length, all, All,
  eqb, ltb, if◌then◌else◌, arith,
}
use setpoint_ci_mirror.Task.Phase.{
  Phase, pending, claimed, running, cancel_requested, canceled, succeeded, failed, other_phase,
  terminal_phase, is_pending, is_active,
}
use setpoint_ci_mirror.CheckRun.Aggregate.{
  RunTask, RunPhase, run_pending, run_running, run_completed, run_partial_failed, run_canceled,
  Progress, count_task, count_phase, count_tasks, is_failed, has_failed_task,
}

abbrev pub is_known : Phase → Bool
is_known (other_phase t) = false
is_known _ = true

abbrev pub is_canceled : Phase → Bool
is_canceled canceled = true
is_canceled _ = false

abbrev pub is_succeeded : Phase → Bool
is_succeeded succeeded = true
is_succeeded _ = false

-- The phase of a run, by what its tasks have in common.
abbrev pub common_phase : List RunTask → RunPhase
common_phase ts =
    if all (λ t. is_pending t.phase) ts
    then run_pending
    else if all (λ t. is_canceled t.phase) ts
    then run_canceled
    else if all (λ t. is_succeeded t.phase) ts
    then run_completed
    else if all (λ t. terminal_phase t.phase) ts
    then run_partial_failed
    else run_running

abbrev pub count : (Phase → Bool) → List RunTask → ℕ
count p [] = 0
count p (t ∷ ts) = let rest = count p ts in if p t.phase then suc rest else rest

pub count-bound : (p : Phase → Bool) (ts : List RunTask) → count p ts ≤ length ts
count-bound p [] = omega arith
count-bound p (t ∷ ts) = ground (arith, count-bound p ts)

pub all-count :
    (p : Phase → Bool) (ts : List RunTask) → all (λ t. p t.phase) ts ≡ eqb (count p ts) (length ts)
all-count p [] = refl
all-count p (t ∷ ts) = ground (arith, all-count p ts, count-bound p ts)

abbrev pub is_ended : Phase → Bool
is_ended succeeded = true
is_ended failed = true
is_ended _ = false

-- What the loop leaves in its variables, when `w`, `a`, `e` and `c` of the tasks wait, are worked on,
-- have ended and were canceled.
abbrev Tallied : Progress → ℕ → ℕ → ℕ → ℕ → Progress → Type 0
Tallied p w a e c q =
    (q.tasks.waiting ≡ p.tasks.waiting + w)
    × (q.tasks.active ≡ p.tasks.active + a)
    × (q.tasks.completed ≡ p.tasks.completed + e)
    × (q.tasks.stopped ≡ p.tasks.stopped + c)
    × (q.all_terminal ≡ (p.all_terminal && (eqb w 0 && eqb a 0)))
    × (q.all_canceled ≡ (p.all_canceled && (eqb w 0 && (eqb a 0 && eqb e 0))))
    × (q.tasks.total ≡ p.tasks.total)

abbrev one_if : Bool → ℕ → ℕ
one_if b n = if b then suc n else n

-- One more round at the start
Tallied-step :
    (f : Phase) (p q : Progress) (w a e c : ℕ)
    → Tallied (count_phase f p) w a e c q
    → Tallied p
        (one_if (is_pending f) w)
        (one_if (is_active f) a)
        (one_if (is_ended f) e)
        (one_if (is_canceled f) c)
        q
unfolding is_pending is_active
Tallied-step pending p q w a e c (h0, h1, h2, h3, h4, h5, h6) =
    (omega (arith, h0), h1, h2, h3, ground arith, ground arith, h6)
Tallied-step claimed p q w a e c (h0, h1, h2, h3, h4, h5, h6) =
    (h0, omega (arith, h1), h2, h3, ground arith, ground arith, h6)
Tallied-step running p q w a e c (h0, h1, h2, h3, h4, h5, h6) =
    (h0, omega (arith, h1), h2, h3, ground arith, ground arith, h6)
Tallied-step cancel_requested p q w a e c (h0, h1, h2, h3, h4, h5, h6) =
    (h0, omega (arith, h1), h2, h3, ground arith, ground arith, h6)
Tallied-step canceled p q w a e c (h0, h1, h2, h3, h4, h5, h6) =
    (h0, h1, h2, omega (arith, h3), h4, h5, h6)
Tallied-step succeeded p q w a e c (h0, h1, h2, h3, h4, h5, h6) =
    (h0, h1, omega (arith, h2), h3, h4, ground arith, h6)
Tallied-step failed p q w a e c (h0, h1, h2, h3, h4, h5, h6) =
    (h0, h1, omega (arith, h2), h3, h4, ground arith, h6)
Tallied-step (other_phase x) p q w a e c h = h

pub count_tasks-Tallied :
    (ts : List RunTask) (p : Progress)
    → Tallied p
        (count is_pending ts)
        (count is_active ts)
        (count is_ended ts)
        (count is_canceled ts)
        (count_tasks ts p)
unfolding count_tasks
count_tasks-Tallied [] p =
    (omega arith, omega arith, omega arith, omega arith, ground arith, ground arith, refl)
count_tasks-Tallied (t ∷ ts) p =
    Tallied-step t.phase p (count_tasks ts (count_task t p)) (count is_pending ts)
      (count is_active ts) (count is_ended ts) (count is_canceled ts)
      (count_tasks-Tallied ts (count_task t p))

pub failed-count : (ts : List RunTask) → has_failed_task ts ≡ ltb 0 (count is_failed ts)
unfolding has_failed_task
failed-count [] = refl
failed-count (t ∷ ts) = ground (arith, failed-count ts)

-- No task is counted twice.
one_kind :
    (f : Phase) (w a e c : ℕ)
    → one_if (is_pending f) w
        + one_if (is_active f) a
        + one_if (is_ended f) e
        + one_if (is_canceled f) c
      ≡ one_if (is_known f) (w + a + e + c)
unfolding is_pending is_active
one_kind pending w a e c = omega arith
one_kind (other_phase x) w a e c = refl
one_kind _ w a e c = omega arith

pub counts_add :
    (ts : List RunTask)
    → count is_pending ts + count is_active ts + count is_ended ts + count is_canceled ts
      ≡ count is_known ts
counts_add [] = refl
counts_add (t ∷ ts) =
    one_kind t.phase (count is_pending ts) (count is_active ts) (count is_ended ts)
      (count is_canceled ts)
    ∙ ap (one_if (is_known t.phase)) (counts_add ts)

two_kinds :
    (f : Phase) (e c s x t : ℕ)
    → e ≡ s + x
    → t ≡ e + c
    → (one_if (is_ended f) e ≡ one_if (is_succeeded f) s + one_if (is_failed f) x)
      × (one_if (terminal_phase f) t ≡ one_if (is_ended f) e + one_if (is_canceled f) c)
unfolding terminal_phase
two_kinds canceled e c s x t h k = (h, omega (arith, k))
two_kinds succeeded e c s x t h k = (omega (arith, h), omega (arith, k))
two_kinds failed e c s x t h k = (omega (arith, h), omega (arith, k))
two_kinds pending e c s x t h k = (h, k)
two_kinds _ e c s x t h k = (h, k)

pub ends_add :
    (ts : List RunTask)
    → (count is_ended ts ≡ count is_succeeded ts + count is_failed ts)
      × (count terminal_phase ts ≡ count is_ended ts + count is_canceled ts)
ends_add [] = (refl, refl)
ends_add (t ∷ ts) =
    let (e, f) = ends_add ts in
    two_kinds t.phase (count is_ended ts) (count is_canceled ts) (count is_succeeded ts)
      (count is_failed ts) (count terminal_phase ts) e f

abbrev pub AllKnown : List RunTask → Type 0
AllKnown ts = All (λ t. is_known t.phase ≡ true) ts

pub all_known : (ts : List RunTask) → AllKnown ts → count is_known ts ≡ length ts
all_known [] h = refl
all_known (t ∷ ts) h = ground (arith, h.0, all_known ts h.1)
