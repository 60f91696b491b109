-- ===== src/CheckRun/Phases.antt =====
-- The phase of a check run and its counts (app/internal/checkrun/checkrun.go), against a description
-- that names what all tasks have in common.
use setpoint_ci_mirror.Base.{
  ℕ, ◌≡◌, refl, sym, ap, ◌∙◌, ◌+◌, ◌≤◌, Bool, ◌&&◌, ◌||◌, List, [], ◌∷◌, length, all, eqb, ltb,
  if◌then◌else◌, arith,
}
use setpoint_ci_mirror.Task.Phase.{terminal_phase, is_pending, is_active}
use setpoint_ci_mirror.CheckRun.Aggregate.{
  RunTask, RunPhase, run_pending, run_running, run_completed, run_partial_failed, run_canceled,
  Progress, count_tasks, is_failed, decide, started, aggregate,
}
use setpoint_ci_mirror.CheckRun.Counts.{
  is_known, is_canceled, is_succeeded, common_phase, count, count-bound, all-count,
  count_tasks-Tallied, failed-count, counts_add, ends_add, AllKnown, all_known,
}

-- The counts of the tasks never exceed their number, and add up to it when each has one of the seven
-- phases.
pub aggregate-counts :
    (ts : List RunTask)
    → ((aggregate ts).tasks.waiting
          + (aggregate ts).tasks.active
          + (aggregate ts).tasks.completed
          + (aggregate ts).tasks.stopped
        ≤ length ts)
      × ((aggregate ts).tasks.total ≡ length ts)
      × (AllKnown ts
          → (aggregate ts).tasks.waiting
              + (aggregate ts).tasks.active
              + (aggregate ts).tasks.completed
              + (aggregate ts).tasks.stopped
            ≡ length ts)
unfolding aggregate
aggregate-counts [] = (omega arith, refl, λ h. refl)
aggregate-counts (t ∷ ts) =
    let us = t ∷ ts in
    let q = count_tasks us (started (length us)) in
    let (w, a, e, c, _, _, n) = count_tasks-Tallied us (started (length us)) in
    let sum : q.tasks.waiting + q.tasks.active + q.tasks.completed + q.tasks.stopped
        ≡ count is_known us =
      omega (arith, w, a, e, c, counts_add us) in
    (omega (arith, sum, count-bound is_known us), n, λ h. sum ∙ all_known us h)

-- The same choices, by numbers
abbrev decide_by : Bool → Bool → ℕ → ℕ → ℕ → Bool → RunPhase
decide_by over stopped a e c failure =
    if over
    then (if stopped
        then run_canceled
        else if ltb 0 c || failure
        then run_partial_failed
        else run_completed)
    else if ltb 0 a || ltb 0 e || ltb 0 c
    then run_running
    else run_pending

abbrev common_by : Bool → Bool → Bool → Bool → RunPhase
common_by w c s t =
    if w
    then run_pending
    else if c
    then run_canceled
    else if s
    then run_completed
    else if t
    then run_partial_failed
    else run_running

chosen :
    (n w a s f c : ℕ)
    → w + a + s + f + c ≡ n
    → 1 ≤ n
    → decide_by (eqb w 0 && eqb a 0) (eqb w 0 && (eqb a 0 && eqb (s + f) 0)) a (s + f) c (ltb 0 f)
      ≡ common_by (eqb w n) (eqb c n) (eqb s n) (eqb (s + f + c) n)
chosen n w a s f c h k = ground arith

decide-cong :
    (p : Progress) {over stopped : Bool} {a e c : ℕ} {failure other : Bool}
    → p.all_terminal ≡ over
    → p.all_canceled ≡ stopped
    → p.tasks.active ≡ a
    → p.tasks.completed ≡ e
    → p.tasks.stopped ≡ c
    → failure ≡ other
    → decide p failure ≡ decide_by over stopped a e c other
decide-cong p {over} {stopped} {a} {e} {c} {failure} {other} h0 h1 h2 h3 h4 h5 =
    ap (λ x. decide_by x p.all_canceled p.tasks.active p.tasks.completed p.tasks.stopped failure) h0
    ∙ ap (λ x. decide_by over x p.tasks.active p.tasks.completed p.tasks.stopped failure) h1
    ∙ ap (λ x. decide_by over stopped x p.tasks.completed p.tasks.stopped failure) h2
    ∙ ap (λ x. decide_by over stopped a x p.tasks.stopped failure) h3
    ∙ ap (λ x. decide_by over stopped a e x failure) h4
    ∙ ap (λ x. decide_by over stopped a e c x) h5

common-cong :
    (ts : List RunTask) {w c s t : Bool}
    → all (λ t. is_pending t.phase) ts ≡ w
    → all (λ t. is_canceled t.phase) ts ≡ c
    → all (λ t. is_succeeded t.phase) ts ≡ s
    → all (λ t. terminal_phase t.phase) ts ≡ t
    → common_phase ts ≡ common_by w c s t
common-cong ts {w} {c} {s} {t} h0 h1 h2 h3 =
    ap
      (λ x.
        common_by x (all (λ t. is_canceled t.phase) ts) (all (λ t. is_succeeded t.phase) ts)
          (all (λ t. terminal_phase t.phase) ts))
      h0
    ∙ ap
        (λ x.
          common_by w x (all (λ t. is_succeeded t.phase) ts) (all (λ t. terminal_phase t.phase) ts))
        h1
    ∙ ap (λ x. common_by w c x (all (λ t. terminal_phase t.phase) ts)) h2
    ∙ ap (common_by w c s) h3

-- The phase of a run whose tasks have known phases is the one that they have in common: pending when
-- all are pending, canceled when all are canceled, completed when all succeeded, partial_failed when
-- they have all ended otherwise, and running in every other case.
pub aggregate-common_phase :
    (ts : List RunTask) → AllKnown ts → (aggregate ts).phase ≡ common_phase ts
unfolding aggregate
aggregate-common_phase [] h = refl
aggregate-common_phase (t ∷ ts) h =
    let us = t ∷ ts in
    let q = count_tasks us (started (length us)) in
    let (w, a, e, c, term, canc, n) = count_tasks-Tallied us (started (length us)) in
    let known = all_known us h in
    let sum = counts_add us in
    let (ended, over) = ends_add us in
    let failure = failed-count us in
    let terminal : q.all_terminal ≡ (eqb (count is_pending us) 0 && eqb (count is_active us) 0) =
      term in
    let stopped : q.all_canceled ≡ (
        eqb (count is_pending us) 0
        && (eqb (count is_active us) 0 && eqb (count is_succeeded us + count is_failed us) 0)) =
      canc
      ∙ ap (λ k. eqb (count is_pending us) 0 && (eqb (count is_active us) 0 && eqb k 0)) ended in
    let active : q.tasks.active ≡ count is_active us = omega (arith, a) in
    let completed : q.tasks.completed ≡ count is_succeeded us + count is_failed us =
      omega (arith, e, ended) in
    let cut : q.tasks.stopped ≡ count is_canceled us = omega (arith, c) in
    let number : count is_pending us
          + count is_active us
          + count is_succeeded us
          + count is_failed us
          + count is_canceled us
        ≡ length us =
      omega (arith, sum, ended, known) in
    let last : count terminal_phase us
        ≡ count is_succeeded us + count is_failed us + count is_canceled us =
      omega (arith, over, ended) in
    decide-cong q terminal stopped active completed cut failure
    ∙ chosen (length us) (count is_pending us) (count is_active us) (count is_succeeded us)
        (count is_failed us) (count is_canceled us) number (omega arith)
    ∙ sym (
        common-cong us (all-count is_pending us) (all-count is_canceled us)
          (all-count is_succeeded us)
          (all-count terminal_phase us ∙ ap (λ k. eqb k (length us)) last))
