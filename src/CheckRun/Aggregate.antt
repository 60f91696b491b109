-- ===== src/CheckRun/Aggregate.antt =====
-- app/internal/checkrun/checkrun.go: the status of a check run, from those of its tasks. `Counts` is
-- kept in two records, the counts of tasks and those of check items. A time is a number, and 0 is the
-- zero time.
use setpoint_ci_mirror.Base.{
  ℕ, ◌+◌, Bool, true, false, ◌||◌, Option, none, some, List, [], ◌∷◌, length, ltb, if◌then◌else◌,
}
use setpoint_ci_mirror.Task.Phase.{
  Phase, pending, claimed, running, cancel_requested, canceled, succeeded, failed, other_phase,
}
use setpoint_ci_mirror.Task.Item.{
  CheckItem, ItemStatus, safe, unsafe, item_error, manual_review, not_applicable, other_status,
}

-- A task of the run, as far as the status and the offers of the run read it.
pub record RunTask : Type 0 where
  pub id : List ℕ
  pub node_id : List ℕ
  pub phase : Phase
  pub updated_at : ℕ
  pub result : Option (List CheckItem)

pub data RunPhase : Type 0 where
  run_pending run_running run_completed run_partial_failed run_canceled : RunPhase

pub record TaskCounts : Type 0 where
  pub total : ℕ
  pub waiting : ℕ
  pub active : ℕ
  pub completed : ℕ
  pub stopped : ℕ

pub record ItemCounts : Type 0 where
  pub safe_items : ℕ
  pub unsafe_items : ℕ
  pub review_items : ℕ
  pub error_items : ℕ
  pub inapplicable_items : ℕ

-- `Status`
pub record RunStatus : Type 0 where
  pub phase : RunPhase
  pub tasks : TaskCounts
  pub items : ItemCounts
  pub updated_at : ℕ

-- The variables of the loop
pub record Progress : Type 0 where
  pub all_terminal : Bool
  pub all_canceled : Bool
  pub latest : ℕ
  pub tasks : TaskCounts
  pub items : ItemCounts

-- `switch item.Status`
abbrev pub count_item : ItemStatus → ItemCounts → ItemCounts
count_item safe c = record c { safe_items = c.safe_items + 1 }
count_item unsafe c = record c { unsafe_items = c.unsafe_items + 1 }
count_item manual_review c = record c { review_items = c.review_items + 1 }
count_item item_error c = record c { error_items = c.error_items + 1 }
count_item not_applicable c = record c { inapplicable_items = c.inapplicable_items + 1 }
count_item (other_status t) c = c

abbrev pub count_items : List CheckItem → ItemCounts → ItemCounts
count_items [] c = c
count_items (i ∷ is) c = count_items is (count_item i.status c)

abbrev pub count_result : Option (List CheckItem) → ItemCounts → ItemCounts
count_result none c = c
count_result (some items) c = count_items items c

-- `switch current.Status.Phase`
abbrev pub count_phase : Phase → Progress → Progress
count_phase pending p = record p {
  tasks = record p.tasks { waiting = p.tasks.waiting + 1 };
  all_terminal = false;
  all_canceled = false;
}
count_phase claimed p = record p {
  tasks = record p.tasks { active = p.tasks.active + 1 };
  all_terminal = false;
  all_canceled = false;
}
count_phase running p = record p {
  tasks = record p.tasks { active = p.tasks.active + 1 };
  all_terminal = false;
  all_canceled = false;
}
count_phase cancel_requested p = record p {
  tasks = record p.tasks { active = p.tasks.active + 1 };
  all_terminal = false;
  all_canceled = false;
}
count_phase canceled p = record p { tasks = record p.tasks { stopped = p.tasks.stopped + 1 } }
count_phase succeeded p = record p {
  tasks = record p.tasks { completed = p.tasks.completed + 1 };
  all_canceled = false;
}
count_phase failed p = record p {
  tasks = record p.tasks { completed = p.tasks.completed + 1 };
  all_canceled = false;
}
count_phase (other_phase t) p = p

-- One round of the loop
abbrev pub count_task : RunTask → Progress → Progress
count_task t p =
    let q = count_phase t.phase p in
    record q {
      latest = if ltb p.latest t.updated_at then t.updated_at else p.latest;
      items = count_result t.result p.items;
    }

unfoldable pub count_tasks : List RunTask → Progress → Progress
count_tasks [] p = p
count_tasks (t ∷ ts) p = count_tasks ts (count_task t p)

abbrev pub is_failed : Phase → Bool
is_failed failed = true
is_failed _ = false

-- `hasFailedTask`
unfoldable pub has_failed_task : List RunTask → Bool
has_failed_task [] = false
has_failed_task (t ∷ ts) = is_failed t.phase || has_failed_task ts

-- The phase after the loop
abbrev pub decide : Progress → Bool → RunPhase
decide p failure =
    if p.all_terminal
    then (if p.all_canceled
        then run_canceled
        else if ltb 0 p.tasks.stopped || failure
        then run_partial_failed
        else run_completed)
    else if ltb 0 p.tasks.active || ltb 0 p.tasks.completed || ltb 0 p.tasks.stopped
    then run_running
    else run_pending

abbrev pub no_items : ItemCounts
no_items = record {
  safe_items = 0;
  unsafe_items = 0;
  review_items = 0;
  error_items = 0;
  inapplicable_items = 0;
}

abbrev pub started : ℕ → Progress
started n = record {
  all_terminal = true;
  all_canceled = true;
  latest = 0;
  tasks = record { total = n; waiting = 0; active = 0; completed = 0; stopped = 0 };
  items = no_items;
}

abbrev pub run_status : RunPhase → Progress → RunStatus
run_status phase p = record {
  phase = phase;
  tasks = p.tasks;
  items = p.items;
  updated_at = p.latest;
}

-- `Aggregate`
unfoldable pub aggregate : List RunTask → RunStatus
unfolding count_tasks has_failed_task
aggregate [] = run_status run_pending (started 0)
aggregate (t ∷ ts) =
    let p = count_tasks (t ∷ ts) (started (length (t ∷ ts))) in
    run_status (decide p (has_failed_task (t ∷ ts))) p
