-- ===== src/Storage/Runs/Settled.antt =====
-- What the last part of `CancelOperationRun` (app/internal/storage/sqlite/operation_runs.go) leaves of a
-- run and its journal.
use setpoint_ci_mirror.Base.{
  ℕ, suc, ◌≡◌, refl, sym, ap, ◌∙◌, subst, ◌+◌, ◌-◌, true, false, ◌||◌, ◌⊎◌, inl, inr, Option, none,
  some, List, [], ◌∷◌, length, get_elem?, Result, ok, err, IfOk, IfOk-map, IfOk-ok, bind-IfOk, ltb,
  if_holds, ==-refl, arith,
}
use setpoint_ci_mirror.Base.Text.{Text, codes, text_eq}
use setpoint_ci_mirror.Operation.State.{state_eq, can_transition, canceled_before_apply}
use setpoint_ci_mirror.Operation.Journal.{
  JournalEntry, JournalError, sequence_not_positive, validate_journal_entry,
}
use setpoint_ci_mirror.OperationRun.{OperationRun}
use setpoint_ci_mirror.Storage.Runs.Tables.{
  RunTables, JournalRow, RunError, bad_entry, read_run, update_runs, read_run-update,
}
use setpoint_ci_mirror.Storage.Runs.Journal.{
  Codec, CodecLaws, to_row, rows_of, newest, read_entry, append_entry, checked, lift_entry,
  max_sequence,
}
use setpoint_ci_mirror.Storage.Runs.Log.{last_from, last_from-sequence, newest-map}
use setpoint_ci_mirror.Storage.Runs.Append.{Represents, read_entry-log}
use setpoint_ci_mirror.Operation.State.Steps.{here, step}
use setpoint_ci_mirror.Storage.Runs.Facts.{or_no_facts}
use setpoint_ci_mirror.Storage.Runs.Kept.{KeepsFacts-refl}
use setpoint_ci_mirror.Storage.Runs.History.{Later, AllLater, AllLater-refl, updated}
use setpoint_ci_mirror.Storage.Runs.Invariant.{Level, IsSound, entered-IsSound, changed-IsSound}
use setpoint_ci_mirror.Storage.Runs.Cancel.{
  CancelTables, CancelTexts, CancelError, run_error, from_runs, is_containment, is_requested,
  next_sequence, enter, cancel_entry, contained, contain, ended, cancel_ended, finish_cancel,
}

-- A run that was canceled before anything was applied
pub record IsEnded (run r : OperationRun) : Type 0 where
  pub uncontained : is_containment run ≡ false
  pub allowed : can_transition run.state canceled_before_apply ≡ true
  pub state : r.state ≡ canceled_before_apply
  pub facts : r.execution ≡ run.execution

-- A run that stays for the rollback of what a participant has applied
pub record IsContained (run r : OperationRun) : Type 0 where
  pub applied : is_containment run ≡ true
  pub state : r.state ≡ run.state
  pub requested : is_requested r.recovery ≡ true
  pub facts : r.execution ≡ run.execution

get_elem-end : (log : List JournalEntry) → get_elem? log (length log) ≡ none
get_elem-end [] = refl
get_elem-end (e ∷ es) = get_elem-end es

from_runs-ok : {A : Type 0} (r : Result RunError A) {a : A} → from_runs r ≡ ok a → r ≡ ok a
from_runs-ok (ok b) h = cc
from_runs-ok (err e) h = cc

lifted-ok : (r : Result JournalError Unit) {u : Unit} → from_runs (lift_entry r) ≡ ok u → r ≡ ok tt
lifted-ok (ok tt) h = refl
lifted-ok (err e) h = cc

-- Sound tables, in which every old run is still there, later on
abbrev pub Safe : Codec → RunTables → RunTables → Type 0
Safe codec t t' = IsSound codec t' × AllLater t t'

module _ (texts : CancelTexts) (laws : CodecLaws texts.codec) (at : ℕ) (run : OperationRun) where
  abbrev Log : CancelTables → List JournalEntry → Type 0
  Log t log = Represents texts.codec run.id t.stored.journal log

  after-row :
      (tail : JournalRow) (n : ℕ)
      → tail.sequence ≡ n
      → IfOk (λ m. m ≡ suc n) (next_sequence texts at run (some tail))
  after-row tail n h =
      if_holds (λ (o : Result CancelError ℕ). IfOk (λ m. m ≡ suc n) o)
        (ltb tail.sequence max_sequence) (ok (tail.sequence + 1))
        (err (run_error (bad_entry sequence_not_positive))) (λ small. omega (arith, h)) (λ big. tt)

  -- The number of the next entry is one more than the log's length.
  next-length :
      (t : CancelTables) (log : List JournalEntry)
      → Log t log
      → IfOk
          (λ n. n ≡ suc (length log))
          (next_sequence texts at run (newest (rows_of run.id t.stored.journal)))
  unfolding newest
  next-length t [] rep =
      subst (λ rs. IfOk (λ n. n ≡ 1) (next_sequence texts at run (newest rs))) (sym rep.0) refl
  next-length t (d ∷ ds) rep =
      let count : (last_from d ds).sequence ≡ length (d ∷ ds) =
        omega (arith, last_from-sequence run.id 0 none d ds rep.1) in
      subst (λ o. IfOk (λ n. n ≡ suc (length (d ∷ ds))) (next_sequence texts at run o))
        (sym (ap newest rep.0 ∙ newest-map texts.codec run.id 0 none d ds rep.1))
        (after-row (to_row texts.codec (last_from d ds)) (length (d ∷ ds)) count)

  fresh_next :
      (t : CancelTables) (log : List JournalEntry) (n : ℕ)
      → Log t log
      → n ≡ suc (length log)
      → read_entry texts.codec run.id n t.stored.journal ≡ ok none
  fresh_next t log n rep h =
      let there =
        read_entry-log texts.codec laws run.id n t.stored.journal log rep (omega (arith, h)) in
      let number : n - 1 ≡ length log = omega (arith, h) in
      there ∙ ap (λ k. ok (get_elem? log k)) number ∙ ap ok (get_elem-end log)

  -- What the last part of a cancellation leaves of the runs
  abbrev pub Settled : (OperationRun → Type 0) → CancelTables → CancelTables → Type 0
  Settled P t t' =
      (t'.tasks ≡ t.tasks)
      × Safe texts.codec t.stored t'.stored
      × ((r : OperationRun) × (read_run run.id t'.stored.runs ≡ some r) × P r)

  module _ (t : CancelTables) (sound : IsSound texts.codec t.stored)
      (known : read_run run.id t.stored.runs ≡ some run) where
    enter-Settled :
        (P : OperationRun → Type 0) (e : JournalEntry) (change : OperationRun → OperationRun)
        → ((r : OperationRun) → (change r).id ≡ r.id)
        → e.run_id ≡ run.id
        → e.state ≡ (change run).state
        → e.checkpoint ≡ (change run).checkpoint
        → e.sequence ≡ suc (length (sound run.id).log)
        → P (change run)
        → Later run (change run)
        → IfOk (Settled P t) (enter texts at run e change t)
    unfolding enter
    enter-Settled P e change keeps i st c n good later =
        bind-IfOk (Settled P t) (from_runs (checked e)) _ (λ u valid.
          bind-IfOk (Settled P t) (from_runs (append_entry texts.codec e t.stored.journal)) _
            (λ journal appended.
              let free : read_entry texts.codec e.run_id e.sequence t.stored.journal ≡ ok none =
                ap (λ id. read_entry texts.codec id e.sequence t.stored.journal) i
                ∙ fresh_next t (sound run.id).log e.sequence (sound run.id).rows n in
              let after =
                entered-IsSound texts.codec laws change keeps t.stored sound e journal run
                  (ap (λ id. read_run id t.stored.runs) i ∙ known)
                  (lifted-ok (validate_journal_entry e) valid) st c free
                  (from_runs-ok (append_entry texts.codec e t.stored.journal) appended) in
              (
                refl,
                (
                  subst
                      (λ id.
                        IsSound texts.codec (record {
                          runs = update_runs id change t.stored.runs;
                          journal = journal;
                        }))
                      i after,
                  updated run.id change t.stored
                      (record { runs = update_runs run.id change t.stored.runs; journal = journal })
                      run keeps known refl later,
                ),
                (change run, read_run-update run.id change t.stored.runs keeps known, good),
              )))

    contain-Settled :
        (checkpoint : Text)
        → is_containment run ≡ true
        → IfOk
            (Settled (IsContained run) t)
            (contain texts at run checkpoint (newest (rows_of run.id t.stored.journal)) t)
    contain-Settled checkpoint held =
        let Q : Result CancelError CancelTables → Type 0 =
          λ o. IfOk (Settled (IsContained run) t) o in
        let tail = newest (rows_of run.id t.stored.journal) in
        let rest = contain texts at run checkpoint tail t in
        if_holds Q (is_requested run.recovery) (ok t) _
          (λ asked. (
            refl,
            (sound, AllLater-refl t.stored),
            (run, known, record { applied = held; state = refl; requested = asked; facts = refl }),
          ))
          (λ new.
            bind-IfOk (Settled (IsContained run) t) (next_sequence texts at run tail) _ (λ n number.
              enter-Settled (IsContained run)
                (cancel_entry texts at run n run.state checkpoint (
                  codes
                    "operation cancellation requested after a durable participant Apply; containment retained"))
                (contained texts at run checkpoint) (λ r. refl) refl refl refl
                (IfOk-ok (λ n. n ≡ suc (length (sound run.id).log))
                  (next_sequence texts at run tail)
                  (next-length t (sound run.id).log (sound run.id).rows) number)
                (record {
                  applied = held;
                  state = refl;
                  requested = ==-refl (codes "cancellation_requested");
                  facts = refl;
                })
                (record { reached = here; kept = KeepsFacts-refl (or_no_facts run.execution) })))

    -- A run without rows has an empty log.
    unlogged :
        (log : List JournalEntry) (r : OperationRun)
        → Log t log
        → newest (rows_of run.id t.stored.journal) ≡ none
        → Level log r
    unfolding newest
    unlogged [] r rep h = tt
    unlogged (d ∷ ds) r rep h =
        absurd (cc (h, ap newest rep.0 ∙ newest-map texts.codec run.id 0 none d ds rep.1))

    ended-IsEnded :
        is_containment run ≡ false
        → can_transition run.state canceled_before_apply ≡ true
        → IsEnded run (ended texts at run run)
    ended-IsEnded free may = record {
      uncontained = free;
      allowed = may;
      state = refl;
      facts = refl;
    }

    ended-Later :
        can_transition run.state canceled_before_apply ≡ true → Later run (ended texts at run run)
    ended-Later may = record {
      reached = step here may;
      kept = KeepsFacts-refl (or_no_facts run.execution);
    }

    cancel_ended-Settled :
        (tail : Option JournalRow)
        → newest (rows_of run.id t.stored.journal) ≡ tail
        → is_containment run ≡ false
        → can_transition run.state canceled_before_apply ≡ true
        → IfOk (Settled (IsEnded run) t) (cancel_ended texts at run tail t)
    cancel_ended-Settled none h free may = (
      refl,
      (
        changed-IsSound texts.codec laws (ended texts at run) (λ r. refl) t.stored sound run.id run
            known (λ l. unlogged (sound run.id).log (ended texts at run run) (sound run.id).rows h),
        updated run.id (ended texts at run) t.stored
            (record t.stored { runs = update_runs run.id (ended texts at run) t.stored.runs }) run
            (λ r. refl) known refl (ended-Later may),
      ),
      (
        ended texts at run run,
        read_run-update run.id (ended texts at run) t.stored.runs (λ r. refl) known,
        ended-IsEnded free may,
      ),
    )
    cancel_ended-Settled (some tail) h free may =
        bind-IfOk (Settled (IsEnded run) t) (next_sequence texts at run (some tail)) _ (λ n number.
          enter-Settled (IsEnded run)
            (cancel_entry texts at run n canceled_before_apply (codes "canceled_before_apply")
              (codes "operation canceled before apply"))
            (ended texts at run) (λ r. refl) refl refl refl
            (IfOk-ok (λ n. n ≡ suc (length (sound run.id).log))
              (next_sequence texts at run (some tail))
              (subst
                (λ o.
                  IfOk (λ n. n ≡ suc (length (sound run.id).log)) (next_sequence texts at run o))
                h (next-length t (sound run.id).log (sound run.id).rows))
              number)
            (ended-IsEnded free may) (ended-Later may))

    pub finish-Settled :
        (checkpoint : Text)
        → (is_containment run || can_transition run.state canceled_before_apply) ≡ true
        → IfOk
            (Settled (λ r. IsEnded run r ⊎ IsContained run r) t)
            (finish_cancel texts at run checkpoint (newest (rows_of run.id t.stored.journal)) t)
    finish-Settled checkpoint may =
        let P : OperationRun → Type 0 = λ r. IsEnded run r ⊎ IsContained run r in
        let tail = newest (rows_of run.id t.stored.journal) in
        if_holds (λ (o : Result CancelError CancelTables). IfOk (Settled P t) o)
          (is_containment run) (contain texts at run checkpoint tail t)
          (cancel_ended texts at run tail t)
          (λ held.
            IfOk-map (Settled (IsContained run) t) (Settled P t)
              (contain texts at run checkpoint tail t)
              (λ t' s. (s.0, s.1, (s.2.0, s.2.1, inr s.2.2))) (contain-Settled checkpoint held))
          (λ free.
            IfOk-map (Settled (IsEnded run) t) (Settled P t) (cancel_ended texts at run tail t)
              (λ t' s. (s.0, s.1, (s.2.0, s.2.1, inl s.2.2)))
              (cancel_ended-Settled tail refl free (ground arith)))
