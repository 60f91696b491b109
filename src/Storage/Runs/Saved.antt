-- ===== src/Storage/Runs/Saved.antt =====
-- What a transaction of app/internal/storage/sqlite/operation_checkpoint.go or operation_runs.go did
-- when it committed.
use setpoint_ci_mirror.Base.{
  ◌≡◌, refl, ap, ◌∙◌, Bool, true, false, ◌&&◌, ◌||◌, ◌⊎◌, inl, inr, Option, none, some, List,
  Result, ok, err, require, IfOk, bind-IfOk, IfOk-map, ◌==◌, Bool-cases, arith,
}
use setpoint_ci_mirror.Base.Text.{Text, text_eq, text_beq_iff}
use setpoint_ci_mirror.Operation.State.{state_eq, state_beq_iff, valid_state, can_transition}
use setpoint_ci_mirror.Operation.Journal.{JournalEntry, validate_journal_entry}
use setpoint_ci_mirror.OperationRun.{OperationRun, ExecutionSnapshot}
use setpoint_ci_mirror.Storage.Tx.{transact}
use setpoint_ci_mirror.Storage.Runs.Tables.{
  JournalRow, RunTables, RunError, journal_mismatch, invalid_state, invalid_transition, run_moved,
  get_operation_run, found_run, read_run, update_runs, read_run-update,
}
use setpoint_ci_mirror.Storage.Runs.Facts.{merge_snapshot, validate_snapshot}
use setpoint_ci_mirror.Storage.Runs.Journal.{
  Codec, read_entry, same_entry, append_entry, checked, lift_entry,
}
use setpoint_ci_mirror.Storage.Runs.Checkpoint.{
  Update, matches, advanced, supplemented, save_found, save_checkpoint_tx, save_snapshot_tx, reread,
}

-- A checkpoint that was written.
pub record Advance (codec : Codec) (u : Update) (entry : JournalEntry) (t t' : RunTables)
    (run : OperationRun) : Type 0 where
  pub merged : Option ExecutionSnapshot
  pub journal : List JournalRow
  pub fresh : read_entry codec u.run_id entry.sequence t.journal ≡ ok none
  pub moved : (u.state == run.state || can_transition run.state u.state) ≡ true
  pub facts : merge_snapshot run.execution u.snapshot ≡ ok merged
  pub appended : append_entry codec entry t.journal ≡ ok journal
  pub written :
      t' ≡ record { runs = update_runs u.run_id (advanced u merged) t.runs; journal = journal }

-- A checkpoint whose entry the journal has already.
pub record Repeat (codec : Codec) (u : Update) (entry : JournalEntry) (t t' : RunTables)
    : Type 0 where
  pub existing : JournalEntry
  pub stored : read_entry codec u.run_id entry.sequence t.journal ≡ ok (some existing)
  pub same : same_entry existing entry ≡ true
  pub kept : t' ≡ t

-- A checkpoint that was written or, the journal having the same entry already, acknowledged.
pub record Save (codec : Codec) (u : Update) (entry : JournalEntry) (t t' : RunTables)
    : Type 0 where
  pub run : OperationRun
  pub known : read_run u.run_id t.runs ≡ some run
  pub entry_valid : validate_journal_entry entry ≡ ok tt
  pub of_run : entry.run_id ≡ u.run_id
  pub of_state : entry.state ≡ u.state
  pub of_checkpoint : entry.checkpoint ≡ u.checkpoint
  pub effect : Repeat codec u entry t t' ⊎ Advance codec u entry t t' run

-- Facts that were added.
pub record Supplement (u : Update) (t t' : RunTables) : Type 0 where
  pub run : OperationRun
  pub known : read_run u.run_id t.runs ≡ some run
  pub merged : Option ExecutionSnapshot
  pub facts : merge_snapshot run.execution u.snapshot ≡ ok merged
  pub written : t' ≡ record t { runs = update_runs u.run_id (supplemented u merged) t.runs }

found-read : (o : Option OperationRun) {run : OperationRun} → found_run o ≡ ok run → o ≡ some run
found-read none h = cc
found-read (some r) h = cc

require-true : {E : Type 0} (b : Bool) (e : E) {u : Unit {0}} → require b e ≡ ok u → b ≡ true
require-true true e h = refl
require-true false e h = cc

checked-valid : (r : Result _ Unit) {v : Unit} → lift_entry r ≡ ok v → r ≡ ok tt
checked-valid (ok tt) h = refl
checked-valid (err e) h = cc

module _ (codec : Codec) (u : Update) (entry : JournalEntry) (t : RunTables) where
  found_effect :
      (run : OperationRun) (o : Option JournalEntry)
      → read_entry codec u.run_id entry.sequence t.journal ≡ ok o
      → IfOk
          (λ (p : OperationRun × RunTables).
            Repeat codec u entry t p.1 ⊎ Advance codec u entry t p.1 run)
          (save_found codec u entry t run o)
  found_effect run (some existing) read = elim (Bool-cases (same_entry existing entry)) [
    | inl yes' ↦
        rw yes' (inl (record { existing = existing; stored = read; same = yes'; kept = refl }))
    | inr no' ↦ rw no' tt
  ]
  found_effect run none read =
      let P : OperationRun × RunTables → Type 0 =
        λ p. Repeat codec u entry t p.1 ⊎ Advance codec u entry t p.1 run in
      bind-IfOk P (require (valid_state u.state) (invalid_state u.state)) _ (λ _ v.
        bind-IfOk P
          (require (u.state == run.state || can_transition run.state u.state)
            (invalid_transition run.state u.state))
          _
          (λ _ m. bind-IfOk P (merge_snapshot run.execution u.snapshot) _ (λ merged f.
            bind-IfOk P (validate_snapshot merged u.at) _ (λ _ s.
              bind-IfOk P (append_entry codec entry t.journal) _ (λ journal a. inr (record {
                merged = merged;
                journal = journal;
                fresh = read;
                moved =
                    require-true (u.state == run.state || can_transition run.state u.state)
                      (invalid_transition run.state u.state) m;
                facts = f;
                appended = a;
                written = refl;
              }))))))

  matches-same :
      matches u entry ≡ true
      → (entry.run_id ≡ u.run_id) × (entry.state ≡ u.state) × (entry.checkpoint ≡ u.checkpoint)
  matches-same h = (
    (text_beq_iff entry.run_id u.run_id).0 (ground arith),
    (state_beq_iff entry.state u.state).0 (ground arith),
    (text_beq_iff entry.checkpoint u.checkpoint).0 (ground arith),
  )

  pub save_checkpoint_tx-Save :
      IfOk
        (λ (p : OperationRun × RunTables). Save codec u entry t p.1)
        (save_checkpoint_tx codec u entry t)
  unfolding save_checkpoint_tx
  save_checkpoint_tx-Save =
      let P : OperationRun × RunTables → Type 0 = λ p. Save codec u entry t p.1 in
      bind-IfOk P (require (matches u entry) journal_mismatch) _ (λ _ m.
        bind-IfOk P (checked entry) _ (λ _ c. bind-IfOk P (get_operation_run u.run_id t) _ (λ run k.
          bind-IfOk P (read_entry codec u.run_id entry.sequence t.journal) _ (λ o r.
            let (of_run, of_state, of_checkpoint) =
              matches-same (require-true (matches u entry) journal_mismatch m) in
            let effect = found_effect run o r in
            IfOk-map (λ p. Repeat codec u entry t p.1 ⊎ Advance codec u entry t p.1 run) P
              (save_found codec u entry t run o)
              (λ p e. record {
                run = run;
                known = found-read (read_run u.run_id t.runs) k;
                entry_valid = checked-valid (validate_journal_entry entry) c;
                of_run = of_run;
                of_state = of_state;
                of_checkpoint = of_checkpoint;
                effect = e;
              })
              effect))))

pub save_snapshot_tx-Supplement :
    (u : Update) (t : RunTables)
    → IfOk (λ (p : OperationRun × RunTables). Supplement u t p.1) (save_snapshot_tx u t)
unfolding save_snapshot_tx
save_snapshot_tx-Supplement u t =
    let P : OperationRun × RunTables → Type 0 = λ p. Supplement u t p.1 in
    bind-IfOk P (get_operation_run u.run_id t) _ (λ run k.
      bind-IfOk P (require (valid_state u.state) (invalid_state u.state)) _ (λ _ v.
        bind-IfOk P (require (u.state == run.state && u.checkpoint == run.checkpoint) run_moved) _
          (λ _ m. bind-IfOk P (merge_snapshot run.execution u.snapshot) _ (λ merged f.
            bind-IfOk P (validate_snapshot merged u.at) _ (λ _ s. record {
              run = run;
              known = found-read (read_run u.run_id t.runs) k;
              merged = merged;
              facts = f;
              written = refl;
            })))))

pub Save-known :
    (codec : Codec) (u : Update) (entry : JournalEntry) (t t' : RunTables)
    → Save codec u entry t t'
    → (r : OperationRun) × (read_run u.run_id t'.runs ≡ some r)
Save-known codec u entry t t' s = elim s.effect [
  | inl again ↦ (s.run, ap (λ (v : RunTables). read_run u.run_id v.runs) again.kept ∙ s.known)
  | inr a ↦ (
    advanced u a.merged s.run,
    ap (λ (v : RunTables). read_run u.run_id v.runs) a.written
        ∙ read_run-update u.run_id (advanced u a.merged) t.runs (λ r. refl) s.known,
  )
]

-- What holds of the tables before a call and of those that it can commit holds after the call.
pub reread-keeps :
    (P : RunTables → Type 0) (id : Text) (t : RunTables)
    (tx : Result RunError (OperationRun × RunTables))
    → P t
    → IfOk (λ (p : OperationRun × RunTables). P p.1) tx
    → P (reread id (transact t tx)).1
reread-keeps P id t (ok (r, t')) before after = after
reread-keeps P id t (err e) before after = before
