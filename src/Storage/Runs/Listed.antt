-- ===== src/Storage/Runs/Listed.antt =====
-- `Append` and `List` of app/internal/storage/sqlite/operation_journal.go: what was appended is listed.
use setpoint_ci_mirror.Base.{
  ◌≡◌, refl, ap, ◌∙◌, some, List, Result, ok, err, IfOk-ok, get_elem?, ◌-◌,
}
use setpoint_ci_mirror.Base.Text.{Text, text_eq}
use setpoint_ci_mirror.Operation.Journal.{JournalEntry}
use setpoint_ci_mirror.OperationRun.{OperationRun}
use setpoint_ci_mirror.Storage.Tx.{transact}
use setpoint_ci_mirror.Storage.Runs.Tables.{RunTables, RunError}
use setpoint_ci_mirror.Storage.Runs.Journal.{Codec, CodecLaws, list_journal}
use setpoint_ci_mirror.Storage.Runs.Append.{read_entry-log, sequence_positive, list_journal-log}
use setpoint_ci_mirror.Storage.Runs.Checkpoint.{
  Update, save_checkpoint_tx, save_checkpoint, append, as_update, reread,
}
use setpoint_ci_mirror.Storage.Runs.Saved.{Save, Save-known, save_checkpoint_tx-Save}
use setpoint_ci_mirror.Storage.Runs.Entries.{saved-Holds}
use setpoint_ci_mirror.Storage.Runs.Invariant.{IsSound}
use setpoint_ci_mirror.Storage.Runs.Sound.{Save-IsSound}

-- A call that returned a run has committed.
committed :
    (id : Text) (t : RunTables) (tx : Result RunError (OperationRun × RunTables)) {r : OperationRun}
    → (reread id (transact t tx)).0 ≡ ok r
    → (t' : RunTables) × ((run : OperationRun) × (tx ≡ ok (run, t')))
      × ((reread id (transact t tx)).1 ≡ t')
committed id t (ok (run, t')) h = (t', (run, refl), refl)
committed id t (err e) h = absurd (cc)

module _ (codec : Codec) (laws : CodecLaws codec) where
  -- What `Append` has acknowledged on sound tables, `List` shows: the entry, as it was given, stands at
  -- the place of its number.
  pub list_journal-append :
      (e : JournalEntry) (t : RunTables) {r : OperationRun}
      → IsSound codec t
      → (append codec e t).0 ≡ ok r
      → (log : List JournalEntry) × (list_journal codec e.run_id (append codec e t).1 ≡ ok log)
        × (get_elem? log (e.sequence - 1) ≡ some e)
  unfolding append save_checkpoint
  list_journal-append e t sound done =
      let u : Update = as_update e in
      let (t', (_, k), saved) = committed e.run_id t (save_checkpoint_tx codec u e t) done in
      let s : Save codec u e t t' =
        IfOk-ok (λ p. Save codec u e t p.1) (save_checkpoint_tx codec u e t)
          (save_checkpoint_tx-Save codec u e t) k in
      let after = Save-IsSound codec laws u e t t' sound s e.run_id in
      let (r', known) = Save-known codec u e t t' s in
      (
        after.log,
        ap (list_journal codec e.run_id) saved
            ∙ list_journal-log codec laws e.run_id t' after.log after.rows known,
        cc (
          saved-Holds codec laws u e t t' s,
          read_entry-log codec laws e.run_id e.sequence t'.journal after.log after.rows
              (sequence_positive e s.entry_valid),
        ),
      )
