-- ===== src/Storage/Runs/Repeated.antt =====
-- A checkpoint (app/internal/storage/sqlite/operation_checkpoint.go) that is sent again after it was
-- committed, as a caller does that has not seen the answer.
use setpoint_ci_mirror.Base.{
  ◌≡◌, refl, sym, ap, ◌∙◌, true, inl, inr, some, List, [], ◌∷◌, ok, IfOk-ok, IfOk-map, >>=-eq-ok,
  require->>-ok,
}
use setpoint_ci_mirror.Base.Text.{text_eq}
use setpoint_ci_mirror.Operation.Journal.{JournalEntry}
use setpoint_ci_mirror.OperationRun.{OperationRun}
use setpoint_ci_mirror.Storage.Runs.Tables.{RunTables, journal_mismatch, read_run}
use setpoint_ci_mirror.Storage.Runs.Journal.{Codec, CodecLaws, to_row, read_entry, checked}
use setpoint_ci_mirror.Storage.Runs.Checkpoint.{
  Update, matches, save_checkpoint_tx, save_checkpoint, save_snapshot_tx, save_snapshot, append,
  as_update,
}
use setpoint_ci_mirror.Storage.Runs.Saved.{
  Save, Save-known, Supplement, save_checkpoint_tx-Save, save_snapshot_tx-Supplement, reread-keeps,
}
use setpoint_ci_mirror.Storage.Runs.Entries.{
  same_entry_refl, kept_entry, Holds, in_journal, advanced_rows, saved-Holds,
}
use setpoint_ci_mirror.Storage.Runs.History.{
  RunCommand, checkpoint, entry, facts, serve_run, serve_runs, serve_runs-AllLater,
}

module _ (codec : Codec) where
  Save-Holds :
      (u : Update) (f : JournalEntry) (t t' : RunTables) (e : JournalEntry)
      → Holds codec e t
      → Save codec u f t t'
      → Holds codec e t'
  Save-Holds u f t t' e there s = elim s.effect [
    | inl again ↦ ap (in_journal codec e) again.kept ∙ there
    | inr a ↦
        ap (in_journal codec e) (a.written)
        ∙ ap (λ rows. read_entry codec e.run_id e.sequence rows) (advanced_rows codec u f t t' s a)
        ∙ kept_entry codec e.run_id e.sequence e t.journal (to_row codec f ∷ []) there
  ]

  save_checkpoint-Holds :
      (u : Update) (f : JournalEntry) (t : RunTables) (e : JournalEntry)
      → Holds codec e t
      → Holds codec e (save_checkpoint codec u f t).1
  unfolding save_checkpoint
  save_checkpoint-Holds u f t e there =
      let tx = save_checkpoint_tx codec u f t in
      reread-keeps (λ v. Holds codec e v) u.run_id t tx there
        (IfOk-map (λ p. Save codec u f t p.1) (λ p. Holds codec e p.1) tx
          (λ p s. Save-Holds u f t p.1 e there s) (save_checkpoint_tx-Save codec u f t))

  serve_run-Holds :
      (c : RunCommand) (t : RunTables) (e : JournalEntry)
      → Holds codec e t
      → Holds codec e (serve_run codec c t)
  unfolding append save_snapshot
  serve_run-Holds (checkpoint u f) t e there = save_checkpoint-Holds u f t e there
  serve_run-Holds (entry f) t e there = save_checkpoint-Holds (as_update f) f t e there
  serve_run-Holds (facts u) t e there =
      let tx = save_snapshot_tx u t in
      reread-keeps (λ v. Holds codec e v) u.run_id t tx there
        (IfOk-map (λ p. Supplement u t p.1) (λ p. Holds codec e p.1) tx
          (λ p s. ap (in_journal codec e) s.written ∙ there) (save_snapshot_tx-Supplement u t))

  -- No later call hides a saved entry.
  serve_runs-Holds :
      (cs : List RunCommand) (t : RunTables) (e : JournalEntry)
      → Holds codec e t
      → Holds codec e (serve_runs codec cs t)
  serve_runs-Holds [] t e there = there
  serve_runs-Holds (c ∷ cs) t e there =
      serve_runs-Holds cs (serve_run codec c t) e (serve_run-Holds c t e there)

  -- A checkpoint whose entry the journal holds is acknowledged.
  acknowledged :
      (u : Update) (e : JournalEntry) (t : RunTables) (r : OperationRun)
      → matches u e ≡ true
      → checked e ≡ ok tt
      → e.run_id ≡ u.run_id
      → Holds codec e t
      → read_run u.run_id t.runs ≡ some r
      → save_checkpoint codec u e t ≡ (ok r, t)
  unfolding save_checkpoint save_checkpoint_tx
  acknowledged u e t r fits valid of_run there known =
      let there' : read_entry codec u.run_id e.sequence t.journal ≡ ok (some e) =
        ap (λ id. read_entry codec id e.sequence t.journal) (sym of_run) ∙ there in
      rw fits (rw valid (rw known (rw there' (rw (same_entry_refl e) (rw known refl)))))

  -- A checkpoint that was committed, although its caller may not have seen that, can be sent again, whatever
  -- checkpoints, entries and facts have been saved in between: it is acknowledged with the run as it is now,
  -- and changes nothing.
  pub save_checkpoint-again :
      CodecLaws codec
      → (u : Update) (e : JournalEntry) (t t' : RunTables) (run : OperationRun)
        (cs : List RunCommand)
      → save_checkpoint_tx codec u e t ≡ ok (run, t')
      → (now : OperationRun) × (read_run u.run_id (serve_runs codec cs t').runs ≡ some now)
        × (save_checkpoint codec u e (serve_runs codec cs t') ≡ (ok now, serve_runs codec cs t'))
  unfolding save_checkpoint_tx
  save_checkpoint-again laws u e t t' run cs done =
      let s : Save codec u e t t' =
        IfOk-ok (λ p. Save codec u e t p.1) (save_checkpoint_tx codec u e t)
          (save_checkpoint_tx-Save codec u e t) done in
      let (r, there) = Save-known codec u e t t' s in
      let (now, known, _) = serve_runs-AllLater codec cs t' u.run_id r there in
      let (fits, first) = require->>-ok (matches u e) journal_mismatch _ done in
      let (_, valid, _) = >>=-eq-ok (checked e) _ first in
      (
        now,
        known,
        acknowledged u e (serve_runs codec cs t') now fits valid s.of_run
            (serve_runs-Holds cs t' e (saved-Holds codec laws u e t t' s)) known,
      )
