-- ===== src/Storage/Runs/Sound.antt =====
-- The calls of app/internal/storage/sqlite/operation_checkpoint.go, operation_journal.go and
-- operation_runs.go that save a run's progress keep the invariant of its tables.
use setpoint_ci_mirror.Base.{
  suc, ◌≡◌, refl, sym, ap, ◌∙◌, subst, inl, inr, Option, none, some, List, [], ◌∷◌, ◌++◌, ok,
  IfOk-map, length,
}
use setpoint_ci_mirror.Operation.Journal.{JournalEntry, validate_journal_entry}
use setpoint_ci_mirror.OperationRun.{OperationRun, ExecutionSnapshot}
use setpoint_ci_mirror.Storage.Runs.Tables.{RunTables, read_run, update_runs}
use setpoint_ci_mirror.Storage.Runs.Journal.{Codec, CodecLaws, read_entry}
use setpoint_ci_mirror.Storage.Runs.Append.{Represents}
use setpoint_ci_mirror.Storage.Runs.Checkpoint.{
  Update, advanced, supplemented, save_checkpoint_tx, save_checkpoint, save_snapshot_tx,
  save_snapshot,
}
use setpoint_ci_mirror.Storage.Runs.Saved.{
  Save, Advance, Supplement, save_checkpoint_tx-Save, save_snapshot_tx-Supplement, reread-keeps,
}
use setpoint_ci_mirror.Storage.Runs.Invariant.{
  Level, RunSound, IsSound, entered_log, entered-IsSound, changed-IsSound,
}

Level-supplemented :
    (log : List JournalEntry) (u : Update) (merged : Option ExecutionSnapshot) (r : OperationRun)
    → Level log r
    → Level log (supplemented u merged r)
Level-supplemented [] u merged r h = h
Level-supplemented (e ∷ es) u merged r h = h

module _ (codec : Codec) (laws : CodecLaws codec) where
  -- The log of the run that a checkpoint advances
  pub Advance-logged :
      (u : Update) (e : JournalEntry) (t t' : RunTables) (run : OperationRun)
      → (s : RunSound codec t e.run_id) → validate_journal_entry e ≡ ok tt
      → e.run_id ≡ u.run_id
      → (a : Advance codec u e t t' run)
      → Represents codec e.run_id t'.journal (s.log ++ (e ∷ [])) × (e.sequence ≡ suc (length s.log))
  Advance-logged u e t t' run s v i a =
      let fresh : read_entry codec e.run_id e.sequence t.journal ≡ ok none =
        ap (λ id. read_entry codec id e.sequence t.journal) i ∙ a.fresh in
      let (rows', number) =
        entered_log codec laws e t.journal a.journal s.log s.rows v fresh a.appended in
      (
        subst (λ (v : RunTables). Represents codec e.run_id v.journal (s.log ++ (e ∷ [])))
            (sym a.written) rows',
        number,
      )

  Advance-IsSound :
      (u : Update) (e : JournalEntry) (t t' : RunTables)
      → IsSound codec t
      → (s : Save codec u e t t') → Advance codec u e t t' s.run
      → IsSound codec t'
  Advance-IsSound u e t t' sound s a =
      let fresh : read_entry codec e.run_id e.sequence t.journal ≡ ok none =
        ap (λ id. read_entry codec id e.sequence t.journal) s.of_run ∙ a.fresh in
      let known : read_run e.run_id t.runs ≡ some s.run =
        ap (λ id. read_run id t.runs) s.of_run ∙ s.known in
      let after =
        entered-IsSound codec laws (advanced u a.merged) (λ r. refl) t sound e a.journal s.run known
          s.entry_valid s.of_state s.of_checkpoint fresh a.appended in
      subst (IsSound codec)
        (ap
            (λ id. record {
              runs = update_runs id (advanced u a.merged) t.runs;
              journal = a.journal;
            })
            s.of_run
          ∙ sym a.written)
        after

  pub Save-IsSound :
      (u : Update) (e : JournalEntry) (t t' : RunTables)
      → IsSound codec t
      → Save codec u e t t'
      → IsSound codec t'
  Save-IsSound u e t t' sound s = elim s.effect [
    | inl again ↦ subst (IsSound codec) (sym again.kept) sound
    | inr a ↦ Advance-IsSound u e t t' sound s a
  ]

  -- A checkpoint keeps every run's journal a log whose newest entry is where the run stands.
  pub save_checkpoint-IsSound :
      (u : Update) (e : JournalEntry) (t : RunTables)
      → IsSound codec t
      → IsSound codec (save_checkpoint codec u e t).1
  unfolding save_checkpoint
  save_checkpoint-IsSound u e t sound =
      let tx = save_checkpoint_tx codec u e t in
      reread-keeps (λ v. IsSound codec v) u.run_id t tx sound
        (IfOk-map (λ p. Save codec u e t p.1) (λ p. IsSound codec p.1) tx
          (λ p s. Save-IsSound u e t p.1 sound s) (save_checkpoint_tx-Save codec u e t))

  Supplement-IsSound :
      (u : Update) (t t' : RunTables) → IsSound codec t → Supplement u t t' → IsSound codec t'
  Supplement-IsSound u t t' sound s = subst (IsSound codec) (sym s.written) (
      changed-IsSound codec laws (supplemented u s.merged) (λ r. refl) t sound u.run_id s.run
        s.known (Level-supplemented (sound u.run_id).log u s.merged s.run))

  pub save_snapshot-IsSound :
      (u : Update) (t : RunTables) → IsSound codec t → IsSound codec (save_snapshot u t).1
  unfolding save_snapshot
  save_snapshot-IsSound u t sound =
      let tx = save_snapshot_tx u t in
      reread-keeps (λ v. IsSound codec v) u.run_id t tx sound
        (IfOk-map (λ p. Supplement u t p.1) (λ p. IsSound codec p.1) tx
          (λ p s. Supplement-IsSound u t p.1 sound s) (save_snapshot_tx-Supplement u t))
