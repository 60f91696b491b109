-- ===== src/Storage/Runs/Invariant.antt =====
-- The invariant of the tables `operation_runs` and `operation_journal` of app/internal/storage/sqlite:
-- each run's journal is a log, and the run stands where its newest entry says. A new entry with the
-- update of its run keeps it, and so does an update that leaves the run where its log says.
use setpoint_ci_mirror.Base.{
  suc, ◌≡◌, refl, sym, ap, ◌∙◌, subst, false, inl, inr, Option, none, some, List, [], ◌∷◌, ◌++◌,
  Result, ok, err, ◌>>◌, IfOk, IfOk-ok, bind-IfOk, >>=-eq-ok, ◌==◌, length, get_elem?, Bool-cases,
  ◌-◌,
}
use setpoint_ci_mirror.Base.Text.{Text, text_eq, text_beq_iff}
use setpoint_ci_mirror.Operation.Journal.{JournalEntry, validate_journal_entry}
use setpoint_ci_mirror.OperationRun.{OperationRun}
use setpoint_ci_mirror.Storage.Runs.Tables.{
  JournalRow, RunTables, RunError, read_run, update_runs, read_run-update, read_run-update_other,
}
use setpoint_ci_mirror.Storage.Runs.Journal.{
  Codec, CodecLaws, to_row, rows_of, read_entry, append_entry, append_found, follows, newest,
  same_entry,
}
use setpoint_ci_mirror.Storage.Runs.Log.{append_log, acknowledge, fits, last_from}
use setpoint_ci_mirror.Storage.Runs.Append.{
  Represents, Refines, append_entry-Refines, read_entry-log, sequence_positive,
  rows_of-append_other, fits-next,
}

-- The run has the state and the checkpoint of its newest entry.
abbrev pub Level : List JournalEntry → OperationRun → Type 0
Level [] r = Unit
Level (e ∷ es) r = ((last_from e es).state ≡ r.state) × ((last_from e es).checkpoint ≡ r.checkpoint)

-- The journal of one run
pub record RunSound (codec : Codec) (t : RunTables) (run : Text) : Type 0 where
  pub log : List JournalEntry
  pub rows : Represents codec run t.journal log
  pub level : (r : OperationRun) → read_run run t.runs ≡ some r → Level log r

abbrev pub IsSound : Codec → RunTables → Type 0
IsSound codec t = (run : Text) → RunSound codec t run

last_from-append :
    (d : JournalEntry) (ds : List JournalEntry) (e : JournalEntry)
    → last_from d (ds ++ (e ∷ [])) ≡ e
last_from-append d [] e = refl
last_from-append d (f ∷ fs) e = last_from-append f fs e

Level-append :
    (log : List JournalEntry) (e : JournalEntry) (r : OperationRun)
    → e.state ≡ r.state
    → e.checkpoint ≡ r.checkpoint
    → Level (log ++ (e ∷ [])) r
Level-append [] e r s c = (s, c)
Level-append (d ∷ ds) e r s c =
    let last = last_from-append d ds e in
    (ap (λ (f : JournalEntry). f.state) last ∙ s, ap (λ (f : JournalEntry). f.checkpoint) last ∙ c)

others_found :
    (codec : Codec) (e : JournalEntry) (rows : List JournalRow) (run : Text)
    (o : Option JournalEntry)
    → (e.run_id == run) ≡ false
    → IfOk
        (λ (rs : List JournalRow). rows_of run rs ≡ rows_of run rows)
        (append_found codec e rows o)
others_found codec e rows run (some existing) apart = elim (Bool-cases (same_entry existing e)) [
  | inl yes' ↦ rw yes' refl
  | inr no' ↦ rw no' tt
]
others_found codec e rows run none apart =
    bind-IfOk (λ (rs : List JournalRow). rows_of run rs ≡ rows_of run rows)
      (follows (newest (rows_of e.run_id rows)) e) _
      (λ _ _. rows_of-append_other run rows (to_row codec e) apart)

others :
    (codec : Codec) (e : JournalEntry) (rows : List JournalRow) (run : Text)
    → (e.run_id == run) ≡ false
    → IfOk (λ (rs : List JournalRow). rows_of run rs ≡ rows_of run rows) (append_entry codec e rows)
unfolding append_entry
others codec e rows run apart =
    let P : List JournalRow → Type 0 = λ rs. rows_of run rs ≡ rows_of run rows in
    bind-IfOk P (read_entry codec e.run_id e.sequence rows) (append_found codec e rows)
      (λ o _. others_found codec e rows run o apart)

-- An append leaves the rows of the other runs alone.
append_entry-other :
    (codec : Codec) (e : JournalEntry) (rows rows' : List JournalRow) (run : Text)
    → append_entry codec e rows ≡ ok rows'
    → (e.run_id == run) ≡ false
    → rows_of run rows' ≡ rows_of run rows
append_entry-other codec e rows rows' run h apart =
    IfOk-ok (λ (rs : List JournalRow). rows_of run rs ≡ rows_of run rows)
      (append_entry codec e rows) (others codec e rows run apart) h

-- A new entry, as the log sees it: it is the next one.
new_entry :
    (e : JournalEntry) (log log' : List JournalEntry)
    → get_elem? log (e.sequence - 1) ≡ none
    → append_log e log ≡ ok log'
    → (log' ≡ log ++ (e ∷ [])) × (e.sequence ≡ suc (length log))
new_entry e log log' fresh h =
    let added : (fits log e >> ok (log ++ (e ∷ []))) ≡ ok log' =
      ap (acknowledge e log) (sym fresh) ∙ h in
    let (_, fit, same) = >>=-eq-ok (fits log e) (λ _. ok (log ++ (e ∷ []))) added in
    (cc, (fits-next e log fit).0)

-- A refined append that succeeds is a success of the log.
log_of_ok :
    (codec : Codec) (run : Text) (rows : List JournalRow) (r : Result RunError (List JournalRow))
    (l : Result RunError (List JournalEntry))
    → Refines codec run r l
    → r ≡ ok rows
    → (log : List JournalEntry) × (l ≡ ok log) × Represents codec run rows log
log_of_ok codec run rows (ok rows') (ok log) both h =
    let same : rows' ≡ rows = cc in (log, refl, subst (λ rs. Represents codec run rs log) same both)
log_of_ok codec run rows (ok rows') (err e) both h = absurd both
log_of_ok codec run rows (err e) l both h = absurd (cc)

module _ (codec : Codec) (laws : CodecLaws codec) where
  -- The log of a run after a new entry
  pub entered_log :
      (e : JournalEntry) (rows rows' : List JournalRow) (log : List JournalEntry)
      → Represents codec e.run_id rows log
      → validate_journal_entry e ≡ ok tt
      → read_entry codec e.run_id e.sequence rows ≡ ok none
      → append_entry codec e rows ≡ ok rows'
      → Represents codec e.run_id rows' (log ++ (e ∷ [])) × (e.sequence ≡ suc (length log))
  entered_log e rows rows' log rep v fresh appended =
      let (log', logged, after) =
        log_of_ok codec e.run_id rows' (append_entry codec e rows) (append_log e log)
          (append_entry-Refines codec laws e rows log rep v) appended in
      let read =
        read_entry-log codec laws e.run_id e.sequence rows log rep (sequence_positive e v) in
      let (longer, number) = new_entry e log log' (cc (read, fresh)) logged in
      (subst (λ l. Represents codec e.run_id rows' l) longer after, number)

  module _ (change : OperationRun → OperationRun)
      (keeps : (r : OperationRun) → (change r).id ≡ r.id) (t : RunTables)
      (sound : IsSound codec t) where
    -- An update that leaves the run where its log says
    pub changed-IsSound :
        (id : Text) (run : OperationRun)
        → read_run id t.runs ≡ some run
        → (Level (sound id).log run → Level (sound id).log (change run))
        → IsSound codec (record t { runs = update_runs id change t.runs })
    changed-IsSound id run known stays other = record {
      log = (sound other).log;
      rows = (sound other).rows;
      level = λ r h. elim (Bool-cases (other == id)) [
        | inl is ↦
            let same : other ≡ id = (text_beq_iff other id).0 is in
            let now : read_run other (update_runs id change t.runs) ≡ some (change run) =
              ap (λ i. read_run i (update_runs id change t.runs)) same
              ∙ read_run-update id change t.runs keeps known in
            let this : change run ≡ r = cc (now, h) in
            subst (λ r. Level (sound other).log r) this
              (subst (λ i. Level (sound i).log (change run)) (sym same)
                (stays ((sound id).level run known)))
        | inr apart ↦
            let unlike : other ≡ id → ⊥ = λ same. cc ((text_beq_iff other id).1 same, apart) in
            (sound other).level r
              (sym (read_run-update_other id change other t.runs keeps unlike) ∙ h)
      ];
    }

    -- A new entry, with the update of its run to the entry's state and checkpoint
    pub entered-IsSound :
        (e : JournalEntry) (journal : List JournalRow) (run : OperationRun)
        → read_run e.run_id t.runs ≡ some run
        → validate_journal_entry e ≡ ok tt
        → e.state ≡ (change run).state
        → e.checkpoint ≡ (change run).checkpoint
        → read_entry codec e.run_id e.sequence t.journal ≡ ok none
        → append_entry codec e t.journal ≡ ok journal
        → IsSound codec (record { runs = update_runs e.run_id change t.runs; journal = journal })
    entered-IsSound e journal run known v st c fresh appended other =
        elim (Bool-cases (e.run_id == other)) [
          | inl is ↦
              let (rows', _) =
                entered_log e t.journal journal (sound e.run_id).log (sound e.run_id).rows v fresh
                  appended in
              let now = read_run-update e.run_id change t.runs keeps known in
              subst
                (λ id.
                  RunSound codec
                    (record { runs = update_runs e.run_id change t.runs; journal = journal }) id)
                ((text_beq_iff e.run_id other).0 is)
                (record {
                  log = (sound e.run_id).log ++ (e ∷ []);
                  rows = rows';
                  level = λ r h.
                      let this : change run ≡ r = cc (now, h) in
                      subst (λ r. Level ((sound e.run_id).log ++ (e ∷ [])) r) this
                        (Level-append (sound e.run_id).log e (change run) st c);
                })
          | inr apart ↦
              let rows = append_entry-other codec e t.journal journal other appended apart in
              let unlike : other ≡ e.run_id → ⊥ =
                λ same. cc ((text_beq_iff e.run_id other).1 (sym same), apart) in
              record {
                log = (sound other).log;
                rows = (rows ∙ (sound other).rows.0, (sound other).rows.1);
                level = λ r h.
                    (sound other).level r
                      (sym (read_run-update_other e.run_id change other t.runs keeps unlike) ∙ h);
              }
        ]
