-- ===== src/Storage/Runs/Append.antt =====
-- `appendOperationJournalEntryTx` and `List` (app/internal/storage/sqlite) implement the log: the rows
-- of a run stand for its entries, an append does to the rows what it does to the log, and `List`
-- reads the log back.
use setpoint_ci_mirror.Base.{
  ℕ, suc, ◌≡◌, refl, sym, ap, ◌∙◌, ◌+◌, ◌-◌, true, false, not, ◌&&◌, Option, none, some, List, [],
  ◌∷◌, ◌++◌, map, length, get_elem?, find, Result, ok, err, ◌>>=◌, ◌>>◌, require, require->>-ok,
  eqb, ltb, ◌==◌, if◌then◌else◌, Bool-cases, inl, inr, arith, nat_eq, subst, ◌||◌, require-ok,
  ==-refl,
}
use mathlib.Core.List.{append-nil}
use setpoint_ci_mirror.Base.Members.{keep-append}
use setpoint_ci_mirror.Base.Text.{Text, text_eq, is_blank}
use setpoint_ci_mirror.Operation.State.{state_eq, can_transition}
use setpoint_ci_mirror.Operation.Journal.{
  JournalEntry, validate_journal_entry, run_id_required, sequence_not_positive,
}
use setpoint_ci_mirror.OperationRun.{OperationRun}
use setpoint_ci_mirror.Storage.Runs.Tables.{
  JournalRow, RunError, RunTables, must_start, must_advance, journal_state, read_run,
}
use setpoint_ci_mirror.Storage.Runs.Journal.{
  Codec, CodecLaws, to_row, decoded, rows_of, newest, sort_rows, read_rows, read_entry, follows,
  same_entry, append_found, append_entry, list_journal, list_rows, max_sequence,
}
use setpoint_ci_mirror.Storage.Runs.Log.{
  IsLog, append_log, acknowledge, fits, last_from, last_from-sequence, newest-map, find-map,
  sort_rows-map, from_row-to_row, read_rows-map, IsLog-append, tail_state, tail_state-last,
  may_follow, opt_map,
}

-- The rows of a run stand for a log.
abbrev pub Represents : Codec → Text → List JournalRow → List JournalEntry → Type 0
Represents codec run rows log = (rows_of run rows ≡ map (to_row codec) log) × IsLog run 0 none log

-- The two appends agree: both succeed and the new rows stand for the new log, or both fail with the
-- same error.
abbrev pub Refines :
    Codec → Text → Result RunError (List JournalRow) → Result RunError (List JournalEntry) → Type 0
Refines codec run (ok rows) (ok log) = Represents codec run rows log
Refines codec run (err a) (err b) = a ≡ b
Refines codec run _ _ = ⊥

pub sequence_positive :
    (e : JournalEntry) → validate_journal_entry e ≡ ok tt → e.sequence ≡ suc (e.sequence - 1)
unfolding validate_journal_entry
sequence_positive e h =
    let second = (require->>-ok (not (is_blank e.run_id)) run_id_required _ h).1 in
    let positive : not (ltb e.sequence 1) ≡ true =
      (require->>-ok (not (ltb e.sequence 1)) sequence_not_positive _ second).0 in
    ground arith

pub rows_of-append :
    (run : Text) (rows : List JournalRow) (r : JournalRow)
    → (r.run_id == run) ≡ true
    → rows_of run (rows ++ (r ∷ [])) ≡ rows_of run rows ++ (r ∷ [])
rows_of-append run rows r h =
    keep-append (λ (s : JournalRow). s.run_id == run) rows (r ∷ [])
    ∙ ap (λ b. rows_of run rows ++ (if b then r ∷ [] else [])) h

pub rows_of-append_other :
    (run : Text) (rows : List JournalRow) (r : JournalRow)
    → (r.run_id == run) ≡ false
    → rows_of run (rows ++ (r ∷ [])) ≡ rows_of run rows
rows_of-append_other run rows r h =
    keep-append (λ (s : JournalRow). s.run_id == run) rows (r ∷ [])
    ∙ ap (λ b. rows_of run rows ++ (if b then r ∷ [] else [])) h
    ∙ append-nil (rows_of run rows)

map-append :
    (codec : Codec) (es : List JournalEntry) (e : JournalEntry)
    → map (to_row codec) (es ++ (e ∷ [])) ≡ map (to_row codec) es ++ (to_row codec e ∷ [])
map-append codec [] e = refl
map-append codec (d ∷ ds) e = ap (λ r. to_row codec d ∷ r) (map-append codec ds e)

module _ (codec : Codec) (laws : CodecLaws codec) where
  decoded-map : (o : Option JournalEntry) → decoded codec (opt_map (to_row codec) o) ≡ ok o
  decoded-map none = refl
  decoded-map (some e) =
      ap (λ (r : Result RunError JournalEntry). r >>= λ entry. ok (some entry))
        (from_row-to_row codec laws e)

  pub read_entry-log :
      (run : Text) (k : ℕ) (rows : List JournalRow) (log : List JournalEntry)
      → Represents codec run rows log
      → k ≡ suc (k - 1)
      → read_entry codec run k rows ≡ ok (get_elem? log (k - 1))
  read_entry-log run k rows log r p =
      ap (λ (rs : List JournalRow). decoded codec (find (λ (r : JournalRow). eqb r.sequence k) rs))
        r.0
      ∙ ap
          (λ j.
            decoded codec (find (λ (r : JournalRow). eqb r.sequence j) (map (to_row codec) log)))
          p
      ∙ ap (decoded codec) (
          ap (λ j. find (λ (r : JournalRow). eqb r.sequence (suc j)) (map (to_row codec) log))
            (omega arith)
          ∙ find-map codec run 0 (k - 1) none log r.1)
      ∙ decoded-map (get_elem? log (k - 1))

  follows-fits :
      (run : Text) (e : JournalEntry) (log : List JournalEntry)
      → IsLog run 0 none log
      → follows (newest (map (to_row codec) log)) e ≡ fits log e
  unfolding newest
  follows-fits run e [] h = refl
  follows-fits run e (d ∷ ds) h =
      let tail = newest-map codec run 0 none d ds h in
      let count : (last_from d ds).sequence ≡ length (d ∷ ds) =
        omega (arith, last_from-sequence run 0 none d ds h) in
      ap (λ o. follows o e) tail
      ∙ ap
          (λ n.
            require (ltb n max_sequence && eqb e.sequence (n + 1)) (must_advance n e.sequence)
            >> require
                (e.state == (last_from d ds).state || can_transition (last_from d ds).state e.state)
                (journal_state (last_from d ds).state e.state))
          count

pub fits-next :
    (e : JournalEntry) (log : List JournalEntry)
    → fits log e ≡ ok tt
    → (e.sequence ≡ suc (length log)) × (may_follow (tail_state none log) e.state ≡ true)
fits-next e [] h = (ground (arith, require-ok (eqb e.sequence 1) (must_start e.sequence) h), refl)
fits-next e (d ∷ ds) h =
    let n = length (d ∷ ds) in
    let last = (last_from d ds).state in
    let (counted, moved) =
      require->>-ok (ltb n max_sequence && eqb e.sequence (n + 1)) (must_advance n e.sequence) _
        h in
    let next : e.sequence ≡ suc n = ground arith in
    (
      next,
      ap (λ o. may_follow o e.state) (tail_state-last d ds)
          ∙ require-ok (e.state == last || can_transition last e.state) (journal_state last e.state)
              moved,
    )

module _ (codec : Codec) (laws : CodecLaws codec) where
  agree :
      (e : JournalEntry) (rows : List JournalRow) (log : List JournalEntry)
      (r : Result RunError Unit)
      → Represents codec e.run_id rows log
      → validate_journal_entry e ≡ ok tt
      → (r ≡ ok tt → fits log e ≡ ok tt)
      → Refines codec e.run_id (r >> ok (rows ++ (to_row codec e ∷ []))) (r >> ok (log ++ (e ∷ [])))
  agree e rows log (err x) rep v fit = refl
  agree e rows log (ok tt) rep v fit =
      let (number, follow) = fits-next e log (fit refl) in
      (
        rows_of-append e.run_id rows (to_row codec e) (==-refl e.run_id)
            ∙ ap (λ (rs : List JournalRow). rs ++ (to_row codec e ∷ [])) rep.0
            ∙ sym (map-append codec log e),
        IsLog-append e.run_id 0 none log e rep.1 refl v (omega (arith, number)) follow,
      )

  agree_known :
      (e : JournalEntry) (rows : List JournalRow) (log : List JournalEntry)
      (o : Option JournalEntry)
      → Represents codec e.run_id rows log
      → validate_journal_entry e ≡ ok tt
      → Refines codec e.run_id (append_found codec e rows o) (acknowledge e log o)
  agree_known e rows log (some existing) rep v = elim (Bool-cases (same_entry existing e)) [
    | inl yes' ↦ rw yes' rep
    | inr no' ↦ rw no' refl
  ]
  agree_known e rows log none rep v =
      let same =
        ap (λ (rs : List JournalRow). follows (newest rs) e) rep.0
        ∙ follows-fits codec laws e.run_id e log rep.1 in
      let both = agree e rows log (fits log e) rep v (λ h. h) in
      subst
        (λ r.
          Refines codec e.run_id (r >> ok (rows ++ (to_row codec e ∷ [])))
            (fits log e >> ok (log ++ (e ∷ []))))
        (sym same) both

  -- Where the rows of a run stand for a log, appending a valid entry to the table does what it does to
  -- the log: both succeed, and the new rows stand for the new log, or both fail with the same error.
  pub append_entry-Refines :
      (e : JournalEntry) (rows : List JournalRow) (log : List JournalEntry)
      → Represents codec e.run_id rows log
      → validate_journal_entry e ≡ ok tt
      → Refines codec e.run_id (append_entry codec e rows) (append_log e log)
  unfolding append_entry
  append_entry-Refines e rows log rep v =
      let read =
        read_entry-log codec laws e.run_id e.sequence rows log rep (sequence_positive e v) in
      subst (λ r. Refines codec e.run_id (r >>= append_found codec e rows) (append_log e log))
        (sym read) (agree_known e rows log (get_elem? log (e.sequence - 1)) rep v)

  -- `List` gives back the log that the rows of a run stand for.
  pub list_journal-log :
      (run : Text) (t : RunTables) (log : List JournalEntry) {r : OperationRun}
      → Represents codec run t.journal log
      → read_run run t.runs ≡ some r
      → list_journal codec run t ≡ ok log
  unfolding list_journal
  list_journal-log run t log rep known =
      let sorted =
        ap (λ rs. read_rows codec (sort_rows rs)) rep.0
        ∙ ap (read_rows codec) (sort_rows-map codec run 0 none log rep.1)
        ∙ read_rows-map codec laws run 0 none log rep.1 in
      ap (list_rows codec (rows_of run t.journal)) known ∙ sorted
