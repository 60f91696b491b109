-- ===== src/Storage/Runs/Entries.antt =====
-- The entries of the journal of app/internal/storage/sqlite/operation_checkpoint.go: what a checkpoint
-- has saved is found under its number, and rows that are added later do not hide it.
use setpoint_ci_mirror.Base.{
  ℕ, ◌≡◌, refl, sym, ap, ◌∙◌, true, inl, inr, Option, none, some, List, [], ◌∷◌, ◌++◌, Result, ok,
  eqb_iff, err, ◌>>=◌, >>=-eq-ok, eqb, ◌==◌, ==-refl, Bool-cases, arith,
}
use setpoint_ci_mirror.Base.Deep.{list_eq}
use setpoint_ci_mirror.Base.Text.{Text, text_eq, text_beq_iff}
use setpoint_ci_mirror.Operation.State.{state_beq_iff}
use setpoint_ci_mirror.Operation.Equal.{evidence_ref_eq}
use setpoint_ci_mirror.Operation.Journal.{JournalEntry}
use setpoint_ci_mirror.Storage.Runs.Tables.{JournalRow, RunTables, RunError}
use setpoint_ci_mirror.Storage.Runs.Journal.{
  Codec, CodecLaws, to_row, from_row, rows_of, read_entry, same_entry, append_found, append_entry,
  follows, newest,
}
use setpoint_ci_mirror.Storage.Runs.Log.{from_row-to_row}
use setpoint_ci_mirror.Storage.Runs.Checkpoint.{Update}
use setpoint_ci_mirror.Storage.Runs.Saved.{Save, Advance}

same_entry-eq : (a b : JournalEntry) → same_entry a b ≡ true → a ≡ b
same_entry-eq a b h = ground (
  arith,
  text_beq_iff a.run_id b.run_id,
  eqb_iff a.sequence b.sequence,
  state_beq_iff a.state b.state,
  text_beq_iff a.checkpoint b.checkpoint,
  text_beq_iff a.message b.message,
  eqb_iff a.at b.at,
  (list_eq evidence_ref_eq).beq_iff a.evidence b.evidence,
)

pub same_entry_refl : (e : JournalEntry) → same_entry e e ≡ true
same_entry_refl e = ground (
  arith,
  text_beq_iff e.run_id e.run_id,
  state_beq_iff e.state e.state,
  text_beq_iff e.checkpoint e.checkpoint,
  text_beq_iff e.message e.message,
  (list_eq evidence_ref_eq).beq_iff e.evidence e.evidence,
)

module _ (codec : Codec) (id : Text) (n : ℕ) where
  -- Rows that are added later do not hide an entry.
  pub kept_entry :
      (e : JournalEntry) (rows more : List JournalRow)
      → read_entry codec id n rows ≡ ok (some e)
      → read_entry codec id n (rows ++ more) ≡ ok (some e)
  kept_entry e [] more h = absurd (cc)
  kept_entry e (r ∷ rows) more h = elim (Bool-cases (r.run_id == id)) [
    | inl mine ↦ elim (Bool-cases (eqb r.sequence n)) [
      | inl same ↦ rw (mine, same) (rw (mine, same) at h)
      | inr other ↦ rw (mine, other) (kept_entry e rows more (rw (mine, other) at h))
    ]
    | inr apart ↦ rw apart (kept_entry e rows more (rw apart at h))
  ]

  some_row : (r : Result RunError JournalEntry) → (r >>= λ e. ok (some e)) ≡ ok none → ⊥
  some_row (ok e) h = cc
  some_row (err e) h = cc

  -- The entry of a row that is added under a new number is found under it.
  new_entry_found :
      CodecLaws codec
      → (e : JournalEntry) (rows : List JournalRow) → (e.run_id == id) ≡ true
      → eqb e.sequence n ≡ true
      → read_entry codec id n rows ≡ ok none
      → read_entry codec id n (rows ++ (to_row codec e ∷ [])) ≡ ok (some e)
  new_entry_found laws e [] of_run of_number h =
      rw (of_run, of_number) (rw (from_row-to_row codec laws e) refl)
  new_entry_found laws e (r ∷ rows) of_run of_number h = elim (Bool-cases (r.run_id == id)) [
    | inl mine ↦ elim (Bool-cases (eqb r.sequence n)) [
      | inl same ↦ absurd (some_row (from_row codec r) (rw (mine, same) at h))
      | inr other ↦
          rw (mine, other) (new_entry_found laws e rows of_run of_number (rw (mine, other) at h))
    ]
    | inr apart ↦ rw apart (new_entry_found laws e rows of_run of_number (rw apart at h))
  ]

module _ (codec : Codec) where
  -- An append of an entry with a new number adds its row.
  added :
      (f : JournalEntry) (rows : List JournalRow) {rows' : List JournalRow}
      → read_entry codec f.run_id f.sequence rows ≡ ok none
      → append_entry codec f rows ≡ ok rows'
      → rows' ≡ rows ++ (to_row codec f ∷ [])
  unfolding append_entry
  added f rows fresh h =
      let found : append_found codec f rows none ≡ ok _ =
        ap (λ o. o >>= append_found codec f rows) (sym fresh) ∙ h in
      let (u, follows', made) =
        >>=-eq-ok (follows (newest (rows_of f.run_id rows)) f)
          (λ _. ok (rows ++ (to_row codec f ∷ []))) found in
      cc (made)

  abbrev pub Holds : JournalEntry → RunTables → Type 0
  Holds e t = read_entry codec e.run_id e.sequence t.journal ≡ ok (some e)

  abbrev pub in_journal : JournalEntry → RunTables → Result RunError (Option JournalEntry)
  in_journal e t = read_entry codec e.run_id e.sequence t.journal

  fresh_number :
      (u : Update) (f : JournalEntry) (t t' : RunTables) (s : Save codec u f t t')
      → Advance codec u f t t' s.run
      → read_entry codec f.run_id f.sequence t.journal ≡ ok none
  fresh_number u f t t' s a = ap (λ id. read_entry codec id f.sequence t.journal) s.of_run ∙ a.fresh

  pub advanced_rows :
      (u : Update) (f : JournalEntry) (t t' : RunTables) (s : Save codec u f t t')
      → (a : Advance codec u f t t' s.run) → a.journal ≡ t.journal ++ (to_row codec f ∷ [])
  advanced_rows u f t t' s a = added f t.journal (fresh_number u f t t' s a) a.appended

  -- What a checkpoint has saved is in the journal.
  pub saved-Holds :
      CodecLaws codec
      → (u : Update) (e : JournalEntry) (t t' : RunTables) → Save codec u e t t'
      → Holds e t'
  saved-Holds laws u e t t' s = elim s.effect [
    | inl again ↦
        ap (λ id. read_entry codec id e.sequence t'.journal) s.of_run
        ∙ ap (λ (v : RunTables). read_entry codec u.run_id e.sequence v.journal) again.kept
        ∙ again.stored
        ∙ ap (λ x. ok (some x)) (same_entry-eq again.existing e again.same)
    | inr a ↦
        ap (in_journal e) (a.written)
        ∙ ap (λ rows. read_entry codec e.run_id e.sequence rows) (advanced_rows u e t t' s a)
        ∙ new_entry_found codec e.run_id e.sequence laws e t.journal (==-refl e.run_id)
            (ground arith) (fresh_number u e t t' s a)
  ]
