-- ===== src/Storage/Runs/Log.antt =====
-- What the journal of one run promises, as a log: entries that are numbered from 1, each valid and
-- each a step of the run's life after the one before it; and how the rows of the table stand for it.
use setpoint_ci_mirror.Base.{
  ℕ, zero, suc, ◌≡◌, refl, ◌+◌, ◌-◌, Bool, true, ◌&&◌, ◌||◌, Option, none, some, List, [], ◌∷◌,
  ◌++◌, map, length, get_elem?, find, Result, ok, err, ◌>>◌, require, eqb, ltb, ◌==◌, if◌then◌else◌,
  arith, nat_eq,
}
use setpoint_ci_mirror.Base.Text.{Text, text_eq}
use setpoint_ci_mirror.Operation.State.{State, state_eq, can_transition}
use setpoint_ci_mirror.Operation.Journal.{JournalEntry, validate_journal_entry}
use setpoint_ci_mirror.Storage.Runs.Tables.{
  JournalRow, RunError, different_facts, must_start, must_advance, journal_state,
}
use setpoint_ci_mirror.Storage.Runs.Journal.{
  Codec, CodecLaws, to_row, from_row, newest, insert_row, sort_rows, read_rows, same_entry,
  max_sequence,
}

-- The log after an entry is appended: an entry that is there already is acknowledged when it is the
-- same, and a new one goes to the end, if its number is the next one and its state may come next.
abbrev pub last_from : JournalEntry → List JournalEntry → JournalEntry
last_from e [] = e
last_from e (f ∷ fs) = last_from f fs

abbrev pub fits : List JournalEntry → JournalEntry → Result RunError Unit
fits [] entry = require (eqb entry.sequence 1) (must_start entry.sequence)
fits (e ∷ es) entry = do
  require (ltb (length (e ∷ es)) max_sequence && eqb entry.sequence (length (e ∷ es) + 1))
      (must_advance (length (e ∷ es)) entry.sequence)
  require
      (entry.state == (last_from e es).state || can_transition (last_from e es).state entry.state)
      (journal_state (last_from e es).state entry.state)

abbrev pub acknowledge :
    JournalEntry → List JournalEntry → Option JournalEntry → Result RunError (List JournalEntry)
acknowledge entry log (some existing) =
    if same_entry existing entry then ok log else err (different_facts entry.sequence)
acknowledge entry log none = fits log entry >> ok (log ++ (entry ∷ []))

abbrev pub append_log : JournalEntry → List JournalEntry → Result RunError (List JournalEntry)
append_log entry log = acknowledge entry log (get_elem? log (entry.sequence - 1))

abbrev pub may_follow : Option State → State → Bool
may_follow none s = true
may_follow (some from) s = s == from || can_transition from s

-- The entries of a run from number `n + 1` on, after an entry with the state `from`.
abbrev pub IsLog : Text → ℕ → Option State → List JournalEntry → Type 0
IsLog run n from [] = Unit
IsLog run n from (e ∷ es) =
    (e.run_id ≡ run)
    × (e.sequence ≡ suc n)
    × (validate_journal_entry e ≡ ok tt)
    × (may_follow from e.state ≡ true)
    × IsLog run (suc n) (some e.state) es

abbrev pub opt_map : {A B : Type 0} → (A → B) → Option A → Option B
opt_map f none = none
opt_map f (some a) = some (f a)

pub last_from-sequence :
    (run : Text) (n : ℕ) (from : Option State) (e : JournalEntry) (es : List JournalEntry)
    → IsLog run n from (e ∷ es)
    → (last_from e es).sequence ≡ n + length (e ∷ es)
last_from-sequence run n from e [] h = omega (arith, h.1)
last_from-sequence run n from e (f ∷ fs) h =
    omega (arith, last_from-sequence run (suc n) (some e.state) f fs h.4)

module _ (codec : Codec) where
  pub newest-map :
      (run : Text) (n : ℕ) (from : Option State) (e : JournalEntry) (es : List JournalEntry)
      → IsLog run n from (e ∷ es)
      → newest (map (to_row codec) (e ∷ es)) ≡ some (to_row codec (last_from e es))
  unfolding newest
  newest-map run n from e [] h = refl
  newest-map run n from e (f ∷ fs) h =
      let later = newest-map run (suc n) (some e.state) f fs h.4 in
      let above = last_from-sequence run (suc n) (some e.state) f fs h.4 in
      ground (arith, h.1, later, above)

  pub find-map :
      (run : Text) (n i : ℕ) (from : Option State) (es : List JournalEntry)
      → IsLog run n from es
      → find (λ (r : JournalRow). eqb r.sequence (suc (n + i))) (map (to_row codec) es)
        ≡ opt_map (to_row codec) (get_elem? es i)
  find-map run n i from [] h = refl
  find-map run n zero from (e ∷ es) h = ground (arith, h.1)
  find-map run n (suc i) from (e ∷ es) h =
      ground (arith, h.1, find-map run (suc n) i (some e.state) es h.4)

  sorted :
      (run : Text) (n : ℕ) (from : Option State) (e : JournalEntry) (es : List JournalEntry)
      → IsLog run n from (e ∷ es)
      → insert_row (to_row codec e) (map (to_row codec) es) ≡ map (to_row codec) (e ∷ es)
  unfolding insert_row
  sorted run n from e [] h = refl
  sorted run n from e (f ∷ fs) h = ground (arith, h.1, h.4.1)

  pub sort_rows-map :
      (run : Text) (n : ℕ) (from : Option State) (es : List JournalEntry)
      → IsLog run n from es
      → sort_rows (map (to_row codec) es) ≡ map (to_row codec) es
  unfolding sort_rows
  sort_rows-map run n from [] h = refl
  sort_rows-map run n from (e ∷ es) h =
      rw (sort_rows-map run (suc n) (some e.state) es h.4) (sorted run n from e es h)

module _ (codec : Codec) (laws : CodecLaws codec) where
  pub from_row-to_row : (e : JournalEntry) → from_row codec (to_row codec e) ≡ ok e
  from_row-to_row e = rw (laws.time_read e.at) (rw (laws.evidence_read e.evidence) refl)

  pub read_rows-map :
      (run : Text) (n : ℕ) (from : Option State) (es : List JournalEntry)
      → IsLog run n from es
      → read_rows codec (map (to_row codec) es) ≡ ok es
  unfolding read_rows
  read_rows-map run n from [] h = refl
  read_rows-map run n from (e ∷ es) h =
      rw (from_row-to_row e) (rw h.2 (rw (read_rows-map run (suc n) (some e.state) es h.4) refl))

-- The state of the newest entry
abbrev pub tail_state : Option State → List JournalEntry → Option State
tail_state from [] = from
tail_state from (e ∷ es) = tail_state (some e.state) es

pub tail_state-last :
    (e : JournalEntry) (es : List JournalEntry)
    → tail_state (some e.state) es ≡ some (last_from e es).state
tail_state-last e [] = refl
tail_state-last e (f ∷ fs) = tail_state-last f fs

pub IsLog-append :
    (run : Text) (n : ℕ) (from : Option State) (es : List JournalEntry) (e : JournalEntry)
    → IsLog run n from es
    → e.run_id ≡ run
    → validate_journal_entry e ≡ ok tt
    → e.sequence ≡ suc (n + length es)
    → may_follow (tail_state from es) e.state ≡ true
    → IsLog run n from (es ++ (e ∷ []))
IsLog-append run n from [] e h r v s m = (r, omega (arith, s), v, m, tt)
IsLog-append run n from (d ∷ ds) e h r v s m =
    (h.0, h.1, h.2, h.3, IsLog-append run (suc n) (some d.state) ds e h.4 r v (omega (arith, s)) m)

pub get_elem-append :
    (es : List JournalEntry) (e : JournalEntry) → get_elem? (es ++ (e ∷ [])) (length es) ≡ some e
get_elem-append [] e = refl
get_elem-append (d ∷ ds) e = get_elem-append ds e
