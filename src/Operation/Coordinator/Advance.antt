-- ===== src/Operation/Coordinator/Advance.antt =====
-- What `advance` and the other single calls do to the record of the calls.
use setpoint_ci_mirror.Base.{
  ℕ, ◌+◌, ◌≡◌, refl, sym, ap, ap₂, ◌∙◌, inl, inr, true, ◌||◌, Option, none, some, [], Result, ok,
  err, Bool-cases,
}
use setpoint_ci_mirror.Base.Text.{Text}
use setpoint_ci_mirror.Operation.State.{State, transition, can_transition, state_beq_iff}
use setpoint_ci_mirror.Operation.Journal.{JournalEntry}
use setpoint_ci_mirror.Operation.Coordinator.{
  Cause, Context, Cursor, World, Services, advance, next_cursor, note, appended_or_failed,
}
use setpoint_ci_mirror.Operation.Coordinator.Trace.{has, earned, is_failed, facts, IsAt}

module _ (start : Cursor) (run_id : Text) {E : Type 0} (s : Services E) where
  -- What `advance` from `c` to `to` leaves.
  abbrev pub Advanced : Cursor → State → World E → Result Cause Cursor × World E → Type 0
  Advanced c to w (ok c', w') =
      (c'.state ≡ to) × IsAt start run_id c' w' × (facts w'.calls ≡ facts w.calls)
  Advanced c to w (err e, w') =
      IsAt start run_id c w'
      × (facts w'.calls ≡ facts w.calls)
      × (can_transition c.state to ≡ true → has (is_failed to) w'.calls ≡ true)

  new_entry : ℕ → Cursor → State → Text → Text → JournalEntry
  new_entry at c to message checkpoint = record {
    run_id = run_id;
    sequence = c.sequence + 1;
    state = to;
    checkpoint = checkpoint;
    message = message;
    at = at;
    evidence = [];
  }

  entered :
      (c : Cursor) (to : State) (w : World E) (entry : JournalEntry) (failure : Option Cause)
      (e : E)
      → IsAt start run_id c w
      → earned to w.calls ≡ true
      → can_transition c.state to ≡ true
      → entry.state ≡ to
      → entry.sequence ≡ c.sequence + 1
      → entry.run_id ≡ run_id
      → Advanced c to w (next_cursor c to failure, note (appended_or_failed entry failure) e w)
  entered c to w entry none e h ready allowed is_to is_next is_run = (
    refl,
    record {
      safe = (
        (
          ap₂ can_transition (ap (λ (d : Cursor). d.state) h.place) is_to ∙ allowed,
          is_next ∙ ap (λ (d : Cursor). d.sequence + 1) (sym h.place),
          is_run,
          ap (λ t. earned t w.calls) is_to ∙ ready,
        ),
        h.safe,
      );
      place = λ i. record { state = is_to i; sequence = is_next i };
    },
    refl,
  )
  entered c to w entry (some f) e h ready allowed is_to is_next is_run = (
    record { safe = (tt, h.safe); place = h.place },
    refl,
    λ t. ap (λ b. b || has (is_failed to) w.calls) ((state_beq_iff entry.state to).1 is_to),
  )

  pub advance-Advanced :
      (ctx : Context) (c : Cursor) (to : State) (message checkpoint : Text) (w : World E)
      → IsAt start run_id c w
      → earned to w.calls ≡ true
      → Advanced c to w (advance s ctx c run_id to message checkpoint w)
  unfolding advance transition new_entry
  advance-Advanced ctx c to message checkpoint w h earned' =
      elim (Bool-cases (can_transition c.state to)) [
        | inl e ↦ rw e (
            let (at, e') = s.now w.env in
            let entry = new_entry at c to message checkpoint in
            let (failure, e'') = s.append ctx entry e' in
            entered c to w entry failure e'' h earned' e refl refl refl)
        | inr e ↦ rw e (h, refl, λ t. cc)
      ]
