-- ===== src/Storage/Runs/History.antt =====
-- Any series of the calls that save a run's progress (app/internal/storage/sqlite).
use setpoint_ci_mirror.Base.{
  ◌≡◌, refl, sym, ap, ◌∙◌, subst, true, ◌||◌, inl, inr, some, List, [], ◌∷◌, IfOk-map, ◌==◌,
  Bool-cases, arith,
}
use setpoint_ci_mirror.Base.Text.{Text, text_eq, text_beq_iff}
use setpoint_ci_mirror.Operation.State.{State, state_eq, state_beq_iff, can_transition, terminal}
use setpoint_ci_mirror.Operation.State.Steps.{Reach, here, step, terminal-absorbs}
use setpoint_ci_mirror.Operation.Journal.{JournalEntry}
use setpoint_ci_mirror.OperationRun.{OperationRun}
use setpoint_ci_mirror.Storage.Runs.Tables.{
  RunTables, read_run, update_runs, read_run-update, read_run-update_other,
}
use setpoint_ci_mirror.Storage.Runs.Facts.{or_no_facts}
use setpoint_ci_mirror.Storage.Runs.Journal.{Codec, CodecLaws}
use setpoint_ci_mirror.Storage.Runs.Kept.{KeepsFacts, KeepsFacts-refl, KeepsFacts-trans}
use setpoint_ci_mirror.Storage.Runs.Durable.{merge_snapshot-keeps}
use setpoint_ci_mirror.Storage.Runs.Checkpoint.{
  Update, advanced, supplemented, save_checkpoint_tx, save_checkpoint, save_snapshot_tx,
  save_snapshot, append, as_update,
}
use setpoint_ci_mirror.Storage.Runs.Saved.{
  Save, Supplement, save_checkpoint_tx-Save, save_snapshot_tx-Supplement, reread-keeps,
}
use setpoint_ci_mirror.Storage.Runs.Invariant.{IsSound}
use setpoint_ci_mirror.Storage.Runs.Sound.{save_checkpoint-IsSound, save_snapshot-IsSound}

pub data RunCommand : Type 0 where
  checkpoint : Update → JournalEntry → RunCommand
  facts : Update → RunCommand
  entry : JournalEntry → RunCommand

abbrev pub serve_run : Codec → RunCommand → RunTables → RunTables
serve_run codec (checkpoint u e) t = (save_checkpoint codec u e t).1
serve_run codec (facts u) t = (save_snapshot u t).1
serve_run codec (entry e) t = (append codec e t).1

abbrev pub serve_runs : Codec → List RunCommand → RunTables → RunTables
serve_runs codec [] t = t
serve_runs codec (c ∷ cs) t = serve_runs codec cs (serve_run codec c t)

-- A run later on: its state was reached by allowed transitions, and its facts are still there.
pub record Later (old new : OperationRun) : Type 0 where
  pub reached : Reach old.state new.state
  pub kept : KeepsFacts (or_no_facts old.execution) (or_no_facts new.execution)

Reach-trans : {s t u : State} → Reach s t → Reach t u → Reach s u
Reach-trans r here = r
Reach-trans r (step q h) = step (Reach-trans r q) h

pub Later-refl : (r : OperationRun) → Later r r
Later-refl r = record { reached = here; kept = KeepsFacts-refl (or_no_facts r.execution) }

Later-trans : (a b c : OperationRun) → Later a b → Later b c → Later a c
Later-trans a b c h k = record {
  reached = Reach-trans h.reached k.reached;
  kept =
      KeepsFacts-trans (or_no_facts a.execution) (or_no_facts b.execution) (or_no_facts c.execution)
        h.kept k.kept;
}

-- Every run of the old tables is in the new ones, later on.
abbrev pub AllLater : RunTables → RunTables → Type 0
AllLater t t' =
    (id : Text) (r : OperationRun)
    → read_run id t.runs ≡ some r
    → (r' : OperationRun) × (read_run id t'.runs ≡ some r') × Later r r'

moved-Reach : (s u : State) → ((u == s) || can_transition s u) ≡ true → Reach s u
moved-Reach s u h = elim (Bool-cases (u == s)) [
  | inl same ↦ subst (λ v. Reach s v) (sym ((state_beq_iff u s).0 same)) here
  | inr other ↦ step here (ground arith)
]

-- An update of the run that was read, whose new row is later than the old one.
pub updated :
    (id : Text) (change : OperationRun → OperationRun) (t t' : RunTables) (run : OperationRun)
    → ((r : OperationRun) → (change r).id ≡ r.id)
    → read_run id t.runs ≡ some run
    → t'.runs ≡ update_runs id change t.runs
    → Later run (change run)
    → AllLater t t'
updated id change t t' run keeps known written later other r h = elim (Bool-cases (other == id)) [
  | inl is ↦
      let same : other ≡ id = (text_beq_iff other id).0 is in
      let here' : run ≡ r = cc (known, h, ap (λ i. read_run i t.runs) same) in
      (
        change run,
        ap (λ i. read_run i t'.runs) same
            ∙ ap (read_run id) written
            ∙ read_run-update id change t.runs keeps known,
        subst (λ r. Later r (change run)) here' later,
      )
  | inr apart ↦
      let unlike : other ≡ id → ⊥ = λ same. cc ((text_beq_iff other id).1 same, apart) in
      (
        r,
        ap (read_run other) written ∙ read_run-update_other id change other t.runs keeps unlike ∙ h,
        Later-refl r,
      )
]

Save-AllLater :
    (codec : Codec) (u : Update) (e : JournalEntry) (t t' : RunTables)
    → Save codec u e t t'
    → AllLater t t'
Save-AllLater codec u e t t' s = elim s.effect [
  | inl again ↦
      λ id r h. (r, ap (λ (v : RunTables). read_run id v.runs) again.kept ∙ h, Later-refl r)
  | inr a ↦
      updated u.run_id (advanced u a.merged) t t' s.run (λ r. refl) s.known
        (ap (λ (v : RunTables). v.runs) a.written)
        (record {
          reached = moved-Reach s.run.state u.state a.moved;
          kept = merge_snapshot-keeps s.run.execution u.snapshot a.facts;
        })
]

Supplement-AllLater : (u : Update) (t t' : RunTables) → Supplement u t t' → AllLater t t'
Supplement-AllLater u t t' s =
    updated u.run_id (supplemented u s.merged) t t' s.run (λ r. refl) s.known
      (ap (λ (v : RunTables). v.runs) s.written)
      (record { reached = here; kept = merge_snapshot-keeps s.run.execution u.snapshot s.facts })

pub AllLater-refl : (t : RunTables) → AllLater t t
AllLater-refl t id r h = (r, h, Later-refl r)

pub AllLater-trans : (a b c : RunTables) → AllLater a b → AllLater b c → AllLater a c
AllLater-trans a b c h k id r known =
    let (s, there, first) = h id r known in
    let (u, last, rest) = k id s there in (u, last, Later-trans r s u first rest)

save_checkpoint-AllLater :
    (codec : Codec) (u : Update) (e : JournalEntry) (t : RunTables)
    → AllLater t (save_checkpoint codec u e t).1
unfolding save_checkpoint
save_checkpoint-AllLater codec u e t =
    let tx = save_checkpoint_tx codec u e t in
    reread-keeps (λ v. AllLater t v) u.run_id t tx (AllLater-refl t)
      (IfOk-map (λ p. Save codec u e t p.1) (λ p. AllLater t p.1) tx
        (λ p s. Save-AllLater codec u e t p.1 s) (save_checkpoint_tx-Save codec u e t))

serve_run-AllLater :
    (codec : Codec) (c : RunCommand) (t : RunTables) → AllLater t (serve_run codec c t)
unfolding append save_snapshot
serve_run-AllLater codec (checkpoint u e) t = save_checkpoint-AllLater codec u e t
serve_run-AllLater codec (entry e) t = save_checkpoint-AllLater codec (as_update e) e t
serve_run-AllLater codec (facts u) t =
    let tx = save_snapshot_tx u t in
    reread-keeps (λ v. AllLater t v) u.run_id t tx (AllLater-refl t)
      (IfOk-map (λ p. Supplement u t p.1) (λ p. AllLater t p.1) tx
        (λ p s. Supplement-AllLater u t p.1 s) (save_snapshot_tx-Supplement u t))

-- Whatever checkpoints, entries and facts are saved, and whichever of them are refused: every run is
-- still there, its state was reached from the old one by allowed transitions, and every execution fact
-- and stage that it had is there unchanged.
pub serve_runs-AllLater :
    (codec : Codec) (cs : List RunCommand) (t : RunTables) → AllLater t (serve_runs codec cs t)
serve_runs-AllLater codec [] t = AllLater-refl t
serve_runs-AllLater codec (c ∷ cs) t =
    AllLater-trans t (serve_run codec c t) (serve_runs codec cs (serve_run codec c t))
      (serve_run-AllLater codec c t) (serve_runs-AllLater codec cs (serve_run codec c t))

terminal-stays : {s t : State} → Reach s t → terminal s ≡ true → t ≡ s
terminal-stays here h = refl
terminal-stays {s} {t = v} (step {t = u} r m) h =
    let same = terminal-stays r h in
    absurd (cc (terminal-absorbs s v h, subst (λ w. can_transition w v ≡ true) same m))

-- A run that has ended stays in its final state, whatever is saved for it afterwards.
terminal-serve_runs :
    (codec : Codec) (cs : List RunCommand) (t : RunTables) (id : Text) (r : OperationRun)
    → read_run id t.runs ≡ some r
    → terminal r.state ≡ true
    → (r' : OperationRun) × (read_run id (serve_runs codec cs t).runs ≡ some r')
      × (r'.state ≡ r.state)
terminal-serve_runs codec cs t id r known ended =
    let (r', now, later) = serve_runs-AllLater codec cs t id r known in
    (r', now, terminal-stays later.reached ended)

-- After any calls on sound tables, each run's journal is numbered from 1, each entry is a step after
-- the one before it, and the run has the state and the checkpoint of the newest one.
pub serve_runs-IsSound :
    (codec : Codec) (laws : CodecLaws codec) (cs : List RunCommand) (t : RunTables)
    → IsSound codec t
    → IsSound codec (serve_runs codec cs t)
unfolding append
serve_runs-IsSound codec laws [] t sound = sound
serve_runs-IsSound codec laws (checkpoint u e ∷ cs) t sound =
    serve_runs-IsSound codec laws cs (save_checkpoint codec u e t).1
      (save_checkpoint-IsSound codec laws u e t sound)
serve_runs-IsSound codec laws (facts u ∷ cs) t sound =
    serve_runs-IsSound codec laws cs (save_snapshot u t).1
      (save_snapshot-IsSound codec laws u t sound)
serve_runs-IsSound codec laws (entry e ∷ cs) t sound =
    serve_runs-IsSound codec laws cs (append codec e t).1
      (save_checkpoint-IsSound codec laws (as_update e) e t sound)
