-- ===== src/Storage/Runs/Calls.antt =====
-- Any series of calls that save a run's progress or cancel a run (app/internal/storage/sqlite).
use setpoint_ci_mirror.Base.{ℕ, sym, subst, inl, inr, List, [], ◌∷◌, Result, ok, err}
use setpoint_ci_mirror.Base.Text.{Text}
use setpoint_ci_mirror.OperationRun.{OperationRun}
use setpoint_ci_mirror.Storage.Runs.Journal.{Codec, CodecLaws}
use setpoint_ci_mirror.Storage.Runs.Invariant.{IsSound}
use setpoint_ci_mirror.Storage.Runs.History.{
  RunCommand, serve_run, AllLater-refl, AllLater-trans, serve_runs-AllLater, serve_runs-IsSound,
}
use setpoint_ci_mirror.Storage.Runs.Cancel.{
  CancelTables, CancelTexts, CancelError, cancel_operation_run,
}
use setpoint_ci_mirror.Storage.Runs.Settled.{Safe}
use setpoint_ci_mirror.Storage.Runs.Canceled.{Judged, cancel_operation_run-Judged}

pub data StoreCall : Type 0 where
  save : RunCommand → StoreCall
  cancel : ℕ → Text → StoreCall

abbrev pub serve_call : CancelTexts → StoreCall → CancelTables → CancelTables
serve_call texts (save c) t = record t { stored = serve_run texts.codec c t.stored }
serve_call texts (cancel at id) t = (cancel_operation_run texts at id t).1

abbrev pub serve_calls : CancelTexts → List StoreCall → CancelTables → CancelTables
serve_calls texts [] t = t
serve_calls texts (c ∷ cs) t = serve_calls texts cs (serve_call texts c t)

Judged-Safe :
    (codec : Codec) (id : Text) (t : CancelTables)
    (o : Result CancelError OperationRun × CancelTables)
    → IsSound codec t.stored
    → Judged codec id t o
    → Safe codec t.stored (o.1).stored
Judged-Safe codec id t (err e, t') sound same =
    subst (λ (u : CancelTables). Safe codec t.stored u.stored) (sym same)
      (sound, AllLater-refl t.stored)
Judged-Safe codec id t (ok r, t') sound (run, known, inl (over, is, same)) =
    subst (λ (u : CancelTables). Safe codec t.stored u.stored) (sym same)
      (sound, AllLater-refl t.stored)
Judged-Safe codec id t (ok r, t') sound (run, known, inr done) = done.3

module _ (texts : CancelTexts) (laws : CodecLaws texts.codec) where
  serve_call-Safe :
      (c : StoreCall) (t : CancelTables)
      → IsSound texts.codec t.stored
      → Safe texts.codec t.stored (serve_call texts c t).stored
  serve_call-Safe (save c) t sound = (
    serve_runs-IsSound texts.codec laws (c ∷ []) t.stored sound,
    serve_runs-AllLater texts.codec (c ∷ []) t.stored,
  )
  serve_call-Safe (cancel at id) t sound =
      Judged-Safe texts.codec id t (cancel_operation_run texts at id t) sound
        (cancel_operation_run-Judged texts laws at id t sound)

  -- From sound tables, any series of checkpoints, entries, facts and cancellations, refused ones included,
  -- leads to sound tables: each run's journal is numbered from 1 by steps of its life, and the run stands
  -- where the newest entry says. Every old run is still there with its facts, in a state that allowed
  -- transitions reach from its old one.
  pub serve_calls-Safe :
      (cs : List StoreCall) (t : CancelTables)
      → IsSound texts.codec t.stored
      → Safe texts.codec t.stored (serve_calls texts cs t).stored
  serve_calls-Safe [] t sound = (sound, AllLater-refl t.stored)
  serve_calls-Safe (c ∷ cs) t sound =
      let (first, later) = serve_call-Safe c t sound in
      let (rest, last) = serve_calls-Safe cs (serve_call texts c t) first in
      (
        rest,
        AllLater-trans t.stored (serve_call texts c t).stored
            (serve_calls texts cs (serve_call texts c t)).stored later last,
      )
