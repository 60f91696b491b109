-- ===== src/Operation/Supervisor/Steps.antt =====
-- The critical sections of app/internal/operation/lease_supervisor.go in any order: what each of them may
-- do to the entries, and what stays true whichever methods and renewals interleave.
use setpoint_ci_mirror.Base.{
  ℕ, ◌≡◌, refl, sym, ap, ap₂, subst, Bool, true, false, not, Option, none, some, List, [], ◌∷◌, map,
  Result, ok, >>=-eq-ok, require->>-ok, ◌==◌, if_holds, All, All-keep, contains, find, replace,
  Bool-cases, inl, inr, arith,
}
use setpoint_ci_mirror.Base.Members.{IsDistinct, keep-IsDistinct}
use setpoint_ci_mirror.Base.Int.{ℤ}
use setpoint_ci_mirror.Base.Text.{Text, text_eq, trim_space}
use setpoint_ci_mirror.Operation.Target.{Target}
use setpoint_ci_mirror.Operation.Lock.{LockLease}
use setpoint_ci_mirror.Operation.Supervisor.{
  SupervisedLease, Supervisor, authority_unavailable, supervised_lock_resources, acquire, stopped,
  close, renewable, renewal_of, begin_renewal,
}
use setpoint_ci_mirror.Operation.Supervisor.Effects.{
  Steps, here, after, IsMild, Effect, nothing, started, changed, removed, shut, not_closed,
  Step-Effect,
}

-- The entries belong to different runs, and those of a closed supervisor are told to stop.
pub record IsOrderly (s : Supervisor) : Type 0 where
  pub distinct : IsDistinct (map (λ (e : SupervisedLease). e.run_id) s.active)
  pub stopped_all : s.closed ≡ true → All (λ (e : SupervisedLease). e.stopping ≡ true) s.active

runs : List SupervisedLease → List Text
runs es = map (λ (e : SupervisedLease). e.run_id) es

runs-replace :
    (p : SupervisedLease → Bool) (change : SupervisedLease → SupervisedLease)
    (es : List SupervisedLease)
    → ((e : SupervisedLease) → (change e).run_id ≡ e.run_id)
    → runs (replace p change es) ≡ runs es
unfolding runs
runs-replace p change [] same = refl
runs-replace p change (e ∷ es) same =
    ap₂ (λ r rs. r ∷ rs)
      (if_holds (λ (x : SupervisedLease). x.run_id ≡ e.run_id) (p e) (change e) e (λ _. same e)
        (λ _. refl))
      (runs-replace p change es same)

runs-stopped : (es : List SupervisedLease) → runs (map stopped es) ≡ runs es
unfolding runs
runs-stopped [] = refl
runs-stopped (e ∷ es) = ap (λ rs. e.run_id ∷ rs) (runs-stopped es)

absent_run :
    (run : Text) (es : List SupervisedLease)
    → find (λ (e : SupervisedLease). e.run_id == run) es ≡ none
    → contains run (runs es) ≡ false
unfolding runs
absent_run run [] h = refl
absent_run run (e ∷ es) h = elim (Bool-cases (e.run_id == run)) [
  | inl same ↦ absurd (cc (rw same at h))
  | inr other ↦ ground (arith, other, absent_run run es (rw other at h))
]

AllStopped : List SupervisedLease → Type 0
AllStopped es = All (λ (e : SupervisedLease). e.stopping ≡ true) es

replace-AllStopped :
    (p : SupervisedLease → Bool) (change : SupervisedLease → SupervisedLease)
    (es : List SupervisedLease)
    → IsMild change
    → AllStopped es
    → AllStopped (replace p change es)
unfolding AllStopped
replace-AllStopped p change [] mild h = tt
replace-AllStopped p change (e ∷ es) mild h = (
  if_holds (λ (x : SupervisedLease). x.stopping ≡ true) (p e) (change e) e
      (λ _. mild.stays_stopped e h.0) (λ _. h.0),
  replace-AllStopped p change es mild h.1,
)

map-AllStopped : (es : List SupervisedLease) → AllStopped (map stopped es)
unfolding AllStopped
map-AllStopped [] = tt
map-AllStopped (e ∷ es) = (refl, map-AllStopped es)

Effect-IsOrderly : (s s' : Supervisor) → Effect s s' → IsOrderly s → IsOrderly s'
unfolding close AllStopped runs
Effect-IsOrderly s s' nothing o = o
Effect-IsOrderly s s' (started run lease resources up absent) o = record {
  distinct = (absent_run run s.active absent, o.distinct);
  stopped_all = λ h. absurd (cc (up, h));
}
Effect-IsOrderly s s' (changed run change mild) o = record {
  distinct =
      subst (λ rs. IsDistinct rs)
        (sym (runs-replace (λ e. e.run_id == run) change s.active mild.same_run)) o.distinct;
  stopped_all =
      λ h. replace-AllStopped (λ e. e.run_id == run) change s.active mild (o.stopped_all h);
}
Effect-IsOrderly s s' (removed run) o = record {
  distinct =
      keep-IsDistinct (λ (e : SupervisedLease). e.run_id) (λ e. not (e.run_id == run)) s.active
        o.distinct;
  stopped_all = λ h.
      All-keep (λ (e : SupervisedLease). e.stopping ≡ true) (λ e. not (e.run_id == run)) s.active
        (o.stopped_all h);
}
Effect-IsOrderly s s' shut o =
    if_holds (λ (x : Supervisor). IsOrderly x) s.closed s
      (record s { closed = true; active = map stopped s.active }) (λ _. o)
      (λ _. record {
        distinct = subst (λ rs. IsDistinct rs) (sym (runs-stopped s.active)) o.distinct;
        stopped_all = λ h. map-AllStopped s.active;
      })

-- In whatever order the methods and the renewals run, the entries belong to different runs, and those
-- of a closed supervisor have been told to stop.
pub Steps-IsOrderly : (s s' : Supervisor) → Steps s s' → IsOrderly s → IsOrderly s'
Steps-IsOrderly s s' here o = o
Steps-IsOrderly s s' (after {t} past last) o =
    Effect-IsOrderly t s' (Step-Effect t s' last) (Steps-IsOrderly s t past o)

Effect-closed : (s s' : Supervisor) → Effect s s' → s.closed ≡ true → s'.closed ≡ true
unfolding close
Effect-closed s s' nothing h = h
Effect-closed s s' (started run lease resources up absent) h = h
Effect-closed s s' (changed run change mild) h = h
Effect-closed s s' (removed run) h = h
Effect-closed s s' shut h =
    if_holds (λ (x : Supervisor). x.closed ≡ true) s.closed s
      (record s { closed = true; active = map stopped s.active }) (λ _. h) (λ _. refl)

Steps-closed : (s s' : Supervisor) → Steps s s' → s.closed ≡ true → s'.closed ≡ true
Steps-closed s s' here h = h
Steps-closed s s' (after {t} past last) h =
    Effect-closed t s' (Step-Effect t s' last) (Steps-closed s t past h)

not_renewable :
    (serial : ℕ) (e : SupervisedLease) → e.stopping ≡ true → renewal_of serial (some e) ≡ none
not_renewable serial e h =
    if_holds (λ (o : Option SupervisedLease). o ≡ none) (renewable serial e) (some e) none
      (λ yes'. absurd (ground arith)) (λ _. refl)

no_renewal :
    (run : Text) (serial : ℕ) (es : List SupervisedLease)
    → AllStopped es
    → renewal_of serial (find (λ (e : SupervisedLease). e.run_id == run) es) ≡ none
unfolding AllStopped
no_renewal run serial [] h = refl
no_renewal run serial (e ∷ es) h =
    if_holds (λ (o : Option SupervisedLease). renewal_of serial o ≡ none) (e.run_id == run) (some e)
      (find (λ (x : SupervisedLease). x.run_id == run) es) (λ _. not_renewable serial e h.0)
      (λ _. no_renewal run serial es h.1)

-- After Close, in whatever order the methods and the renewals run on: Acquire returns no lease, and no
-- tick of a renewal renews one.
pub Steps-closed_idle :
    (s s' : Supervisor)
    → IsOrderly s
    → s.closed ≡ true
    → Steps s s'
    → ((ttl : ℤ) (id : Text) (targets : List Target) (answer : Result Text LockLease) (now : ℕ)
          (p : LockLease × Supervisor)
        → acquire ttl id targets answer now s' ≡ ok p
        → ⊥)
      × ((run : Text) (serial : ℕ) → begin_renewal run serial s' ≡ none)
unfolding AllStopped acquire
Steps-closed_idle s s' o h past =
    let shut' = Steps-closed s s' past h in
    let o' = Steps-IsOrderly s s' past o in
    (
      λ ttl id targets answer now p got.
          let (resources, planned, h1) =
            >>=-eq-ok (supervised_lock_resources (trim_space id) targets ttl) _ got in
          let (up, h2) = require->>-ok (not s'.closed) authority_unavailable _ h1 in
          cc (not_closed s'.closed up, shut'),
      λ run serial. no_renewal run serial s'.active (o'.stopped_all shut'),
    )
