-- ===== src/Storage/Tx.antt =====
-- A store method of app/internal/storage/sqlite: one SQLite transaction. The body computes a value
-- and the tables to commit; an error (the deferred `transaction.Rollback()`) keeps the old tables.
-- A body that returns a value without `Commit` gives back the tables that it was given.
use setpoint_ci_mirror.Base.{◌≡◌, refl, Result, ok, err}

abbrev pub transact : {E A S : Type 0} → S → Result E (A × S) → Result E A × S
transact s (ok (a, s')) = (ok a, s')
transact s (err e) = (err e, s)

pub transact-err :
    {E A S : Type 0} (s : S) (r : Result E (A × S)) {e : E}
    → (transact s r).0 ≡ err e
    → (transact s r).1 ≡ s
transact-err s (ok (a, s')) h = cc
transact-err s (err e) h = refl

-- A transaction keeps what both its outcomes keep.
pub transact-keeps :
    {E A S : Type 0} (P : S → Type 0) (s : S) (r : Result E (A × S))
    → P s
    → ((a : A) (s' : S) → r ≡ ok (a, s') → P s')
    → P (transact s r).1
transact-keeps P s (ok (a, s')) h k = k a s' refl
transact-keeps P s (err e) h k = h
