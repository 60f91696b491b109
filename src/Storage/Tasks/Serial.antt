-- ===== src/Storage/Tasks/Serial.antt =====
-- app/internal/storage/sqlite/tasks.go: an agent works on one task at a time.
use setpoint_ci_mirror.Base.{
  ℕ, ◌+◌, ◌≤◌, ◌≡◌, refl, sym, ap, subst, ◌∙◌, Bool, true, false, ◌&&◌, Option, none, some, List,
  [], ◌∷◌, map, Bool-cases, inl, inr, arith, if◌then◌else◌, contains, ◌==◌, Memᴰ, ◌⊎◌,
}
use setpoint_ci_mirror.Base.Members.{IsDistinct}
use setpoint_ci_mirror.Base.Text.{Text, text_eq}
use setpoint_ci_mirror.Task.Phase.{is_active}
use setpoint_ci_mirror.Storage.Tasks.{TaskRow, update, earlier, earliest, precedes}

abbrev pub id_of : TaskRow → Text
id_of r = r.id

-- The task is one that the agent of the node works on.
abbrev pub works_on : Text → TaskRow → Bool
works_on n r = r.node_id == n && is_active r.phase

abbrev pub active_tasks : Text → List TaskRow → ℕ
active_tasks n [] = 0
active_tasks n (r ∷ rs) = let rest = active_tasks n rs in if works_on n r then rest + 1 else rest

module _ (test : TaskRow → Bool) (change : TaskRow → TaskRow) (id : Text)
    (only : (r : TaskRow) → test r ≡ true → r.id ≡ id) where
  update-none :
      (rows : List TaskRow) → contains id (map id_of rows) ≡ false → update test change rows ≡ rows
  unfolding update
  update-none [] h = refl
  update-none (r ∷ rs) h = elim (Bool-cases (test r)) [
    | inl e ↦ let here = (text_eq.beq_iff r.id id).1 (only r e) in absurd (cc)
    | inr e ↦ let rest = update-none rs (ground arith) in cc
  ]

  -- A change of the one row with an ID that does not make it active.
  pub update-le :
      (n : Text) (rows : List TaskRow)
      → IsDistinct (map id_of rows)
      → ((r : TaskRow)
          → Memᴰ r rows
          → test r ≡ true
          → works_on n (change r) ≡ true
          → works_on n r ≡ true)
      → active_tasks n (update test change rows) ≤ active_tasks n rows
  unfolding update
  update-le n [] d h = omega arith
  update-le n (r ∷ rs) d h = elim (Bool-cases (test r)) [
    | inl e ↦
        let same = update-none rs (subst (λ v. contains v (map id_of rs) ≡ false) (only r e) d.0) in
        rw (e, same) (ground (arith, h r (Memᴰ.head refl) e))
    | inr e ↦ rw e (ground (arith, update-le n rs d.1 (λ x m. h x (Memᴰ.tail m))))
  ]

  -- Any change of the one row with an ID.
  pub update-le_suc :
      (n : Text) (rows : List TaskRow)
      → IsDistinct (map id_of rows)
      → active_tasks n (update test change rows) ≤ active_tasks n rows + 1
  unfolding update
  update-le_suc n [] d = omega arith
  update-le_suc n (r ∷ rs) d = elim (Bool-cases (test r)) [
    | inl e ↦
        let same = update-none rs (subst (λ v. contains v (map id_of rs) ≡ false) (only r e) d.0) in
        rw (e, same) (ground arith)
    | inr e ↦ rw e (ground (arith, update-le_suc n rs d.1))
  ]

pub update-ids :
    (test : TaskRow → Bool) (change : TaskRow → TaskRow) (rows : List TaskRow)
    → ((r : TaskRow) → (change r).id ≡ r.id)
    → map id_of (update test change rows) ≡ map id_of rows
unfolding update
update-ids test change [] h = refl
update-ids test change (r ∷ rs) h = elim (Bool-cases (test r)) [
  | inl e ↦ rw (e, h r, update-ids test change rs h) refl
  | inr e ↦ rw (e, update-ids test change rs h) refl
]

earlier-cases :
    (r : TaskRow) (o : Option TaskRow)
    → (earlier r o ≡ some r) ⊎ ((earlier r o ≡ o) × (s : TaskRow) × (o ≡ some s))
earlier-cases r none = inl refl
earlier-cases r (some s) = elim (Bool-cases (precedes s r)) [
  | inl e ↦ inr (rw e refl, s, refl)
  | inr e ↦ inl (rw e refl)
]

pub earliest-mem :
    (test : TaskRow → Bool) (rows : List TaskRow) (p : TaskRow)
    → earliest test rows ≡ some p
    → Memᴰ p rows × (test p ≡ true)
unfolding earliest
earliest-mem test [] p h = absurd (cc)
earliest-mem test (r ∷ rs) p h = elim (Bool-cases (test r)) [
  | inl e ↦ elim (earlier-cases r (earliest test rs)) [
    | inl f ↦ let same : p ≡ r = cc (rw e at h) in (Memᴰ.head same, ap test same ∙ e)
    | inr (f, s, g) ↦ let (m, k) = earliest-mem test rs p (sym f ∙ rw e at h) in (Memᴰ.tail m, k)
  ]
  | inr e ↦ let (m, k) = earliest-mem test rs p (rw e at h) in (Memᴰ.tail m, k)
]

pub earliest-none :
    (n : Text) (rows : List TaskRow) → earliest (works_on n) rows ≡ none → active_tasks n rows ≡ 0
unfolding earliest
earliest-none n [] h = refl
earliest-none n (r ∷ rs) h = elim (Bool-cases (works_on n r)) [
  | inl e ↦ elim (earlier-cases r (earliest (works_on n) rs)) [
    | inl f ↦ absurd (cc (rw e at h))
    | inr (f, s, g) ↦ absurd (cc (rw e at h))
  ]
  | inr e ↦ rw e (earliest-none n rs (rw e at h))
]
