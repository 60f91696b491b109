-- ===== src/Operation/State.antt =====
-- app/internal/operation/state.go: the states of an operation run, and the allowed transitions.
pub mod Steps
pub mod Trails
use setpoint_ci_mirror.Base.{
  ℕ, ◌≡◌, refl, ◌↔◌, Bool, true, false, ◌&&◌, ◌||◌, not, Option, none, some, List, [], ◌∷◌, arith,
  eqb, eqb_iff, Eq, if◌then◌else◌, contains, get_elem?, Result, ok, err,
}
use setpoint_ci_mirror.Base.Text.{Text, text_beq, text_beq_iff}

-- `State` is a string in the source; `unknown` is any string that is not one of the constants.
pub data State : Type 0 where
  draft discovering prechecking planned awaiting_confirmation queued acquiring_lock : State
  creating_restore_point running verifying succeeded blocked failed rolling_back : State
  rolled_back rollback_failed interrupted canceled_before_apply : State
  unknown : Text → State

abbrev rank : State → ℕ
rank draft = 0
rank discovering = 1
rank prechecking = 2
rank planned = 3
rank awaiting_confirmation = 4
rank queued = 5
rank acquiring_lock = 6
rank creating_restore_point = 7
rank running = 8
rank verifying = 9
rank succeeded = 10
rank blocked = 11
rank failed = 12
rank rolling_back = 13
rank rolled_back = 14
rank rollback_failed = 15
rank interrupted = 16
rank canceled_before_apply = 17
rank (unknown t) = 18

abbrev spelling : State → Text
spelling (unknown t) = t
spelling _ = []

abbrev named : List State
named =
    draft ∷ discovering ∷ prechecking ∷ planned ∷ awaiting_confirmation ∷ queued ∷ acquiring_lock
    ∷ creating_restore_point ∷ running ∷ verifying ∷ succeeded ∷ blocked ∷ failed ∷ rolling_back
    ∷ rolled_back ∷ rollback_failed ∷ interrupted ∷ canceled_before_apply ∷ []

abbrev or_unknown : Text → Option State → State
or_unknown t none = unknown t
or_unknown t (some s) = s

of_rank : ℕ → Text → State
of_rank n t = or_unknown t (get_elem? named n)

of_rank-rank : (s : State) → of_rank (rank s) (spelling s) ≡ s
unfolding of_rank
of_rank-rank draft = refl
of_rank-rank _ = refl

-- `a == b` on states.
unfoldable pub state_beq : State → State → Bool
unfolding text_beq
state_beq a b = eqb (rank a) (rank b) && text_beq (spelling a) (spelling b)

pub state_beq_iff : (a b : State) → (state_beq a b ≡ true) ↔ (a ≡ b)
unfolding state_beq
state_beq_iff a b = ground (
  arith,
  eqb_iff (rank a) (rank b),
  text_beq_iff (spelling a) (spelling b),
  of_rank-rank a,
  of_rank-rank b,
)

instance abbrev pub state_eq : Eq State
state_eq = record { beq = state_beq; beq_iff = state_beq_iff }

-- `transitions[s]`; `none` is a key that the map lacks.
abbrev pub transitions : State → Option (List State)
transitions draft = some (discovering ∷ canceled_before_apply ∷ [])
transitions discovering = some (prechecking ∷ blocked ∷ interrupted ∷ canceled_before_apply ∷ [])
transitions prechecking = some (planned ∷ blocked ∷ interrupted ∷ canceled_before_apply ∷ [])
transitions planned = some (awaiting_confirmation ∷ blocked ∷ canceled_before_apply ∷ [])
transitions awaiting_confirmation = some (queued ∷ canceled_before_apply ∷ [])
transitions queued = some (acquiring_lock ∷ canceled_before_apply ∷ interrupted ∷ blocked ∷ [])
transitions acquiring_lock =
    some (creating_restore_point ∷ canceled_before_apply ∷ interrupted ∷ blocked ∷ [])
transitions creating_restore_point =
    some (running ∷ canceled_before_apply ∷ interrupted ∷ blocked ∷ [])
transitions running = some (verifying ∷ failed ∷ rolling_back ∷ interrupted ∷ [])
transitions verifying = some (succeeded ∷ failed ∷ rolling_back ∷ interrupted ∷ [])
transitions failed = some (rolling_back ∷ [])
transitions interrupted = some (queued ∷ rolling_back ∷ failed ∷ [])
transitions rolling_back = some (rolled_back ∷ rollback_failed ∷ interrupted ∷ [])
transitions _ = none

-- `Terminal`; the `switch` of `ValidState` lists the same states.
unfoldable pub terminal : State → Bool
terminal succeeded = true
terminal blocked = true
terminal canceled_before_apply = true
terminal rolled_back = true
terminal rollback_failed = true
terminal _ = false

unfoldable pub valid_state : State → Bool
unfolding terminal
valid_state s = elim (transitions s) [ some _ ↦ true | none ↦ terminal s ]

-- `_, ok := transitions[from][to]`: a missing inner map has no keys.
abbrev has_key : State → Option (List State) → Bool
has_key to none = false
has_key to (some keys) = contains to keys

unfoldable pub can_transition : State → State → Bool
unfolding valid_state state_beq
can_transition from to =
    if not (valid_state from) || not (valid_state to) then false else has_key to (transitions from)

pub data TransitionError : Type 0 where
  invalid_transition : State → State → TransitionError

unfoldable pub transition : State → State → Result TransitionError Unit
unfolding can_transition
transition from to = if can_transition from to then ok tt else err (invalid_transition from to)
