-- ===== src/Task/Item/Conclusion.antt =====
-- app/internal/task/task.go: what a normalized and validated check item says.
use setpoint_ci_mirror.Base.{
  ◌≡◌, ◌↔◌, Bool, true, false, not, ◌&&◌, ◌||◌, some, ok, require->>-ok, arith, eqb, is_empty,
}
use setpoint_ci_mirror.Base.Text.{is_blank}
use setpoint_ci_mirror.Task.Item.{
  ItemStatus, safe, unsafe, CheckItem, has_status, is_some, normalize_item, validate_status,
  validate_item, valid_item_status, identity_missing, status_invalid,
}

-- A check item that does not contradict itself: what does not apply reports nothing, and what failed
-- reports no compliance.
abbrev pub is_consistent : CheckItem → Bool
is_consistent i =
    is_empty i.review_reason
    && (i.applicable || (not (is_some i.compliant) && not (is_some i.error)))
    && (not (is_some i.error) || not (is_some i.compliant))

abbrev pub is_identified : CheckItem → Bool
is_identified i = not (is_blank i.id || is_blank i.name || eqb i.executed_at 0)

-- An item without a status that has its identity and does not contradict itself is valid once it is
-- normalized, whatever it observed.
pub validate-normalize :
    (i : CheckItem)
    → has_status i.status ≡ false
    → is_identified i ≡ true
    → is_consistent i ≡ true
    → validate_item (normalize_item i) ≡ ok tt
unfolding validate_item normalize_item validate_status valid_item_status
validate-normalize i unset named sound = ground arith

-- Normalizing twice changes nothing more.
normalize_item_idem : (i : CheckItem) → normalize_item (normalize_item i) ≡ normalize_item i
unfolding normalize_item
normalize_item_idem i = ground arith

said :
    (i : CheckItem) (t : ItemStatus)
    → valid_item_status t ≡ true
    → validate_status i t ≡ ok tt
    → ((t ≡ safe) ↔ (i.compliant ≡ some true)) × ((t ≡ unsafe) ↔ (i.compliant ≡ some false))
unfolding validate_status valid_item_status
said i safe v h = grind arith
said i _ v h = grind arith

-- A validated item is `safe` exactly where it was observed to comply, and `unsafe` exactly where it
-- was observed not to.
pub validate_item-conclusion :
    (i : CheckItem)
    → validate_item i ≡ ok tt
    → ((i.status ≡ safe) ↔ (i.compliant ≡ some true))
      × ((i.status ≡ unsafe) ↔ (i.compliant ≡ some false))
unfolding validate_item
validate_item-conclusion i h =
    let (named, h') = require->>-ok (is_identified i) identity_missing _ h in
    let (valid, h'') = require->>-ok (valid_item_status i.status) status_invalid _ h' in
    said i i.status valid h''
