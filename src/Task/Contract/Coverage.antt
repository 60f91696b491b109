-- ===== src/Task/Contract/Coverage.antt =====
-- app/internal/task/result_contract.go: which items an accepted result has.
use setpoint_ci_mirror.Base.{
  ◌≡◌, refl, sym, ap, ap₂, ◌∙◌, true, false, not, ◌||◌, List, [], ◌∷◌, map, Result, ok, err,
  require->>-ok, >>=-eq-ok, contains, All, arith, subst, ==-refl, some, ◌==◌, is_empty, Bool-cases,
  inl, inr,
}
use setpoint_ci_mirror.Base.Members.{IsDistinct}
use setpoint_ci_mirror.Base.Text.{Text, trim_space, text_eq, is_blank}
use setpoint_ci_mirror.Task.Item.{CheckItem, normalize_item, validate_item, ItemError}
use setpoint_ci_mirror.Task.Contract.{
  completed, CheckDefinitionSnapshot, CheckResult, ResultContract, expected_ids, validate_items,
  all_seen, validate_check_result, as_result, error_reported, fits, definition_of, is_defined,
  duplicate_item, unknown_item, definition_mismatch, item_missing, empty_contract_id,
  duplicate_contract_id, definition_missing, plugin_mismatch, version_mismatch, timestamps_invalid,
  validate_state, has_timestamps,
}

abbrev pub ids : List CheckItem → List Text
ids items = map (λ (i : CheckItem). i.id) items

-- What the loop over the items accepts, after the items with the IDs `seen`.
abbrev IsAccepted : List Text → List Text → List CheckItem → Type 0
IsAccepted expected seen [] = Unit
IsAccepted expected seen (i ∷ is) =
    (validate_item i ≡ ok tt)
    × (contains i.id seen ≡ false)
    × (contains i.id expected ≡ true)
    × IsAccepted expected (i.id ∷ seen) is

as_result-ok : (r : Result ItemError Unit) {u : Unit {0}} → as_result r ≡ ok u → r ≡ ok tt
as_result-ok (ok u) h = refl
as_result-ok (err e) h = absurd (cc)

accepted :
    (definitions : List CheckDefinitionSnapshot) (expected seen : List Text)
    (raws items : List CheckItem)
    → validate_items definitions expected seen raws ≡ ok items
    → IsAccepted expected seen items
unfolding validate_items
accepted definitions expected seen [] [] h = tt
accepted definitions expected seen [] (i ∷ is) h = absurd (cc)
accepted definitions expected seen (raw ∷ rest) items h =
    let i = normalize_item raw in
    let (u, good, h1) = >>=-eq-ok (as_result (validate_item i)) _ h in
    let (u', reported, h2) = >>=-eq-ok (error_reported i.status i.error) _ h1 in
    let (fresh, h3) = require->>-ok (not (contains i.id seen)) duplicate_item _ h2 in
    let (known, h4) = require->>-ok (contains i.id expected) unknown_item _ h3 in
    let (same, h5) =
      require->>-ok (fits i (definition_of definitions i.id)) definition_mismatch _ h4 in
    let (is, rest_ok, e) =
      >>=-eq-ok (validate_items definitions expected (i.id ∷ seen) rest) _ h5 in
    let whole : (i ∷ is) ≡ items = cc in
    subst (IsAccepted expected seen) whole (
      as_result-ok (validate_item i) good,
      (ground arith),
      known,
      accepted definitions expected (i.id ∷ seen) rest is rest_ok,
    )

fresh_ids :
    (expected seen : List Text) (x : Text) (items : List CheckItem)
    → IsAccepted expected seen items
    → contains x seen ≡ true
    → contains x (ids items) ≡ false
fresh_ids expected seen x [] h m = refl
fresh_ids expected seen x (i ∷ is) (good, new, known, h) m =
    let later = fresh_ids expected (i.id ∷ seen) x is h (ground arith) in
    elim (Bool-cases (i.id == x)) [
      | inl e ↦
          let same = (text_eq.beq_iff i.id x).0 e in
          let old : contains i.id seen ≡ true = subst (λ v. contains v seen ≡ true) (sym same) m in
          absurd (cc)
      | inr e ↦ ground (arith, later)
    ]

accepted-IsDistinct :
    (expected seen : List Text) (items : List CheckItem)
    → IsAccepted expected seen items
    → IsDistinct (ids items)
accepted-IsDistinct expected seen [] h = tt
accepted-IsDistinct expected seen (i ∷ is) (good, new, known, h) = (
  fresh_ids expected (i.id ∷ seen) i.id is h (ground (arith, ==-refl i.id)),
  accepted-IsDistinct expected (i.id ∷ seen) is h,
)

accepted-valid :
    (expected seen : List Text) (items : List CheckItem)
    → IsAccepted expected seen items
    → All (λ i. validate_item i ≡ ok tt) items
accepted-valid expected seen [] h = tt
accepted-valid expected seen (i ∷ is) (good, new, known, h) =
    (good, accepted-valid expected (i.id ∷ seen) is h)

accepted-known :
    (expected seen : List Text) (items : List CheckItem)
    → IsAccepted expected seen items
    → All (λ id. contains id expected ≡ true) (ids items)
accepted-known expected seen [] h = tt
accepted-known expected seen (i ∷ is) (good, new, known, h) =
    (known, accepted-known expected (i.id ∷ seen) is h)

-- The expected IDs are the trimmed IDs of the contract.
expected-trimmed :
    (definitions : List CheckDefinitionSnapshot) (acc texts expected : List Text) (x : Text)
    → expected_ids definitions acc texts ≡ ok expected
    → contains x expected ≡ true
    → (contains x (map trim_space texts) || contains x acc) ≡ true
unfolding expected_ids
expected-trimmed definitions acc [] expected x h m = subst (λ v. contains x v ≡ true) (sym (cc h)) m
expected-trimmed definitions acc (text ∷ rest) expected x h m =
    let (named, h1) = require->>-ok (not (is_blank text)) empty_contract_id _ h in
    let (new, h2) =
      require->>-ok (not (contains (trim_space text) acc)) duplicate_contract_id _ h1 in
    let (defined, h3) =
      require->>-ok
        (is_empty definitions || is_defined (definition_of definitions (trim_space text)))
        definition_missing _ h2 in
    ground (arith, expected-trimmed definitions (trim_space text ∷ acc) rest expected x h3 m)

trimmed-All :
    (definitions : List CheckDefinitionSnapshot) (texts expected xs : List Text)
    → expected_ids definitions [] texts ≡ ok expected
    → All (λ id. contains id expected ≡ true) xs
    → All (λ id. contains id (map trim_space texts) ≡ true) xs
trimmed-All definitions texts expected [] h k = tt
trimmed-All definitions texts expected (x ∷ xs) h k = (
  ground (arith, expected-trimmed definitions [] texts expected x h k.0),
  trimmed-All definitions texts expected xs h k.1,
)

seen-All :
    (seen texts : List Text)
    → all_seen completed seen texts ≡ ok tt
    → All (λ id. contains id seen ≡ true) texts
unfolding all_seen
seen-All seen [] h = tt
seen-All seen (text ∷ rest) h =
    let (here, h') = require->>-ok (contains text seen) item_missing _ h in
    (here, seen-All seen rest h')

-- The items of an accepted result are valid and different from each other, and each of them is, up
-- to spaces, one of the contract's; a completed result has every item of the contract.
pub validate_check_result-coverage :
    (result : CheckResult) (contract : ResultContract) (items : List CheckItem)
    → validate_check_result (some result) contract ≡ ok items
    → IsDistinct (ids items)
      × All (λ i. validate_item i ≡ ok tt) items
      × All (λ id. contains id (map trim_space contract.item_ids) ≡ true) (ids items)
      × (result.state ≡ completed → All (λ id. contains id (ids items) ≡ true) contract.item_ids)
unfolding validate_check_result
validate_check_result-coverage result contract items h =
    let (a, h1) = require->>-ok (result.plugin_id == contract.plugin_id) plugin_mismatch _ h in
    let (b, h2) =
      require->>-ok (result.plugin_version == contract.plugin_version) version_mismatch _ h1 in
    let (c, h3) = require->>-ok (has_timestamps result) timestamps_invalid _ h2 in
    let (u, d, h4) = >>=-eq-ok (validate_state result.state result.error) _ h3 in
    let (expected, e, h5) =
      >>=-eq-ok (expected_ids contract.item_definitions [] contract.item_ids) _ h4 in
    let (items', f, h6) =
      >>=-eq-ok (validate_items contract.item_definitions expected [] result.items) _ h5 in
    let (u', g, h7) = >>=-eq-ok (all_seen result.state (ids items') contract.item_ids) _ h6 in
    let same : items' ≡ items = cc in
    let k = accepted contract.item_definitions expected [] result.items items (f ∙ ap ok same) in
    (
      accepted-IsDistinct expected [] items k,
      accepted-valid expected [] items k,
      trimmed-All contract.item_definitions contract.item_ids expected (ids items) e
          (accepted-known expected [] items k),
      λ t.
          seen-All (ids items) contract.item_ids
            (ap₂ (λ v w. all_seen v (ids w) contract.item_ids) (sym t) (sym same) ∙ g),
    )
