-- ===== src/Policy/Validation.antt =====
-- policy/condition.rs: the identifiers of conditions, and the validation of the declared conditions
-- under the value type of their measurement.
pub mod Typing
pub mod Unique
pub mod Panics
pub mod Accepted
pub mod Progress
use Prim.Native.String.{String, ◌++◌}
use ffhn.Base.{
  ◌≡◌, Bool, true, false, ◌&&◌, ◌||◌, not, Option, none, some, List, [], ◌∷◌, Ordering, all, any,
  length, leb, ◌==◌, same, list_eq, nat_eq, if◌then◌else◌, arith,
}
use ffhn.Base.Errors.{
  Text, Result, CoreResult, CoreError, contract, contract_about, ok, err, ◌>>=◌, ◌>>◌, refuse_if,
  map_err,
}
use ffhn.Base.Texts.{contains}
use ffhn.Identity.{is_alphanumeric, is_separator}
use ffhn.Delivery.RouteId.{valid_byte, first_is_alphanumeric, ends_with_separator, valid_id}
use ffhn.Policy.Types.{
  DeclaredType, declared_type_eq, TypeParams, ThresholdDirection, rising, falling,
  ConditionPredicate, changed, delta_abs, delta_pct, crosses, lt, gt, band, Condition, ValueLib,
}
use ffhn.Policy.Value.{
  PolicyValue, compare_values, is_negative_numeric, parse_config_value, parse_percentage,
}
use ffhn.Policy.Contract.{is_lt, is_gt}

-- The test of `validate_condition_id`, which refuses a text that fails any of its parts.
unfoldable pub invalid_condition_id : Text → Bool
unfolding is_alphanumeric is_separator
invalid_condition_id value =
    (length value == 0)
    || not (leb (length value) 64)
    || not (all valid_byte value)
    || not (first_is_alphanumeric value)
    || ends_with_separator value
    || contains (b'-' ∷ b'-' ∷ []) value
    || contains (b'_' ∷ b'_' ∷ []) value
    || contains (b'-' ∷ b'_' ∷ []) value
    || contains (b'_' ∷ b'-' ∷ []) value

-- `ConditionId::new`.
unfoldable pub new_condition_id : Text → CoreResult Text
new_condition_id value =
    if invalid_condition_id value
    then err (
        contract
          "condition_id must start with [a-z0-9], stay within 64 chars, and only use single internal '-' or '_' separators")
    else ok value

-- The identifiers of conditions are those that `GraphRouteId::new` accepts for delivery routes.
pub invalid_condition_id-valid_id : (v : Text) → invalid_condition_id v ≡ not (valid_id v)
unfolding invalid_condition_id valid_id
invalid_condition_id-valid_id v = ground arith

-- A function that returns an error, or stops at an `expect`.
pub data Failure : Type 0 where
  error : CoreError → Failure
  panic : String → Failure

abbrev pub Guarded : Type 0 → Type 0
Guarded A = Result Failure A

abbrev pub expect : {A : Type 0} → Option A → String → Guarded A
expect none message = err (panic message)
expect (some a) message = ok a

abbrev pub guarded : {A : Type 0} → CoreResult A → Guarded A
guarded r = map_err error r

unfoldable pub require_ordered : DeclaredType → Condition → CoreResult (Unit {0})
require_ordered declared_type condition = refuse_if (same declared_type DeclaredType.text) (
    contract_about "condition {} uses an ordered predicate with text declared_type"
      condition.condition_id)

abbrev pub is_numeric : DeclaredType → Bool
is_numeric DeclaredType.integer = true
is_numeric DeclaredType.decimal = true
is_numeric DeclaredType.money = true
is_numeric _ = false

unfoldable pub require_numeric : DeclaredType → Condition → CoreResult (Unit {0})
require_numeric declared_type condition =
    if is_numeric declared_type
    then ok tt
    else err (
        contract_about "condition {} uses a numeric predicate with a non-numeric declared_type"
          condition.condition_id)

-- The `match` on the direction of a band.
abbrev pub valid_band : ThresholdDirection → Ordering → Bool
valid_band rising order = not (is_lt order)
valid_band falling order = not (is_gt order)

module _ (lib : ValueLib) where
  open lib use {decimal_cmp, decimal_zero}

  -- The error is the name of the field and what the parser says.
  unfoldable pub parse_condition_threshold :
      DeclaredType → TypeParams → Text → Condition → String → CoreResult (PolicyValue lib)
  parse_condition_threshold declared_type params value condition field =
      map_err
        (λ message.
          contract_about ("condition {} " ++ field ++ " " ++ message) condition.condition_id)
        (parse_config_value lib declared_type params value)

  -- The test of a band, with `enter.compare(&exit).expect(..)`.
  abbrev pub check_band :
      Condition → ThresholdDirection → PolicyValue lib → PolicyValue lib → Guarded (Unit {0})
  check_band condition direction enter exit = do
    order ←
        expect (compare_values lib enter exit)
          "band thresholds parsed under one declared type must be comparable"
    refuse_if (not (valid_band direction order)) (
        error (
          contract_about "condition {} band thresholds conflict with direction"
            condition.condition_id))

  -- The arm of `crosses`, `lt` and `gt`.
  abbrev pub check_ordered : DeclaredType → TypeParams → Condition → Text → CoreResult (Unit {0})
  check_ordered declared_type params condition threshold = do
    require_ordered declared_type condition
    limit ← parse_condition_threshold declared_type params threshold condition "threshold"
    ok tt

  -- `validate_predicate`, by the predicate of the condition.
  unfoldable pub check_predicate :
      DeclaredType → TypeParams → Condition → ConditionPredicate → Guarded (Unit {0})
  unfolding require_ordered require_numeric parse_condition_threshold
  check_predicate declared_type params condition (changed reference) = ok tt
  check_predicate declared_type params condition (delta_abs reference threshold) = do
    guarded (require_numeric declared_type condition)
    limit ← guarded (parse_condition_threshold declared_type params threshold condition "threshold")
    refuse_if (is_negative_numeric lib limit) (
        error (
          contract_about "condition {} delta_abs.threshold must be non-negative"
            condition.condition_id))
  check_predicate declared_type params condition (delta_pct reference threshold) = do
    guarded (require_numeric declared_type condition)
    percentage ← guarded (
        map_err
          (λ message.
            contract_about ("condition {} delta_pct.threshold " ++ message) condition.condition_id)
          (parse_percentage lib threshold))
    refuse_if (is_lt (decimal_cmp percentage decimal_zero)) (
        error (
          contract_about "condition {} delta_pct.threshold must be non-negative"
            condition.condition_id))
  check_predicate declared_type params condition (crosses threshold direction) =
      guarded (check_ordered declared_type params condition threshold)
  check_predicate declared_type params condition (lt threshold) =
      guarded (check_ordered declared_type params condition threshold)
  check_predicate declared_type params condition (gt threshold) =
      guarded (check_ordered declared_type params condition threshold)
  check_predicate declared_type params condition (band enter_threshold exit_threshold direction) =
      do
        guarded (require_ordered declared_type condition)
        enter ← guarded (
            parse_condition_threshold declared_type params enter_threshold condition
              "enter_threshold")
        exit ← guarded (
            parse_condition_threshold declared_type params exit_threshold condition
              "exit_threshold")
        check_band condition direction enter exit

  unfoldable pub validate_predicate : DeclaredType → TypeParams → Condition → Guarded (Unit {0})
  validate_predicate declared_type params condition =
      check_predicate declared_type params condition condition.predicate

  -- The loop of `validate_conditions`, with the identifiers that the set holds.
  unfoldable pub validate_each :
      DeclaredType → TypeParams → List Text → List Condition → Guarded (Unit {0})
  validate_each declared_type params condition_ids [] = ok tt
  validate_each declared_type params condition_ids (condition ∷ rest) = do
    refuse_if (any (same condition.condition_id) condition_ids)
        (error (contract "condition_id values must be unique"))
    validate_predicate declared_type params condition
    validate_each declared_type params (condition.condition_id ∷ condition_ids) rest

  unfoldable pub validate_conditions :
      DeclaredType → TypeParams → List Condition → Guarded (Unit {0})
  unfolding validate_each
  validate_conditions declared_type params conditions =
      validate_each declared_type params [] conditions
