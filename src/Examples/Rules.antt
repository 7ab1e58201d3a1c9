-- ===== src/Examples/Rules.antt =====
-- The conditions of a measurement of whole numbers at concrete inputs.
use ffhn.Base.{
  ℕ, ◌+◌, ◌<◌, ◌^◌, ◌≡◌, ◌↔◌, refl, compare, Ordering, Bool, true, false, Option, none, some, [],
  ◌∷◌, arith,
}
use ffhn.Base.Int.{ℤ, pos, abs_ℕ}
use ffhn.Base.Errors.{Text, ok}
use ffhn.Policy.Types.{
  DeclaredType, DeclaredType-discrete, ConditionOutcome-discrete, TypeParams, json_pointer,
  Observation, last_accepted_observation, rising, delta_abs, gt, Condition, satisfied,
  not_satisfied, ConditionContext, empty_context, ConditionReferenceEvidence, ConditionEvaluation,
  ConditionOutcome, ValueLib, DecimalRange,
}
use ffhn.Policy.Value.{
  integer, compare_values, parse_config_value, parse_observation_value,
  parse_canonical_value_as_policy_value,
}
use ffhn.Policy.Contract.{
  PolicyContract, next_level_active, outcome_of, selected_reference, configured_reference,
  configured_reference_evidence, observation_matches_contract,
}
use ffhn.Policy.Evaluate.{
  evaluate_condition, evaluate_conditions, evaluate_each, evaluate_predicate, evaluation_of,
  evaluate_ordered, evaluate_band, parse_threshold, evaluate_delta_abs, resolve_reference,
  resolve_observation,
}
use ffhn.Policy.Evaluate.Levels.{
  trigger-rising_edge, Run, stop, next, triggers, exits, bit, triggers-exits, band-hysteresis,
}
use ffhn.Policy.Evaluate.Events.{event-trigger, unavailable_evidence-outcome}
use ffhn.Policy.Evaluate.Batch.{NoFault, evaluate_conditions-NoFault}

-- Whole numbers of one byte; decimals are `0` and `2.5`.
abbrev tenths : Bool → ℤ
tenths true = pos 25
tenths false = pos 0

abbrev one_byte : Text → Option ℤ
one_byte (n ∷ []) = some (pos n)
one_byte _ = none

abbrev pub bytes : ValueLib
bytes = record {
  Decimal = Bool;
  mantissa = tenths;
  scale = λ d. 1;
  decimal_cmp = λ a b. Ordering.eq;
  decimal_zero = false;
  Version = ℕ;
  version_cmp = compare;
  version_text = λ n. n ∷ [];
  Instant = ℕ;
  instant_cmp = compare;
  parse_integer = one_byte;
  parse_decimal = λ t. some true;
  parse_version = λ t. none;
  parse_instant = λ t. none;
  trim = λ t. t;
  parse_canonical_value = λ declared params t. ok t;
  validate_observation = λ o. ok tt;
}

tenths_small : (d : Bool) → abs_ℕ (tenths d) < 2 ^ 96
tenths_small true = omega arith
tenths_small false = omega arith

pub bytes-range : DecimalRange bytes
bytes-range = record { mantissa_range = tenths_small; scale_range = λ d. omega arith }

abbrev pub no_params : TypeParams
no_params = record { currency = none; locale = none; format = none; assumed_offset = none }

abbrev pub over_five : Condition
over_five = record { condition_id = 1 ∷ []; predicate = gt (5 ∷ []) }

abbrev moved_by_two : Condition
moved_by_two = record {
  condition_id = 2 ∷ [];
  predicate = delta_abs last_accepted_observation (2 ∷ []);
}

abbrev pub whole_numbers : PolicyContract
whole_numbers = record {
  declared_type = DeclaredType.integer;
  type_params = no_params;
  conditions = over_five ∷ moved_by_two ∷ [];
}

abbrev is_active : ConditionContext
is_active = record empty_context { active = true }

abbrev enters : ConditionEvaluation
enters = record {
  condition_id = 1 ∷ [];
  outcome = satisfied;
  trigger = true;
  active_before = false;
  active_after = true;
  reference_evidence = none;
}

abbrev leaves : ConditionEvaluation
leaves = record {
  condition_id = 1 ∷ [];
  outcome = not_satisfied;
  trigger = false;
  active_before = true;
  active_after = false;
  reference_evidence = none;
}

entered :
    evaluate_condition bytes whole_numbers over_five (integer (pos 7)) empty_context ≡ ok enters
unfolding evaluate_condition evaluate_predicate evaluation_of parse_threshold parse_config_value
    parse_canonical_value_as_policy_value evaluate_ordered compare_values next_level_active
    configured_reference_evidence configured_reference ConditionOutcome-discrete
entered = refl

left : evaluate_condition bytes whole_numbers over_five (integer (pos 3)) is_active ≡ ok leaves
unfolding evaluate_condition evaluate_predicate evaluation_of parse_threshold parse_config_value
    parse_canonical_value_as_policy_value evaluate_ordered compare_values next_level_active
    configured_reference_evidence configured_reference ConditionOutcome-discrete
left = refl

trigger-rising_edge_example :
    (enters.trigger ≡ true) ↔ ((empty_context.active ≡ false) × (enters.active_after ≡ true))
trigger-rising_edge_example =
    trigger-rising_edge bytes whole_numbers over_five (integer (pos 7)) empty_context tt entered

up_and_down : Run bytes whole_numbers over_five false (enters ∷ leaves ∷ []) false
up_and_down =
    next (integer (pos 7)) empty_context enters refl entered
      (next (integer (pos 3)) is_active leaves refl left stop)

triggers-exits_example :
    triggers (enters ∷ leaves ∷ []) + bit false ≡ exits (enters ∷ leaves ∷ []) + bit false
triggers-exits_example = triggers-exits bytes whole_numbers over_five tt up_and_down

band-hysteresis_example :
    evaluate_band bytes (integer (pos 4)) (integer (pos 5)) (integer (pos 3)) rising true
    ≡ (outcome_of true, true, false)
unfolding compare_values
band-hysteresis_example =
    band-hysteresis bytes (integer (pos 4)) (integer (pos 5)) (integer (pos 3)) rising true
      Ordering.lt Ordering.gt refl refl refl refl

abbrev unresolved : ConditionEvaluation
unresolved = record {
  condition_id = 2 ∷ [];
  outcome = ConditionOutcome.unavailable;
  trigger = false;
  active_before = false;
  active_after = false;
  reference_evidence = some (ConditionReferenceEvidence.unavailable last_accepted_observation);
}

not_resolved :
    evaluate_condition bytes whole_numbers moved_by_two (integer (pos 7)) empty_context
    ≡ ok unresolved
unfolding evaluate_condition evaluate_predicate evaluation_of parse_threshold parse_config_value
    parse_canonical_value_as_policy_value resolve_reference resolve_observation selected_reference
    evaluate_delta_abs configured_reference_evidence configured_reference ConditionOutcome-discrete
not_resolved = refl

event-trigger_example :
    (unresolved.active_after ≡ unresolved.active_before)
    × ((unresolved.trigger ≡ true) ↔ (unresolved.outcome ≡ satisfied))
event-trigger_example =
    event-trigger bytes whole_numbers moved_by_two (integer (pos 7)) empty_context (λ x. x)
      not_resolved

unavailable_evidence-outcome_example : unresolved.outcome ≡ ConditionOutcome.unavailable
unavailable_evidence-outcome_example =
    unavailable_evidence-outcome bytes whole_numbers moved_by_two (integer (pos 7)) empty_context
      last_accepted_observation not_resolved refl

abbrev pub seven : Observation
seven = record {
  raw_selected = 7 ∷ [];
  comparison_projection = 7 ∷ [];
  acquisition_kind = json_pointer;
  parser_id = [];
  parser_grammar_version = 1;
  declared_type = DeclaredType.integer;
  type_params = no_params;
  canonical_value = 7 ∷ [];
  parse_diagnostics = [];
  htmlcut_semantics_version = none;
  plan_digest_sha256 = none;
  htmlcut_candidate_count = none;
  htmlcut_diagnostics = [];
}

evaluated :
    evaluate_conditions bytes whole_numbers seven (λ id. none) ≡ ok (enters ∷ unresolved ∷ [])
unfolding evaluate_conditions evaluate_each observation_matches_contract parse_observation_value
    evaluate_condition evaluate_predicate evaluation_of parse_threshold parse_config_value
    parse_canonical_value_as_policy_value evaluate_ordered compare_values next_level_active
    resolve_reference resolve_observation selected_reference evaluate_delta_abs
    configured_reference_evidence configured_reference DeclaredType-discrete
    ConditionOutcome-discrete
evaluated = refl

evaluate_conditions-NoFault_example :
    NoFault (evaluate_conditions bytes whole_numbers seven (λ id. none))
evaluate_conditions-NoFault_example =
    evaluate_conditions-NoFault bytes bytes-range whole_numbers seven (λ id. none) tt
