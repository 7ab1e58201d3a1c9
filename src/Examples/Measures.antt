-- ===== src/Examples/Measures.antt =====
-- The validation of conditions and the state of a measurement at concrete inputs.
use ffhn.Base.{
  ◌+◌, ◌≡◌, refl, true, false, none, some, List, [], ◌∷◌, All, replicate, nat_eq, option_eq,
  list_eq,
}
use ffhn.Base.Int.{pos}
use ffhn.Base.Errors.{Text, ok}
use ffhn.Base.Dict.{Dict, get, insert, insert_at, cmp_text}
use ffhn.Identity.{validate_instance_id, is_alphanumeric, is_separator}
use ffhn.Health.{ExtractionFailureReason, healthy_extraction, validate_extraction}
use ffhn.Policy.Types.{
  DeclaredType-discrete, Observation-discrete, ConditionOutcome-discrete, gt, Condition, satisfied,
  ConditionEvaluation, ConditionContext,
}
use ffhn.Policy.Value.{
  compare_values, is_negative_numeric, parse_config_value, parse_observation_value,
  parse_canonical_value_as_policy_value, integer,
}
use ffhn.Policy.Contract.{
  next_level_active, configured_reference, configured_reference_evidence,
  observation_matches_contract,
}
use ffhn.Policy.Evaluate.{
  evaluate_conditions, evaluate_each, evaluate_condition, evaluate_predicate, evaluation_of,
  evaluate_ordered, parse_threshold,
}
use ffhn.Policy.Validation.{
  invalid_condition_id, new_condition_id, require_ordered, require_numeric,
  parse_condition_threshold, check_predicate, validate_predicate, validate_each,
  validate_conditions,
}
use ffhn.Policy.Validation.Panics.{NoPanic, validate_conditions-NoPanic}
use ffhn.Policy.Validation.Progress.{Answers, evaluate_conditions-progress}
use ffhn.Policy.Validation.Unique.{is_declared}
use ffhn.State.Facts.{validate_sha256}
use ffhn.Measurement.Document.{
  MeasurementState, MeasurementConditionState-discrete, MeasurementDocument, fresh, validate_state,
  validate_condition_state, validate_for_measurement,
}
use ffhn.Measurement.Rebase.{
  DefinitionDigest, condition_definition_digests, digest_map, required_definition_digest,
  rebased_condition_state, rebase_each, rebased, rebase_policy,
}
use ffhn.Measurement.Rebase.Stable.{rebase_policy-idempotent}
use ffhn.Measurement.Rebase.Kept.{IsRebased, rebase_policy-IsRebased}
use ffhn.Measurement.Accept.{
  required_condition_state, collect_ids, require_exact_evaluation_ids, collect_contexts,
  record_evaluation, required_condition_state_mut, evaluated_state, record_each, evaluate_accepted,
  apply_accepted_observation,
}
use ffhn.Measurement.Accept.Recorded.{IsRecorded}
use ffhn.Measurement.Accept.Contexts.{HasContext}
use ffhn.Measurement.Accept.Outcome.{apply_accepted_observation-IsRecorded}
use ffhn.Measurement.Failures.{apply_extraction_failure}
use ffhn.Measurement.Failures.Atomic.{IsAtomic, apply_extraction_failure-IsAtomic}
use ffhn.Examples.Rules.{bytes, bytes-range, whole_numbers, seven}
use ffhn.Examples.States.{clock, numbers}

validate_conditions-NoPanic_example : NoPanic (
    validate_conditions bytes whole_numbers.declared_type whole_numbers.type_params
      whole_numbers.conditions)
validate_conditions-NoPanic_example =
    validate_conditions-NoPanic bytes whole_numbers.declared_type whole_numbers.type_params
      whole_numbers.conditions

whole_numbers-valid :
    validate_conditions bytes whole_numbers.declared_type whole_numbers.type_params
      whole_numbers.conditions
    ≡ ok tt
unfolding validate_conditions validate_each validate_predicate check_predicate require_ordered
    require_numeric parse_condition_threshold parse_config_value
    parse_canonical_value_as_policy_value is_negative_numeric DeclaredType-discrete
whole_numbers-valid = refl

seven-matches : observation_matches_contract whole_numbers seven ≡ true
unfolding observation_matches_contract DeclaredType-discrete
seven-matches = refl

seven-read : parse_observation_value bytes seven ≡ ok (integer (pos 7))
unfolding parse_observation_value parse_canonical_value_as_policy_value
seven-read = refl

evaluate_conditions-progress_example :
    (es : List ConditionEvaluation) × (evaluate_conditions bytes whole_numbers seven (λ id. none)
      ≡ ok es)
    × Answers whole_numbers.conditions es
evaluate_conditions-progress_example =
    evaluate_conditions-progress bytes bytes-range whole_numbers seven (λ id. none)
      whole_numbers-valid refl seven-matches (_, seven-read) (λ id context h. absurd (cc (h)))

-- A measurement with one condition, all of whose digests are the same.
abbrev digest : Text
digest = replicate 64 b'a'

abbrev same_digest : DefinitionDigest
same_digest = λ declared params k. ok digest

abbrev above_five : Condition
above_five = record { condition_id = b'h' ∷ b'i' ∷ []; predicate = gt (5 ∷ []) }

abbrev measured : MeasurementDocument
measured = record whole_numbers { conditions = above_five ∷ [] }

abbrev start : MeasurementState numbers
start = fresh clock numbers bytes 7 8

abbrev rebased_start : MeasurementState numbers
rebased_start = (rebase_policy clock numbers bytes same_digest start measured).0

measured-valid :
    validate_conditions bytes measured.declared_type measured.type_params measured.conditions
    ≡ ok tt
unfolding validate_conditions validate_each validate_predicate check_predicate require_ordered
    parse_condition_threshold parse_config_value parse_canonical_value_as_policy_value
    DeclaredType-discrete
measured-valid = refl

start-rebased :
    rebase_policy clock numbers bytes same_digest start measured ≡ (rebased_start, ok tt)
unfolding rebase_policy rebased condition_definition_digests digest_map required_definition_digest
    rebased_condition_state rebase_each new_condition_id invalid_condition_id is_alphanumeric
    is_separator validate_for_measurement validate_state validate_condition_state fresh
    validate_instance_id validate_extraction validate_sha256 insert insert_at cmp_text
    MeasurementConditionState-discrete Observation-discrete ConditionOutcome-discrete
start-rebased = refl

rebase_policy-idempotent_example :
    rebase_policy clock numbers bytes same_digest rebased_start measured ≡ (rebased_start, ok tt)
rebase_policy-idempotent_example =
    rebase_policy-idempotent clock numbers bytes same_digest start rebased_start measured
      measured-valid start-rebased

rebase_policy-IsRebased_example :
    (pairs : List (Text × Text)) × (digests : Dict Text) × (condition_definition_digests same_digest
        measured measured.conditions
      ≡ ok pairs)
    × (digest_map [] pairs ≡ ok digests)
    × ((id : Text)
        → is_declared id measured.conditions ≡ true
        → IsRebased clock numbers bytes same_digest start.condition_state digests
            rebased_start.condition_state id)
    × ((id : Text)
        → is_declared id measured.conditions ≡ false
        → get id rebased_start.condition_state ≡ none)
    × ((rebased_start.accepted_observation ≡ start.accepted_observation)
        × (rebased_start.observation_seq ≡ start.observation_seq)
        × (rebased_start.measurement_value_digest ≡ start.measurement_value_digest))
rebase_policy-IsRebased_example =
    rebase_policy-IsRebased clock numbers bytes same_digest start rebased_start measured
      start-rebased

abbrev observed : MeasurementState numbers
observed =
    (apply_accepted_observation clock numbers bytes same_digest start measured seven digest).0

abbrev satisfied_above : ConditionEvaluation
satisfied_above = record {
  condition_id = b'h' ∷ b'i' ∷ [];
  outcome = satisfied;
  trigger = true;
  active_before = false;
  active_after = true;
  reference_evidence = none;
}

start-observed :
    apply_accepted_observation clock numbers bytes same_digest start measured seven digest
    ≡ (observed, ok (satisfied_above ∷ []))
unfolding apply_accepted_observation evaluate_accepted collect_contexts collect_ids
    require_exact_evaluation_ids required_condition_state required_condition_state_mut
    evaluated_state record_evaluation record_each rebase_policy rebased condition_definition_digests
    digest_map required_definition_digest rebased_condition_state rebase_each new_condition_id
    invalid_condition_id is_alphanumeric is_separator validate_for_measurement validate_state
    validate_condition_state fresh validate_instance_id validate_extraction validate_sha256 insert
    insert_at cmp_text MeasurementConditionState-discrete Observation-discrete
    ConditionOutcome-discrete evaluate_conditions evaluate_each observation_matches_contract
    parse_observation_value evaluate_condition evaluate_predicate evaluation_of parse_threshold
    parse_config_value parse_canonical_value_as_policy_value evaluate_ordered compare_values
    next_level_active configured_reference_evidence configured_reference DeclaredType-discrete
start-observed = refl

apply_accepted_observation-IsRecorded_example :
    (u : MeasurementState numbers) × (contexts : Dict ConditionContext) × (rebase_policy clock
        numbers bytes same_digest start measured
      ≡ (u, ok tt))
    × ((id : Text) → is_declared id measured.conditions ≡ true → HasContext numbers u contexts id)
    × (evaluate_conditions bytes measured seven (λ id. get id contexts) ≡ ok (satisfied_above ∷ []))
    × All (IsRecorded seven u.condition_state observed.condition_state) (satisfied_above ∷ [])
    × ((observed.observation_seq ≡ start.observation_seq + 1)
        × (observed.accepted_observation ≡ some seven)
        × (observed.measurement_value_digest ≡ some digest)
        × (observed.extraction_health ≡ healthy_extraction)
        × (observed.integration_fault_episode ≡ none))
    × (validate_for_measurement clock numbers bytes observed measured ≡ ok tt)
apply_accepted_observation-IsRecorded_example =
    apply_accepted_observation-IsRecorded clock numbers bytes same_digest start observed measured
      seven digest (satisfied_above ∷ []) measured-valid start-observed

start-valid : validate_state clock numbers bytes start ≡ ok tt
unfolding validate_state fresh validate_instance_id validate_extraction
start-valid = refl

apply_extraction_failure-IsAtomic_example : IsAtomic clock numbers bytes start (
    apply_extraction_failure clock numbers bytes start ExtractionFailureReason.htmlcut_no_match
      (3 ∷ [])
      2)
apply_extraction_failure-IsAtomic_example =
    apply_extraction_failure-IsAtomic clock numbers bytes start
      ExtractionFailureReason.htmlcut_no_match (3 ∷ []) 2 start-valid
