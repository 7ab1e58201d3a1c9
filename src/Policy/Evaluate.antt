-- ===== src/Policy/Evaluate.antt =====
-- policy/evaluate/predicates.rs: the evaluation of named conditions against one observation.
mod Inversion
pub mod Levels
pub mod Events
pub mod Batch
use Prim.Native.String.{String}
use mathlib.Core.Option
use ffhn.Base.{
  ◌≡◌, Bool, true, false, ◌&&◌, ◌||◌, Option, none, some, List, [], ◌∷◌, Ordering, same,
  if◌then◌else◌, not,
}
use ffhn.Base.Errors.{
  Text, Result, CoreResult, CoreError, contract, policy_invariant, ok, err, ◌>>=◌, ◌>>◌, refuse_if,
  map_err,
}
use ffhn.Exact.Decimal.{
  ExactNumericInvariantError, alignment_scale_regression, width_proof_violation, Checked,
}
use ffhn.Policy.Types.{
  DeclaredType, declared_type_eq, TypeParams, same_params, Observation, ConditionReference,
  last_accepted_observation, fixed_initial_baseline, last_condition_transition, ThresholdDirection,
  rising, falling, ConditionPredicate, changed, delta_abs, delta_pct, crosses, lt, gt, band,
  Condition, ConditionOutcome, satisfied, not_satisfied, arithmetic_overflow, zero_reference,
  condition_outcome_eq, ConditionContext, empty_context, ConditionReferenceEvidence, resolved,
  ConditionEvaluation, ValueLib,
}
use ffhn.Policy.Value.{
  ArithmeticResult, decision, PolicyValue, compare_values, canonical_identity_eq,
  exact_abs_delta_at_least, exact_percentage_delta_at_least, parse_config_value,
  parse_observation_value, parse_percentage,
}
use ffhn.Policy.Contract.{
  PolicyContract, unavailable, display, is_lt, is_gt, observation_matches_contract,
  arithmetic_outcome, next_level_active, outcome_of, selected_reference, configured_reference,
  evidence_of, configured_reference_evidence,
}

module _ (lib : ValueLib) where
  open lib use {Decimal, validate_observation}

  unfoldable pub resolve_observation :
      PolicyContract → Option Observation → CoreResult (Option (PolicyValue lib))
  resolve_observation c none = ok none
  resolve_observation c (some value) =
      if observation_matches_contract c value
      then map_err contract (parse_observation_value lib value) >>= (λ v. ok (some v))
      else ok none

  unfoldable pub resolve_reference :
      PolicyContract → ConditionReference → ConditionContext → CoreResult (Option (PolicyValue lib))
  unfolding selected_reference resolve_observation
  resolve_reference c reference context =
      resolve_observation c (selected_reference reference context)

  unfoldable pub parse_threshold : PolicyContract → Text → CoreResult (PolicyValue lib)
  parse_threshold c threshold =
      map_err contract (parse_config_value lib c.declared_type c.type_params threshold)

  unfoldable pub evaluate_changed : PolicyValue lib → Option (PolicyValue lib) → ConditionOutcome
  evaluate_changed current none = unavailable
  evaluate_changed current (some reference) =
      if canonical_identity_eq lib current reference then not_satisfied else satisfied

  abbrev pub arithmetic_step : Checked ArithmeticResult → CoreResult ConditionOutcome
  arithmetic_step result =
      map_err (λ e. policy_invariant (display e)) result >>= (λ r. ok (arithmetic_outcome r))

  unfoldable pub evaluate_delta_abs :
      PolicyValue lib → Option (PolicyValue lib) → PolicyValue lib → CoreResult ConditionOutcome
  evaluate_delta_abs current none threshold = ok unavailable
  evaluate_delta_abs current (some reference) threshold =
      arithmetic_step (exact_abs_delta_at_least lib current reference threshold)

  unfoldable pub evaluate_delta_pct :
      PolicyValue lib → Option (PolicyValue lib) → Decimal → CoreResult ConditionOutcome
  evaluate_delta_pct current none percentage = ok unavailable
  evaluate_delta_pct current (some reference) percentage =
      arithmetic_step (exact_percentage_delta_at_least lib current reference percentage)

  abbrev pub crossed : ThresholdDirection → Ordering → Ordering → Bool
  crossed rising previous current = is_lt previous && not (is_lt current)
  crossed falling previous current = is_gt previous && not (is_gt current)

  -- The outcome from the two comparisons with the threshold, either of which may be missing.
  abbrev pub crossing : ThresholdDirection → Option Ordering → Option Ordering → ConditionOutcome
  crossing direction none current = unavailable
  crossing direction (some previous) none = unavailable
  crossing direction (some previous) (some current) =
      outcome_of (crossed direction previous current)

  unfoldable pub evaluate_crosses :
      PolicyContract
      → PolicyValue lib
      → Option Observation
      → PolicyValue lib
      → ThresholdDirection
      → CoreResult ConditionOutcome
  evaluate_crosses c current none threshold direction = ok unavailable
  evaluate_crosses c current (some previous) threshold direction =
      if not (observation_matches_contract c previous)
      then ok unavailable
      else map_err contract (parse_observation_value lib previous) >>= λ value. ok (
          crossing direction (compare_values lib value threshold)
            (compare_values lib current threshold))

  abbrev pub ordered_outcome : (Ordering → Bool) → Option Ordering → ConditionOutcome
  ordered_outcome predicate none = unavailable
  ordered_outcome predicate (some order) = outcome_of (predicate order)

  unfoldable pub evaluate_ordered :
      PolicyValue lib → PolicyValue lib → (Ordering → Bool) → ConditionOutcome
  evaluate_ordered current threshold predicate =
      ordered_outcome predicate (compare_values lib current threshold)

  abbrev pub inside_band : ThresholdDirection → Ordering → Bool
  inside_band rising order = not (is_lt order)
  inside_band falling order = not (is_gt order)

  unfoldable pub evaluate_band :
      PolicyValue lib
      → PolicyValue lib
      → PolicyValue lib
      → ThresholdDirection
      → Bool
      → ConditionOutcome × Bool × Bool
  unfolding next_level_active
  evaluate_band current enter exit direction was_active =
      let threshold = if was_active then exit else enter in
      let outcome =
        ordered_outcome (inside_band direction) (compare_values lib current threshold) in
      (outcome, next_level_active outcome was_active, false)

  -- The `match` of `evaluate_condition`: the outcome, the next level, and whether the predicate is
  -- an event.
  unfoldable pub evaluate_predicate :
      PolicyContract
      → PolicyValue lib
      → ConditionContext
      → ConditionPredicate
      → CoreResult (ConditionOutcome × Bool × Bool)
  unfolding resolve_reference parse_threshold evaluate_changed evaluate_delta_abs evaluate_delta_pct
      evaluate_crosses evaluate_ordered evaluate_band next_level_active
  evaluate_predicate c current context (changed reference) = do
    previous ← resolve_reference c reference context
    ok (evaluate_changed current previous, context.active, true)
  evaluate_predicate c current context (delta_abs reference threshold) = do
    previous ← resolve_reference c reference context
    limit ← parse_threshold c threshold
    outcome ← evaluate_delta_abs current previous limit
    ok (outcome, context.active, true)
  evaluate_predicate c current context (delta_pct reference threshold) = do
    previous ← resolve_reference c reference context
    percentage ← map_err contract (parse_percentage lib threshold)
    outcome ← evaluate_delta_pct current previous percentage
    ok (outcome, context.active, true)
  evaluate_predicate c current context (crosses threshold direction) = do
    limit ← parse_threshold c threshold
    outcome ← evaluate_crosses c current context.last_accepted_observation limit direction
    ok (outcome, context.active, true)
  evaluate_predicate c current context (lt threshold) = do
    limit ← parse_threshold c threshold
    let outcome = evaluate_ordered current limit is_lt
    ok (outcome, next_level_active outcome context.active, false)
  evaluate_predicate c current context (gt threshold) = do
    limit ← parse_threshold c threshold
    let outcome = evaluate_ordered current limit is_gt
    ok (outcome, next_level_active outcome context.active, false)
  evaluate_predicate c current context (band enter_threshold exit_threshold direction) = do
    enter ← parse_threshold c enter_threshold
    exit ← parse_threshold c exit_threshold
    ok (evaluate_band current enter exit direction context.active)

  -- The record that `evaluate_condition` returns.
  unfoldable pub evaluation_of :
      PolicyContract
      → Condition
      → ConditionContext
      → ConditionOutcome × Bool × Bool
      → ConditionEvaluation
  evaluation_of c condition context (outcome, active_after, event_predicate) = record {
    condition_id = condition.condition_id;
    outcome = outcome;
    trigger =
        if event_predicate
        then same outcome satisfied
        else same outcome satisfied && not context.active;
    active_before = context.active;
    active_after = active_after;
    reference_evidence = configured_reference_evidence c condition.predicate context;
  }

  unfoldable pub evaluate_condition :
      PolicyContract
      → Condition
      → PolicyValue lib
      → ConditionContext
      → CoreResult ConditionEvaluation
  evaluate_condition c condition current context = do
    decided ← evaluate_predicate c current context condition.predicate
    ok (evaluation_of c condition context decided)

  -- The contexts are a map from condition identifiers; a missing one is `ConditionContext::empty`.
  unfoldable pub evaluate_each :
      PolicyContract
      → PolicyValue lib
      → (Text → Option ConditionContext)
      → List Condition
      → CoreResult (List ConditionEvaluation)
  evaluate_each c current contexts [] = ok []
  evaluate_each c current contexts (condition ∷ rest) = do
    evaluation ←
        evaluate_condition c condition current
          (Option.get_or (contexts condition.condition_id) empty_context)
    evaluations ← evaluate_each c current contexts rest
    ok (evaluation ∷ evaluations)

  unfoldable pub evaluate_conditions :
      PolicyContract
      → Observation
      → (Text → Option ConditionContext)
      → CoreResult (List ConditionEvaluation)
  evaluate_conditions c observation contexts = do
    validate_observation observation
    refuse_if (not (observation_matches_contract c observation))
        (contract "policy observation must use the measurement declared_type and type_params")
    current ← map_err contract (parse_observation_value lib observation)
    evaluate_each c current contexts c.conditions
