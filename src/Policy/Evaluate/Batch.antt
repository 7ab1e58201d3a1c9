-- ===== src/Policy/Evaluate/Batch.antt =====
-- All conditions of a measurement: one evaluation for each, in order, and no invariant error.
use Prim.Native.String.{String}
use ffhn.Base.{
  ◌≡◌, ap, sym, Bool, true, false, Bool-cases, Option, none, some, List, [], ◌∷◌, map, inl, inr,
  not,
}
use ffhn.Base.Errors.{
  Text, Result, CoreResult, CoreError, contract, policy_invariant, ok, err, ◌>>=◌, >>=-eq-ok,
  map_err, refuse_if,
}
use ffhn.Policy.Types.{
  ConditionPredicate, changed, delta_abs, delta_pct, crosses, lt, gt, band, Condition, Observation,
  ConditionContext, ConditionEvaluation, ConditionReference, ThresholdDirection, ValueLib,
  DecimalRange, empty_context,
}
use ffhn.Policy.Value.{PolicyValue, parse_percentage, parse_observation_value, parse_config_value}
use ffhn.Policy.Value.Decimals.{exact_abs_delta_total, exact_percentage_delta_total}
use ffhn.Policy.Contract.{PolicyContract, selected_reference, observation_matches_contract}
use ffhn.Policy.Evaluate.{
  evaluate_predicate, evaluate_condition, evaluation_of, evaluate_each, evaluate_conditions,
  resolve_observation, resolve_reference, parse_threshold, evaluate_delta_abs, evaluate_delta_pct,
  evaluate_crosses,
}
use ffhn.Policy.Evaluate.Inversion.{evaluate_condition-eq-ok}
use mathlib.Core.Option
use mathlib.Core.Path.{ap₂}

abbrev IsFault : CoreError → Type 0
IsFault (policy_invariant message) = Unit
IsFault _ = ⊥

-- A result that is no fault of the fixed-width proof.
abbrev pub NoFault : {A : Type 0} → CoreResult A → Type 0
NoFault (ok a) = Unit
NoFault (err e) = ¬ IsFault e

then_NoFault :
    {A B : Type 0} (m : CoreResult A) (f : A → CoreResult B)
    → NoFault m
    → ((a : A) → NoFault (f a))
    → NoFault (m >>= f)
then_NoFault (ok a) f h k = k a
then_NoFault (err e) f h k = h

contract_NoFault : {A : Type 0} (r : Result String A) → NoFault (map_err contract r)
contract_NoFault (ok a) = tt
contract_NoFault (err e) = λ f. f

refuse_NoFault :
    (b : Bool) (message : String) → NoFault (refuse_if {E = CoreError} b (contract message))
refuse_NoFault true message = λ f. f
refuse_NoFault false message = tt

module _ (lib : ValueLib) where
  evaluation-id :
      (c : PolicyContract) (condition : Condition) (v : PolicyValue lib)
      (context : ConditionContext) {e : ConditionEvaluation}
      → evaluate_condition lib c condition v context ≡ ok e
      → e.condition_id ≡ condition.condition_id
  unfolding evaluation_of
  evaluation-id c condition v context h =
      let (d, _, made) = evaluate_condition-eq-ok lib c condition v context h in
      ap (λ e. e.condition_id) (sym made)

  each-ids :
      (c : PolicyContract) (v : PolicyValue lib) (contexts : Text → Option ConditionContext)
      (conditions : List Condition) {es : List ConditionEvaluation}
      → evaluate_each lib c v contexts conditions ≡ ok es
      → map (λ e. e.condition_id) es ≡ map (λ k. k.condition_id) conditions
  unfolding evaluate_each
  each-ids c v contexts [] {es} h = cc
  each-ids c v contexts (condition ∷ rest) {es} h =
      let context = Option.get_or (contexts condition.condition_id) empty_context in
      let (e, first, h1) = >>=-eq-ok (evaluate_condition lib c condition v context) _ h in
      let (es', others, h2) = >>=-eq-ok (evaluate_each lib c v contexts rest) _ h1 in
      let joined : e ∷ es' ≡ es = cc h2 in
      rw (← joined)
        (ap₂ ◌∷◌ (evaluation-id c condition v context first) (each-ids c v contexts rest others))

  -- If the evaluation of all conditions returns, it has one evaluation for each declared condition, in
  -- the order of declaration.
  pub evaluate_conditions-ids :
      (c : PolicyContract) (o : Observation) (contexts : Text → Option ConditionContext)
      {es : List ConditionEvaluation}
      → evaluate_conditions lib c o contexts ≡ ok es
      → map (λ e. e.condition_id) es ≡ map (λ k. k.condition_id) c.conditions
  unfolding evaluate_conditions
  evaluate_conditions-ids c o contexts h =
      let (_, _, h1) = >>=-eq-ok (lib.validate_observation o) _ h in
      let (_, _, h2) = >>=-eq-ok (refuse_if (not (observation_matches_contract c o)) _) _ h1 in
      let (v, _, h3) = >>=-eq-ok (map_err contract (parse_observation_value lib o)) _ h2 in
      each-ids c v contexts c.conditions h3

module _ (lib : ValueLib) (range : DecimalRange lib) where
  resolve_NoFault :
      (c : PolicyContract) (o : Option Observation) → NoFault (resolve_observation lib c o)
  unfolding resolve_observation
  resolve_NoFault c none = tt
  resolve_NoFault c (some o) = elim (Bool-cases (observation_matches_contract c o)) [
    | inl e ↦ rw e (
        then_NoFault (map_err contract (parse_observation_value lib o)) _
          (contract_NoFault (parse_observation_value lib o)) (λ v. tt))
    | inr e ↦ rw e tt
  ]

  reference_NoFault :
      (c : PolicyContract) (r : ConditionReference) (context : ConditionContext)
      → NoFault (resolve_reference lib c r context)
  unfolding resolve_reference
  reference_NoFault c r context = resolve_NoFault c (selected_reference r context)

  threshold_NoFault : (c : PolicyContract) (t : Text) → NoFault (parse_threshold lib c t)
  unfolding parse_threshold
  threshold_NoFault c t = contract_NoFault (parse_config_value lib c.declared_type c.type_params t)

  delta_NoFault :
      (v : PolicyValue lib) (o : Option (PolicyValue lib)) (t : PolicyValue lib)
      → NoFault (evaluate_delta_abs lib v o t)
  unfolding evaluate_delta_abs
  delta_NoFault v none t = tt
  delta_NoFault v (some r) t = rw (exact_abs_delta_total lib range v r t).1 tt

  percentage_NoFault :
      (v : PolicyValue lib) (o : Option (PolicyValue lib)) (t : lib.Decimal)
      → NoFault (evaluate_delta_pct lib v o t)
  unfolding evaluate_delta_pct
  percentage_NoFault v none t = tt
  percentage_NoFault v (some r) t = rw (exact_percentage_delta_total lib range v r t).1 tt

  crosses_NoFault :
      (c : PolicyContract) (v : PolicyValue lib) (o : Option Observation) (t : PolicyValue lib)
      (direction : ThresholdDirection)
      → NoFault (evaluate_crosses lib c v o t direction)
  unfolding evaluate_crosses
  crosses_NoFault c v none t direction = tt
  crosses_NoFault c v (some o) t direction = elim (Bool-cases (observation_matches_contract c o)) [
    | inl e ↦ rw e (
        then_NoFault (map_err contract (parse_observation_value lib o)) _
          (contract_NoFault (parse_observation_value lib o)) (λ x. tt))
    | inr e ↦ rw e tt
  ]

  predicate_NoFault :
      (c : PolicyContract) (v : PolicyValue lib) (context : ConditionContext)
      (p : ConditionPredicate)
      → NoFault (evaluate_predicate lib c v context p)
  unfolding evaluate_predicate
  predicate_NoFault c v context (changed r) =
      then_NoFault (resolve_reference lib c r context) _ (reference_NoFault c r context) (λ o. tt)
  predicate_NoFault c v context (delta_abs r t) =
      then_NoFault (resolve_reference lib c r context) _ (reference_NoFault c r context) λ o.
        then_NoFault (parse_threshold lib c t) _ (threshold_NoFault c t)
          λ x. then_NoFault (evaluate_delta_abs lib v o x) _ (delta_NoFault v o x) (λ y. tt)
  predicate_NoFault c v context (delta_pct r t) =
      then_NoFault (resolve_reference lib c r context) _ (reference_NoFault c r context) λ o.
        then_NoFault (map_err contract (parse_percentage lib t)) _
          (contract_NoFault (parse_percentage lib t))
          λ x. then_NoFault (evaluate_delta_pct lib v o x) _ (percentage_NoFault v o x) (λ y. tt)
  predicate_NoFault c v context (crosses t direction) =
      then_NoFault (parse_threshold lib c t) _ (threshold_NoFault c t) λ x.
        then_NoFault (evaluate_crosses lib c v context.last_accepted_observation x direction) _
          (crosses_NoFault c v context.last_accepted_observation x direction) (λ y. tt)
  predicate_NoFault c v context (lt t) =
      then_NoFault (parse_threshold lib c t) _ (threshold_NoFault c t) (λ x. tt)
  predicate_NoFault c v context (gt t) =
      then_NoFault (parse_threshold lib c t) _ (threshold_NoFault c t) (λ x. tt)
  predicate_NoFault c v context (band enter exit direction) =
      then_NoFault (parse_threshold lib c enter) _ (threshold_NoFault c enter)
        λ x. then_NoFault (parse_threshold lib c exit) _ (threshold_NoFault c exit) (λ y. tt)

  condition_NoFault :
      (c : PolicyContract) (condition : Condition) (v : PolicyValue lib)
      (context : ConditionContext)
      → NoFault (evaluate_condition lib c condition v context)
  unfolding evaluate_condition
  condition_NoFault c condition v context =
      then_NoFault (evaluate_predicate lib c v context condition.predicate) _
        (predicate_NoFault c v context condition.predicate) (λ d. tt)

  each_NoFault :
      (c : PolicyContract) (v : PolicyValue lib) (contexts : Text → Option ConditionContext)
      (conditions : List Condition)
      → NoFault (evaluate_each lib c v contexts conditions)
  unfolding evaluate_each
  each_NoFault c v contexts [] = tt
  each_NoFault c v contexts (condition ∷ rest) =
      let context = Option.get_or (contexts condition.condition_id) empty_context in
      then_NoFault (evaluate_condition lib c condition v context) _
        (condition_NoFault c condition v context)
        λ e.
          then_NoFault (evaluate_each lib c v contexts rest) _ (each_NoFault c v contexts rest)
            (λ es. tt)

  -- With decimals in their documented range, and a validation of the observation that reports no
  -- policy-invariant error, the evaluation of all conditions reports none either.
  pub evaluate_conditions-NoFault :
      (c : PolicyContract) (o : Observation) (contexts : Text → Option ConditionContext)
      → NoFault (lib.validate_observation o)
      → NoFault (evaluate_conditions lib c o contexts)
  unfolding evaluate_conditions
  evaluate_conditions-NoFault c o contexts valid =
      then_NoFault (lib.validate_observation o) _ valid λ _.
        then_NoFault (refuse_if (not (observation_matches_contract c o)) _) _
          (refuse_NoFault (not (observation_matches_contract c o)) _)
          λ _.
            then_NoFault (map_err contract (parse_observation_value lib o)) _
              (contract_NoFault (parse_observation_value lib o))
              λ v. each_NoFault c v contexts c.conditions
