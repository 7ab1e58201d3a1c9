-- ===== src/Policy/Evaluate/Events.antt =====
-- Event predicates (`changed`, `delta_abs`, `delta_pct`, `crosses`): they keep no state, and they
-- report the reference that they compared with.
use mathlib.Core.Option.{some-injective}
use ffhn.Base.{◌≡◌, ◌↔◌, refl, sym, ◌∙◌, Bool, true, Option, none, some, arith}
use ffhn.Base.Errors.{ok, map_err, contract, >>=-eq-ok}
use ffhn.Policy.Types.{
  ConditionPredicate, changed, delta_abs, delta_pct, crosses, lt, gt, band, Condition,
  ConditionOutcome, satisfied, condition_outcome_eq, ConditionContext, ConditionEvaluation,
  ConditionReference, ConditionReferenceEvidence, ValueLib, Observation, last_accepted_observation,
  ThresholdDirection,
}
use ffhn.Policy.Value.{PolicyValue, parse_percentage}
use ffhn.Policy.Contract.{
  PolicyContract, configured_reference_evidence, selected_reference, evidence_of, unavailable,
}
use ffhn.Policy.Evaluate.{
  evaluate_predicate, evaluate_condition, evaluation_of, resolve_observation, resolve_reference,
  evaluate_changed, evaluate_delta_abs, evaluate_delta_pct, evaluate_crosses, parse_threshold,
}
use ffhn.Policy.Evaluate.Inversion.{evaluate_condition-eq-ok}
use ffhn.Policy.Evaluate.Levels.{IsLevel}

module _ (lib : ValueLib) where
  event_step :
      (c : PolicyContract) (v : PolicyValue lib) (context : ConditionContext)
      (p : ConditionPredicate) {d : ConditionOutcome × Bool × Bool}
      → ¬ IsLevel p
      → evaluate_predicate lib c v context p ≡ ok d
      → (d.1 ≡ context.active) × (d.2 ≡ true)
  unfolding evaluate_predicate
  event_step c v context (lt threshold) l h = absurd (l tt)
  event_step c v context (gt threshold) l h = absurd (l tt)
  event_step c v context (band enter exit direction) l h = absurd (l tt)
  event_step c v context (changed reference) l h =
      let (o, _, k) = >>=-eq-ok (resolve_reference lib c reference context) _ h in (cc k, cc k)
  event_step c v context (delta_abs reference threshold) l h =
      let (o, _, k) = >>=-eq-ok (resolve_reference lib c reference context) _ h in
      let (t, _, k') = >>=-eq-ok (parse_threshold lib c threshold) _ k in
      let (r, _, k'') = >>=-eq-ok (evaluate_delta_abs lib v o t) _ k' in (cc k'', cc k'')
  event_step c v context (delta_pct reference threshold) l h =
      let (o, _, k) = >>=-eq-ok (resolve_reference lib c reference context) _ h in
      let (t, _, k') = >>=-eq-ok (map_err contract (parse_percentage lib threshold)) _ k in
      let (r, _, k'') = >>=-eq-ok (evaluate_delta_pct lib v o t) _ k' in (cc k'', cc k'')
  event_step c v context (crosses threshold direction) l h =
      let (t, _, k) = >>=-eq-ok (parse_threshold lib c threshold) _ h in
      let (r, _, k') =
        >>=-eq-ok (evaluate_crosses lib c v context.last_accepted_observation t direction) _ k in
      (cc k', cc k')

  event_evaluation :
      (c : PolicyContract) (condition : Condition) (context : ConditionContext)
      (d : ConditionOutcome × Bool × Bool)
      → (d.1 ≡ context.active) × (d.2 ≡ true)
      → let e = evaluation_of lib c condition context d in
        (e.active_after ≡ e.active_before) × ((e.trigger ≡ true) ↔ (e.outcome ≡ satisfied))
  unfolding evaluation_of
  event_evaluation c condition context (o, after, event) f = (f.0, (ground arith, ground arith))

  -- An evaluation of an event condition, if it returns, leaves the state of the condition as it was,
  -- and triggers exactly where it is satisfied, active or not.
  pub event-trigger :
      (c : PolicyContract) (condition : Condition) (v : PolicyValue lib)
      (context : ConditionContext) {e : ConditionEvaluation}
      → ¬ IsLevel condition.predicate
      → evaluate_condition lib c condition v context ≡ ok e
      → (e.active_after ≡ e.active_before) × ((e.trigger ≡ true) ↔ (e.outcome ≡ satisfied))
  event-trigger c condition v context l h =
      let (d, decided, made) = evaluate_condition-eq-ok lib c condition v context h in
      rw (← made) (
        event_evaluation c condition context d
          (event_step c v context condition.predicate l decided))

  -- Evidence without a value means that nothing was resolved.
  unresolved :
      (c : PolicyContract) (r r' : ConditionReference) (o : Option Observation)
      → evidence_of c r o ≡ ConditionReferenceEvidence.unavailable r'
      → resolve_observation lib c o ≡ ok none
  unfolding resolve_observation
  unresolved c r r' none h = refl
  unresolved c r r' (some o) h = ground arith

  no_reference :
      (c : PolicyContract) (r r' : ConditionReference) (context : ConditionContext)
      {o : Option (PolicyValue lib)}
      → evidence_of c r (selected_reference r context) ≡ ConditionReferenceEvidence.unavailable r'
      → resolve_reference lib c r context ≡ ok o
      → o ≡ none
  unfolding resolve_reference
  no_reference c r r' context h k = cc (unresolved c r r' (selected_reference r context) h)

  changed_none :
      (v : PolicyValue lib) (o : Option (PolicyValue lib))
      → o ≡ none
      → evaluate_changed lib v o ≡ unavailable
  unfolding evaluate_changed
  changed_none v o h = rw h refl

  delta_none :
      (v : PolicyValue lib) (o : Option (PolicyValue lib)) (t : PolicyValue lib)
      → o ≡ none
      → evaluate_delta_abs lib v o t ≡ ok unavailable
  unfolding evaluate_delta_abs
  delta_none v o t h = rw h refl

  percentage_none :
      (v : PolicyValue lib) (o : Option (PolicyValue lib)) (t : lib.Decimal)
      → o ≡ none
      → evaluate_delta_pct lib v o t ≡ ok unavailable
  unfolding evaluate_delta_pct
  percentage_none v o t h = rw h refl

  crosses_none :
      (c : PolicyContract) (v : PolicyValue lib) (o : Option Observation) (t : PolicyValue lib)
      (direction : ThresholdDirection) (r r' : ConditionReference)
      → evidence_of c r o ≡ ConditionReferenceEvidence.unavailable r'
      → evaluate_crosses lib c v o t direction ≡ ok unavailable
  unfolding evaluate_crosses
  crosses_none c v none t direction r r' h = refl
  crosses_none c v (some o) t direction r r' h = ground arith

  -- The step of a predicate whose reference has no value.
  unavailable_step :
      (c : PolicyContract) (v : PolicyValue lib) (context : ConditionContext)
      (p : ConditionPredicate) {d : ConditionOutcome × Bool × Bool} (r : ConditionReference)
      → configured_reference_evidence c p context ≡ some (ConditionReferenceEvidence.unavailable r)
      → evaluate_predicate lib c v context p ≡ ok d
      → d.0 ≡ unavailable
  unfolding evaluate_predicate configured_reference_evidence
  unavailable_step c v context (lt threshold) r h k = cc
  unavailable_step c v context (gt threshold) r h k = cc
  unavailable_step c v context (band enter exit direction) r h k = cc
  unavailable_step c v context (changed reference) r h k =
      let (o, e, k') = >>=-eq-ok (resolve_reference lib c reference context) _ k in
      cc (changed_none v o (no_reference c reference r context (some-injective _ _ h) e), k')
  unavailable_step c v context (delta_abs reference threshold) r h k =
      let (o, e, k1) = >>=-eq-ok (resolve_reference lib c reference context) _ k in
      let (t, _, k2) = >>=-eq-ok (parse_threshold lib c threshold) _ k1 in
      let (x, e3, k3) = >>=-eq-ok (evaluate_delta_abs lib v o t) _ k2 in
      cc (delta_none v o t (no_reference c reference r context (some-injective _ _ h) e), e3, k3)
  unavailable_step c v context (delta_pct reference threshold) r h k =
      let (o, e, k1) = >>=-eq-ok (resolve_reference lib c reference context) _ k in
      let (t, _, k2) = >>=-eq-ok (map_err contract (parse_percentage lib threshold)) _ k1 in
      let (x, e3, k3) = >>=-eq-ok (evaluate_delta_pct lib v o t) _ k2 in
      cc (
        percentage_none v o t (no_reference c reference r context (some-injective _ _ h) e),
        e3,
        k3,
      )
  unavailable_step c v context (crosses threshold direction) r h k =
      let o = context.last_accepted_observation in
      let (t, _, k1) = >>=-eq-ok (parse_threshold lib c threshold) _ k in
      let (x, e2, k2) = >>=-eq-ok (evaluate_crosses lib c v o t direction) _ k1 in
      cc (crosses_none c v o t direction last_accepted_observation r (some-injective _ _ h), e2, k2)

  evidence_kept :
      (c : PolicyContract) (condition : Condition) (context : ConditionContext)
      (d : ConditionOutcome × Bool × Bool)
      → let e = evaluation_of lib c condition context d in
        (e.outcome ≡ d.0)
        × (e.reference_evidence ≡ configured_reference_evidence c condition.predicate context)
  unfolding evaluation_of
  evidence_kept c condition context (o, after, event) = (refl, refl)

  -- Where an evaluation returns and its evidence says that the configured reference has no usable
  -- value, the outcome is `unavailable`.
  pub unavailable_evidence-outcome :
      (c : PolicyContract) (condition : Condition) (v : PolicyValue lib)
      (context : ConditionContext) {e : ConditionEvaluation} (r : ConditionReference)
      → evaluate_condition lib c condition v context ≡ ok e
      → e.reference_evidence ≡ some (ConditionReferenceEvidence.unavailable r)
      → e.outcome ≡ unavailable
  unavailable_evidence-outcome c condition v context {e} r h k =
      let (d, decided, made) = evaluate_condition-eq-ok lib c condition v context h in
      let kept = evidence_kept c condition context d in
      let outcome : d.0 ≡ e.outcome = cc (kept.0, made) in
      let evidence : configured_reference_evidence c condition.predicate context
          ≡ some (ConditionReferenceEvidence.unavailable r) =
        cc (kept.1, made, k) in
      sym outcome ∙ unavailable_step c v context condition.predicate r evidence decided
