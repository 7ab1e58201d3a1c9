-- ===== src/Policy/Contract.antt =====
-- policy/evaluate/predicates.rs: the contract of a measurement, the outcomes, and the references of a
-- condition with their evidence.
use Prim.Native.String.{String}
use ffhn.Base.{Bool, true, false, ◌&&◌, Option, none, some, List, Ordering, same, if◌then◌else◌}
use ffhn.Exact.Decimal.{
  ExactNumericInvariantError, alignment_scale_regression, width_proof_violation,
}
use ffhn.Policy.Types.{
  DeclaredType, declared_type_eq, TypeParams, same_params, Observation, ConditionReference,
  last_accepted_observation, fixed_initial_baseline, last_condition_transition, ConditionPredicate,
  changed, delta_abs, delta_pct, crosses, Condition, ConditionOutcome, satisfied, not_satisfied,
  arithmetic_overflow, zero_reference, condition_outcome_eq, ConditionContext,
  ConditionReferenceEvidence, resolved,
}
use ffhn.Policy.Value.{ArithmeticResult, decision}

-- The borrowed typed-policy contract of one measurement.
pub record PolicyContract : Type 0 where
  pub declared_type : DeclaredType
  pub type_params : TypeParams
  pub conditions : List Condition

abbrev pub unavailable : ConditionOutcome
unavailable = ConditionOutcome.unavailable

-- `Display` of the invariant errors.
abbrev pub display : ExactNumericInvariantError → String
display alignment_scale_regression =
    "decimal comparison attempted to align an operand to a smaller scale"
display width_proof_violation = "decimal comparison exceeded the documented Unsigned320 width proof"

-- The predicates of `Ordering`.
abbrev pub is_lt : Ordering → Bool
is_lt Ordering.lt = true
is_lt _ = false

abbrev pub is_gt : Ordering → Bool
is_gt Ordering.gt = true
is_gt _ = false

unfoldable pub observation_matches_contract : PolicyContract → Observation → Bool
observation_matches_contract c o =
    same o.declared_type c.declared_type && same_params o.type_params c.type_params

unfoldable pub arithmetic_outcome : ArithmeticResult → ConditionOutcome
arithmetic_outcome (decision true) = satisfied
arithmetic_outcome (decision false) = not_satisfied
arithmetic_outcome ArithmeticResult.unavailable = unavailable
arithmetic_outcome ArithmeticResult.overflow = arithmetic_overflow
arithmetic_outcome ArithmeticResult.zero_reference = zero_reference

unfoldable pub next_level_active : ConditionOutcome → Bool → Bool
next_level_active satisfied was_active = true
next_level_active not_satisfied was_active = false
next_level_active _ was_active = was_active

-- `if test { Satisfied } else { NotSatisfied }`.
abbrev pub outcome_of : Bool → ConditionOutcome
outcome_of b = if b then satisfied else not_satisfied

-- The `match` on the configured reference.
unfoldable pub selected_reference : ConditionReference → ConditionContext → Option Observation
selected_reference last_accepted_observation context = context.last_accepted_observation
selected_reference fixed_initial_baseline context = context.fixed_initial_baseline
selected_reference last_condition_transition context = context.last_condition_transition

-- The reference that a predicate compares with, if it has one.
unfoldable pub configured_reference : ConditionPredicate → Option ConditionReference
configured_reference (changed reference) = some reference
configured_reference (delta_abs reference threshold) = some reference
configured_reference (delta_pct reference threshold) = some reference
configured_reference (crosses threshold direction) = some last_accepted_observation
configured_reference _ = none

abbrev pub evidence_of :
    PolicyContract → ConditionReference → Option Observation → ConditionReferenceEvidence
evidence_of c reference none = ConditionReferenceEvidence.unavailable reference
evidence_of c reference (some o) =
    if observation_matches_contract c o
    then resolved reference o.canonical_value
    else ConditionReferenceEvidence.unavailable reference

unfoldable pub configured_reference_evidence :
    PolicyContract → ConditionPredicate → ConditionContext → Option ConditionReferenceEvidence
unfolding configured_reference selected_reference
configured_reference_evidence c predicate context = elim (configured_reference predicate) [
  | none ↦ none
  | some reference ↦ some (evidence_of c reference (selected_reference reference context))
]
