-- ===== src/Measurement/Accept.antt =====
-- graph/measurement_state.rs: `apply_accepted_observation`.
pub mod Recorded
pub mod Contexts
pub mod Outcome
use ffhn.Base.{
  ℕ, Bool, true, false, not, Option, none, some, List, [], ◌∷◌, same, list_eq, nat_eq, map, Eq,
  discrete_eq, if◌then◌else◌,
}
use ffhn.Base.Errors.{Text, CoreResult, contract, internal, ok, err, ◌>>=◌, ◌>>◌, ok_or, refuse_if}
use ffhn.Base.Dict.{Dict, get, insert}
use ffhn.Base.Texts.{is_some}
use ffhn.Stamps.{TimeLib}
use ffhn.Identity.{UuidLib, next_u64}
use ffhn.Health.{healthy_extraction}
use ffhn.Policy.Types.{
  Condition, Observation, ConditionContext, ConditionEvaluation, condition_outcome_eq, ValueLib,
}
use ffhn.Policy.Contract.{PolicyContract, observation_matches_contract}
use ffhn.Policy.Evaluate.{evaluate_conditions}
use ffhn.Policy.Validation.{new_condition_id}
use ffhn.State.Facts.{validate_sha256}
use ffhn.Measurement.Document.{
  MeasurementConditionState, MeasurementDocument, MeasurementState, validate_for_measurement,
}
use ffhn.Measurement.Rebase.{DefinitionDigest, rebase_policy}

unfoldable pub required_condition_state :
    Dict MeasurementConditionState → Text → CoreResult MeasurementConditionState
required_condition_state states id =
    ok_or (get id states) (internal "policy rebasing omitted a declared condition")

-- A set of identifiers, as the keys of a map.
abbrev pub IdSet : Type 0
IdSet = Dict (Unit {0})

unfoldable pub collect_ids : IdSet → List Text → CoreResult IdSet
collect_ids ids [] = ok ids
collect_ids ids (name ∷ rest) = do id ← new_condition_id name; collect_ids (insert id tt ids) rest

unfoldable pub require_exact_evaluation_ids : IdSet → IdSet → CoreResult (Unit {0})
require_exact_evaluation_ids expected observed =
    if same (map (λ (id, u). id) expected) (map (λ (id, u). id) observed)
    then ok tt
    else err (
        internal
          "policy evaluation did not produce exactly one result for every declared condition")

module _ (uuids : UuidLib) where
  abbrev pub context_of : MeasurementState uuids → MeasurementConditionState → ConditionContext
  context_of s state = record {
    last_accepted_observation = s.accepted_observation;
    fixed_initial_baseline = state.fixed_initial_baseline;
    last_condition_transition = state.last_condition_transition;
    active = state.active;
  }

  -- The contexts of the declared conditions, collected into a map.
  unfoldable pub collect_contexts :
      MeasurementState uuids
      → Dict ConditionContext
      → List Condition
      → CoreResult (Dict ConditionContext)
  unfolding required_condition_state
  collect_contexts s contexts [] = ok contexts
  collect_contexts s contexts (condition ∷ rest) = do
    id ← new_condition_id condition.condition_id
    state ← required_condition_state s.condition_state id
    collect_contexts s (insert id (context_of s state) contexts) rest

-- What an evaluation makes of the state of its condition.
unfoldable pub record_evaluation :
    Observation → ConditionEvaluation → MeasurementConditionState → MeasurementConditionState
record_evaluation observation evaluation state = record state {
  last_condition_transition =
      if not (same state.result evaluation.outcome)
      then some observation
      else state.last_condition_transition;
  result = evaluation.outcome;
  active = evaluation.active_after;
  fixed_initial_baseline =
      if is_some state.fixed_initial_baseline
      then state.fixed_initial_baseline
      else some observation;
}

unfoldable pub required_condition_state_mut :
    Dict MeasurementConditionState → Text → CoreResult MeasurementConditionState
required_condition_state_mut states id =
    ok_or (get id states) (internal "policy evaluation produced an unknown condition")

-- The state that an evaluation changes, with its identifier.
unfoldable pub evaluated_state :
    Dict MeasurementConditionState → Text → CoreResult (Text × MeasurementConditionState)
unfolding required_condition_state_mut
evaluated_state states name = do
  id ← new_condition_id name
  state ← required_condition_state_mut states id
  ok (id, state)

-- The loop over the evaluations: the states as they are when it stops, and whether it has failed.
unfoldable pub record_each :
    Observation
    → Dict MeasurementConditionState
    → List ConditionEvaluation
    → Dict MeasurementConditionState × CoreResult (Unit {0})
record_each observation states [] = (states, ok tt)
record_each observation states (evaluation ∷ rest) =
    elim (evaluated_state states evaluation.condition_id) [
      | err e ↦ (states, err e)
      | ok (id, state) ↦
          record_each observation
            (insert id (record_evaluation observation evaluation state) states) rest
    ]

module _ (uuids : UuidLib) where
  -- The first checks, before the policy is rebased.
  abbrev pub foreign_digest : Option Text → Text → Bool
  foreign_digest none digest = false
  foreign_digest (some stored) digest = not (same stored digest)

  abbrev pub check_digests : MeasurementState uuids → Text → CoreResult (Unit {0})
  check_digests s digest = do
    validate_sha256 digest
    refuse_if (foreign_digest s.measurement_value_digest digest)
        (contract "measurement state belongs to a different measurement value digest")

  -- The assignments after the loop.
  abbrev pub accepted_state :
      MeasurementState uuids → Observation → Text → ℕ → MeasurementState uuids
  accepted_state s observation digest seq = record s {
    observation_seq = seq;
    accepted_observation = some observation;
    measurement_value_digest = some digest;
    extraction_health = healthy_extraction;
    integration_fault_episode = none;
  }

  abbrev pub next_observation_seq : MeasurementState uuids → CoreResult ℕ
  next_observation_seq s =
      ok_or (next_u64 s.observation_seq) (contract "measurement observation sequence overflowed")

module _ (time : TimeLib) (uuids : UuidLib) (lib : ValueLib)
    (definition_digest : DefinitionDigest) where
  -- From the check of the observation to that of the evaluated identifiers: nothing is assigned.
  unfoldable pub evaluate_accepted :
      MeasurementState uuids
      → MeasurementDocument
      → Observation
      → CoreResult (List ConditionEvaluation)
  unfolding collect_contexts collect_ids require_exact_evaluation_ids
  evaluate_accepted s m observation = do
    refuse_if (not (observation_matches_contract m observation))
        (contract "accepted observation does not match the measurement value contract")
    contexts ← collect_contexts uuids s [] m.conditions
    evaluations ← evaluate_conditions lib m observation (λ id. get id contexts)
    expected ← collect_ids [] (map (λ k. k.condition_id) m.conditions)
    observed ← collect_ids [] (map (λ e. e.condition_id) evaluations)
    require_exact_evaluation_ids expected observed
    ok evaluations

  abbrev pub finish_observation :
      MeasurementDocument
      → Observation
      → Text
      → List ConditionEvaluation
      → MeasurementState uuids
      → CoreResult ℕ
      → MeasurementState uuids × CoreResult (List ConditionEvaluation)
  finish_observation m observation digest evaluations s (err e) = (s, err e)
  finish_observation m observation digest evaluations s (ok seq) =
      let next = accepted_state uuids s observation digest seq in
      (next, validate_for_measurement time uuids lib next m >> ok evaluations)

  -- The loop and the assignments, after an evaluation that returned.
  abbrev pub record_observation :
      MeasurementDocument
      → Observation
      → Text
      → MeasurementState uuids
      → CoreResult (List ConditionEvaluation)
      → MeasurementState uuids × CoreResult (List ConditionEvaluation)
  record_observation m observation digest s (err e) = (s, err e)
  record_observation m observation digest s (ok evaluations) =
      let recorded = record_each observation s.condition_state evaluations in
      let changed : MeasurementState uuids = record s { condition_state = recorded.0 } in
      finish_observation m observation digest evaluations changed
        (recorded.1 >> next_observation_seq uuids changed)

  -- What follows the rebase.
  abbrev pub after_rebase :
      MeasurementDocument
      → Observation
      → Text
      → MeasurementState uuids × CoreResult (Unit {0})
      → MeasurementState uuids × CoreResult (List ConditionEvaluation)
  after_rebase m observation digest (s, err e) = (s, err e)
  after_rebase m observation digest (s, ok u) =
      record_observation m observation digest s (evaluate_accepted s m observation)

  abbrev pub after_checks :
      MeasurementState uuids
      → MeasurementDocument
      → Observation
      → Text
      → CoreResult (Unit {0})
      → MeasurementState uuids × CoreResult (List ConditionEvaluation)
  after_checks s m observation digest (err e) = (s, err e)
  after_checks s m observation digest (ok u) =
      after_rebase m observation digest (rebase_policy time uuids lib definition_digest s m)

  -- `apply_accepted_observation`: what `&mut self` is afterwards, and what the call returns.
  unfoldable pub apply_accepted_observation :
      MeasurementState uuids
      → MeasurementDocument
      → Observation
      → Text
      → MeasurementState uuids × CoreResult (List ConditionEvaluation)
  unfolding evaluate_accepted record_each rebase_policy
  apply_accepted_observation s m observation digest =
      after_checks s m observation digest (check_digests uuids s digest)
