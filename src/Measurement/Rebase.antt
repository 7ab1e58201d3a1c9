-- ===== src/Measurement/Rebase.antt =====
-- graph/measurement_state.rs: `rebase_policy`, which follows edited definitions of conditions.
pub mod Loop
pub mod Stable
pub mod Kept
use ffhn.Base.{
  ℕ, Bool, true, false, not, Option, none, some, List, [], ◌∷◌, same, list_eq, nat_eq,
  if◌then◌else◌,
}
use ffhn.Base.Errors.{Text, CoreResult, contract, internal, ok, err, ◌>>=◌, ◌>>◌, ok_or}
use ffhn.Base.Dict.{Dict, get, insert}
use ffhn.Stamps.{TimeLib}
use ffhn.Identity.{UuidLib, next_u64}
use ffhn.Policy.Types.{
  DeclaredType, TypeParams, Condition, Observation, not_satisfied, ConditionContext,
  ConditionEvaluation, ValueLib,
}
use ffhn.Policy.Contract.{PolicyContract}
use ffhn.Policy.Evaluate.{evaluate_conditions}
use ffhn.Policy.Validation.{new_condition_id}
use ffhn.Measurement.Document.{
  MeasurementConditionState, condition_states_eq, MeasurementDocument, MeasurementState,
  validate_for_measurement,
}

-- The digest of one condition: `normalized_condition_value` and `stable_digest` with `serde_json`.
abbrev pub DefinitionDigest : Type 0
DefinitionDigest = DeclaredType → TypeParams → Condition → CoreResult Text

-- `MeasurementDocument::condition_definition_digests`.
unfoldable pub condition_definition_digests :
    DefinitionDigest → MeasurementDocument → List Condition → CoreResult (List (Text × Text))
condition_definition_digests definition_digest m [] = ok []
condition_definition_digests definition_digest m (condition ∷ rest) = do
  digest ← definition_digest m.declared_type m.type_params condition
  digests ← condition_definition_digests definition_digest m rest
  ok ((condition.condition_id, digest) ∷ digests)

-- The `collect` into a map.
unfoldable pub digest_map : Dict Text → List (Text × Text) → CoreResult (Dict Text)
digest_map digests [] = ok digests
digest_map digests ((name, digest) ∷ rest) = do
  id ← new_condition_id name
  digest_map (insert id digest digests) rest

unfoldable pub required_definition_digest : Dict Text → Text → CoreResult Text
required_definition_digest digests id =
    ok_or (get id digests) (internal "condition digest calculation omitted a declared condition")

-- `find` by the identifier of a condition.
unfoldable pub find_condition : Text → List Condition → Option Condition
find_condition id [] = none
find_condition id (condition ∷ rest) =
    if same condition.condition_id id then some condition else find_condition id rest

-- The state of a condition that no observation has reached.
abbrev pub unobserved : Text → MeasurementConditionState
unobserved digest = record {
  definition_digest = digest;
  result = not_satisfied;
  active = false;
  fixed_initial_baseline = none;
  last_condition_transition = none;
}

abbrev pub seed_context : Observation → ConditionContext
seed_context observation = record {
  last_accepted_observation = some observation;
  fixed_initial_baseline = some observation;
  last_condition_transition = some observation;
  active = false;
}

-- The map with one context.
abbrev pub only : Text → ConditionContext → Text → Option ConditionContext
only id context asked = if same asked id then some context else none

abbrev pub first_evaluation : List ConditionEvaluation → Option ConditionEvaluation
first_evaluation [] = none
first_evaluation (evaluation ∷ rest) = some evaluation

abbrev pub seeded : Text → Observation → ConditionEvaluation → MeasurementConditionState
seeded digest observation evaluation = record {
  definition_digest = digest;
  result = evaluation.outcome;
  active = evaluation.active_after;
  fixed_initial_baseline = some observation;
  last_condition_transition = some observation;
}

-- The `match` on the stored state of a condition.
abbrev pub retained :
    Option MeasurementConditionState
    → Text
    → CoreResult MeasurementConditionState
    → CoreResult MeasurementConditionState
retained none digest rebased = rebased
retained (some current) digest rebased =
    if same current.definition_digest digest then ok current else rebased

module _ (uuids : UuidLib) where
  -- The assignment of changed states and the next revision.
  abbrev pub adopt :
      MeasurementState uuids → Dict MeasurementConditionState → CoreResult (MeasurementState uuids)
  adopt s next =
      if not (same next s.condition_state)
      then (ok_or (next_u64 s.policy_revision) (contract "measurement policy revision overflowed")
          >>= λ revision. ok (record s { policy_revision = revision; condition_state = next }))
      else ok s

module _ (time : TimeLib) (uuids : UuidLib) (lib : ValueLib)
    (definition_digest : DefinitionDigest) where
  abbrev pub seed :
      MeasurementDocument → Option Observation → Text → Text → CoreResult MeasurementConditionState
  seed m none id digest = ok (unobserved digest)
  seed m (some observation) id digest = do
    condition ←
        ok_or (find_condition id m.conditions)
          (internal "rebasing requested an undeclared condition")
    let one : PolicyContract = record m { conditions = condition ∷ [] }
    evaluations ← evaluate_conditions lib one observation (only id (seed_context observation))
    evaluation ←
        ok_or (first_evaluation evaluations) (internal "rebasing did not evaluate its condition")
    ok (seeded digest observation evaluation)

  unfoldable pub rebased_condition_state :
      MeasurementState uuids
      → MeasurementDocument
      → Text
      → Text
      → CoreResult MeasurementConditionState
  unfolding find_condition
  rebased_condition_state s m id digest = seed m s.accepted_observation id digest

  -- The loop over the declared conditions, with the states that it has built.
  unfoldable pub rebase_each :
      MeasurementState uuids
      → MeasurementDocument
      → Dict Text
      → Dict MeasurementConditionState
      → List Condition
      → CoreResult (Dict MeasurementConditionState)
  unfolding required_definition_digest rebased_condition_state
  rebase_each s m digests next [] = ok next
  rebase_each s m digests next (condition ∷ rest) = do
    id ← new_condition_id condition.condition_id
    digest ← required_definition_digest digests id
    state ← retained (get id s.condition_state) digest (rebased_condition_state s m id digest)
    rebase_each s m digests (insert id state next) rest

  -- `rebase_policy` up to its last validation.
  unfoldable pub rebased :
      MeasurementState uuids → MeasurementDocument → CoreResult (MeasurementState uuids)
  unfolding condition_definition_digests digest_map rebase_each
  rebased s m = do
    validate_for_measurement time uuids lib s m
    pairs ← condition_definition_digests definition_digest m m.conditions
    digests ← digest_map [] pairs
    next ← rebase_each s m digests [] m.conditions
    adopt uuids s next

  -- What `&mut self` is afterwards, and the answer: an error before the assignments leaves the state,
  -- and after them the state is validated.
  abbrev pub settle_rebase :
      MeasurementDocument
      → MeasurementState uuids
      → CoreResult (MeasurementState uuids)
      → MeasurementState uuids × CoreResult (Unit {0})
  settle_rebase m s (err e) = (s, err e)
  settle_rebase m s (ok next) = (next, validate_for_measurement time uuids lib next m)

  unfoldable pub rebase_policy :
      MeasurementState uuids → MeasurementDocument → MeasurementState uuids × CoreResult (Unit {0})
  unfolding rebased
  rebase_policy s m = settle_rebase m s (rebased s m)
