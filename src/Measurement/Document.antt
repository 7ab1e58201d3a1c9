-- ===== src/Measurement/Document.antt =====
-- graph/measurement_state.rs: the document of a measurement state, and its validation.
use native.Mathlib.Decide.{ℕ_discrete}
use ffhn.Base.{
  ℕ, Bool, false, ◌&&◌, ◌||◌, not, Option, none, some, List, [], ◌∷◌, Eq, discrete_eq, any, same,
  list_eq, nat_eq, ◌==◌, ltb, if◌then◌else◌,
}
use ffhn.Base.Errors.{Text, CoreResult, contract, ok, err, ◌>>◌, refuse_if, check_each}
use ffhn.Base.Dict.{Dict}
use ffhn.Stamps.{TimeLib}
use ffhn.Identity.{UuidLib, validate_instance_id}
use ffhn.Health.{MeasurementExtractionHealth, healthy_extraction, validate_extraction}
use ffhn.Health.Fault.{secret_unavailable, fault_code_eq, IntegrationFaultEpisode, validate_episode}
use ffhn.Outbox.Admission.{OutboxOverflowFact}
use ffhn.Policy.Types.{
  Observation, Observation-discrete, ConditionOutcome, ConditionOutcome-discrete, ValueLib,
}
use ffhn.Policy.Contract.{PolicyContract, observation_matches_contract}
use ffhn.State.Facts.{validate_sha256, validate_overflow}

-- "ffhn.measurement_state"; the version is 1.
abbrev pub measurement_state_schema_name : Text
measurement_state_schema_name =
    b'f' ∷ b'f' ∷ b'h' ∷ b'n' ∷ b'.' ∷ b'm' ∷ b'e' ∷ b'a' ∷ b's' ∷ b'u' ∷ b'r' ∷ b'e' ∷ b'm' ∷ b'e'
    ∷ b'n' ∷ b't' ∷ b'_' ∷ b's' ∷ b't' ∷ b'a' ∷ b't' ∷ b'e' ∷ []

pub record MeasurementConditionState : Type 0 where
  pub definition_digest : Text
  pub result : ConditionOutcome
  pub active : Bool
  pub fixed_initial_baseline : Option Observation
  pub last_condition_transition : Option Observation

unfoldable pub MeasurementConditionState-discrete : Discrete MeasurementConditionState
unfolding Observation-discrete ConditionOutcome-discrete
MeasurementConditionState-discrete =
    hlevel (ℕ_discrete, ConditionOutcome-discrete, Observation-discrete)

-- The derived `PartialEq` of the map of condition states.
instance abbrev pub condition_states_eq : Eq (Dict MeasurementConditionState)
condition_states_eq = discrete_eq (hlevel (ℕ_discrete, MeasurementConditionState-discrete))

-- The measurement document, of which the state uses the declared type, the parameters and the
-- conditions.
abbrev pub MeasurementDocument : Type 0
MeasurementDocument = PolicyContract

pub record MeasurementState (uuids : UuidLib) : Type 0 where
  pub schema_name : Text
  pub schema_version : ℕ
  pub source_instance_id : uuids.Uuid
  pub measurement_instance_id : uuids.Uuid
  pub measurement_episode_seq : ℕ
  pub observation_seq : ℕ
  pub accepted_observation : Option Observation
  pub measurement_value_digest : Option Text
  pub condition_state : Dict MeasurementConditionState
  pub policy_revision : ℕ
  pub extraction_health : MeasurementExtractionHealth
  pub outbox_overflow : List OutboxOverflowFact
  pub integration_fault_episode : Option IntegrationFaultEpisode

module _ (time : TimeLib) (uuids : UuidLib) (lib : ValueLib) where
  open lib use {validate_observation}

  -- `MeasurementState::fresh`.
  unfoldable pub fresh : uuids.Uuid → uuids.Uuid → MeasurementState uuids
  fresh source_instance_id measurement_instance_id = record {
    schema_name = measurement_state_schema_name;
    schema_version = 1;
    source_instance_id = source_instance_id;
    measurement_instance_id = measurement_instance_id;
    measurement_episode_seq = 0;
    observation_seq = 0;
    accepted_observation = none;
    measurement_value_digest = none;
    condition_state = [];
    policy_revision = 0;
    extraction_health = healthy_extraction;
    outbox_overflow = [];
    integration_fault_episode = none;
  }

  -- The `match` on the accepted observation and the digest.
  abbrev pub check_accepted : ℕ → Option Observation → Option Text → CoreResult (Unit {0})
  check_accepted seq none none =
      refuse_if (not (seq == 0))
        (contract "measurement accepted observation, sequence, and value digest disagree")
  check_accepted seq (some observation) (some digest) =
      if ltb 0 seq
      then (validate_observation observation >> validate_sha256 digest)
      else err (contract "measurement accepted observation, sequence, and value digest disagree")
  check_accepted seq _ _ =
      err (contract "measurement accepted observation, sequence, and value digest disagree")

  abbrev check_observation : Option Observation → CoreResult (Unit {0})
  check_observation none = ok tt
  check_observation (some observation) = validate_observation observation

  -- `MeasurementConditionState::validate`.
  unfoldable pub validate_condition_state : MeasurementConditionState → CoreResult (Unit {0})
  validate_condition_state c = do
    validate_sha256 c.definition_digest
    check_observation c.fixed_initial_baseline
    check_observation c.last_condition_transition

  abbrev pub check_fault : Option IntegrationFaultEpisode → CoreResult (Unit {0})
  check_fault none = ok tt
  check_fault (some episode) = do
    validate_episode time episode
    refuse_if (same episode.code secret_unavailable)
        (contract "measurement state must not contain a source-scoped integration fault")

  abbrev pub is_current : MeasurementState uuids → Bool
  is_current s = same s.schema_name measurement_state_schema_name && (s.schema_version == 1)

  -- `MeasurementState::validate`.
  unfoldable pub validate_state : MeasurementState uuids → CoreResult (Unit {0})
  validate_state s = do
    refuse_if (not (is_current s))
        (contract "measurement state is not a current FFHN measurement state")
    validate_instance_id uuids s.source_instance_id
    validate_instance_id uuids s.measurement_instance_id
    check_accepted s.observation_seq s.accepted_observation s.measurement_value_digest
    check_each (λ (id, c). validate_condition_state c) s.condition_state
    validate_extraction time s.extraction_health
    check_each validate_overflow s.outbox_overflow
    check_fault s.integration_fault_episode

  -- `is_some_and(|value| !matches(value))`.
  abbrev pub foreign : MeasurementDocument → Option Observation → Bool
  foreign measurement none = false
  foreign measurement (some o) = not (observation_matches_contract measurement o)

  unfoldable pub validate_for_measurement :
      MeasurementState uuids → MeasurementDocument → CoreResult (Unit {0})
  validate_for_measurement s measurement = do
    validate_state s
    refuse_if
        (foreign measurement s.accepted_observation
          || any
              (λ (id, c).
                foreign measurement c.fixed_initial_baseline
                || foreign measurement c.last_condition_transition)
              s.condition_state)
        (contract
          "measurement state contains an observation outside the measurement value contract")
