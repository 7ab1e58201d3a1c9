-- ===== src/Measurement/Failures.antt =====
-- graph/measurement_state.rs: extraction failures, integration faults and overflow facts.
pub mod Atomic
use ffhn.Base.{
  ℕ, ◌≡◌, ◌⊎◌, inl, inr, refl, sym, subst, Bool, true, false, not, Option, none, some, List, same,
  option_eq, Bool-cases, when_true, when_false, if◌then◌else◌, ◌==◌, arith,
}
use ffhn.Base.Errors.{
  Text, CoreError, CoreResult, contract, ok, err, ◌>>=◌, ◌>>◌, ok_or, refuse_if, check_each,
  >>=-eq-ok, then_ok, refused, accepted,
}
use ffhn.Stamps.{TimeLib}
use ffhn.Identity.{UuidLib, next_u64, validate_instance_id}
use ffhn.Health.{
  ExtractionFailureReason, reason_eq, MeasurementExtractionHealth, validate_extraction,
  observe_extraction, require_timestamp, continue_extraction,
}
use ffhn.Health.Fault.{
  GraphIntegrationFaultCode, secret_unavailable, fault_code_eq, GraphIntegrationFaultCode-discrete,
  IntegrationFaultEpisode, validate_episode, new_episode,
}
use ffhn.Outbox.Admission.{OutboxOverflowFact}
use ffhn.Policy.Types.{ValueLib}
use ffhn.State.Facts.{validate_overflow}
use ffhn.Measurement.Document.{
  MeasurementState, is_current, check_accepted, validate_condition_state, check_fault,
  validate_state,
}

module _ (time : TimeLib) (uuids : UuidLib) (lib : ValueLib) where
  -- `set_outbox_overflow` of measurement_state/access.rs.
  unfoldable pub set_outbox_overflow :
      MeasurementState uuids → List OutboxOverflowFact → CoreResult (MeasurementState uuids)
  set_outbox_overflow s overflow = do
    check_each validate_overflow overflow
    ok (record s { outbox_overflow = overflow })

  abbrev pub next_seq : MeasurementState uuids → CoreResult ℕ
  next_seq s =
      ok_or (next_u64 s.measurement_episode_seq)
        (contract "measurement episode sequence overflowed")

  -- What `&mut self` is after an operation, and what the operation returns: before the assignments an
  -- error leaves the state, after them it is validated.
  abbrev pub settle :
      MeasurementState uuids
      → CoreResult (MeasurementState uuids × Bool)
      → MeasurementState uuids × CoreResult Bool
  settle s (err e) = (s, err e)
  settle s (ok (next, answer)) = (next, validate_state time uuids lib next >> ok answer)

  -- `apply_extraction_failure` up to its assignments.
  unfoldable pub extraction_failure :
      MeasurementState uuids
      → ExtractionFailureReason
      → Text
      → ℕ
      → CoreResult (MeasurementState uuids × Bool)
  extraction_failure s reason now_utc escalate_after = do
    let episode_began = not (same s.extraction_health.reason (some reason))
    observed ← observe_extraction time s.extraction_health reason now_utc escalate_after
    seq ← if episode_began then next_seq s else ok s.measurement_episode_seq
    ok (
      record s {
        extraction_health = observed.0;
        measurement_episode_seq = seq;
        integration_fault_episode = none;
      },
      observed.1,
    )

  unfoldable pub apply_extraction_failure :
      MeasurementState uuids
      → ExtractionFailureReason
      → Text
      → ℕ
      → MeasurementState uuids × CoreResult Bool
  unfolding extraction_failure
  apply_extraction_failure s reason now_utc escalate_after =
      settle s (extraction_failure s reason now_utc escalate_after)

  abbrev pub has_code : Option IntegrationFaultEpisode → GraphIntegrationFaultCode → Bool
  has_code none code = false
  has_code (some episode) code = same episode.code code

  abbrev pub begin_fault :
      MeasurementState uuids
      → GraphIntegrationFaultCode
      → Text
      → CoreResult (MeasurementState uuids × Bool)
  begin_fault s code now_utc = do
    seq ← next_seq s
    episode ← new_episode time code now_utc
    ok (record s { measurement_episode_seq = seq; integration_fault_episode = some episode }, true)

  unfoldable pub apply_measurement_integration_fault :
      MeasurementState uuids
      → GraphIntegrationFaultCode
      → Text
      → MeasurementState uuids × CoreResult Bool
  apply_measurement_integration_fault s code now_utc =
      if same code secret_unavailable
      then (s, err (contract "secret_unavailable is a source-scoped integration fault"))
      else (if has_code s.integration_fault_episode code
          then (s, ok false)
          else settle s (begin_fault s code now_utc))
