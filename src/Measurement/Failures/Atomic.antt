-- ===== src/Measurement/Failures/Atomic.antt =====
-- graph/measurement_state.rs: the failures keep a valid measurement state valid, and their errors leave
-- it unchanged.
use ffhn.Base.{
  ℕ, ◌≡◌, ◌⊎◌, inl, inr, refl, sym, subst, Bool, true, false, not, none, some, same, option_eq,
  Bool-cases, when_true, when_false, if◌then◌else◌, arith,
}
use ffhn.Base.Errors.{
  Text, CoreError, CoreResult, contract, ok, err, refuse_if, check_each, >>=-eq-ok, then_ok,
  accepted,
}
use ffhn.Stamps.{TimeLib}
use ffhn.Identity.{UuidLib, validate_instance_id}
use ffhn.Health.{ExtractionFailureReason, reason_eq, validate_extraction, observe_extraction}
use ffhn.Health.Fault.{
  GraphIntegrationFaultCode, secret_unavailable, fault_code_eq, IntegrationFaultEpisode,
  validate_episode, new_episode,
}
use ffhn.Policy.Types.{ValueLib}
use ffhn.State.Facts.{validate_overflow}
use ffhn.Measurement.Document.{
  MeasurementState, is_current, check_accepted, validate_condition_state, check_fault,
  validate_state,
}
use ffhn.Health.Episode.{observe_extraction-valid}
use ffhn.Measurement.Failures.{
  settle, extraction_failure, apply_extraction_failure, begin_fault, has_code, next_seq,
  apply_measurement_integration_fault,
}

module _ (time : TimeLib) (uuids : UuidLib) (lib : ValueLib) where
  -- The parts of the validation.
  unfoldable HasParts : MeasurementState uuids → Type 0
  HasParts s =
      ((is_current time uuids lib s ≡ true)
        × (validate_instance_id uuids s.source_instance_id ≡ ok tt)
        × (validate_instance_id uuids s.measurement_instance_id ≡ ok tt))
      × (check_accepted time uuids lib s.observation_seq s.accepted_observation
            s.measurement_value_digest
          ≡ ok tt)
      × (check_each (λ (id, c). validate_condition_state time uuids lib c) s.condition_state
          ≡ ok tt)
      × (validate_extraction time s.extraction_health ≡ ok tt)
      × (check_each validate_overflow s.outbox_overflow ≡ ok tt)
      × (check_fault time uuids lib s.integration_fault_episode ≡ ok tt)

  parts-valid : (s : MeasurementState uuids) → HasParts s → validate_state time uuids lib s ≡ ok tt
  unfolding HasParts validate_state
  parts-valid s ((a, b, c), d, e, f, g, h) = ground (arith, a, b, c, d, e, f, g, h)

  valid-parts : (s : MeasurementState uuids) → validate_state time uuids lib s ≡ ok tt → HasParts s
  unfolding HasParts validate_state
  valid-parts s v =
      let (_, e₁, k₁) =
        >>=-eq-ok
          (refuse_if (not (is_current time uuids lib s))
            (contract "measurement state is not a current FFHN measurement state"))
          _ v in
      let (_, e₂, k₂) = >>=-eq-ok (validate_instance_id uuids s.source_instance_id) _ k₁ in
      let (_, e₃, k₃) = >>=-eq-ok (validate_instance_id uuids s.measurement_instance_id) _ k₂ in
      let (_, e₄, k₄) =
        >>=-eq-ok
          (check_accepted time uuids lib s.observation_seq s.accepted_observation
            s.measurement_value_digest)
          _ k₃ in
      let (_, e₅, k₅) =
        >>=-eq-ok
          (check_each (λ (id, c). validate_condition_state time uuids lib c) s.condition_state) _
          k₄ in
      let (_, e₆, k₆) = >>=-eq-ok (validate_extraction time s.extraction_health) _ k₅ in
      let (_, e₇, k₇) = >>=-eq-ok (check_each validate_overflow s.outbox_overflow) _ k₆ in
      ((accepted _ _ e₁, e₂, e₃), e₄, e₅, e₆, e₇, k₇)

  extraction_failure-valid :
      (s : MeasurementState uuids) (reason : ExtractionFailureReason) (now : Text) (limit : ℕ)
      {next : MeasurementState uuids} {answer : Bool}
      → HasParts s
      → extraction_failure time uuids lib s reason now limit ≡ ok (next, answer)
      → validate_state time uuids lib next ≡ ok tt
  unfolding extraction_failure HasParts
  extraction_failure-valid s reason now limit {next}
        (head, observed_before, states, health, overflow, fault) e =
      let (observed, e₁, k₁) =
        >>=-eq-ok (observe_extraction time s.extraction_health reason now limit) _ e in
      let (seq, _, k₂) =
        >>=-eq-ok
          (if not (same s.extraction_health.reason (some reason))
            then next_seq time uuids lib s
            else ok s.measurement_episode_seq)
          _ k₁ in
      let changed : MeasurementState uuids = record s {
        extraction_health = observed.0;
        measurement_episode_seq = seq;
        integration_fault_episode = none;
      } in
      let same_state : changed ≡ next = cc (k₂) in
      subst (λ x. validate_state time uuids lib x ≡ ok tt) same_state
        (parts-valid changed (
          head,
          observed_before,
          states,
          (observe_extraction-valid time s.extraction_health reason now limit e₁).0,
          overflow,
          refl,
        ))

  new_fault :
      (code : GraphIntegrationFaultCode) (now : Text) (episode : IntegrationFaultEpisode)
      → same code secret_unavailable ≡ false
      → new_episode time code now ≡ ok episode
      → check_fault time uuids lib (some episode) ≡ ok tt
  unfolding new_episode
  new_fault code now episode scope e =
      let began : IntegrationFaultEpisode = record { code = code; first_seen_at_utc = now } in
      let (_, e₁, k₁) = >>=-eq-ok (validate_episode time began) _ e in
      let same_episode : began ≡ episode = cc (k₁) in
      subst (λ x. check_fault time uuids lib (some x) ≡ ok tt) same_episode
        (ground (arith, e₁, scope))

  begin_fault-valid :
      (s : MeasurementState uuids) (code : GraphIntegrationFaultCode) (now : Text)
      {next : MeasurementState uuids} {answer : Bool}
      → HasParts s
      → same code secret_unavailable ≡ false
      → begin_fault time uuids lib s code now ≡ ok (next, answer)
      → validate_state time uuids lib next ≡ ok tt
  unfolding HasParts
  begin_fault-valid s code now {next} (head, observed, states, health, overflow, fault) scope e =
      let (seq, _, k₁) = >>=-eq-ok (next_seq time uuids lib s) _ e in
      let (episode, e₂, k₂) = >>=-eq-ok (new_episode time code now) _ k₁ in
      let changed : MeasurementState uuids = record s {
        measurement_episode_seq = seq;
        integration_fault_episode = some episode;
      } in
      let same_state : changed ≡ next = cc (k₂) in
      subst (λ x. validate_state time uuids lib x ≡ ok tt) same_state
        (parts-valid changed
          (head, observed, states, health, overflow, new_fault code now episode scope e₂))

  -- The two outcomes of an operation on `&mut self`: an answer with a valid state, or an error with the
  -- state as it was.
  unfoldable pub IsAtomic :
      MeasurementState uuids → MeasurementState uuids × CoreResult Bool → Type 0
  IsAtomic s outcome =
      ((answer : Bool) × (outcome.1 ≡ ok answer)
        × (validate_state time uuids lib outcome.0 ≡ ok tt))
      ⊎ ((e : CoreError) × (outcome.1 ≡ err e) × (outcome.0 ≡ s))

  settle-IsAtomic :
      (s : MeasurementState uuids) (prepared : CoreResult (MeasurementState uuids × Bool))
      → ((next : MeasurementState uuids) (answer : Bool)
          → prepared ≡ ok (next, answer)
          → validate_state time uuids lib next ≡ ok tt)
      → IsAtomic s (settle time uuids lib s prepared)
  unfolding IsAtomic
  settle-IsAtomic s (err e) valid = inr (e, refl, refl)
  settle-IsAtomic s (ok (next, answer)) valid =
      inl (answer, then_ok _ (valid next answer refl) refl, valid next answer refl)

  -- From a valid state, `apply_extraction_failure` either answers and leaves a valid state, or returns
  -- an error and leaves the state as it was: its last validation does not fail.
  pub apply_extraction_failure-IsAtomic :
      (s : MeasurementState uuids) (reason : ExtractionFailureReason) (now : Text) (limit : ℕ)
      → validate_state time uuids lib s ≡ ok tt
      → IsAtomic s (apply_extraction_failure time uuids lib s reason now limit)
  unfolding apply_extraction_failure
  apply_extraction_failure-IsAtomic s reason now limit v =
      settle-IsAtomic s (extraction_failure time uuids lib s reason now limit)
        (λ next answer e. extraction_failure-valid s reason now limit (valid-parts s v) e)

  -- From a valid state, `apply_measurement_integration_fault` either answers and leaves a valid state,
  -- or returns an error and leaves the state as it was, for every fault code.
  pub apply_measurement_integration_fault-IsAtomic :
      (s : MeasurementState uuids) (code : GraphIntegrationFaultCode) (now : Text)
      → validate_state time uuids lib s ≡ ok tt
      → IsAtomic s (apply_measurement_integration_fault time uuids lib s code now)
  unfolding apply_measurement_integration_fault IsAtomic
  apply_measurement_integration_fault-IsAtomic s code now v =
      elim (Bool-cases (same code secret_unavailable)) [
        | inl source ↦ subst (IsAtomic s) (sym (when_true _ _ source)) (inr (_, refl, refl))
        | inr scope ↦
            subst (IsAtomic s) (sym (when_false _ _ scope))
              (elim (Bool-cases (has_code time uuids lib s.integration_fault_episode code)) [
                | inl running ↦
                    subst (IsAtomic s) (sym (when_true _ _ running)) (inl (false, refl, v))
                | inr new_code ↦ subst (IsAtomic s) (sym (when_false _ _ new_code)) (
                    settle-IsAtomic s (begin_fault time uuids lib s code now)
                      (λ next answer e. begin_fault-valid s code now (valid-parts s v) scope e))
              ])
      ]
