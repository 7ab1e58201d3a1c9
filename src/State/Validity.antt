-- ===== src/State/Validity.antt =====
-- graph/state.rs: the operations keep a valid source state valid, and their errors leave it unchanged.
use ffhn.Base.{
  ℕ, ◌≡◌, ◌⊎◌, inl, inr, refl, sym, subst, Bool, true, false, not, none, some, same, list_eq,
  nat_eq, option_eq, arith, Bool-cases, when_true, when_false, if◌then◌else◌,
}
use ffhn.Base.Errors.{
  Text, CoreError, CoreResult, contract, ok, err, refuse_if, check_each, >>=-eq-ok, then_ok,
  accepted,
}
use ffhn.Stamps.{TimeLib}
use ffhn.Identity.{UuidLib, validate_instance_id}
use ffhn.Health.Failure.{SourceFetchFailure, kind_eq}
use ffhn.Health.Source.{validate_source, observe_source}
use ffhn.Health.Episode.{observe_source-valid}
use ffhn.Health.Fault.{
  GraphIntegrationFaultCode, secret_unavailable, htmlcut_internal_error,
  ffhn_boundary_invariant_violation, ffhn_policy_invariant_violation, fault_code_eq,
  GraphIntegrationFaultCode-discrete, IntegrationFaultEpisode, validate_episode, new_episode,
}
use ffhn.State.Facts.{UrlLib, check_digest, validate_overflow}
use ffhn.State.Document.{
  SourceState, check_validators, check_provenance, check_fault, check_schedule, is_current,
  validate_state,
}
use ffhn.State.Operations.{
  settle, acquisition_failure, apply_acquisition_failure, begin_fault, has_code, next_seq,
  apply_source_integration_fault,
}

module _ (time : TimeLib) (uuids : UuidLib) (urls : UrlLib) where
  -- The parts of the validation.
  unfoldable pub HasParts : SourceState uuids urls → Type 0
  HasParts s =
      ((is_current time uuids urls s ≡ true)
        × (validate_instance_id uuids s.source_instance_id ≡ ok tt))
      × ((check_digest s.file_content_sha256 ≡ ok tt)
          × (check_digest s.last_source_representation_digest ≡ ok tt)
          × (check_validators time uuids urls s.validators ≡ ok tt)
          × (check_provenance time uuids urls s.source_url s.effective_base_url
                s.file_content_sha256 s.last_source_representation_digest s.validators
              ≡ ok tt))
      × (validate_source time s.source_health ≡ ok tt)
      × (check_each validate_overflow s.outbox_overflow ≡ ok tt)
      × (check_fault time uuids urls s.integration_fault_episode ≡ ok tt)
      × (check_schedule time uuids urls s.last_cycle_completed_utc s.next_due_utc ≡ ok tt)

  pub parts-valid :
      (s : SourceState uuids urls) → HasParts s → validate_state time uuids urls s ≡ ok tt
  unfolding HasParts validate_state
  parts-valid s ((a, b), (c, d, e, f), g, h, i, j) = ground (arith, a, b, c, d, e, f, g, h, i, j)

  pub valid-parts :
      (s : SourceState uuids urls) → validate_state time uuids urls s ≡ ok tt → HasParts s
  unfolding HasParts validate_state
  valid-parts s v =
      let (u₁, e₁, k₁) =
        >>=-eq-ok
          (refuse_if (not (is_current time uuids urls s))
            (contract "source state is not a current FFHN source state"))
          _ v in
      let (u₂, e₂, k₂) = >>=-eq-ok (validate_instance_id uuids s.source_instance_id) _ k₁ in
      let (u₃, e₃, k₃) = >>=-eq-ok (check_digest s.file_content_sha256) _ k₂ in
      let (u₄, e₄, k₄) = >>=-eq-ok (check_digest s.last_source_representation_digest) _ k₃ in
      let (u₅, e₅, k₅) = >>=-eq-ok (check_validators time uuids urls s.validators) _ k₄ in
      let (u₆, e₆, k₆) =
        >>=-eq-ok
          (check_provenance time uuids urls s.source_url s.effective_base_url s.file_content_sha256
            s.last_source_representation_digest s.validators)
          _ k₅ in
      let (u₇, e₇, k₇) = >>=-eq-ok (validate_source time s.source_health) _ k₆ in
      let (u₈, e₈, k₈) = >>=-eq-ok (check_each validate_overflow s.outbox_overflow) _ k₇ in
      let (u₉, e₉, k₉) = >>=-eq-ok (check_fault time uuids urls s.integration_fault_episode) _ k₈ in
      ((accepted _ _ e₁, e₂), (e₃, e₄, e₅, e₆), e₇, e₈, e₉, k₉)

  acquisition_failure-valid :
      (s : SourceState uuids urls) (failure : SourceFetchFailure) (now : Text) (limit : ℕ)
      {next : SourceState uuids urls} {answer : Bool}
      → HasParts s
      → acquisition_failure time uuids urls s failure now limit ≡ ok (next, answer)
      → validate_state time uuids urls next ≡ ok tt
  unfolding acquisition_failure HasParts
  acquisition_failure-valid s failure now limit {next}
        (head, body, health, overflow, fault, schedule) e =
      let (observed, e₁, k₁) =
        >>=-eq-ok (observe_source time s.source_health failure now limit) _ e in
      let (seq, e₂, k₂) =
        >>=-eq-ok
          (if not (same s.source_health.failure_kind (some failure.kind))
            then next_seq time uuids urls s
            else ok s.source_episode_seq)
          _ k₁ in
      let changed : SourceState uuids urls = record s {
        source_health = observed.0;
        source_episode_seq = seq;
        integration_fault_episode = none;
      } in
      let same_state : changed ≡ next = cc (k₂) in
      subst (λ x. validate_state time uuids urls x ≡ ok tt) same_state
        (parts-valid changed (
          head,
          body,
          (observe_source-valid time s.source_health failure now limit e₁).0,
          overflow,
          refl,
          schedule,
        ))

  new_fault :
      (now : Text) (episode : IntegrationFaultEpisode)
      → new_episode time secret_unavailable now ≡ ok episode
      → check_fault time uuids urls (some episode) ≡ ok tt
  unfolding new_episode GraphIntegrationFaultCode-discrete
  new_fault now episode e =
      let began : IntegrationFaultEpisode = record {
        code = secret_unavailable;
        first_seen_at_utc = now;
      } in
      let (u, e₁, k₁) = >>=-eq-ok (validate_episode time began) _ e in
      let same_episode : began ≡ episode = cc (k₁) in
      subst (λ x. check_fault time uuids urls (some x) ≡ ok tt) same_episode (then_ok _ e₁ refl)

  begin_fault-valid :
      (s : SourceState uuids urls) (now : Text) {next : SourceState uuids urls} {answer : Bool}
      → HasParts s
      → begin_fault time uuids urls s secret_unavailable now ≡ ok (next, answer)
      → validate_state time uuids urls next ≡ ok tt
  unfolding HasParts
  begin_fault-valid s now {next} (head, body, health, overflow, fault, schedule) e =
      let (seq, e₁, k₁) = >>=-eq-ok (next_seq time uuids urls s) _ e in
      let (episode, e₂, k₂) = >>=-eq-ok (new_episode time secret_unavailable now) _ k₁ in
      let changed : SourceState uuids urls = record s {
        source_episode_seq = seq;
        integration_fault_episode = some episode;
      } in
      let same_state : changed ≡ next = cc (k₂) in
      subst (λ x. validate_state time uuids urls x ≡ ok tt) same_state
        (parts-valid changed (head, body, health, overflow, new_fault now episode e₂, schedule))

  -- The two outcomes of an operation on `&mut self`: an answer with a valid state, or an error with the
  -- state as it was.
  unfoldable pub IsAtomic :
      SourceState uuids urls → SourceState uuids urls × CoreResult Bool → Type 0
  IsAtomic s outcome =
      ((answer : Bool) × (outcome.1 ≡ ok answer)
        × (validate_state time uuids urls outcome.0 ≡ ok tt))
      ⊎ ((e : CoreError) × (outcome.1 ≡ err e) × (outcome.0 ≡ s))

  unchanged :
      (s : SourceState uuids urls) (answer : Bool)
      → validate_state time uuids urls s ≡ ok tt
      → IsAtomic s (s, ok answer)
  unfolding IsAtomic
  unchanged s answer v = inl (answer, refl, v)

  failed : (s : SourceState uuids urls) (e : CoreError) → IsAtomic s (s, err e)
  unfolding IsAtomic
  failed s e = inr (e, refl, refl)

  settle-IsAtomic :
      (s : SourceState uuids urls) (prepared : CoreResult (SourceState uuids urls × Bool))
      → ((next : SourceState uuids urls) (answer : Bool)
          → prepared ≡ ok (next, answer)
          → validate_state time uuids urls next ≡ ok tt)
      → IsAtomic s (settle time uuids urls s prepared)
  unfolding IsAtomic
  settle-IsAtomic s (err e) valid = inr (e, refl, refl)
  settle-IsAtomic s (ok (next, answer)) valid =
      inl (answer, then_ok _ (valid next answer refl) refl, valid next answer refl)

  -- From a valid state, `apply_acquisition_failure` either answers and leaves a valid state, or returns
  -- an error and leaves the state as it was: its last validation does not fail.
  pub apply_acquisition_failure-IsAtomic :
      (s : SourceState uuids urls) (failure : SourceFetchFailure) (now : Text) (limit : ℕ)
      → validate_state time uuids urls s ≡ ok tt
      → IsAtomic s (apply_acquisition_failure time uuids urls s failure now limit)
  unfolding apply_acquisition_failure
  apply_acquisition_failure-IsAtomic s failure now limit v =
      settle-IsAtomic s (acquisition_failure time uuids urls s failure now limit)
        (λ next answer e. acquisition_failure-valid s failure now limit (valid-parts s v) e)

  -- From a valid state, `apply_source_integration_fault` either answers and leaves a valid state, or
  -- returns an error and leaves the state as it was, for every fault code.
  pub apply_source_integration_fault-IsAtomic :
      (s : SourceState uuids urls) (code : GraphIntegrationFaultCode) (now : Text)
      → validate_state time uuids urls s ≡ ok tt
      → IsAtomic s (apply_source_integration_fault time uuids urls s code now)
  unfolding apply_source_integration_fault GraphIntegrationFaultCode-discrete
  apply_source_integration_fault-IsAtomic s secret_unavailable now v =
      elim (Bool-cases (has_code time uuids urls s.integration_fault_episode secret_unavailable)) [
        | inl same_code ↦ subst (IsAtomic s) (sym (when_true _ _ same_code)) (unchanged s false v)
        | inr new_code ↦ subst (IsAtomic s) (sym (when_false _ _ new_code)) (
            settle-IsAtomic s (begin_fault time uuids urls s secret_unavailable now)
              (λ next answer e. begin_fault-valid s now (valid-parts s v) e))
      ]
  apply_source_integration_fault-IsAtomic s htmlcut_internal_error now v = failed s _
  apply_source_integration_fault-IsAtomic s ffhn_boundary_invariant_violation now v = failed s _
  apply_source_integration_fault-IsAtomic s ffhn_policy_invariant_violation now v = failed s _
