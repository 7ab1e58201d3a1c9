-- ===== src/Outbox.antt =====
-- graph/outbox.rs: the validation of delivery records and dead letters, and their failed attempts; the
-- admission of new records.
pub mod Attempts
pub mod Admission
pub mod History
pub mod Appended
pub mod Recordable
pub mod Failure
use native.Mathlib.Decide.{ℕ_discrete}
use ffhn.Base.{
  ℕ, suc, ◌+◌, ◌≡◌, ◌^◌, Bool, true, false, ◌&&◌, ◌||◌, not, Option, none, some, List, [], ◌∷◌,
  ◌++◌, length, any, same, Eq, option_eq, list_eq, nat_eq, discrete_eq, ltb, leb, ◌==◌,
  if◌then◌else◌, try_u32, next_u32,
}
use ffhn.Base.Errors.{
  Text, CoreResult, Result, contract, ok, err, is_ok, ◌>>=◌, ◌>>◌, refuse_if, ok_or, check_each,
}
use ffhn.Stamps.{TimeLib, require_canonical_utc_rfc3339, parse_instant}
use ffhn.Delivery.Record.{
  family_eq, policy_eq, attempt_eq, route_family_of, DeliveryPolicy, DeliveryAttemptFailure,
  DeliveryAttempt, delivery_record_schema_name, dead_letter_schema_name, OutboxLib, DeliveryRecord,
  DeadLetter, secret_unavailable, process, http_webhook,
}

-- `slice::starts_with`.
abbrev pub starts_with {ℓ} : {A : Type ℓ} ⦃e : Eq A⦄ → List A → List A → Bool
starts_with xs [] = true
starts_with [] (y ∷ ys) = false
starts_with (x ∷ xs) (y ∷ ys) = same x y && starts_with xs ys

abbrev pub precedes : ℕ → Option ℕ → Bool
precedes attempted (some previous) = ltb attempted previous
precedes attempted none = false

module _ (time : TimeLib) (lib : OutboxLib) where
  -- `DeliveryPolicy::validate`.
  unfoldable pub validate_policy : DeliveryPolicy → CoreResult (Unit {0})
  validate_policy policy = do
    refuse_if
        (not (leb 1 policy.max_pending && leb policy.max_pending 100000)
          || not (leb 1 policy.max_attempts && leb policy.max_attempts 100)
          || not (leb 1 policy.base_backoff_ms && leb policy.base_backoff_ms 86400000)
          || not (
              leb policy.base_backoff_ms policy.max_backoff_ms
              && leb policy.max_backoff_ms 604800000))
        (contract "delivery outbox policy is outside its bounded v11 range")
    jitter ←
        ok_or (lib.parse_ratio policy.jitter_ratio)
          (contract "outbox.jitter_ratio must be an invariant decimal in 0..=1")
    refuse_if (not (lib.in_unit jitter))
        (contract "outbox.jitter_ratio must be an invariant decimal in 0..=1")

  abbrev is_blank : Text → Bool
  is_blank value = length (lib.trim value) == 0

  abbrev pub valid_message : Text → Bool
  valid_message value =
      not (is_blank value)
      && leb (length value) 2048
      && not (any (λ byte. byte == 10 || byte == 13) value)

  abbrev pub is_failed_status : Option ℕ → Bool
  is_failed_status none = true
  is_failed_status (some status) = not (leb 200 status && ltb status 300)

  abbrev pub failure_is_evidence : DeliveryAttemptFailure → Bool
  failure_is_evidence (secret_unavailable env) = not (is_blank env)
  failure_is_evidence (process message) = valid_message message
  failure_is_evidence (http_webhook message status) =
      valid_message message && is_failed_status status

  -- `DeliveryAttemptFailure::validate`.
  unfoldable pub validate_attempt_failure : DeliveryAttemptFailure → CoreResult (Unit {0})
  validate_attempt_failure failure =
      refuse_if (not (failure_is_evidence failure))
        (contract "delivery attempt failure evidence is incomplete or invalid")

  -- `DeliveryAttempt::validate`.
  unfoldable pub validate_attempt : ℕ → DeliveryAttempt → CoreResult (Unit {0})
  validate_attempt expected_attempt a = do
    refuse_if (not (a.attempt == expected_attempt))
        (contract "delivery attempts must be an append-only contiguous sequence")
    require_canonical_utc_rfc3339 time "delivery attempt time" a.attempted_at_utc
    validate_attempt_failure a.failure

  -- The loop of `validate_common` over the attempts from `index` on; it returns the last instant.
  abbrev pub validate_attempts : ℕ → Option ℕ → List DeliveryAttempt → CoreResult (Option ℕ)
  validate_attempts index previous [] = ok previous
  validate_attempts index previous (a ∷ rest) = do
    i ← ok_or (try_u32 index) (contract "delivery attempt count overflowed")
    expected ← ok_or (next_u32 i) (contract "delivery attempt count overflowed")
    validate_attempt expected a
    attempted ← parse_instant time a.attempted_at_utc
    refuse_if (precedes attempted previous)
        (contract "delivery attempt timestamps must be monotonic")
    validate_attempts (index + 1) (some attempted) rest

  -- Whether the next retry precedes the latest attempt (`is_some_and` of `is_ok_and`).
  abbrev pub retry_precedes : Text → Option ℕ → Bool
  retry_precedes next none = false
  retry_precedes next (some attempted) = elim (parse_instant time next) [
    | ok instant ↦ ltb instant attempted
    | err e ↦ false
  ]

  unfoldable pub validate_common : DeliveryRecord lib → CoreResult (Unit {0})
  validate_common r = do
    refuse_if (not (same r.schema_name delivery_record_schema_name) || not (r.schema_version == 1))
        (contract "delivery record is not a current FFHN delivery record")
    lib.validate_envelope r.envelope
    lib.validate_adapter r.adapter
    validate_policy r.delivery_policy
    refuse_if (not (same r.route_family (route_family_of (lib.event_kind r.envelope))))
        (contract "delivery record route family does not accept its event kind")
    require_canonical_utc_rfc3339 time "delivery next retry time" r.next_retry_at_utc
    refuse_if (ltb r.delivery_policy.max_attempts (length r.attempts))
        (contract "delivery attempt history exceeds its immutable terminal bound")
    previous ← validate_attempts 0 none r.attempts
    refuse_if (retry_precedes r.next_retry_at_utc previous)
        (contract "delivery next retry time must not precede its latest attempt")

  -- `DeliveryRecord::validate`.
  unfoldable pub validate_record : DeliveryRecord lib → CoreResult (Unit {0})
  validate_record r = do
    validate_common r
    refuse_if (leb r.delivery_policy.max_attempts (length r.attempts))
        (contract "pending delivery record has reached its terminal attempt bound")

  abbrev pub failed_attempt : ℕ → Text → DeliveryAttemptFailure → DeliveryAttempt
  failed_attempt attempt attempted_at_utc failure = record {
    attempt = attempt;
    attempted_at_utc = attempted_at_utc;
    failure = failure;
  }

  -- `record_failure` up to its last validation: the record with its assignments made.
  unfoldable pub append_failure :
      DeliveryRecord lib → Text → DeliveryAttemptFailure → Text → CoreResult (DeliveryRecord lib)
  append_failure r attempted_at_utc failure next_retry_at_utc = do
    validate_record r
    require_canonical_utc_rfc3339 time "delivery attempt time" attempted_at_utc
    require_canonical_utc_rfc3339 time "delivery next retry time" next_retry_at_utc
    next ← parse_instant time next_retry_at_utc
    attempted ← parse_instant time attempted_at_utc
    refuse_if (ltb next attempted)
        (contract "delivery next retry time must not precede its failed attempt")
    count ← ok_or (try_u32 (length r.attempts)) (contract "delivery attempt count overflowed")
    attempt ← ok_or (next_u32 count) (contract "delivery attempt count overflowed")
    validate_attempt_failure failure
    ok (record r {
      attempts = r.attempts ++ (failed_attempt attempt attempted_at_utc failure ∷ []);
      next_retry_at_utc = next_retry_at_utc;
    })

  -- What `&mut self` is after `record_failure`, and what it returns: before the assignments an error
  -- leaves the record, after them it is validated, and stays as assigned if that fails.
  abbrev pub settle_record :
      DeliveryRecord lib
      → CoreResult (DeliveryRecord lib)
      → DeliveryRecord lib × CoreResult (Unit {0})
  settle_record r (err e) = (r, err e)
  settle_record r (ok next) = (next, validate_common next)

  unfoldable pub record_failure :
      DeliveryRecord lib
      → Text
      → DeliveryAttemptFailure
      → Text
      → DeliveryRecord lib × CoreResult (Unit {0})
  unfolding append_failure
  record_failure r attempted_at_utc failure next_retry_at_utc =
      settle_record r (append_failure r attempted_at_utc failure next_retry_at_utc)

  unfoldable pub is_single_attempt_successor_of : DeliveryRecord lib → DeliveryRecord lib → Bool
  is_single_attempt_successor_of r prior =
      lib.envelope_eq.beq r.envelope prior.envelope
      && same r.route_id prior.route_id
      && same r.route_family prior.route_family
      && lib.adapter_eq.beq r.adapter prior.adapter
      && same r.delivery_policy prior.delivery_policy
      && length r.attempts == length prior.attempts + 1
      && starts_with r.attempts prior.attempts

  -- `DeadLetter::validate`.
  unfoldable pub validate_letter : DeadLetter lib → CoreResult (Unit {0})
  validate_letter l = do
    refuse_if (not (same l.schema_name dead_letter_schema_name) || not (l.schema_version == 1))
        (contract "dead letter is not a current FFHN dead-letter document")
    validate_common l.record_of
    attempts ←
        ok_or (try_u32 (length l.record_of.attempts)) (contract "delivery attempt count overflowed")
    refuse_if
        (not (attempts == l.terminal_attempt)
          || not (attempts == l.record_of.delivery_policy.max_attempts))
        (contract "dead letter terminal attempt does not match its immutable delivery policy")

  abbrev pub letter : DeliveryRecord lib → ℕ → DeadLetter lib
  letter r terminal_attempt = record {
    schema_name = dead_letter_schema_name;
    schema_version = 1;
    record_of = r;
    terminal_attempt = terminal_attempt;
  }

  unfoldable pub into_dead_letter : DeliveryRecord lib → CoreResult (DeadLetter lib)
  into_dead_letter r = do
    validate_common r
    terminal_attempt ←
        ok_or (try_u32 (length r.attempts)) (contract "delivery attempt count overflowed")
    refuse_if (not (terminal_attempt == r.delivery_policy.max_attempts))
        (contract "delivery record can dead-letter only at its immutable maximum attempt count")
    validate_letter (letter r terminal_attempt)
    ok (letter r terminal_attempt)
