-- ===== src/Examples/Deliveries.antt =====
-- Delivery records and admissions at concrete inputs.
use ffhn.Base.{
  length, map, ◌≤◌, ℕ, ◌≡◌, ◌⊎◌, refl, true, false, Option, none, some, [], ◌∷◌, list_eq, nat_eq,
  leb,
}
use ffhn.Base.Errors.{Text, CoreError, CoreResult, contract, ok, err, is_ok, refuse_if}
use ffhn.Stamps.{TimeLib, require_canonical_utc_rfc3339, parse_instant}
use ffhn.Delivery.Record.{
  OutboxLib, source_initialized, on_source, GraphRouteFamily-discrete, DeliveryPolicy,
  DeliveryRecord, process, delivery_record_schema_name,
}
use ffhn.Outbox.{
  validate_policy, validate_common, validate_record, validate_attempt, validate_attempt_failure,
  precedes, record_failure, is_single_attempt_successor_of, into_dead_letter, letter,
}
use ffhn.Outbox.History.{validate_common-numbers, numbers_after}
use ffhn.Outbox.Attempts.{pending-or-dead_letter}
use ffhn.Outbox.Appended.{latest}
use ffhn.Outbox.Recordable.{is_recordable}
use ffhn.Outbox.Failure.{record_failure-outcome}
use ffhn.Outbox.Admission.{GraphRoute, OutboxAdmission, new_record, admit_key, admit_route, admit}
use ffhn.Outbox.Admission.Keys.{AreNew, admit-AreNew}
use ffhn.Outbox.Admission.Bounds.{IsBounded, admit-IsBounded}

-- A clock whose timestamps are single bytes, all of them canonical.
abbrev first_byte : Text → Option ℕ
first_byte [] = none
first_byte (x ∷ t) = some x

abbrev clock : TimeLib
clock = record {
  Stamp = ℕ;
  parse = first_byte;
  format = λ n. some (n ∷ []);
  is_utc = λ n. true;
  instant = λ n. n;
}

-- Envelopes and adapters that are their own names.
abbrev names : OutboxLib
names = record {
  Envelope = Text;
  event_id = λ e. e;
  event_kind = λ e. source_initialized;
  condition_id = λ e. none;
  validate_envelope = λ e. ok tt;
  envelope_eq = list_eq;
  Adapter = Text;
  validate_adapter = λ a. ok tt;
  adapter_eq = list_eq;
  trim = λ t. t;
  Ratio = ℕ;
  parse_ratio = λ t. some 0;
  in_unit = λ r. leb r 1;
}

abbrev one_retry : DeliveryPolicy
one_retry = record {
  max_pending = 1;
  max_attempts = 1;
  base_backoff_ms = 100;
  max_backoff_ms = 250;
  jitter_ratio = b'0' ∷ [];
}

abbrev pending : DeliveryRecord names
pending = record {
  schema_name = delivery_record_schema_name;
  schema_version = 1;
  envelope = 8 ∷ [];
  route_id = 9 ∷ [];
  route_family = on_source;
  adapter = [];
  delivery_policy = one_retry;
  attempts = [];
  next_retry_at_utc = 3 ∷ [];
}

abbrev failed_once : DeliveryRecord names
failed_once = record pending {
  attempts =
      (record { attempt = 1; attempted_at_utc = 4 ∷ []; failure = process (b'x' ∷ []) }) ∷ [];
  next_retry_at_utc = 6 ∷ [];
}

-- The failure is recorded.
failed :
    record_failure clock names pending (4 ∷ []) (process (b'x' ∷ [])) (6 ∷ [])
    ≡ (failed_once, ok tt)
unfolding record_failure validate_record validate_common validate_policy validate_attempt
    validate_attempt_failure require_canonical_utc_rfc3339 parse_instant GraphRouteFamily-discrete
failed = refl

-- Where a second attempt is allowed, one at an earlier time is refused, and stays in the record.
abbrev allow_two : DeliveryRecord names → DeliveryRecord names
allow_two r = record r { delivery_policy = record one_retry { max_attempts = 2 } }

abbrev late_failure : DeliveryRecord names × CoreResult (Unit {0})
late_failure =
    record_failure clock names (allow_two failed_once) (3 ∷ []) (process (b'x' ∷ [])) (6 ∷ [])

late_failure-kept :
    (length late_failure.0.attempts ≡ 2)
    × (late_failure.1 ≡ err (contract "delivery attempt timestamps must be monotonic"))
unfolding record_failure validate_record validate_common validate_policy validate_attempt
    validate_attempt_failure require_canonical_utc_rfc3339 parse_instant GraphRouteFamily-discrete
late_failure-kept = (refl, refl)

record_failure-outcome_example :
    ((is_recordable clock names pending (4 ∷ []) (process (b'x' ∷ [])) (6 ∷ []) ≡ false)
      × ((e : CoreError) × (record_failure clock names pending
              (4 ∷ [])
              (process (b'x' ∷ []))
              (6 ∷ [])
            ≡ (pending, err e))))
    ⊎ ((is_recordable clock names pending (4 ∷ []) (process (b'x' ∷ [])) (6 ∷ []) ≡ true)
        × ((record_failure clock names pending (4 ∷ []) (process (b'x' ∷ [])) (6 ∷ [])).0
            ≡ failed_once)
        × (is_single_attempt_successor_of clock names
              (record_failure clock names pending (4 ∷ []) (process (b'x' ∷ [])) (6 ∷ [])).0
              pending
            ≡ true)
        × (validate_common clock names
              (record_failure clock names pending (4 ∷ []) (process (b'x' ∷ [])) (6 ∷ [])).0
            ≡ (record_failure clock names pending (4 ∷ []) (process (b'x' ∷ [])) (6 ∷ [])).1)
        × ((attempted : ℕ) × (last : Option ℕ) × (parse_instant clock (4 ∷ []) ≡ ok attempted)
            × (latest clock names none [] ≡ ok last)
            × ((record_failure clock names pending (4 ∷ []) (process (b'x' ∷ [])) (6 ∷ [])).1
                ≡ refuse_if
                    (precedes attempted last)
                    (contract "delivery attempt timestamps must be monotonic"))))
record_failure-outcome_example =
    record_failure-outcome clock names pending (4 ∷ []) (process (b'x' ∷ [])) (6 ∷ [])

failed_once-common : validate_common clock names failed_once ≡ ok tt
unfolding validate_common validate_policy validate_attempt validate_attempt_failure
    require_canonical_utc_rfc3339 parse_instant GraphRouteFamily-discrete
failed_once-common = refl

pending-or-dead_letter_example :
    ((validate_record clock names failed_once ≡ ok tt)
      × (is_ok (into_dead_letter clock names failed_once) ≡ false))
    ⊎ ((is_ok (validate_record clock names failed_once) ≡ false)
        × (into_dead_letter clock names failed_once ≡ ok (letter clock names failed_once 1)))
pending-or-dead_letter_example = pending-or-dead_letter clock names failed_once failed_once-common

abbrev route : GraphRoute names
route = record { route_id = 9 ∷ []; route_family = on_source; adapter = [] }

-- The first event is queued, its second occurrence skipped, the other one refused.
abbrev filled : OutboxAdmission names
filled = record {
  records = pending ∷ [];
  overflow =
      (record {
        event_id = 7 ∷ [];
        event_kind = source_initialized;
        condition_id = none;
        route_id = 9 ∷ [];
        route_family = on_source;
      })
      ∷ [];
}

admitted :
    admit clock names []
      ((8 ∷ []) ∷ (8 ∷ []) ∷ (7 ∷ []) ∷ [])
      (route ∷ [])
      (some one_retry)
      (3 ∷ [])
    ≡ ok filled
unfolding admit admit_route admit_key new_record validate_record validate_common validate_policy
    require_canonical_utc_rfc3339 GraphRouteFamily-discrete
admitted = refl

admit-IsBounded_example : IsBounded clock names 0 one_retry filled
admit-IsBounded_example =
    admit-IsBounded clock names [] ((8 ∷ []) ∷ (8 ∷ []) ∷ (7 ∷ []) ∷ []) (route ∷ []) one_retry
      (3 ∷ []) admitted

validate_common-numbers_example :
    (map (λ a. a.attempt) failed_once.attempts ≡ numbers_after 0 1) × (1 ≤ 1)
validate_common-numbers_example = validate_common-numbers clock names failed_once failed_once-common

admit-AreNew_example : AreNew [] (((8 ∷ []), (9 ∷ [])) ∷ [])
admit-AreNew_example =
    admit-AreNew clock names [] ((8 ∷ []) ∷ (8 ∷ []) ∷ (7 ∷ []) ∷ []) (route ∷ []) one_retry
      (3 ∷ []) admitted
