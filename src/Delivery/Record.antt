-- ===== src/Delivery/Record.antt =====
-- graph/outbox.rs, graph/event/key.rs and graph/delivery_config.rs: delivery records, dead letters and
-- what they hold.
use native.Mathlib.Decide.{ℕ_discrete}
use ffhn.Base.{ℕ, Bool, Option, List, [], ◌∷◌, Eq, option_eq, list_eq, nat_eq, discrete_eq}
use ffhn.Base.Errors.{Text, CoreResult}

pub data GraphRouteFamily : Type 0 where
  on_condition on_measurement on_source : GraphRouteFamily

unfoldable pub GraphRouteFamily-discrete : Discrete GraphRouteFamily
GraphRouteFamily-discrete = hlevel

instance abbrev pub family_eq : Eq GraphRouteFamily
family_eq = discrete_eq GraphRouteFamily-discrete

pub data EventKind : Type 0 where
  condition_satisfied condition_evaluation_issue measurement_initialized extraction_escalation
        measurement_integration_fault source_initialized source_escalation
        source_integration_fault :
      EventKind

-- `EventKind::route_family`.
abbrev pub route_family_of : EventKind → GraphRouteFamily
route_family_of condition_satisfied = on_condition
route_family_of condition_evaluation_issue = on_measurement
route_family_of measurement_initialized = on_measurement
route_family_of extraction_escalation = on_measurement
route_family_of measurement_integration_fault = on_measurement
route_family_of source_initialized = on_source
route_family_of source_escalation = on_source
route_family_of source_integration_fault = on_source

pub record DeliveryPolicy : Type 0 where
  pub max_pending : ℕ
  pub max_attempts : ℕ
  pub base_backoff_ms : ℕ
  pub max_backoff_ms : ℕ
  pub jitter_ratio : Text

pub DeliveryPolicy-discrete : Discrete DeliveryPolicy
DeliveryPolicy-discrete = hlevel (ℕ_discrete)

instance abbrev pub policy_eq : Eq DeliveryPolicy
policy_eq = discrete_eq DeliveryPolicy-discrete

pub data DeliveryAttemptFailure : Type 0 where
  secret_unavailable : Text → DeliveryAttemptFailure
  process : Text → DeliveryAttemptFailure
  http_webhook : Text → Option ℕ → DeliveryAttemptFailure

pub record DeliveryAttempt : Type 0 where
  pub attempt : ℕ
  pub attempted_at_utc : Text
  pub failure : DeliveryAttemptFailure

pub DeliveryAttempt-discrete : Discrete DeliveryAttempt
DeliveryAttempt-discrete = hlevel (ℕ_discrete)

instance abbrev pub attempt_eq : Eq DeliveryAttempt
attempt_eq = discrete_eq DeliveryAttempt-discrete

-- `DELIVERY_RECORD_SCHEMA_NAME` and `DEAD_LETTER_SCHEMA_NAME`; both have version 1.
abbrev pub delivery_record_schema_name : Text
delivery_record_schema_name =
    b'f' ∷ b'f' ∷ b'h' ∷ b'n' ∷ b'.' ∷ b'd' ∷ b'e' ∷ b'l' ∷ b'i' ∷ b'v' ∷ b'e' ∷ b'r' ∷ b'y' ∷ b'_'
    ∷ b'r' ∷ b'e' ∷ b'c' ∷ b'o' ∷ b'r' ∷ b'd' ∷ []

abbrev pub dead_letter_schema_name : Text
dead_letter_schema_name =
    b'f' ∷ b'f' ∷ b'h' ∷ b'n' ∷ b'.' ∷ b'd' ∷ b'e' ∷ b'a' ∷ b'd' ∷ b'_' ∷ b'l' ∷ b'e' ∷ b't' ∷ b't'
    ∷ b'e' ∷ b'r' ∷ []

-- What a record keeps without looking inside: the event envelope and the adapter, each with its own
-- validation and equality; and `str::trim` and the decimal range test of the jitter ratio.
pub record OutboxLib : Type 1 where
  pub Envelope : Type 0
  pub event_id : Envelope → Text
  pub event_kind : Envelope → EventKind
  pub condition_id : Envelope → Option Text
  pub validate_envelope : Envelope → CoreResult (Unit {0})
  pub envelope_eq : Eq Envelope
  pub Adapter : Type 0
  pub validate_adapter : Adapter → CoreResult (Unit {0})
  pub adapter_eq : Eq Adapter
  pub trim : Text → Text
  pub Ratio : Type 0
  pub parse_ratio : Text → Option Ratio
  pub in_unit : Ratio → Bool

pub record DeliveryRecord (lib : OutboxLib) : Type 0 where
  pub schema_name : Text
  pub schema_version : ℕ
  pub envelope : lib.Envelope
  pub route_id : Text
  pub route_family : GraphRouteFamily
  pub adapter : lib.Adapter
  pub delivery_policy : DeliveryPolicy
  pub attempts : List DeliveryAttempt
  pub next_retry_at_utc : Text

pub record DeadLetter (lib : OutboxLib) : Type 0 where
  pub schema_name : Text
  pub schema_version : ℕ
  pub record_of : DeliveryRecord lib
  pub terminal_attempt : ℕ
