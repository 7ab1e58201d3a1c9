-- ===== src/State/Document.antt =====
-- graph/state.rs: the document of a source state, and its validation.
use ffhn.Base.{
  ℕ, Bool, false, ◌&&◌, ◌||◌, not, Option, none, some, List, [], ◌∷◌, same, list_eq, nat_eq,
  option_eq, ltb, ◌==◌, if◌then◌else◌,
}
use ffhn.Base.Errors.{Text, CoreResult, contract, ok, err, ◌>>=◌, ◌>>◌, refuse_if, check_each}
use ffhn.Stamps.{TimeLib, require_canonical_utc_rfc3339, parse_instant}
use ffhn.Identity.{UuidLib, validate_instance_id}
use ffhn.Health.Failure.{kind_eq}
use ffhn.Health.Source.{SourceAcquisitionHealth, healthy_source, validate_source}
use ffhn.Health.Fault.{secret_unavailable, fault_code_eq, IntegrationFaultEpisode, validate_episode}
use ffhn.Delivery.Record.{family_eq}
use ffhn.Outbox.Admission.{OutboxOverflowFact}
use ffhn.State.Facts.{
  UrlLib, HttpValidators, check_digest, validate_overflow, valid_http_url, validate_http_validators,
}

-- "ffhn.source_state"; the version is 1.
abbrev pub source_state_schema_name : Text
source_state_schema_name =
    b'f' ∷ b'f' ∷ b'h' ∷ b'n' ∷ b'.' ∷ b's' ∷ b'o' ∷ b'u' ∷ b'r' ∷ b'c' ∷ b'e' ∷ b'_' ∷ b's' ∷ b't'
    ∷ b'a' ∷ b't' ∷ b'e' ∷ []

pub record SourceState (uuids : UuidLib) (urls : UrlLib) : Type 0 where
  pub schema_name : Text
  pub schema_version : ℕ
  pub source_instance_id : uuids.Uuid
  pub generation : ℕ
  pub source_episode_seq : ℕ
  pub validators : Option (HttpValidators urls)
  pub source_url : Option urls.Url
  pub effective_base_url : Option urls.Url
  pub file_content_sha256 : Option Text
  pub last_source_representation_digest : Option Text
  pub source_health : SourceAcquisitionHealth
  pub outbox_overflow : List OutboxOverflowFact
  pub integration_fault_episode : Option IntegrationFaultEpisode
  pub last_cycle_completed_utc : Option Text
  pub next_due_utc : Option Text

module _ (time : TimeLib) (uuids : UuidLib) (urls : UrlLib) where
  open urls use {Url, url_eq}

  -- `SourceState::fresh`.
  unfoldable pub fresh : uuids.Uuid → SourceState uuids urls
  fresh source_instance_id = record {
    schema_name = source_state_schema_name;
    schema_version = 1;
    source_instance_id = source_instance_id;
    generation = 1;
    source_episode_seq = 0;
    validators = none;
    source_url = none;
    effective_base_url = none;
    file_content_sha256 = none;
    last_source_representation_digest = none;
    source_health = healthy_source;
    outbox_overflow = [];
    integration_fault_episode = none;
    last_cycle_completed_utc = none;
    next_due_utc = none;
  }

  abbrev pub check_validators : Option (HttpValidators urls) → CoreResult (Unit {0})
  check_validators none = ok tt
  check_validators (some v) = validate_http_validators urls v

  -- The validators do not belong to the stored source URL, or that was redirected.
  abbrev foreign_validators : Option (HttpValidators urls) → Url → Url → Bool
  foreign_validators none source_url effective = false
  foreign_validators (some v) source_url effective =
      not (url_eq.beq v.issued_url source_url) || not (url_eq.beq effective source_url)

  -- The `match` on the facts of the last representation.
  abbrev pub check_provenance :
      Option Url
      → Option Url
      → Option Text
      → Option Text
      → Option (HttpValidators urls)
      → CoreResult (Unit {0})
  check_provenance none none none none none = ok tt
  check_provenance (some source_url) (some effective) none (some digest) validators =
      if valid_http_url urls source_url && valid_http_url urls effective
      then refuse_if (foreign_validators validators source_url effective)
          (contract "source HTTP validators must belong to the direct stored source URL")
      else err
          (contract "source representation provenance must be coherently HTTP, file, or absent")
  check_provenance none none (some file) (some digest) none = ok tt
  check_provenance _ _ _ _ _ =
      err (contract "source representation provenance must be coherently HTTP, file, or absent")

  abbrev pub check_fault : Option IntegrationFaultEpisode → CoreResult (Unit {0})
  check_fault none = ok tt
  check_fault (some episode) = do
    validate_episode time episode
    refuse_if (not (same episode.code secret_unavailable))
        (contract "source state integration fault must be secret_unavailable")

  abbrev pub require_timestamp : Text → CoreResult (Unit {0})
  require_timestamp = require_canonical_utc_rfc3339 time "source cycle time"

  abbrev pub check_schedule : Option Text → Option Text → CoreResult (Unit {0})
  check_schedule none none = ok tt
  check_schedule (some completed) (some next_due) = do
    require_timestamp completed
    require_timestamp next_due
    completed_at ← parse_instant time completed
    due_at ← parse_instant time next_due
    refuse_if (not (ltb completed_at due_at))
        (contract "source next due time must be after cycle completion")
  check_schedule _ _ =
      err (contract "source cycle completion and next due timestamps must appear together")

  abbrev pub is_current : SourceState uuids urls → Bool
  is_current s =
      same s.schema_name source_state_schema_name
      && (s.schema_version == 1)
      && not (s.generation == 0)

  -- `SourceState::validate`.
  unfoldable pub validate_state : SourceState uuids urls → CoreResult (Unit {0})
  validate_state s = do
    refuse_if (not (is_current s)) (contract "source state is not a current FFHN source state")
    validate_instance_id uuids s.source_instance_id
    check_digest s.file_content_sha256
    check_digest s.last_source_representation_digest
    check_validators s.validators
    check_provenance s.source_url s.effective_base_url s.file_content_sha256
        s.last_source_representation_digest s.validators
    validate_source time s.source_health
    check_each validate_overflow s.outbox_overflow
    check_fault s.integration_fault_episode
    check_schedule s.last_cycle_completed_utc s.next_due_utc
