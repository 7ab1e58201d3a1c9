-- ===== src/State/Operations.antt =====
-- graph/state.rs: the operations on a source state.
use ffhn.Base.{
  ℕ, Bool, true, false, ◌&&◌, not, Option, none, some, List, same, list_eq, nat_eq, option_eq,
  if◌then◌else◌,
}
use ffhn.Base.Errors.{Text, CoreResult, contract, ok, err, ◌>>=◌, ◌>>◌, ok_or, check_each}
use ffhn.Stamps.{TimeLib}
use ffhn.Identity.{UuidLib, next_u64}
use ffhn.Health.Failure.{SourceFetchFailure, kind_eq}
use ffhn.Health.Source.{healthy_source, observe_source}
use ffhn.Health.Fault.{
  GraphIntegrationFaultCode, secret_unavailable, fault_code_eq, IntegrationFaultEpisode,
  new_episode,
}
use ffhn.Delivery.Record.{family_eq}
use ffhn.Outbox.Admission.{OutboxOverflowFact}
use ffhn.State.Facts.{UrlLib, HttpValidators, validate_sha256, check_digest, validate_overflow}
use ffhn.State.Document.{SourceState, require_timestamp, validate_state}

module _ (time : TimeLib) (uuids : UuidLib) (urls : UrlLib) where
  open urls use {Url, url_eq}

  unfoldable pub set_outbox_overflow :
      SourceState uuids urls → List OutboxOverflowFact → CoreResult (SourceState uuids urls)
  set_outbox_overflow s overflow = do
    check_each validate_overflow overflow
    ok (record s { outbox_overflow = overflow })

  unfoldable pub next_generation : SourceState uuids urls → CoreResult (SourceState uuids urls)
  next_generation s = do
    generation ← ok_or (next_u64 s.generation) (contract "source generation overflowed")
    ok (record s { generation = generation })

  unfoldable pub matches_file_representation : SourceState uuids urls → Text → Text → Bool
  matches_file_representation s source_digest file_digest =
      same s.last_source_representation_digest (some source_digest)
      && same s.file_content_sha256 (some file_digest)

  unfoldable pub with_representation_facts :
      SourceState uuids urls
      → Option (HttpValidators urls)
      → Option Url
      → Option Url
      → Option Text
      → Text
      → CoreResult (SourceState uuids urls)
  with_representation_facts s validators source_url effective_base_url file_digest source_digest =
      do
        validate_sha256 source_digest
        check_digest file_digest
        let next = record s {
          validators = validators;
          source_url = source_url;
          effective_base_url = effective_base_url;
          file_content_sha256 = file_digest;
          last_source_representation_digest = some source_digest;
        }
        validate_state time uuids urls next
        ok next

  abbrev pub next_seq : SourceState uuids urls → CoreResult ℕ
  next_seq s = ok_or (next_u64 s.source_episode_seq) (contract "source episode sequence overflowed")

  -- What `&mut self` is after an operation, and what the operation returns: before the assignments an
  -- error leaves the state, after them it is validated.
  abbrev pub settle :
      SourceState uuids urls
      → CoreResult (SourceState uuids urls × Bool)
      → SourceState uuids urls × CoreResult Bool
  settle s (err e) = (s, err e)
  settle s (ok (next, answer)) = (next, validate_state time uuids urls next >> ok answer)

  -- `apply_acquisition_failure` up to its assignments.
  unfoldable pub acquisition_failure :
      SourceState uuids urls
      → SourceFetchFailure
      → Text
      → ℕ
      → CoreResult (SourceState uuids urls × Bool)
  acquisition_failure s failure now_utc escalate_after = do
    let episode_began = not (same s.source_health.failure_kind (some failure.kind))
    observed ← observe_source time s.source_health failure now_utc escalate_after
    seq ← if episode_began then next_seq s else ok s.source_episode_seq
    ok (
      record s {
        source_health = observed.0;
        source_episode_seq = seq;
        integration_fault_episode = none;
      },
      observed.1,
    )

  unfoldable pub apply_acquisition_failure :
      SourceState uuids urls
      → SourceFetchFailure
      → Text
      → ℕ
      → SourceState uuids urls × CoreResult Bool
  apply_acquisition_failure s failure now_utc escalate_after =
      settle s (acquisition_failure s failure now_utc escalate_after)

  abbrev pub has_code : Option IntegrationFaultEpisode → GraphIntegrationFaultCode → Bool
  has_code none code = false
  has_code (some episode) code = same episode.code code

  abbrev pub begin_fault :
      SourceState uuids urls
      → GraphIntegrationFaultCode
      → Text
      → CoreResult (SourceState uuids urls × Bool)
  begin_fault s code now_utc = do
    seq ← next_seq s
    episode ← new_episode time code now_utc
    ok (record s { source_episode_seq = seq; integration_fault_episode = some episode }, true)

  unfoldable pub apply_source_integration_fault :
      SourceState uuids urls
      → GraphIntegrationFaultCode
      → Text
      → SourceState uuids urls × CoreResult Bool
  apply_source_integration_fault s code now_utc =
      if not (same code secret_unavailable)
      then (s, err (contract "only secret_unavailable is a source-scoped integration fault"))
      else (if has_code s.integration_fault_episode code
          then (s, ok false)
          else settle s (begin_fault s code now_utc))

  unfoldable pub clear_transient_episodes : SourceState uuids urls → SourceState uuids urls
  clear_transient_episodes s = record s {
    source_health = healthy_source;
    integration_fault_episode = none;
  }

  unfoldable pub with_cycle_schedule :
      SourceState uuids urls → Text → Text → CoreResult (SourceState uuids urls)
  with_cycle_schedule s completed_at_utc next_due_utc = do
    require_timestamp time uuids urls completed_at_utc
    require_timestamp time uuids urls next_due_utc
    let next = record s {
      last_cycle_completed_utc = some completed_at_utc;
      next_due_utc = some next_due_utc;
    }
    validate_state time uuids urls next
    ok next
