-- ===== src/Health/Fault.antt =====
-- graph/health.rs: integration faults and their episodes.
use ffhn.Base.{Eq, discrete_eq}
use ffhn.Base.Errors.{Text, CoreResult, ok, ◌>>◌}
use ffhn.Stamps.{TimeLib}
use ffhn.Health.{require_timestamp}

pub data GraphIntegrationFaultCode : Type 0 where
  secret_unavailable htmlcut_internal_error ffhn_boundary_invariant_violation
        ffhn_policy_invariant_violation :
      GraphIntegrationFaultCode

unfoldable pub GraphIntegrationFaultCode-discrete : Discrete GraphIntegrationFaultCode
GraphIntegrationFaultCode-discrete = hlevel

instance abbrev pub fault_code_eq : Eq GraphIntegrationFaultCode
fault_code_eq = discrete_eq GraphIntegrationFaultCode-discrete

pub record IntegrationFaultEpisode : Type 0 where
  pub code : GraphIntegrationFaultCode
  pub first_seen_at_utc : Text

-- `IntegrationFaultEpisode::validate` and `new`.
unfoldable pub validate_episode : TimeLib → IntegrationFaultEpisode → CoreResult (Unit {0})
validate_episode time episode =
    require_timestamp time "integration-fault first-seen time" episode.first_seen_at_utc

unfoldable pub new_episode :
    TimeLib → GraphIntegrationFaultCode → Text → CoreResult IntegrationFaultEpisode
new_episode time code first_seen_at_utc = do
  let episode : IntegrationFaultEpisode = record {
    code = code;
    first_seen_at_utc = first_seen_at_utc;
  }
  validate_episode time episode
  ok episode
