-- ===== src/Examples/Episodes.antt =====
-- Health episodes at concrete inputs.
use ffhn.Base.{ℕ, ◌≡◌, ◌==◌, refl, true, Option, none, some, [], ◌∷◌, option_eq, arith}
use ffhn.Base.Errors.{Text, ok}
use ffhn.Stamps.{TimeLib, require_canonical_utc_rfc3339}
use ffhn.Health.{
  suspect, ExtractionFailureReason-discrete, json_malformed, reason_eq, healthy_extraction,
  validate_extraction, observe_extraction, continue_extraction,
}
use ffhn.Health.Failure.{
  SourceFetchFailure, SourceFetchFailureKind-discrete, dns_error, kind_eq, validate_failure,
}
use ffhn.Health.Source.{
  SourceAcquisitionHealth, healthy_source, validate_source, observe_source, continue_source,
}
use ffhn.Health.Episode.{observe_extraction-valid, NextEpisode}
use ffhn.Health.Escalation.{observe_each, observe_each-healthy, episode, bit, IsStamp}

-- A clock whose timestamps are single bytes, all of them canonical.
abbrev first_byte : Text → Option ℕ
first_byte [] = none
first_byte (x ∷ t) = some x

abbrev clock : TimeLib
clock = record {
  Stamp = ℕ;
  parse = first_byte;
  format = λ n. some (n ∷ []);
  is_utc = λ n. true;
  instant = λ n. n;
}

three-IsStamp : IsStamp clock (3 ∷ [])
unfolding require_canonical_utc_rfc3339
three-IsStamp field = refl

four-IsStamp : IsStamp clock (4 ∷ [])
unfolding require_canonical_utc_rfc3339
four-IsStamp field = refl

observe_each-healthy_example :
    observe_each clock json_malformed 2 healthy_extraction ((3 ∷ []) ∷ (4 ∷ []) ∷ [])
    ≡ ok (episode json_malformed 2 (3 ∷ []), bit true)
observe_each-healthy_example =
    observe_each-healthy clock json_malformed 2 (3 ∷ []) ((4 ∷ []) ∷ []) (omega arith) three-IsStamp
      (four-IsStamp, tt) (omega arith)

observed :
    observe_extraction clock (episode json_malformed 1 (3 ∷ [])) json_malformed (4 ∷ []) 2
    ≡ ok (episode json_malformed 2 (3 ∷ []), true)
unfolding observe_extraction validate_extraction require_canonical_utc_rfc3339 continue_extraction
    ExtractionFailureReason-discrete
observed = refl

observe_extraction-valid_example :
    (validate_extraction clock (episode json_malformed 2 (3 ∷ [])) ≡ ok tt)
    × (true ≡ (2 == 2))
    × (suspect ≡ suspect)
    × (some json_malformed ≡ some json_malformed)
    × NextEpisode true 1 (some (3 ∷ [])) (4 ∷ []) 2 (some (3 ∷ []))
unfolding ExtractionFailureReason-discrete
observe_extraction-valid_example =
    observe_extraction-valid clock (episode json_malformed 1 (3 ∷ [])) json_malformed (4 ∷ []) 2
      observed

abbrev no_name : SourceFetchFailure
no_name = record { kind = dns_error; status = none; raw_platform_error = none }

abbrev one_failure : SourceAcquisitionHealth
one_failure = record {
  state = suspect;
  failure_kind = some dns_error;
  consecutive_unresolved = 1;
  first_unresolved_at_utc = some (3 ∷ []);
  last_failure = some no_name;
}

source_observed : observe_source clock healthy_source no_name (3 ∷ []) 1 ≡ ok (one_failure, true)
unfolding observe_source validate_source require_canonical_utc_rfc3339 continue_source
    validate_failure SourceFetchFailureKind-discrete
source_observed = refl
