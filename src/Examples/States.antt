-- ===== src/Examples/States.antt =====
-- Source states at concrete inputs.
use ffhn.Base.{ℕ, ◌≡◌, refl, true, Option, none, some, [], ◌∷◌, nat_eq, option_eq}
use ffhn.Base.Errors.{Text, ok}
use ffhn.Stamps.{TimeLib, require_canonical_utc_rfc3339}
use ffhn.Identity.{UuidLib, validate_instance_id}
use ffhn.Health.Failure.{
  SourceFetchFailure, SourceFetchFailureKind-discrete, dns_error, kind_eq, validate_failure,
}
use ffhn.Health.Source.{validate_source, observe_source, continue_source}
use ffhn.State.Facts.{UrlLib}
use ffhn.State.Document.{SourceState, fresh, validate_state}
use ffhn.State.Operations.{
  next_generation, acquisition_failure, apply_acquisition_failure, clear_transient_episodes,
}
use ffhn.State.Validity.{IsAtomic, apply_acquisition_failure-IsAtomic}
use ffhn.State.Reach.{
  Steps, stay, then_step, acquisition_failed, generation_next, cleared, Steps-valid,
}
use ffhn.State.Lineage.{Later, Steps-Later}

-- A clock whose timestamps are single bytes, all of them canonical.
abbrev first_byte : Text → Option ℕ
first_byte [] = none
first_byte (x ∷ t) = some x

abbrev pub clock : TimeLib
clock = record {
  Stamp = ℕ;
  parse = first_byte;
  format = λ n. some (n ∷ []);
  is_utc = λ n. true;
  instant = λ n. n;
}

-- Identifiers and addresses that are numbers, all of them valid.
abbrev pub numbers : UuidLib
numbers = record { Uuid = ℕ; uuid_eq = nat_eq; version_num = λ u. 4; is_rfc4122 = λ u. true }

abbrev pub addresses : UrlLib
addresses = record {
  Url = ℕ;
  url_eq = nat_eq;
  is_http = λ u. true;
  username = λ u. [];
  password = λ u. none;
}

abbrev State : Type 0
State = SourceState numbers addresses

abbrev dns_failure : SourceFetchFailure
dns_failure = record { kind = dns_error; status = none; raw_platform_error = none }

-- After one failure, and in the next generation.
abbrev suspected : State
suspected =
    (apply_acquisition_failure clock numbers addresses (fresh clock numbers addresses 7) dns_failure
      (3 ∷ []) 2).0

abbrev next : State
next = record suspected { generation = 2 }

seven_valid : validate_instance_id numbers 7 ≡ ok tt
unfolding validate_instance_id
seven_valid = refl

valid_start : validate_state clock numbers addresses (fresh clock numbers addresses 7) ≡ ok tt
unfolding validate_state fresh validate_instance_id validate_source
valid_start = refl

-- The failure is counted and numbered.
counted : suspected.source_episode_seq ≡ 1
unfolding apply_acquisition_failure acquisition_failure fresh observe_source continue_source
    validate_failure validate_source require_canonical_utc_rfc3339 SourceFetchFailureKind-discrete
counted = refl

advanced : next_generation clock numbers addresses suspected ≡ ok next
unfolding next_generation apply_acquisition_failure acquisition_failure fresh observe_source
    continue_source validate_failure validate_source require_canonical_utc_rfc3339
    SourceFetchFailureKind-discrete
advanced = refl

-- A failure, the next generation, and a success.
run :
    Steps clock numbers addresses
      (fresh clock numbers addresses 7)
      (clear_transient_episodes clock numbers addresses next)
run =
    then_step
      (then_step (then_step stay (acquisition_failed dns_failure (3 ∷ []) 2))
        (generation_next advanced))
      cleared

apply_acquisition_failure-IsAtomic_example :
    IsAtomic clock numbers addresses (fresh clock numbers addresses 7) (
      apply_acquisition_failure clock numbers addresses
        (fresh clock numbers addresses 7)
        dns_failure
        (3 ∷ [])
        2)
apply_acquisition_failure-IsAtomic_example =
    apply_acquisition_failure-IsAtomic clock numbers addresses (fresh clock numbers addresses 7)
      dns_failure (3 ∷ []) 2 valid_start

Steps-valid_example :
    validate_state clock numbers addresses (clear_transient_episodes clock numbers addresses next)
    ≡ ok tt
Steps-valid_example =
    Steps-valid clock numbers addresses 7 seven_valid
      (clear_transient_episodes clock numbers addresses next) run

Steps-Later_example :
    Later clock numbers addresses
      (fresh clock numbers addresses 7)
      (clear_transient_episodes clock numbers addresses next)
Steps-Later_example = Steps-Later clock numbers addresses run
