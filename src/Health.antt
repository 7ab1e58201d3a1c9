-- ===== src/Health.antt =====
-- graph/health.rs: the episodes of source acquisition and of measurement extraction.
pub mod Failure
pub mod Fault
pub mod Source
pub mod Episode
pub mod Escalation
use Prim.Native.String.{String}
use ffhn.Base.{
  ℕ, suc, ◌+◌, ◌-◌, ◌^◌, ◌<◌, ◌≡◌, Bool, true, false, ◌&&◌, not, Option, none, some, same,
  option_eq, Eq, ltb, ◌==◌, if◌then◌else◌, discrete_eq, next_u32,
}
use ffhn.Base.Errors.{Text, CoreResult, contract, ok, err, ◌>>=◌, ◌>>◌, refuse_if, ok_or}
use ffhn.Stamps.{TimeLib, require_canonical_utc_rfc3339}

pub data HealthState : Type 0 where
  healthy suspect : HealthState

pub data ExtractionFailureReason : Type 0 where
  json_malformed json_missing_pointer_target json_non_scalar_pointer_target htmlcut_no_match
        htmlcut_ambiguous_match htmlcut_missing_attribute htmlcut_match_index_out_of_range
        value_unparseable :
      ExtractionFailureReason

unfoldable pub ExtractionFailureReason-discrete : Discrete ExtractionFailureReason
ExtractionFailureReason-discrete = hlevel

instance abbrev pub reason_eq : Eq ExtractionFailureReason
reason_eq = discrete_eq ExtractionFailureReason-discrete

pub record MeasurementExtractionHealth : Type 0 where
  pub state : HealthState
  pub reason : Option ExtractionFailureReason
  pub consecutive_unresolved : ℕ
  pub first_unresolved_at_utc : Option Text

-- `MeasurementExtractionHealth::healthy`.
abbrev pub healthy_extraction : MeasurementExtractionHealth
healthy_extraction = record {
  state = healthy;
  reason = none;
  consecutive_unresolved = 0;
  first_unresolved_at_utc = none;
}

-- `MeasurementExtractionHealth::clear`.
pub clear_extraction : MeasurementExtractionHealth → MeasurementExtractionHealth
clear_extraction h = healthy_extraction

-- The episode that a failure continues or begins.
unfoldable pub continue_extraction :
    MeasurementExtractionHealth
    → ExtractionFailureReason
    → Text
    → CoreResult MeasurementExtractionHealth
continue_extraction h reason now_utc =
    if same h.reason (some reason)
    then (ok_or (next_u32 h.consecutive_unresolved)
          (contract "measurement extraction-health unresolved count overflowed")
        >>= λ count. ok (record h { consecutive_unresolved = count; state = suspect }))
    else ok (record {
      state = suspect;
      reason = some reason;
      consecutive_unresolved = 1;
      first_unresolved_at_utc = some now_utc;
    })

module _ (time : TimeLib) where
  abbrev pub require_timestamp : String → Text → CoreResult (Unit {0})
  require_timestamp = require_canonical_utc_rfc3339 time

  abbrev pub extraction_shape :
      HealthState → Option ExtractionFailureReason → ℕ → Option Text → CoreResult (Unit {0})
  extraction_shape healthy none count none =
      refuse_if (not (count == 0))
        (contract "measurement extraction-health episode fields disagree")
  extraction_shape suspect (some reason) count (some first) =
      if ltb 0 count
      then require_timestamp "measurement extraction-health first time" first
      else err (contract "measurement extraction-health episode fields disagree")
  extraction_shape _ _ _ _ = err (contract "measurement extraction-health episode fields disagree")

  unfoldable pub validate_extraction : MeasurementExtractionHealth → CoreResult (Unit {0})
  validate_extraction h =
      extraction_shape h.state h.reason h.consecutive_unresolved h.first_unresolved_at_utc

  -- `observe` returns the episode and whether it just reached escalation.
  unfoldable pub observe_extraction :
      MeasurementExtractionHealth
      → ExtractionFailureReason
      → Text
      → ℕ
      → CoreResult (MeasurementExtractionHealth × Bool)
  observe_extraction h reason now_utc escalate_after = do
    require_timestamp "measurement extraction-health time" now_utc
    refuse_if (escalate_after == 0) (contract "measurement escalate_after must be positive")
    h' ← continue_extraction h reason now_utc
    validate_extraction h'
    ok (h', h'.consecutive_unresolved == escalate_after)
