-- ===== src/Health/Source.antt =====
-- graph/health.rs: `SourceAcquisitionHealth`.
use ffhn.Base.{
  next_u32, ℕ, Bool, not, Option, none, some, same, option_eq, ltb, ◌==◌, if◌then◌else◌,
}
use ffhn.Base.Errors.{Text, CoreResult, contract, ok, err, ◌>>=◌, ◌>>◌, refuse_if, ok_or}
use ffhn.Stamps.{TimeLib}
use ffhn.Health.{HealthState, healthy, suspect, require_timestamp}
use ffhn.Health.Failure.{SourceFetchFailureKind, kind_eq, SourceFetchFailure, validate_failure}

pub record SourceAcquisitionHealth : Type 0 where
  pub state : HealthState
  pub failure_kind : Option SourceFetchFailureKind
  pub consecutive_unresolved : ℕ
  pub first_unresolved_at_utc : Option Text
  pub last_failure : Option SourceFetchFailure

-- `SourceAcquisitionHealth::healthy`.
abbrev pub healthy_source : SourceAcquisitionHealth
healthy_source = record {
  state = healthy;
  failure_kind = none;
  consecutive_unresolved = 0;
  first_unresolved_at_utc = none;
  last_failure = none;
}

-- The assignment that a failure begins or continues an episode with.
unfoldable pub continue_source :
    SourceAcquisitionHealth → SourceFetchFailureKind → Text → CoreResult SourceAcquisitionHealth
continue_source h k now_utc =
    if same h.failure_kind (some k)
    then (ok_or (next_u32 h.consecutive_unresolved)
          (contract "source acquisition-health unresolved count overflowed")
        >>= λ count. ok (record h { consecutive_unresolved = count }))
    else ok (record {
      state = suspect;
      failure_kind = some k;
      consecutive_unresolved = 1;
      first_unresolved_at_utc = some now_utc;
      last_failure = none;
    })

module _ (time : TimeLib) where
  abbrev pub source_shape :
      HealthState
      → Option SourceFetchFailureKind
      → ℕ
      → Option Text
      → Option SourceFetchFailure
      → CoreResult (Unit {0})
  source_shape healthy none count none none =
      refuse_if (not (count == 0)) (contract "source acquisition-health episode fields disagree")
  source_shape suspect (some k) count (some first) (some last) =
      if ltb 0 count
      then (do
        require_timestamp time "source acquisition-health first time" first
        validate_failure last
        refuse_if (not (same last.kind k))
            (contract "source acquisition-health failure kind differs from last failure"))
      else err (contract "source acquisition-health episode fields disagree")
  source_shape _ _ _ _ _ = err (contract "source acquisition-health episode fields disagree")

  unfoldable pub validate_source : SourceAcquisitionHealth → CoreResult (Unit {0})
  validate_source h =
      source_shape h.state h.failure_kind h.consecutive_unresolved h.first_unresolved_at_utc
        h.last_failure

  unfoldable pub observe_source :
      SourceAcquisitionHealth
      → SourceFetchFailure
      → Text
      → ℕ
      → CoreResult (SourceAcquisitionHealth × Bool)
  observe_source h failure now_utc escalate_after = do
    validate_failure failure
    require_timestamp time "source acquisition-health time" now_utc
    refuse_if (escalate_after == 0) (contract "source escalate_after must be positive")
    h₁ ← continue_source h failure.kind now_utc
    let h₂ = record h₁ { state = suspect; last_failure = some failure }
    validate_source h₂
    ok (h₂, h₂.consecutive_unresolved == escalate_after)
