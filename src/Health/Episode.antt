-- ===== src/Health/Episode.antt =====
-- What one observed failure leaves behind: the episode that it continues or begins.
use ffhn.Base.{
  ℕ, ◌+◌, ◌≡◌, ap, sym, subst, ◌∙◌, Bool, Option, some, same, option_eq, same_option_iff, ◌==◌,
  if◌then◌else◌, arith, Bool-cases, inl, inr,
}
use ffhn.Base.Errors.{Text, ok, refuse_if, >>=-eq-ok, contract}
use ffhn.Stamps.{TimeLib}
use ffhn.Health.{
  suspect, ExtractionFailureReason, reason_eq, MeasurementExtractionHealth, validate_extraction,
  continue_extraction, observe_extraction, require_timestamp,
}
use ffhn.Health.Failure.{SourceFetchFailure, SourceFetchFailureKind, kind_eq, validate_failure}
use ffhn.Health.Source.{SourceAcquisitionHealth, validate_source, observe_source, continue_source}

-- The count and the first time after a failure: one more of the running episode, or a new episode.
abbrev pub NextEpisode : Bool → ℕ → Option Text → Text → ℕ → Option Text → Type 0
NextEpisode same_reason count first now count' first' =
    (count' ≡ (if same_reason then count + 1 else 1))
    × (first' ≡ (if same_reason then first else some now))

continued :
    (h : MeasurementExtractionHealth) (reason : ExtractionFailureReason) (now : Text)
    {m : MeasurementExtractionHealth}
    → continue_extraction h reason now ≡ ok m
    → (m.state ≡ suspect)
      × (m.reason ≡ some reason)
      × NextEpisode
          (same h.reason (some reason))
          h.consecutive_unresolved
          h.first_unresolved_at_utc
          now
          m.consecutive_unresolved
          m.first_unresolved_at_utc
unfolding continue_extraction
continued h reason now e = ground (arith, same_option_iff h.reason (some reason))

continued_source :
    (h : SourceAcquisitionHealth) (k : SourceFetchFailureKind) (now : Text)
    {m : SourceAcquisitionHealth}
    → continue_source h k now ≡ ok m
    → (m.failure_kind ≡ some k)
      × NextEpisode
          (same h.failure_kind (some k))
          h.consecutive_unresolved
          h.first_unresolved_at_utc
          now
          m.consecutive_unresolved
          m.first_unresolved_at_utc
unfolding continue_source
continued_source h k now e = elim (Bool-cases (same h.failure_kind (some k))) [
  | inl t ↦ ground (arith, same_option_iff h.failure_kind (some k), t)
  | inr f ↦ ground (arith, f)
]

module _ (time : TimeLib) where
  -- An observation of an extraction failure that returns leaves a suspect episode that passes its own
  -- validation and names the failure's reason; its count and its first time are those of the running
  -- episode, one more, if the reason is the same, else 1 and the time of the failure; it reports
  -- escalation exactly when the count is the configured one.
  pub observe_extraction-valid :
      (h : MeasurementExtractionHealth) (reason : ExtractionFailureReason) (now : Text) (k : ℕ)
      {h' : MeasurementExtractionHealth} {escalated : Bool}
      → observe_extraction time h reason now k ≡ ok (h', escalated)
      → (validate_extraction time h' ≡ ok tt)
        × (escalated ≡ (h'.consecutive_unresolved == k))
        × (h'.state ≡ suspect)
        × (h'.reason ≡ some reason)
        × NextEpisode
            (same h.reason (some reason))
            h.consecutive_unresolved
            h.first_unresolved_at_utc
            now
            h'.consecutive_unresolved
            h'.first_unresolved_at_utc
  unfolding observe_extraction
  observe_extraction-valid h reason now k {h'} {escalated} e =
      let (_, e₁, k₁) =
        >>=-eq-ok (require_timestamp time "measurement extraction-health time" now) _ e in
      let (_, e₂, k₂) =
        >>=-eq-ok (refuse_if (k == 0) (contract "measurement escalate_after must be positive")) _
          k₁ in
      let (m, e₃, k₃) = >>=-eq-ok (continue_extraction h reason now) _ k₂ in
      let (_, e₄, k₄) = >>=-eq-ok (validate_extraction time m) _ k₃ in
      let m-h' : m ≡ h' = cc (k₄) in
      let e₅ : continue_extraction h reason now ≡ ok h' = e₃ ∙ ap ok m-h' in
      let (s, r, c) = continued h reason now e₅ in
      (subst (λ x. validate_extraction time x ≡ ok tt) m-h' e₄, cc (k₄), s, r, c)

  -- An observation of an acquisition failure that returns leaves a suspect episode that passes its own
  -- validation, names the failure's kind and keeps the failure; its count and its first time are those
  -- of the running episode, one more, if the kind is the same, else 1 and the time of the failure; it
  -- reports escalation exactly when the count is the configured one.
  pub observe_source-valid :
      (h : SourceAcquisitionHealth) (failure : SourceFetchFailure) (now : Text) (k : ℕ)
      {h' : SourceAcquisitionHealth} {escalated : Bool}
      → observe_source time h failure now k ≡ ok (h', escalated)
      → (validate_source time h' ≡ ok tt)
        × (escalated ≡ (h'.consecutive_unresolved == k))
        × (h'.state ≡ suspect)
        × (h'.last_failure ≡ some failure)
        × (h'.failure_kind ≡ some failure.kind)
        × NextEpisode
            (same h.failure_kind (some failure.kind))
            h.consecutive_unresolved
            h.first_unresolved_at_utc
            now
            h'.consecutive_unresolved
            h'.first_unresolved_at_utc
  unfolding observe_source
  observe_source-valid h failure now k {h'} {escalated} e =
      let (_, e₁, k₁) = >>=-eq-ok (validate_failure failure) _ e in
      let (_, e₂, k₂) =
        >>=-eq-ok (require_timestamp time "source acquisition-health time" now) _ k₁ in
      let (_, e₃, k₃) =
        >>=-eq-ok (refuse_if (k == 0) (contract "source escalate_after must be positive")) _ k₂ in
      let (m, e₄, k₄) = >>=-eq-ok (continue_source h failure.kind now) _ k₃ in
      let (_, e₅, k₅) =
        >>=-eq-ok (validate_source time (record m { state = suspect; last_failure = some failure }))
          _ k₄ in
      let m-h' : record m { state = suspect; last_failure = some failure } ≡ h' = cc (k₅) in
      let (f, c) = continued_source h failure.kind now e₄ in
      (
        subst (λ x. validate_source time x ≡ ok tt) m-h' e₅,
        cc (k₅),
        ap (λ x. x.state) (sym m-h'),
        ap (λ x. x.last_failure) (sym m-h'),
        ap (λ x. x.failure_kind) (sym m-h') ∙ f,
        (
          ap (λ x. x.consecutive_unresolved) (sym m-h') ∙ c.0,
          ap (λ x. x.first_unresolved_at_utc) (sym m-h') ∙ c.1,
        ),
      )
