-- ===== src/Outbox/Failure.antt =====
-- `DeliveryRecord::record_failure` of graph/outbox.rs: the record that it leaves, and what it returns.
use ffhn.Base.{
  ℕ, ◌≡◌, ◌⊎◌, inl, inr, sym, ap, ◌∙◌, true, false, Option, none, list_eq, nat_eq, Bool-cases,
}
use ffhn.Base.Errors.{Text, CoreError, contract, ok, err, refuse_if}
use ffhn.Stamps.{TimeLib, parse_instant}
use ffhn.Delivery.Record.{
  OutboxLib, DeliveryRecord, DeliveryAttemptFailure, attempt_eq, policy_eq, family_eq,
}
use ffhn.Outbox.{
  precedes, validate_common, settle_record, record_failure, is_single_attempt_successor_of,
}
use ffhn.Outbox.Appended.{appended, successor, latest, appended-validate_common}
use ffhn.Outbox.Recordable.{
  is_recordable, is_recordable-Checks, pending_room, append_failure-ok, append_failure-err,
}

module _ (time : TimeLib) (lib : OutboxLib) where
  -- `record_failure` on every branch. Where the record is not a valid pending one, a time is not
  -- canonical, the retry precedes the attempt or the failure is no evidence, it returns an error and
  -- leaves the record as it was. Otherwise the record left has the failure as its one attempt more, with
  -- the next number, and is a single-attempt successor of the record before; what is returned is its
  -- common validation, which is an error exactly where the instant of the failure precedes that of the
  -- latest attempt, so that the record is left with an attempt out of order.
  pub record_failure-outcome :
      (r : DeliveryRecord lib) (failed_at : Text) (f : DeliveryAttemptFailure) (next : Text)
      → ((is_recordable time lib r failed_at f next ≡ false)
          × ((e : CoreError) × (record_failure time lib r failed_at f next ≡ (r, err e))))
        ⊎ ((is_recordable time lib r failed_at f next ≡ true)
            × ((record_failure time lib r failed_at f next).0
                ≡ appended time lib r failed_at f next)
            × (is_single_attempt_successor_of time lib
                  (record_failure time lib r failed_at f next).0
                  r
                ≡ true)
            × (validate_common time lib (record_failure time lib r failed_at f next).0
                ≡ (record_failure time lib r failed_at f next).1)
            × ((attempted : ℕ) × (last : Option ℕ) × (parse_instant time failed_at ≡ ok attempted)
                × (latest time lib none r.attempts ≡ ok last)
                × ((record_failure time lib r failed_at f next).1
                    ≡ refuse_if
                        (precedes attempted last)
                        (contract "delivery attempt timestamps must be monotonic"))))
  unfolding record_failure
  record_failure-outcome r failed_at f next =
      elim (Bool-cases (is_recordable time lib r failed_at f next)) [
        | inl h ↦
            let c = is_recordable-Checks time lib r failed_at f next h in
            let done =
              ap (settle_record time lib r) (append_failure-ok time lib r failed_at f next c) in
            let (common, more) = pending_room time lib r c.0 in
            let (last, is_last, validated) =
              appended-validate_common time lib r failed_at f next c.3.0 c.3.1 common more c.1 c.2
                c.3.2 c.3.3 c.3.4 c.4 in
            inr (
              h,
              ap (λ p. p.0) done,
              ap (λ p. is_single_attempt_successor_of time lib p.0 r) done
                  ∙ successor time lib r failed_at f next,
              ap (λ p. validate_common time lib p.0) done ∙ sym (ap (λ p. p.1) done),
              (c.3.1, last, c.3.3, is_last, ap (λ p. p.1) done ∙ validated),
            )
        | inr h ↦
            let (e, refusal) = append_failure-err time lib r failed_at f next h in
            inl (h, (e, ap (settle_record time lib r) refusal))
      ]
