-- ===== src/Outbox/Recordable.antt =====
-- `DeliveryRecord::record_failure` of graph/outbox.rs: the checks before its assignments.
use ffhn.Base.{
  ℕ, ◌+◌, ◌≡◌, ◌≤◌, inl, inr, refl, ap, Bool, true, false, ◌&&◌, not, length, list_eq, nat_eq, ltb,
  leb, arith, try_u32, next_u32,
}
use ffhn.Base.Errors.{
  Text, CoreError, CoreResult, contract, ok, err, is_ok, refuse_if, ok_or, >>=-eq-ok, then_ok,
  refused, Result-cases,
}
use ffhn.Stamps.{TimeLib, require_canonical_utc_rfc3339, parse_instant}
use ffhn.Outbox.Attempts.{bounds}
use ffhn.Delivery.Record.{
  OutboxLib, DeliveryRecord, DeliveryAttemptFailure, attempt_eq, policy_eq, family_eq,
}
use ffhn.Outbox.{validate_common, validate_record, append_failure, validate_attempt_failure}
use ffhn.Outbox.Appended.{both, fits, next_fits, passed, appended}

is_ok-true : {A : Type 0} (m : CoreResult A) → is_ok m ≡ true → (a : A) × (m ≡ ok a)
is_ok-true (ok a) h = (a, refl)
is_ok-true (err e) h = absurd (cc (h))

is_ok-false : {A : Type 0} (m : CoreResult A) → is_ok m ≡ false → (e : CoreError) × (m ≡ err e)
is_ok-false (ok a) h = absurd (cc (h))
is_ok-false (err e) h = (e, refl)

halves : {a b : Bool} → (a && b) ≡ true → (a ≡ true) × (b ≡ true)
halves {a} {b} h = ground (arith, h)

below_bound : (m n : ℕ) → leb m n ≡ false → n + 1 ≤ m
below_bound m n h = ground arith

module _ (time : TimeLib) (lib : OutboxLib) where
  -- Whether both texts are instants, and the first is not before the second.
  abbrev in_order : CoreResult ℕ → CoreResult ℕ → Bool
  in_order (ok next) (ok attempted) = not (ltb next attempted)
  in_order (ok next) (err e) = false
  in_order (err e) attempted = false

  -- What is asked of a record and a failure before anything is changed: the record is a valid pending
  -- one, the times are canonical and the retry is not before the attempt, and the failure is evidence.
  pub is_recordable : DeliveryRecord lib → Text → DeliveryAttemptFailure → Text → Bool
  is_recordable r failed_at f next =
      is_ok (validate_record time lib r)
      && (is_ok (require_canonical_utc_rfc3339 time "delivery attempt time" failed_at)
          && (is_ok (require_canonical_utc_rfc3339 time "delivery next retry time" next)
              && (in_order (parse_instant time next) (parse_instant time failed_at)
                  && is_ok (validate_attempt_failure time lib f))))

  ordered :
      (m k : CoreResult ℕ)
      → in_order m k ≡ true
      → (n : ℕ) × (d : ℕ) × (m ≡ ok n) × (k ≡ ok d) × (ltb n d ≡ false)
  ordered (ok n) (ok d) h = (n, d, refl, refl, ground (arith, h))
  ordered (ok n) (err e) h = absurd (cc (h))
  ordered (err e) k h = absurd (cc (h))

  in_order-ok :
      (m k : CoreResult ℕ) {n d : ℕ} → m ≡ ok n → k ≡ ok d → ltb n d ≡ false → in_order m k ≡ true
  in_order-ok m k p q h = rw (p) (rw (q) (ground (arith, h)))

  -- The checks of a recordable failure, one by one.
  abbrev pub Checks : DeliveryRecord lib → Text → DeliveryAttemptFailure → Text → Type 0
  Checks r failed_at f next =
      (validate_record time lib r ≡ ok tt)
      × (require_canonical_utc_rfc3339 time "delivery attempt time" failed_at ≡ ok tt)
      × (require_canonical_utc_rfc3339 time "delivery next retry time" next ≡ ok tt)
      × ((n : ℕ) × (d : ℕ) × (parse_instant time next ≡ ok n)
          × (parse_instant time failed_at ≡ ok d)
          × (ltb n d ≡ false))
      × (validate_attempt_failure time lib f ≡ ok tt)

  pub is_recordable-Checks :
      (r : DeliveryRecord lib) (failed_at : Text) (f : DeliveryAttemptFailure) (next : Text)
      → is_recordable r failed_at f next ≡ true
      → Checks r failed_at f next
  unfolding is_recordable
  is_recordable-Checks r failed_at f next h =
      let (h₁, t₁) = halves h in
      let (h₂, t₂) = halves t₁ in
      let (h₃, t₃) = halves t₂ in
      let (h₄, h₅) = halves t₃ in
      (
        (is_ok-true _ h₁).1,
        (is_ok-true _ h₂).1,
        (is_ok-true _ h₃).1,
        ordered _ _ h₄,
        (is_ok-true _ h₅).1,
      )

  Checks-is_recordable :
      (r : DeliveryRecord lib) (failed_at : Text) (f : DeliveryAttemptFailure) (next : Text)
      → Checks r failed_at f next
      → is_recordable r failed_at f next ≡ true
  unfolding is_recordable
  Checks-is_recordable r failed_at f next (v, c₁, c₂, (n, d, pn, pd, o), e) = both (ap is_ok v) (
      both (ap is_ok c₁) (
        both (ap is_ok c₂) (
          both (in_order-ok (parse_instant time next) (parse_instant time failed_at) pn pd o)
            (ap is_ok e))))

  pub pending_room :
      (r : DeliveryRecord lib)
      → validate_record time lib r ≡ ok tt
      → (validate_common time lib r ≡ ok tt)
        × (length r.attempts + 1 ≤ r.delivery_policy.max_attempts)
  unfolding validate_record
  pending_room r e =
      let (_, e₁, k₁) = >>=-eq-ok (validate_common time lib r) _ e in
      (e₁, below_bound _ _ (refused _ _ k₁))

  pub append_failure-ok :
      (r : DeliveryRecord lib) (failed_at : Text) (f : DeliveryAttemptFailure) (next : Text)
      → Checks r failed_at f next
      → append_failure time lib r failed_at f next ≡ ok (appended time lib r failed_at f next)
  unfolding append_failure
  append_failure-ok r failed_at f next (v, c₁, c₂, (n, d, pn, pd, o), e) =
      let (common, more) = pending_room r v in
      let few : length r.attempts ≤ 100 = omega (arith, more, (bounds time lib r common).1) in
      then_ok _ v (
        then_ok _ c₁ (
          then_ok _ c₂ (
            then_ok _ pn (
              then_ok _ pd (
                then_ok _ (passed _ _ o)
                  (then_ok _ (fits _ _ few) (then_ok _ (next_fits _ _ few) (then_ok _ e refl))))))))

  append_failure-Checks :
      (r : DeliveryRecord lib) (failed_at : Text) (f : DeliveryAttemptFailure) (next : Text)
      {r' : DeliveryRecord lib}
      → append_failure time lib r failed_at f next ≡ ok r'
      → Checks r failed_at f next
  unfolding append_failure
  append_failure-Checks r failed_at f next h =
      let (_, v, k₁) = >>=-eq-ok (validate_record time lib r) _ h in
      let (_, c₁, k₂) =
        >>=-eq-ok (require_canonical_utc_rfc3339 time "delivery attempt time" failed_at) _ k₁ in
      let (_, c₂, k₃) =
        >>=-eq-ok (require_canonical_utc_rfc3339 time "delivery next retry time" next) _ k₂ in
      let (n, pn, k₄) = >>=-eq-ok (parse_instant time next) _ k₃ in
      let (d, pd, k₅) = >>=-eq-ok (parse_instant time failed_at) _ k₄ in
      let (_, o, k₆) =
        >>=-eq-ok
          (refuse_if (ltb n d)
            (contract "delivery next retry time must not precede its failed attempt"))
          _ k₅ in
      let (c, e₁, k₇) =
        >>=-eq-ok
          (ok_or (try_u32 (length r.attempts)) (contract "delivery attempt count overflowed")) _
          k₆ in
      let (a, e₂, k₈) =
        >>=-eq-ok (ok_or (next_u32 c) (contract "delivery attempt count overflowed")) _ k₇ in
      let (_, e, k₉) = >>=-eq-ok (validate_attempt_failure time lib f) _ k₈ in
      (v, c₁, c₂, (n, d, pn, pd, refused _ _ o), e)

  pub append_failure-err :
      (r : DeliveryRecord lib) (failed_at : Text) (f : DeliveryAttemptFailure) (next : Text)
      → is_recordable r failed_at f next ≡ false
      → (e : CoreError) × (append_failure time lib r failed_at f next ≡ err e)
  append_failure-err r failed_at f next h =
      elim (Result-cases (append_failure time lib r failed_at f next)) [
        | inl (r', p) ↦ absurd (
            cc (
              h,
              Checks-is_recordable r failed_at f next (append_failure-Checks r failed_at f next p),
            ))
        | inr refusal ↦ refusal
      ]
