-- ===== src/Outbox/Attempts.antt =====
-- The attempts of a delivery record: when a record is terminal.
use ffhn.Base.{
  ℕ, ◌≡◌, ◌≤◌, ◌⊎◌, inl, inr, ap, Bool, true, false, ◌||◌, not, length, same, list_eq, nat_eq, ltb,
  leb, ◌==◌, arith, try_u32, Bool-cases,
}
use ffhn.Base.Errors.{
  CoreError, CoreResult, contract, ok, err, is_ok, ◌>>◌, refuse_if, ok_or, >>=-eq-ok, then_ok,
}
use ffhn.Stamps.{TimeLib, require_canonical_utc_rfc3339}
use ffhn.Delivery.Record.{
  delivery_record_schema_name, route_family_of, DeliveryPolicy, OutboxLib, DeliveryRecord,
  attempt_eq, policy_eq, family_eq,
}
use ffhn.Outbox.{
  validate_policy, validate_common, validate_record, validate_letter, letter, into_dead_letter,
}

meet : {a b : ℕ} → a ≤ b → leb b a ≡ true → a ≡ b
meet l t = ground arith

fits : (a b : ℕ) (e : CoreError) → a ≤ b → b ≤ 100 → ok_or (try_u32 a) e ≡ ok a
fits a b e l m = ground arith

equal : (a b : ℕ) (e : CoreError) → a ≤ b → leb b a ≡ true → refuse_if (not (a == b)) e ≡ ok tt
equal a b e l t = ground arith

equal₂ :
    (a b : ℕ) (e : CoreError)
    → a ≤ b
    → leb b a ≡ true
    → refuse_if (not (a == a) || not (a == b)) e ≡ ok tt
equal₂ a b e l t = ground arith

differ : (a b : ℕ) → leb b a ≡ false → not (a == b) ≡ true
differ a b f = ground arith

refused :
    {B : Type 0} {b : Bool} (e : CoreError) (k : CoreResult B)
    → b ≡ true
    → (refuse_if b e >> k) ≡ err e
refused e k h = ap (λ b. refuse_if b e >> k) h

at_most : (a b : ℕ) (e : CoreError) → refuse_if (ltb a b) e ≡ ok tt → b ≤ a
at_most a b e h = ground arith

module _ (time : TimeLib) (lib : OutboxLib) where
  policy_bounds :
      (policy : DeliveryPolicy)
      → validate_policy time lib policy ≡ ok tt
      → policy.max_attempts ≤ 100
  unfolding validate_policy
  policy_bounds policy e = ground arith

  pub bounds :
      (r : DeliveryRecord lib)
      → validate_common time lib r ≡ ok tt
      → (length r.attempts ≤ r.delivery_policy.max_attempts)
        × (r.delivery_policy.max_attempts ≤ 100)
  unfolding validate_common
  bounds r e =
      let (_, e₁, k₁) =
        >>=-eq-ok
          (refuse_if
            (not (same r.schema_name delivery_record_schema_name) || not (r.schema_version == 1))
            (contract "delivery record is not a current FFHN delivery record"))
          _ e in
      let (_, e₂, k₂) = >>=-eq-ok (lib.validate_envelope r.envelope) _ k₁ in
      let (_, e₃, k₃) = >>=-eq-ok (lib.validate_adapter r.adapter) _ k₂ in
      let (_, e₄, k₄) = >>=-eq-ok (validate_policy time lib r.delivery_policy) _ k₃ in
      let (_, e₅, k₅) =
        >>=-eq-ok
          (refuse_if (not (same r.route_family (route_family_of (lib.event_kind r.envelope))))
            (contract "delivery record route family does not accept its event kind"))
          _ k₄ in
      let (_, e₆, k₆) =
        >>=-eq-ok
          (require_canonical_utc_rfc3339 time "delivery next retry time" r.next_retry_at_utc) _
          k₅ in
      let (_, e₇, k₇) =
        >>=-eq-ok
          (refuse_if (ltb r.delivery_policy.max_attempts (length r.attempts))
            (contract "delivery attempt history exceeds its immutable terminal bound"))
          _ k₆ in
      (at_most _ _ _ e₇, policy_bounds r.delivery_policy e₄)

  letter_valid :
      (r : DeliveryRecord lib)
      → validate_common time lib r ≡ ok tt
      → length r.attempts ≤ r.delivery_policy.max_attempts
      → r.delivery_policy.max_attempts ≤ 100
      → leb r.delivery_policy.max_attempts (length r.attempts) ≡ true
      → validate_letter time lib (letter time lib r (length r.attempts)) ≡ ok tt
  unfolding validate_letter
  letter_valid r e l m t = then_ok _ e (then_ok _ (fits _ _ _ l m) (equal₂ _ _ _ l t))

  -- A record that passes the common checks is either pending or can be moved to a dead letter, never
  -- both, by whether it has fewer attempts than its policy allows.
  pub pending-or-dead_letter :
      (r : DeliveryRecord lib)
      → validate_common time lib r ≡ ok tt
      → ((validate_record time lib r ≡ ok tt) × (is_ok (into_dead_letter time lib r) ≡ false))
        ⊎ ((is_ok (validate_record time lib r) ≡ false)
            × (into_dead_letter time lib r ≡ ok (letter time lib r r.delivery_policy.max_attempts)))
  unfolding validate_record into_dead_letter
  pending-or-dead_letter r e =
      let (l, m) = bounds r e in
      elim (Bool-cases (leb r.delivery_policy.max_attempts (length r.attempts))) [
        | inl t ↦ inr (
          ap is_ok (
              then_ok (λ _. refuse_if _ _) e
                (ap
                  (λ b.
                    refuse_if b
                      (contract "pending delivery record has reached its terminal attempt bound"))
                  t)),
          then_ok _ e (
              then_ok _ (fits _ _ _ l m) (
                then_ok _ (equal _ _ _ l t) (
                  then_ok _ (letter_valid r e l m t)
                    (ap (λ n. ok (letter time lib r n)) (meet l t))))),
        )
        | inr f ↦ inl (
          then_ok _ e (
              ap
                (λ b.
                  refuse_if b
                    (contract "pending delivery record has reached its terminal attempt bound"))
                f),
          ap is_ok (
              then_ok _ e (
                then_ok _ (fits _ _ _ l m) (
                  refused
                    (contract
                      "delivery record can dead-letter only at its immutable maximum attempt count")
                    _ (differ _ _ f)))),
        )
      ]
