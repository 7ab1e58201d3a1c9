-- ===== src/Outbox/History.antt =====
-- What the validation of a delivery record says of its attempts: their numbers and their order.
use ffhn.Base.{
  ℕ, zero, suc, ◌+◌, ◌≡◌, ◌≤◌, refl, ◌∙◌, not, ◌||◌, Option, none, some, List, [], ◌∷◌, length, map,
  ltb, ◌==◌, same, list_eq, nat_eq, arith, try_u32, next_u32,
}
use mathlib.Core.Path.{ap₂}
use ffhn.Base.Errors.{CoreError, contract, ok, refuse_if, ok_or, >>=-eq-ok}
use ffhn.Stamps.{TimeLib, require_canonical_utc_rfc3339, parse_instant}
use ffhn.Delivery.Record.{
  OutboxLib, DeliveryRecord, DeliveryAttempt, delivery_record_schema_name, route_family_of,
  family_eq,
}
use ffhn.Outbox.{precedes, validate_policy, validate_attempt, validate_attempts, validate_common}

-- The numbers after `index`, as many as asked for.
abbrev pub numbers_after : ℕ → ℕ → List ℕ
numbers_after index zero = []
numbers_after index (suc n) = (index + 1) ∷ numbers_after (index + 1) n

accepted : (a b : ℕ) (e : CoreError) → refuse_if (not (a == b)) e ≡ ok tt → a ≡ b
accepted a b e h = ground arith

pub counted :
    (n c a : ℕ) (e e' : CoreError)
    → ok_or (try_u32 n) e ≡ ok c
    → ok_or (next_u32 c) e' ≡ ok a
    → a ≡ n + 1
counted n c a e e' p q = ground arith

bounded : (a b : ℕ) (e : CoreError) → refuse_if (ltb a b) e ≡ ok tt → b ≤ a
bounded a b e h = ground arith

module _ (time : TimeLib) (lib : OutboxLib) where
  attempt-number :
      (expected : ℕ) (a : DeliveryAttempt)
      → validate_attempt time lib expected a ≡ ok tt
      → a.attempt ≡ expected
  unfolding validate_attempt
  attempt-number expected a e =
      let (_, e₁, k₁) =
        >>=-eq-ok
          (refuse_if (not (a.attempt == expected))
            (contract "delivery attempts must be an append-only contiguous sequence"))
          _ e in
      accepted a.attempt expected _ e₁

  attempts-numbers :
      (index : ℕ) (previous last : Option ℕ) (attempts : List DeliveryAttempt)
      → validate_attempts time lib index previous attempts ≡ ok last
      → map (λ a. a.attempt) attempts ≡ numbers_after index (length attempts)
  attempts-numbers index previous last [] e = refl
  attempts-numbers index previous last (a ∷ rest) e =
      let (i, e₁, k₁) =
        >>=-eq-ok (ok_or (try_u32 index) (contract "delivery attempt count overflowed")) _ e in
      let (expected, e₂, k₂) =
        >>=-eq-ok (ok_or (next_u32 i) (contract "delivery attempt count overflowed")) _ k₁ in
      let (_, e₃, k₃) = >>=-eq-ok (validate_attempt time lib expected a) _ k₂ in
      let (attempted, e₄, k₄) = >>=-eq-ok (parse_instant time a.attempted_at_utc) _ k₃ in
      let (_, e₅, k₅) =
        >>=-eq-ok
          (refuse_if (precedes attempted previous)
            (contract "delivery attempt timestamps must be monotonic"))
          _ k₄ in
      ap₂ ◌∷◌ (attempt-number expected a e₃ ∙ counted index i expected _ _ e₁ e₂)
        (attempts-numbers (index + 1) (some attempted) last rest k₅)

  -- The attempts of a delivery record that passes the common checks are numbered from 1 on without a
  -- gap, in the order in which they are kept, and are at most as many as its policy allows.
  pub validate_common-numbers :
      (r : DeliveryRecord lib)
      → validate_common time lib r ≡ ok tt
      → (map (λ a. a.attempt) r.attempts ≡ numbers_after 0 (length r.attempts))
        × (length r.attempts ≤ r.delivery_policy.max_attempts)
  unfolding validate_common
  validate_common-numbers r e =
      let (_, e₁, k₁) =
        >>=-eq-ok
          (refuse_if
            (not (same r.schema_name delivery_record_schema_name) || not (r.schema_version == 1))
            (contract "delivery record is not a current FFHN delivery record"))
          _ e in
      let (_, e₂, k₂) = >>=-eq-ok (lib.validate_envelope r.envelope) _ k₁ in
      let (_, e₃, k₃) = >>=-eq-ok (lib.validate_adapter r.adapter) _ k₂ in
      let (_, e₄, k₄) = >>=-eq-ok (validate_policy time lib r.delivery_policy) _ k₃ in
      let (_, e₅, k₅) =
        >>=-eq-ok
          (refuse_if (not (same r.route_family (route_family_of (lib.event_kind r.envelope))))
            (contract "delivery record route family does not accept its event kind"))
          _ k₄ in
      let (_, e₆, k₆) =
        >>=-eq-ok
          (require_canonical_utc_rfc3339 time "delivery next retry time" r.next_retry_at_utc) _
          k₅ in
      let (_, e₇, k₇) =
        >>=-eq-ok
          (refuse_if (ltb r.delivery_policy.max_attempts (length r.attempts))
            (contract "delivery attempt history exceeds its immutable terminal bound"))
          _ k₆ in
      let (last, e₈, k₈) = >>=-eq-ok (validate_attempts time lib 0 none r.attempts) _ k₇ in
      (attempts-numbers 0 none last r.attempts e₈, bounded _ _ _ e₇)
