-- ===== src/Outbox/Appended.antt =====
-- `DeliveryRecord::validate_common` of graph/outbox.rs on a record with one attempt more.
use ffhn.Base.{
  length-snoc, ℕ, ◌+◌, ◌≡◌, ◌≤◌, refl, ap, ◌∙◌, Bool, true, false, ◌&&◌, ◌||◌, not, Option, none,
  some, List, [], ◌∷◌, ◌++◌, length, same, Eq, list_eq, nat_eq, ltb, ◌==◌, arith, try_u32, next_u32,
}
use mathlib.Core.Path.{ap₂}
use ffhn.Base.Errors.{
  Text, CoreError, CoreResult, contract, ok, ◌>>=◌, ◌>>◌, refuse_if, ok_or, >>=-eq-ok, then_ok,
}
use ffhn.Stamps.{TimeLib, require_canonical_utc_rfc3339, parse_instant}
use ffhn.Outbox.Attempts.{bounds}
use ffhn.Delivery.Record.{
  delivery_record_schema_name, route_family_of, OutboxLib, DeliveryRecord, DeliveryAttempt,
  DeliveryAttemptFailure, attempt_eq, policy_eq, family_eq,
}
use ffhn.Outbox.{
  validate_policy, starts_with, precedes, retry_precedes, validate_attempt, validate_attempts,
  validate_common, failed_attempt, is_single_attempt_successor_of, validate_attempt_failure,
}

same_refl {ℓ} : {A : Type ℓ} (e : Eq A) (a : A) → e.beq a a ≡ true
same_refl e a = (e.beq_iff a a).1 refl

starts_with-append {ℓ} : {A : Type ℓ} ⦃e : Eq A⦄ (xs ys : List A) → starts_with (xs ++ ys) xs ≡ true
starts_with-append ⦃e⦄ [] ys = refl
starts_with-append ⦃e⦄ (x ∷ xs) ys = ground (arith, same_refl e x, starts_with-append xs ys)

pub both : {a b : Bool} → a ≡ true → b ≡ true → (a && b) ≡ true
both {a} {b} p q = ground (arith, p, q)

==-eq : {a b : ℕ} → a ≡ b → (a == b) ≡ true
==-eq p = ground arith

pub fits : (n : ℕ) (e : CoreError) → n ≤ 100 → ok_or (try_u32 n) e ≡ ok n
fits n e l = ground arith

pub next_fits : (n : ℕ) (e : CoreError) → n ≤ 100 → ok_or (next_u32 n) e ≡ ok (n + 1)
next_fits n e l = ground arith

pub passed : (b : Bool) (e : CoreError) → b ≡ false → refuse_if b e ≡ ok tt
passed true e h = absurd (cc (h))
passed false e h = refl

room :
    (m : ℕ) (attempts : List DeliveryAttempt) (a : DeliveryAttempt) (e : CoreError)
    → length attempts + 1 ≤ m
    → refuse_if (ltb m (length (attempts ++ (a ∷ [])))) e ≡ ok tt
room m attempts a e h = ground (arith, length-snoc attempts a)

same_number : (n : ℕ) (e : CoreError) → refuse_if (not (n == n)) e ≡ ok tt
same_number n e = ground arith

-- A check, and another one that passes where the first one does.
check_then :
    {A : Type 0} (b : Bool) (e : CoreError) (a : A) (k : A → CoreResult (Unit {0}))
    → k a ≡ ok tt
    → ((refuse_if b e >> ok a) >>= k) ≡ refuse_if b e
check_then true e a k h = refl
check_then false e a k h = h

module _ (time : TimeLib) (lib : OutboxLib) where
  -- The record with one attempt more, and the next retry.
  abbrev pub appended :
      DeliveryRecord lib → Text → DeliveryAttemptFailure → Text → DeliveryRecord lib
  appended r failed_at f next = record r {
    attempts = r.attempts ++ (failed_attempt time lib (length r.attempts + 1) failed_at f ∷ []);
    next_retry_at_utc = next;
  }

  pub successor :
      (r : DeliveryRecord lib) (failed_at : Text) (f : DeliveryAttemptFailure) (next : Text)
      → is_single_attempt_successor_of time lib (appended r failed_at f next) r ≡ true
  unfolding is_single_attempt_successor_of
  successor r failed_at f next =
      both
        (both
          (both
            (both
              (both (both (same_refl lib.envelope_eq r.envelope) (same_refl list_eq r.route_id))
                (same_refl family_eq r.route_family))
              (same_refl lib.adapter_eq r.adapter))
            (same_refl policy_eq r.delivery_policy))
          (==-eq
            (length-snoc r.attempts (failed_attempt time lib (length r.attempts + 1) failed_at f))))
        (starts_with-append r.attempts
          (failed_attempt time lib (length r.attempts + 1) failed_at f ∷ []))

  -- The instant of the latest of these attempts, or else the given one.
  abbrev pub latest : Option ℕ → List DeliveryAttempt → CoreResult (Option ℕ)
  latest previous [] = ok previous
  latest previous (a ∷ rest) =
      parse_instant time a.attempted_at_utc >>= λ attempted. latest (some attempted) rest

  -- The last turn of the loop of `validate_common`.
  attempts-snoc :
      (index n : ℕ) (previous last : Option ℕ) (attempts : List DeliveryAttempt)
      (a : DeliveryAttempt)
      → index + length attempts ≡ n
      → validate_attempts time lib index previous attempts ≡ ok last
      → (validate_attempts time lib index previous (attempts ++ (a ∷ []))
          ≡ validate_attempts time lib n last (a ∷ []))
        × (latest previous attempts ≡ ok last)
  attempts-snoc index n previous last [] a q e =
      let same_last : previous ≡ last = cc (e) in
      let same_index : index ≡ n = omega arith in
      (ap₂ (λ i p. validate_attempts time lib i p (a ∷ [])) same_index same_last, e)
  attempts-snoc index n previous last (b ∷ rest) a q e =
      let (i, e₁, k₁) =
        >>=-eq-ok (ok_or (try_u32 index) (contract "delivery attempt count overflowed")) _ e in
      let (expected, e₂, k₂) =
        >>=-eq-ok (ok_or (next_u32 i) (contract "delivery attempt count overflowed")) _ k₁ in
      let (_, e₃, k₃) = >>=-eq-ok (validate_attempt time lib expected b) _ k₂ in
      let (attempted, e₄, k₄) = >>=-eq-ok (parse_instant time b.attempted_at_utc) _ k₃ in
      let (_, e₅, k₅) =
        >>=-eq-ok
          (refuse_if (precedes attempted previous)
            (contract "delivery attempt timestamps must be monotonic"))
          _ k₄ in
      let (here, there) =
        attempts-snoc (index + 1) n (some attempted) last rest a (omega arith) k₅ in
      (
        then_ok _ e₁ (then_ok _ e₂ (then_ok _ e₃ (then_ok _ e₄ (then_ok _ e₅ here)))),
        then_ok _ e₄ there,
      )

  last_turn :
      (n : ℕ) (last : Option ℕ) (failed_at : Text) (f : DeliveryAttemptFailure) (d : ℕ)
      → n ≤ 100
      → require_canonical_utc_rfc3339 time "delivery attempt time" failed_at ≡ ok tt
      → parse_instant time failed_at ≡ ok d
      → validate_attempt_failure time lib f ≡ ok tt
      → validate_attempts time lib n last (failed_attempt time lib (n + 1) failed_at f ∷ []) ≡ (
          refuse_if (precedes d last) (contract "delivery attempt timestamps must be monotonic")
          >> ok (some d))
  unfolding validate_attempt
  last_turn n last failed_at f d l c pd v = then_ok _ (fits n _ l) (
      then_ok _ (next_fits n _ l)
        (then_ok _ (then_ok _ (same_number (n + 1) _) (then_ok _ c v)) (then_ok _ pd refl)))

  retry_follows :
      (next : Text) (n d : ℕ) (e : CoreError)
      → parse_instant time next ≡ ok n
      → ltb n d ≡ false
      → refuse_if (retry_precedes time lib next (some d)) e ≡ ok tt
  retry_follows next n d e pn o = ground (arith, pn, o)

  -- The end of `validate_common`, after its loop.
  last_checks :
      {m : CoreResult (Option ℕ)} (next : Text) (n d : ℕ) (last : Option ℕ) (late early : CoreError)
      → m ≡ (refuse_if (precedes d last) late >> ok (some d))
      → parse_instant time next ≡ ok n
      → ltb n d ≡ false
      → (m >>= λ previous. refuse_if (retry_precedes time lib next previous) early)
        ≡ refuse_if (precedes d last) late
  last_checks next n d last late early h pn o =
      ap (λ m. m >>= λ previous. refuse_if (retry_precedes time lib next previous) early) h
      ∙ check_then (precedes d last) late (some d)
          (λ previous. refuse_if (retry_precedes time lib next previous) early)
          (retry_follows next n d early pn o)

  -- A record that passes the common checks, with one attempt more: the last validation refuses exactly
  -- an attempt that precedes the latest one.
  pub appended-validate_common :
      (r : DeliveryRecord lib) (failed_at : Text) (f : DeliveryAttemptFailure) (next : Text)
      (n d : ℕ)
      → validate_common time lib r ≡ ok tt
      → length r.attempts + 1 ≤ r.delivery_policy.max_attempts
      → require_canonical_utc_rfc3339 time "delivery attempt time" failed_at ≡ ok tt
      → require_canonical_utc_rfc3339 time "delivery next retry time" next ≡ ok tt
      → parse_instant time next ≡ ok n
      → parse_instant time failed_at ≡ ok d
      → ltb n d ≡ false
      → validate_attempt_failure time lib f ≡ ok tt
      → (last : Option ℕ) × (latest none r.attempts ≡ ok last)
        × (validate_common time lib (appended r failed_at f next)
            ≡ refuse_if
                (precedes d last)
                (contract "delivery attempt timestamps must be monotonic"))
  unfolding validate_common
  appended-validate_common r failed_at f next n d e l c₁ c₂ pn pd o v =
      let (_, e₁, k₁) =
        >>=-eq-ok
          (refuse_if
            (not (same r.schema_name delivery_record_schema_name) || not (r.schema_version == 1))
            (contract "delivery record is not a current FFHN delivery record"))
          _ e in
      let (_, e₂, k₂) = >>=-eq-ok (lib.validate_envelope r.envelope) _ k₁ in
      let (_, e₃, k₃) = >>=-eq-ok (lib.validate_adapter r.adapter) _ k₂ in
      let (_, e₄, k₄) = >>=-eq-ok (validate_policy time lib r.delivery_policy) _ k₃ in
      let (_, e₅, k₅) =
        >>=-eq-ok
          (refuse_if (not (same r.route_family (route_family_of (lib.event_kind r.envelope))))
            (contract "delivery record route family does not accept its event kind"))
          _ k₄ in
      let (_, e₆, k₆) =
        >>=-eq-ok
          (require_canonical_utc_rfc3339 time "delivery next retry time" r.next_retry_at_utc) _
          k₅ in
      let (_, e₇, k₇) =
        >>=-eq-ok
          (refuse_if (ltb r.delivery_policy.max_attempts (length r.attempts))
            (contract "delivery attempt history exceeds its immutable terminal bound"))
          _ k₆ in
      let (last, e₈, k₈) = >>=-eq-ok (validate_attempts time lib 0 none r.attempts) _ k₇ in
      let (snoc, latest_is) =
        attempts-snoc 0 (length r.attempts) none last r.attempts
          (failed_attempt time lib (length r.attempts + 1) failed_at f) (omega arith) e₈ in
      (
        last,
        latest_is,
        then_ok _ e₁ (
            then_ok _ e₂ (
              then_ok _ e₃ (
                then_ok _ e₄ (
                  then_ok _ e₅ (
                    then_ok _ c₂ (
                      then_ok _ (room _ r.attempts _ _ l) (
                        last_checks next n d last _ _
                          (snoc
                            ∙ last_turn (length r.attempts) last failed_at f d
                                (omega (arith, l, (bounds time lib r e).1)) c₁ pd v)
                          pn o))))))),
      )
