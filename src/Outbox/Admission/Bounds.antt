-- ===== src/Outbox/Admission/Bounds.antt =====
-- What an admission guarantees: the queue's bound, valid records, and overflow only when it is full.
use ffhn.Base.{
  if-true, if-false, length-snoc, ℕ, ◌+◌, ◌≡◌, ◌≤◌, ◌⊎◌, inl, inr, refl, subst, Bool, false, not,
  ◌||◌, some, List, [], ◌∷◌, ◌++◌, map, length, All, All-append, leb, leb→le, arith, Bool-cases,
  same, any,
}
use ffhn.Base.Errors.{Text, contract, ok, refuse_if, check_each, >>=-eq-ok}
use ffhn.Stamps.{TimeLib, require_canonical_utc_rfc3339}
use ffhn.Delivery.Record.{OutboxLib, DeliveryPolicy, DeliveryRecord, route_family_of, family_eq}
use ffhn.Outbox.{validate_policy, validate_record}
use ffhn.Outbox.Admission.{
  GraphRoute, OutboxAdmission, Progress, same_key, record_for, new_record, admit_key, admit_route,
  admit_routes, admit_envelopes, key_of, nothing, overflowed, queued, admit,
}

fits :
    {A : Type 0} (n m : ℕ) (r : A) (rs : List A)
    → leb m (n + length rs) ≡ false
    → n + length (rs ++ (r ∷ [])) ≤ m
fits n m r rs h = ground (arith, length-snoc rs r)

stays :
    {A B : Type 0} {os : List B} (n m : ℕ) (r : A) (rs : List A)
    → (os ≡ []) ⊎ (m ≤ n + length rs)
    → (os ≡ []) ⊎ (m ≤ n + length (rs ++ (r ∷ [])))
stays n m r rs (inl e) = inl e
stays n m r rs (inr h) = inr (omega (arith, length-snoc rs r))

module _ (time : TimeLib) (lib : OutboxLib) where
  -- Of `n` queued records and an admission: the queue stays within the bound unless it was over
  -- it before, the new records are valid, and an overflow is noted only if the queue is full.
  abbrev pub IsBounded : ℕ → DeliveryPolicy → OutboxAdmission lib → Type 0
  IsBounded n policy a =
      ((a.records ≡ []) ⊎ (n + length a.records ≤ policy.max_pending))
      × ((a.overflow ≡ []) ⊎ (policy.max_pending ≤ n + length a.records))
      × All (λ r. validate_record time lib r ≡ ok tt) a.records

  new_record-valid :
      (envelope : lib.Envelope) (route : GraphRoute lib) (policy : DeliveryPolicy) (t : Text)
      {r : DeliveryRecord lib}
      → new_record time lib envelope route policy t ≡ ok r
      → validate_record time lib r ≡ ok tt
  unfolding new_record
  new_record-valid envelope route policy t {r} e =
      let (_, e₁, k₁) =
        >>=-eq-ok (require_canonical_utc_rfc3339 time "delivery admission time" t) _ e in
      let (_, e₂, k₂) =
        >>=-eq-ok
          (refuse_if (not (same route.route_family (route_family_of (lib.event_kind envelope))))
            (contract "delivery record route family does not accept its event kind"))
          _ k₁ in
      let (_, e₃, k₃) =
        >>=-eq-ok (validate_record time lib (record_for time lib envelope route policy t)) _ k₂ in
      let q : record_for time lib envelope route policy t ≡ r = cc (k₃) in
      subst (λ x. validate_record time lib x ≡ ok tt) q e₃

  abbrev pub skipped : lib.Envelope → GraphRoute lib → Progress lib → Bool
  skipped envelope route p =
      not (same route.route_family (route_family_of (lib.event_kind envelope)))
      || any (same_key (lib.event_id envelope, route.route_id)) p.occupied

  module _ (existing : List (DeliveryRecord lib)) (policy : DeliveryPolicy) (t : Text) where
    admit_key-IsBounded :
        (envelope : lib.Envelope) (route : GraphRoute lib) (a : OutboxAdmission lib)
        {b : OutboxAdmission lib}
        → IsBounded (length existing) policy a
        → admit_key time lib existing policy t envelope route a ≡ ok b
        → IsBounded (length existing) policy b
    unfolding admit_key
    admit_key-IsBounded envelope route a {b} i e =
        elim (Bool-cases (leb policy.max_pending (length existing + length a.records))) [
          | inl full ↦
              let q : overflowed time lib envelope route a ≡ b = cc (if-true _ _ full e) in
              subst (IsBounded (length existing) policy) q (i.0, inr (leb→le _ _ full), i.2)
          | inr free ↦
              let (r, e₁, k₁) =
                >>=-eq-ok (new_record time lib envelope route policy t) _ (if-false _ _ free e) in
              let q : queued time lib a r ≡ b = cc (k₁) in
              subst (IsBounded (length existing) policy) q (
                inr (fits _ _ r (a.records) free),
                stays _ _ r (a.records) (i.1),
                All-append _ a.records (r ∷ []) (i.2)
                    (new_record-valid envelope route policy t e₁, tt),
              )
        ]

    admit_route-IsBounded :
        (envelope : lib.Envelope) (route : GraphRoute lib) (p : Progress lib) {q : Progress lib}
        → IsBounded (length existing) policy p.admission
        → admit_route time lib existing policy t envelope route p ≡ ok q
        → IsBounded (length existing) policy q.admission
    unfolding admit_route
    admit_route-IsBounded envelope route p {q} i e = elim (Bool-cases (skipped envelope route p)) [
      | inl skip ↦
          let same_progress : p ≡ q = cc (if-true _ _ skip e) in
          subst (λ x. IsBounded (length existing) policy x.admission) same_progress i
      | inr new ↦
          let (a, e₁, k₁) =
            >>=-eq-ok (admit_key time lib existing policy t envelope route p.admission) _
              (if-false _ _ new e) in
          let step : record {
            occupied = (lib.event_id envelope, route.route_id) ∷ p.occupied;
            admission = a;
          }
              ≡ q =
            cc (k₁) in
          subst (λ x. IsBounded (length existing) policy x.admission) step
            (admit_key-IsBounded envelope route p.admission i e₁)
    ]

    admit_routes-IsBounded :
        (envelope : lib.Envelope) (routes : List (GraphRoute lib)) (p : Progress lib)
        {q : Progress lib}
        → IsBounded (length existing) policy p.admission
        → admit_routes time lib existing policy t envelope routes p ≡ ok q
        → IsBounded (length existing) policy q.admission
    admit_routes-IsBounded envelope [] p {q} i e =
        let done : p ≡ q = cc (e) in
        subst (λ x. IsBounded (length existing) policy x.admission) done i
    admit_routes-IsBounded envelope (route ∷ routes) p i e =
        let (p', e₁, k₁) =
          >>=-eq-ok (admit_route time lib existing policy t envelope route p) _ e in
        admit_routes-IsBounded envelope routes p' (admit_route-IsBounded envelope route p i e₁) k₁

    admit_envelopes-IsBounded :
        (envelopes : List lib.Envelope) (routes : List (GraphRoute lib)) (p : Progress lib)
        {q : Progress lib}
        → IsBounded (length existing) policy p.admission
        → admit_envelopes time lib existing policy t envelopes routes p ≡ ok q
        → IsBounded (length existing) policy q.admission
    admit_envelopes-IsBounded [] routes p {q} i e =
        let done : p ≡ q = cc (e) in
        subst (λ x. IsBounded (length existing) policy x.admission) done i
    admit_envelopes-IsBounded (envelope ∷ envelopes) routes p i e =
        let (_, e₁, k₁) = >>=-eq-ok (lib.validate_envelope envelope) _ e in
        let (p', e₂, k₂) =
          >>=-eq-ok (admit_routes time lib existing policy t envelope routes p) _ k₁ in
        admit_envelopes-IsBounded envelopes routes p'
          (admit_routes-IsBounded envelope routes p i e₂) k₂

  -- An admission under a policy, if it returns, keeps the queue within the policy's bound: it queues
  -- nothing, or the existing records and the new ones together are at most `max_pending`; it notes an
  -- overflow only if they are at least `max_pending`; and every new record is a valid pending record.
  pub admit-IsBounded :
      (existing : List (DeliveryRecord lib)) (envelopes : List lib.Envelope)
      (routes : List (GraphRoute lib)) (policy : DeliveryPolicy) (t : Text)
      {a : OutboxAdmission lib}
      → admit time lib existing envelopes routes (some policy) t ≡ ok a
      → IsBounded (length existing) policy a
  unfolding admit
  admit-IsBounded existing envelopes routes policy t {a} e =
      let (_, e₁, k₁) =
        >>=-eq-ok (require_canonical_utc_rfc3339 time "delivery admission time" t) _ e in
      let (_, e₂, k₂) = >>=-eq-ok (validate_policy time lib policy) _ k₁ in
      let (_, e₃, k₃) = >>=-eq-ok (check_each (validate_record time lib) existing) _ k₂ in
      let (p, e₄, k₄) =
        >>=-eq-ok
          (admit_envelopes time lib existing policy t envelopes routes
            (record { occupied = map (key_of time lib) existing; admission = nothing time lib }))
          _ k₃ in
      let done : p.admission ≡ a = cc (k₄) in
      subst (IsBounded (length existing) policy) done
        (admit_envelopes-IsBounded existing policy t envelopes routes _ (inl refl, inl refl, tt) e₄)
