-- ===== src/Outbox/Admission/Keys.antt =====
-- The keys of an admission: one record for each event and route, and none that is queued already.
use ffhn.Base.{
  if-true, if-false, ◌+◌, ◌≡◌, refl, sym, ap, ◌∙◌, subst, Bool, false, not, ◌||◌, some, List, [],
  ◌∷◌, ◌++◌, map, length, All, All-append, any, leb, arith, Bool-cases, inl, inr, same,
}
use ffhn.Base.Errors.{Text, contract, ok, refuse_if, check_each, >>=-eq-ok}
use ffhn.Stamps.{TimeLib, require_canonical_utc_rfc3339}
use ffhn.Delivery.Record.{OutboxLib, DeliveryPolicy, DeliveryRecord, route_family_of, family_eq}
use ffhn.Outbox.{validate_policy, validate_record}
use ffhn.Outbox.Admission.{
  GraphRoute, OutboxAdmission, Progress, same_key, record_for, overflowed, queued, new_record,
  admit_key, admit_route, admit_routes, admit_envelopes, key_of, nothing, admit,
}
use ffhn.Outbox.Admission.Bounds.{skipped}

-- No key is the same as an earlier one.
abbrev pub Distinct : List (Text × Text) → Type 0
Distinct [] = Unit
Distinct (k ∷ ks) = All (λ later. same_key later k ≡ false) ks × Distinct ks

Distinct-snoc :
    (ks : List (Text × Text)) (k : Text × Text)
    → All (λ earlier. same_key k earlier ≡ false) ks
    → Distinct ks
    → Distinct (ks ++ (k ∷ []))
Distinct-snoc [] k h d = (tt, tt)
Distinct-snoc (x ∷ ks) k h d = (All-append _ ks (k ∷ []) d.0 (h.0, tt), Distinct-snoc ks k h.1 d.1)

map-append {ℓ κ} :
    {A : Type ℓ} {B : Type κ} (f : A → B) (xs ys : List A) → map f (xs ++ ys) ≡ map f xs ++ map f ys
map-append f [] ys = refl
map-append f (x ∷ xs) ys = ap (λ r. f x ∷ r) (map-append f xs ys)

not-first : (a b : Bool) → (a || b) ≡ false → (a ≡ false) × (b ≡ false)
not-first a b h = (ground arith, ground arith)

-- The keys `keys` are distinct, and none is among `used`.
abbrev pub AreNew : List (Text × Text) → List (Text × Text) → Type 0
AreNew used keys = Distinct keys × All (λ k. any (same_key k) used ≡ false) keys

-- A key that is not occupied differs from those used before and those admitted.
abbrev Covers : List (Text × Text) → List (Text × Text) → List (Text × Text) → Type 0
Covers used occupied keys =
    (k : Text × Text)
    → any (same_key k) occupied ≡ false
    → (any (same_key k) used ≡ false) × All (λ admitted. same_key k admitted ≡ false) keys

noted :
    (used occupied keys : List (Text × Text)) (key : Text × Text)
    → Covers used occupied keys
    → Covers used (key ∷ occupied) keys
noted used occupied keys key c k h = c k (not-first (same_key k key) _ h).1

recorded :
    (used occupied keys : List (Text × Text)) (key : Text × Text)
    → Covers used occupied keys
    → Covers used (key ∷ occupied) (keys ++ (key ∷ []))
recorded used occupied keys key c k h =
    let (here, there) = not-first (same_key k key) _ h in
    let (a, b) = c k there in (a, All-append _ keys (key ∷ []) b (here, tt))

AreNew-snoc :
    (used occupied keys : List (Text × Text)) (key : Text × Text)
    → any (same_key key) occupied ≡ false
    → Covers used occupied keys
    → AreNew used keys
    → AreNew used (keys ++ (key ∷ []))
AreNew-snoc used occupied keys key new c (d, e) =
    let (a, b) = c key new in (Distinct-snoc keys key b d, All-append _ keys (key ∷ []) e (a, tt))

module _ (time : TimeLib) (lib : OutboxLib) where
  new_record-key :
      (envelope : lib.Envelope) (route : GraphRoute lib) (policy : DeliveryPolicy) (t : Text)
      {r : DeliveryRecord lib}
      → new_record time lib envelope route policy t ≡ ok r
      → key_of time lib r ≡ (lib.event_id envelope, route.route_id)
  unfolding new_record
  new_record-key envelope route policy t {r} e =
      let (_, e₁, k₁) =
        >>=-eq-ok (require_canonical_utc_rfc3339 time "delivery admission time" t) _ e in
      let (_, e₂, k₂) =
        >>=-eq-ok
          (refuse_if (not (same route.route_family (route_family_of (lib.event_kind envelope))))
            (contract "delivery record route family does not accept its event kind"))
          _ k₁ in
      let (_, e₃, k₃) =
        >>=-eq-ok (validate_record time lib (record_for time lib envelope route policy t)) _ k₂ in
      let q : record_for time lib envelope route policy t ≡ r = cc (k₃) in
      ap (key_of time lib) (sym q)

  module _ (existing : List (DeliveryRecord lib)) (policy : DeliveryPolicy) (t : Text) where
    abbrev keys_of : List (DeliveryRecord lib) → List (Text × Text)
    keys_of records = map (key_of time lib) records

    abbrev IsKeyed : List (Text × Text) → OutboxAdmission lib → Type 0
    IsKeyed occupied a =
        Covers (keys_of existing) occupied (keys_of a.records)
        × AreNew (keys_of existing) (keys_of a.records)

    admit_key-IsKeyed :
        (envelope : lib.Envelope) (route : GraphRoute lib) (occupied : List (Text × Text))
        (a : OutboxAdmission lib) {b : OutboxAdmission lib}
        → any (same_key (lib.event_id envelope, route.route_id)) occupied ≡ false
        → IsKeyed occupied a
        → admit_key time lib existing policy t envelope route a ≡ ok b
        → IsKeyed ((lib.event_id envelope, route.route_id) ∷ occupied) b
    unfolding admit_key
    admit_key-IsKeyed envelope route occupied a {b} new (c, n) e =
        let key : Text × Text = (lib.event_id envelope, route.route_id) in
        elim (Bool-cases (leb policy.max_pending (length existing + length a.records))) [
          | inl full ↦
              let q : overflowed time lib envelope route a ≡ b = cc (if-true _ _ full e) in
              subst (IsKeyed (key ∷ occupied)) q
                (noted (keys_of existing) occupied (keys_of a.records) key c, n)
          | inr free ↦
              let (r, e₁, k₁) =
                >>=-eq-ok (new_record time lib envelope route policy t) _ (if-false _ _ free e) in
              let q : queued time lib a r ≡ b = cc (k₁) in
              let keys : keys_of (a.records ++ (r ∷ [])) ≡ keys_of a.records ++ (key ∷ []) =
                map-append (key_of time lib) a.records (r ∷ [])
                ∙ ap (λ k. keys_of a.records ++ (k ∷ []))
                    (new_record-key envelope route policy t e₁) in
              subst (IsKeyed (key ∷ occupied)) q (
                subst
                  (λ ks.
                    Covers (keys_of existing) (key ∷ occupied) ks × AreNew (keys_of existing) ks)
                  (sym keys)
                  (
                    recorded (keys_of existing) occupied (keys_of a.records) key c,
                    AreNew-snoc (keys_of existing) occupied (keys_of a.records) key new c n,
                  ))
        ]

    admit_route-IsKeyed :
        (envelope : lib.Envelope) (route : GraphRoute lib) (p : Progress lib) {q : Progress lib}
        → IsKeyed p.occupied p.admission
        → admit_route time lib existing policy t envelope route p ≡ ok q
        → IsKeyed q.occupied q.admission
    unfolding admit_route
    admit_route-IsKeyed envelope route p {q} i e =
        elim (Bool-cases (skipped time lib envelope route p)) [
          | inl skip ↦
              let stay : p ≡ q = cc (if-true _ _ skip e) in
              subst (λ x. IsKeyed x.occupied x.admission) stay i
          | inr new ↦
              let (a, e₁, k₁) =
                >>=-eq-ok (admit_key time lib existing policy t envelope route p.admission) _
                  (if-false _ _ new e) in
              let step : record {
                occupied = (lib.event_id envelope, route.route_id) ∷ p.occupied;
                admission = a;
              }
                  ≡ q =
                cc (k₁) in
              subst (λ x. IsKeyed x.occupied x.admission) step
                (admit_key-IsKeyed envelope route p.occupied p.admission (not-first _ _ new).1 i e₁)
        ]

    admit_routes-IsKeyed :
        (envelope : lib.Envelope) (routes : List (GraphRoute lib)) (p : Progress lib)
        {q : Progress lib}
        → IsKeyed p.occupied p.admission
        → admit_routes time lib existing policy t envelope routes p ≡ ok q
        → IsKeyed q.occupied q.admission
    admit_routes-IsKeyed envelope [] p {q} i e =
        let done : p ≡ q = cc (e) in subst (λ x. IsKeyed x.occupied x.admission) done i
    admit_routes-IsKeyed envelope (route ∷ routes) p i e =
        let (p', e₁, k₁) =
          >>=-eq-ok (admit_route time lib existing policy t envelope route p) _ e in
        admit_routes-IsKeyed envelope routes p' (admit_route-IsKeyed envelope route p i e₁) k₁

    admit_envelopes-IsKeyed :
        (envelopes : List lib.Envelope) (routes : List (GraphRoute lib)) (p : Progress lib)
        {q : Progress lib}
        → IsKeyed p.occupied p.admission
        → admit_envelopes time lib existing policy t envelopes routes p ≡ ok q
        → IsKeyed q.occupied q.admission
    admit_envelopes-IsKeyed [] routes p {q} i e =
        let done : p ≡ q = cc (e) in subst (λ x. IsKeyed x.occupied x.admission) done i
    admit_envelopes-IsKeyed (envelope ∷ envelopes) routes p i e =
        let (_, e₁, k₁) = >>=-eq-ok (lib.validate_envelope envelope) _ e in
        let (p', e₂, k₂) =
          >>=-eq-ok (admit_routes time lib existing policy t envelope routes p) _ k₁ in
        admit_envelopes-IsKeyed envelopes routes p' (admit_routes-IsKeyed envelope routes p i e₂) k₂

  -- An admission under a policy, if it returns, has one record at most for each event and route: the
  -- keys of its records are distinct, and none is the key of an existing record.
  pub admit-AreNew :
      (existing : List (DeliveryRecord lib)) (envelopes : List lib.Envelope)
      (routes : List (GraphRoute lib)) (policy : DeliveryPolicy) (t : Text)
      {a : OutboxAdmission lib}
      → admit time lib existing envelopes routes (some policy) t ≡ ok a
      → AreNew (map (key_of time lib) existing) (map (key_of time lib) a.records)
  unfolding admit
  admit-AreNew existing envelopes routes policy t {a} e =
      let (_, e₁, k₁) =
        >>=-eq-ok (require_canonical_utc_rfc3339 time "delivery admission time" t) _ e in
      let (_, e₂, k₂) = >>=-eq-ok (validate_policy time lib policy) _ k₁ in
      let (_, e₃, k₃) = >>=-eq-ok (check_each (validate_record time lib) existing) _ k₂ in
      let (p, e₄, k₄) =
        >>=-eq-ok
          (admit_envelopes time lib existing policy t envelopes routes
            (record { occupied = map (key_of time lib) existing; admission = nothing time lib }))
          _ k₃ in
      let done : p.admission ≡ a = cc (k₄) in
      subst (λ x. AreNew (map (key_of time lib) existing) (map (key_of time lib) x.records)) done
        (admit_envelopes-IsKeyed existing policy t envelopes routes _ (λ k h. (h, tt), (tt, tt))
          e₄).1
