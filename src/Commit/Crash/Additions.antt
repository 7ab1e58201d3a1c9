-- ===== src/Commit/Crash/Additions.antt =====
-- graph/commit.rs: the identity additions of a commit, applied once and applied again.
use ffhn.Base.{
  ◌≡◌, refl, ap, sym, ◌∙◌, subst, true, Option, none, some, [], ◌∷◌, All, all, same, list_eq,
  nat_eq, same_list_iff, arith, inl, inr, if◌then◌else◌, Bool-cases, Option-cases, if-true,
  if-false, when_true,
}
use ffhn.Base.Dict.{Dict, get, insert, get-insert, contains_key}
use ffhn.Base.Errors.{Text, CoreResult, contract, ok, refuse_if, >>=-eq-ok, then_ok}
use ffhn.Identity.{
  UuidLib, SourceIdentity, MeasurementIdentity, from_first_instance, register_measurement,
  register_measurement_instance, validate_instance_id, validate_measurement_identity,
}
use ffhn.Commit.Manifest.{CommitManifest, known_as, not_known_otherwise, lineage_matches}
use ffhn.Commit.Recovery.{add_known, apply_identity_additions}

module _ (lib : UuidLib) where
  open lib use {Uuid, uuid_eq}

  abbrev add_all : SourceIdentity lib → Dict Uuid → CoreResult (SourceIdentity lib)
  add_all = apply_identity_additions lib

  -- The measurement is registered with this instance.
  abbrev Known : SourceIdentity lib → Text × Uuid → Type 0
  Known i entry = known_as lib (get entry.0 i.measurements) entry.1 ≡ true

  -- The measurements that are registered stay so, and the source stays the same.
  pub Extends : SourceIdentity lib → SourceIdentity lib → Type 0
  Extends i i' =
      (i'.source_instance_id ≡ i.source_instance_id)
      × ((k : Text) (m : MeasurementIdentity lib)
          → get k i.measurements ≡ some m
          → get k i'.measurements ≡ some m)

  inserted-Extends :
      (i : SourceIdentity lib) (id : Text) (m : MeasurementIdentity lib)
      → get id i.measurements ≡ none
      → Extends i (record i { measurements = insert id m i.measurements })
        × Known
            (record i { measurements = insert id m i.measurements })
            (id, m.measurement_instance_id)
  unfolding Extends
  inserted-Extends i id m free = (
    (
      refl,
      λ k n e. get-insert k id m i.measurements ∙ elim (Bool-cases (same id k)) [
        | inl q ↦ absurd (cc (free, e, ap (λ x. get x i.measurements) ((same_list_iff id k).0 q)))
        | inr q ↦ ap (λ b. if b then some m else get k i.measurements) q ∙ e
      ],
    ),
    ap (λ o. known_as lib o m.measurement_instance_id)
          (get-insert id id m i.measurements ∙ when_true _ _ ((same_list_iff id id).1 refl))
        ∙ (uuid_eq.beq_iff _ _).1 refl,
  )

  register-Extends :
      (i : SourceIdentity lib) (id : Text) (u : Uuid) {i' : SourceIdentity lib}
      → get id i.measurements ≡ none
      → register_measurement_instance lib i id u ≡ ok i'
      → Extends i i' × Known i' (id, u)
  unfolding Extends register_measurement_instance register_measurement from_first_instance
  register-Extends i id u {i'} free h =
      let (m, e₁, k₁) = >>=-eq-ok (from_first_instance lib u) _ h in
      let (v, e₂, k₂) = >>=-eq-ok (validate_instance_id lib u) _ e₁ in
      let (w, e₃, k₃) = >>=-eq-ok (validate_measurement_identity lib m) _ k₁ in
      let (x, e₄, k₄) =
        >>=-eq-ok
          (refuse_if (contains_key id i.measurements)
            (contract "measurement identity already exists and cannot be registered again"))
          _ k₃ in
      let same_identity : record i { measurements = insert id m i.measurements } ≡ i' = cc (k₄) in
      let same_id : m.measurement_instance_id ≡ u = cc (k₂) in
      let (x₁, x₂) = inserted-Extends i id m free in
      subst (λ j. Extends i j × Known j (id, u)) same_identity
        (
          x₁,
          subst (λ v. Known (record i { measurements = insert id m i.measurements }) (id, v))
              same_id x₂,
        )

  add-Extends :
      (i : SourceIdentity lib) (id : Text) (u : Uuid) (o : Option (MeasurementIdentity lib))
      {i' : SourceIdentity lib}
      → get id i.measurements ≡ o
      → add_known lib o i id u ≡ ok i'
      → Extends i i' × Known i' (id, u)
  unfolding Extends
  add-Extends i id u none e h = register-Extends i id u e h
  add-Extends i id u (some known) {i'} e h =
      elim (Bool-cases (uuid_eq.beq known.measurement_instance_id u)) [
        | inl q ↦
            let r : ok i ≡ ok i' = if-true _ _ q h in
            let p : i ≡ i' = cc (r) in
            (
              (
                ap (λ j. j.source_instance_id) (sym p),
                λ k m f. ap (λ j. get k j.measurements) (sym p) ∙ f,
              ),
              ap (λ j. known_as lib (get id j.measurements) u) (sym p)
                  ∙ (ap (λ x. known_as lib x u) e ∙ q),
            )
        | inr q ↦ absurd (cc (if-false _ _ q h))
      ]

  Known-kept :
      (i i' : SourceIdentity lib) (entry : Text × Uuid)
      → Extends i i'
      → Known i entry
      → Known i' entry
  unfolding Extends
  Known-kept i i' (id, u) x h = elim (Option-cases (get id i.measurements)) [
    | inl e ↦ absurd (cc (sym (ap (λ o. known_as lib o u) e) ∙ h))
    | inr (m, e) ↦
        ap (λ o. known_as lib o u) (x.1 id m e) ∙ (sym (ap (λ o. known_as lib o u) e) ∙ h)
  ]

  pub additions-extend :
      (i : SourceIdentity lib) (adds : Dict Uuid) {i' : SourceIdentity lib}
      → add_all i adds ≡ ok i'
      → Extends i i' × All (Known i') adds
  unfolding apply_identity_additions Extends
  additions-extend i [] {i'} h =
      let p : i ≡ i' = cc (h) in
      (
        (
          ap (λ j. j.source_instance_id) (sym p),
          λ k m f. ap (λ j. get k j.measurements) (sym p) ∙ f,
        ),
        tt,
      )
  additions-extend i ((id, u) ∷ adds) {i'} h =
      let (next, e, k) =
        >>=-eq-ok (add_known lib (get id i.measurements) i id u) (λ j. add_all j adds) h in
      let (x, known) = add-Extends i id u (get id i.measurements) refl e in
      let (y, rest) = additions-extend next adds k in
      ((y.0 ∙ x.0, λ j m f. y.1 j m (x.1 j m f)), (Known-kept next i' (id, u) y known, rest))

  -- Additions that are all registered are applied without a change.
  pub additions-again :
      (i : SourceIdentity lib) (adds : Dict Uuid) → All (Known i) adds → add_all i adds ≡ ok i
  unfolding apply_identity_additions
  additions-again i [] h = refl
  additions-again i ((id, u) ∷ adds) h =
      then_ok (λ j. add_all j adds) {a = i}
        (elim (Option-cases (get id i.measurements)) [
          | inl e ↦ absurd (cc (sym (ap (λ o. known_as lib o u) e) ∙ h.0))
          | inr (m, e) ↦
              ap (λ o. add_known lib o i id u) e
              ∙ when_true _ _ (sym (ap (λ o. known_as lib o u) e) ∙ h.0)
        ])
        (additions-again i adds h.1)

  all-known :
      (i i' : SourceIdentity lib) (entries : Dict Uuid)
      → Extends i i'
      → all (λ entry. known_as lib (get entry.0 i.measurements) entry.1) entries ≡ true
      → all (λ entry. known_as lib (get entry.0 i'.measurements) entry.1) entries ≡ true
  all-known i i' [] x h = refl
  all-known i i' (entry ∷ entries) x h =
      ground (arith, Known-kept i i' entry x, all-known i i' entries x)

  Known-not_otherwise :
      (i : SourceIdentity lib) (entries : Dict Uuid)
      → All (Known i) entries
      → all (λ entry. not_known_otherwise lib (get entry.0 i.measurements) entry.1) entries ≡ true
  Known-not_otherwise i [] h = refl
  Known-not_otherwise i ((id, u) ∷ entries) h = elim (Option-cases (get id i.measurements)) [
    | inl e ↦ absurd (cc (sym (ap (λ o. known_as lib o u) e) ∙ h.0))
    | inr (m, e) ↦ ground (
      arith,
      ap (λ o. not_known_otherwise lib o u) e,
      sym (ap (λ o. known_as lib o u) e) ∙ h.0,
      Known-not_otherwise i entries h.1,
    )
  ]

  -- The lineage gate passes again after the additions.
  pub lineage-again :
      (m : CommitManifest lib) (i : SourceIdentity lib) {i' : SourceIdentity lib}
      → add_all i m.identity_measurement_additions ≡ ok i'
      → lineage_matches lib m i ≡ true
      → lineage_matches lib m i' ≡ true
  unfolding lineage_matches Extends
  lineage-again m i {i'} h l =
      let (x, known) = additions-extend i m.identity_measurement_additions h in
      ground (
        arith,
        ap (uuid_eq.beq m.source_instance_id) x.0,
        all-known i i' m.touched_measurement_instances x,
        Known-not_otherwise i' m.identity_measurement_additions known,
      )
