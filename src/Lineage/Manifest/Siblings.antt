-- ===== src/Lineage/Manifest/Siblings.antt =====
-- graph/lineage_manifest.rs: the reset of a measurement leaves its siblings alone.
use ffhn.Base.{
  ◌≡◌, ◌≢◌, refl, sym, ◌∙◌, ap, subst, false, Bool-cases, inl, inr, not, none, some, Option-cases,
  [], ◌∷◌, same, list_eq, nat_eq, same_list_iff, arith, ◌||◌, ◌==◌,
}
use ffhn.Base.Errors.{
  Text, ok, ok_or, refuse_if, check_each, >>=-eq-ok, found-ok, refused, accepted, contract,
}
use ffhn.Base.Dict.{Dict, get}
use ffhn.Identity.{UuidLib, MeasurementIdentity, SourceIdentity, validate_source_identity}
use ffhn.Lineage.Manifest.{
  LineageManifest, measurement_reset, same_measurement_iff, check_prior, check_target,
  validate_measurement_reset, validate_manifest, check_scope, check_from,
  lineage_manifest_schema_name,
}

module _ (uuids : UuidLib) where
  prior-kept :
      (reset_id : Text) (target : Dict (MeasurementIdentity uuids))
      (entries : Dict (MeasurementIdentity uuids)) (id : Text) {prior : MeasurementIdentity uuids}
      → check_each (check_prior uuids reset_id target) entries ≡ ok tt
      → same id reset_id ≡ false
      → get id entries ≡ some prior
      → get id target ≡ some prior
  prior-kept reset_id target [] id h sibling found = absurd (cc (found))
  prior-kept reset_id target ((j, m) ∷ rest) id {prior} h sibling found =
      let (_, e₁, h₁) = >>=-eq-ok (check_prior uuids reset_id target (j, m)) _ h in
      elim (Bool-cases (same j id)) [
        | inl e ↦
            let (entry, e₂, e₃) =
              >>=-eq-ok
                (ok_or (get j target)
                  (contract "measurement reset must preserve every non-reset measurement identity"))
                _ e₁ in
            let kept = refused _ _ e₃ in
            let one : j ≡ id = (same_list_iff j id).0 e in
            let apart : same j reset_id ≡ false = ap (λ i. same i reset_id) one ∙ sibling in
            let this : m ≡ prior = ground (arith, e, found) in
            let unchanged : entry ≡ m =
              (same_measurement_iff uuids entry m).0 (ground (arith, kept, apart)) in
            let stored : get id target ≡ some entry =
              ap (λ i. get i target) (sym one) ∙ found-ok _ _ e₂ in
            cc (stored, unchanged, this)
        | inr e ↦ prior-kept reset_id target rest id h₁ sibling (ground (arith, e, found))
      ]

  none-added :
      (reset_id : Text) (from entries : Dict (MeasurementIdentity uuids)) (id : Text)
      → check_each (check_target uuids reset_id from) entries ≡ ok tt
      → same id reset_id ≡ false
      → get id from ≡ none
      → get id entries ≡ none
  none-added reset_id from [] id h sibling absent = refl
  none-added reset_id from ((j, m) ∷ rest) id h sibling absent =
      let (_, e₁, h₁) = >>=-eq-ok (check_target uuids reset_id from (j, m)) _ h in
      let later = none-added reset_id from rest id h₁ sibling absent in
      elim (Bool-cases (same j id)) [
        | inl e ↦
            let one : j ≡ id = (same_list_iff j id).0 e in
            let kept = refused _ _ e₁ in
            let apart : same j reset_id ≡ false = ap (λ i. same i reset_id) one ∙ sibling in
            let missing : get j from ≡ none = ap (λ i. get i from) one ∙ absent in
            absurd (ground (arith, kept, apart, missing))
        | inr e ↦ ground (arith, e, later)
      ]

  siblings :
      (m : LineageManifest uuids) (reset_id : Text) (from : SourceIdentity uuids)
      → validate_measurement_reset uuids m reset_id from ≡ ok tt
      → (m.target.source_instance_id ≡ from.source_instance_id)
        × ((id : Text)
            → same id reset_id ≡ false
            → get id m.target.measurements ≡ get id from.measurements)
        × (fresh : MeasurementIdentity uuids) × (get reset_id m.target.measurements ≡ some fresh)
        × (get reset_id from.measurements ≢ some fresh)
  unfolding validate_measurement_reset
  siblings m reset_id from h =
      let (_, e₁, h₁) =
        >>=-eq-ok
          (refuse_if (not (uuids.uuid_eq.beq from.source_instance_id m.target.source_instance_id))
            _)
          _ h in
      let (fresh, e₂, h₂) =
        >>=-eq-ok
          (ok_or (get reset_id m.target.measurements)
            (contract "measurement reset target must contain the reset measurement identity"))
          _ h₁ in
      let (_, e₃, h₃) =
        >>=-eq-ok (check_each (check_prior uuids reset_id m.target.measurements) from.measurements)
          _ h₂ in
      let (_, e₄, h₄) =
        >>=-eq-ok (check_each (check_target uuids reset_id from.measurements) m.target.measurements)
          _ h₃ in
      let minted = refused _ _ h₄ in
      let itself = (same_measurement_iff uuids fresh fresh).1 refl in
      (
        sym (
            (uuids.uuid_eq.beq_iff from.source_instance_id m.target.source_instance_id).0
              (accepted _ _ e₁)),
        λ id sibling. elim (Option-cases (get id from.measurements)) [
          | inl e ↦
              none-added reset_id from.measurements m.target.measurements id e₄ sibling e ∙ sym e
          | inr (prior, e) ↦
              prior-kept reset_id m.target.measurements from.measurements id e₃ sibling e ∙ sym e
        ],
        fresh,
        found-ok _ _ e₂,
        λ stored. absurd (ground (arith, minted, stored, itself)),
      )

  -- A valid manifest that resets one measurement keeps the source instance, gives every other
  -- measurement the identity that it had, or none if it had none, and gives the reset one an
  -- identity that differs from the one it had.
  pub validate_manifest-siblings :
      (m : LineageManifest uuids) (reset_id : Text) (from : SourceIdentity uuids)
      → validate_manifest uuids m ≡ ok tt
      → m.scope ≡ measurement_reset reset_id
      → m.from ≡ some from
      → (m.target.source_instance_id ≡ from.source_instance_id)
        × ((id : Text)
            → same id reset_id ≡ false
            → get id m.target.measurements ≡ get id from.measurements)
        × (fresh : MeasurementIdentity uuids) × (get reset_id m.target.measurements ≡ some fresh)
        × (get reset_id from.measurements ≢ some fresh)
  unfolding validate_manifest
  validate_manifest-siblings m reset_id from h scope prior =
      let (_, _, h₁) =
        >>=-eq-ok
          (refuse_if
            (not (same m.schema_name lineage_manifest_schema_name) || not (m.schema_version == 1))
            (contract "lineage manifest is not a current FFHN lineage manifest"))
          _ h in
      let (_, _, h₂) = >>=-eq-ok (validate_source_identity uuids m.target) _ h₁ in
      let (_, _, h₃) = >>=-eq-ok (check_from uuids m.from) _ h₂ in
      siblings m reset_id from (
        subst (λ f. check_scope uuids m (measurement_reset reset_id) f ≡ ok tt) prior
          (subst (λ k. check_scope uuids m k m.from ≡ ok tt) scope h₃))
