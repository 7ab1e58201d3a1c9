-- ===== src/Lineage/Transition/Resolved.antt =====
-- graph/lineage_manifest.rs: what a validated manifest resolves.
use ffhn.Base.{
  ◌≡◌, ◌≢◌, refl, sym, ap, subst, true, Bool-cases, inl, inr, not, Option, none, some, same,
  list_eq, nat_eq, ◌==◌, ◌||◌,
}
use ffhn.Base.Errors.{contract, json, ok, refuse_if, map_err, >>=-eq-ok}
use ffhn.Stamps.{TimeLib}
use ffhn.Identity.{
  UuidLib, SourceIdentity, validate_source_identity, validate_instance_id,
  source_identity_schema_name,
}
use ffhn.Policy.Types.{ValueLib}
use ffhn.State.Facts.{UrlLib}
use ffhn.Lineage.Manifest.{
  unresolvable, LineageManifest, validate_manifest, recover_against, is_from, is_init,
  source_identity_eq, check_from, lineage_manifest_schema_name,
}
use ffhn.Lineage.Transition.{is_source_scope}
use ffhn.Lineage.Transition.SourceScope.{IsSourceManifest, Resolvable}

module _ (time : TimeLib) (uuids : UuidLib) (urls : UrlLib) (lib : ValueLib)
    (m : LineageManifest uuids) where
  pub established :
      validate_manifest uuids m ≡ ok tt → is_source_scope m.scope ≡ true → IsSourceManifest uuids m
  unfolding validate_manifest validate_source_identity
  established h scope =
      let (_, _, h₁) =
        >>=-eq-ok
          (refuse_if
            (not (same m.schema_name lineage_manifest_schema_name) || not (m.schema_version == 1))
            (contract "lineage manifest is not a current FFHN lineage manifest"))
          _ h in
      let (_, target, _) = >>=-eq-ok (validate_source_identity uuids m.target) _ h₁ in
      let (_, _, h₂) =
        >>=-eq-ok
          (refuse_if
            (not (same m.target.schema_name source_identity_schema_name)
              || not (m.target.schema_version == 1))
            (contract "source identity is not a current FFHN source identity"))
          _ target in
      let (_, minted, _) =
        >>=-eq-ok (validate_instance_id uuids m.target.source_instance_id) _ h₂ in
      record { is_valid = h; target_valid = target; instance_valid = minted; source_scope = scope }

  prior-valid :
      (from : Option (SourceIdentity uuids)) (i : SourceIdentity uuids)
      → check_from uuids from ≡ ok tt
      → is_from uuids from i ≡ true
      → validate_source_identity uuids i ≡ ok tt
  prior-valid none i valid found = absurd (cc (found))
  prior-valid (some from) i valid found =
      subst (λ x. validate_source_identity uuids x ≡ ok tt)
        (((source_identity_eq uuids).beq_iff from i).0 found) valid

  from-valid : validate_manifest uuids m ≡ ok tt → check_from uuids m.from ≡ ok tt
  unfolding validate_manifest
  from-valid h =
      let (_, _, h₁) =
        >>=-eq-ok
          (refuse_if
            (not (same m.schema_name lineage_manifest_schema_name) || not (m.schema_version == 1))
            (contract "lineage manifest is not a current FFHN lineage manifest"))
          _ h in
      let (_, _, h₂) = >>=-eq-ok (validate_source_identity uuids m.target) _ h₁ in
      (>>=-eq-ok (check_from uuids m.from) _ h₂).1

  pub resolvable :
      (identity : Option (SourceIdentity uuids))
      → validate_manifest uuids m ≡ ok tt
      → validate_source_identity uuids m.target ≡ ok tt
      → recover_against uuids m identity ≢ unresolvable
      → Resolvable uuids m identity
  unfolding Resolvable recover_against
  resolvable none valid target known = elim (Bool-cases (is_init uuids m.scope)) [
    | inl e ↦ (refl, inl (rw e refl))
    | inr e ↦ absurd (known (rw e refl))
  ]
  resolvable (some i) valid target known = elim (Bool-cases (is_from uuids m.from i)) [
    | inl e ↦
        (ap (map_err (λ x. json)) (prior-valid m.from i (from-valid valid) e), inl (rw e refl))
    | inr e ↦ elim (Bool-cases (same ⦃e = source_identity_eq uuids⦄ i m.target)) [
      | inl f ↦
          let one : i ≡ m.target = ((source_identity_eq uuids).beq_iff i m.target).0 f in
          (
            ap (map_err (λ x. json))
                (subst (λ x. validate_source_identity uuids x ≡ ok tt) (sym one) target),
            inr (rw (e, f) refl, ap some one),
          )
      | inr f ↦ absurd (known (rw (e, f) refl))
    ]
  ]

  pub target-Resolvable :
      validate_source_identity uuids m.target ≡ ok tt → Resolvable uuids m (some m.target)
  unfolding recover_against Resolvable
  target-Resolvable target =
      let itself = ((source_identity_eq uuids).beq_iff m.target m.target).1 refl in
      (
        ap (map_err (λ x. json)) target,
        elim (Bool-cases (is_from uuids m.from m.target)) [
          | inl e ↦ inl (rw e refl)
          | inr e ↦ inr (rw (e, itself) refl, refl)
        ],
      )
