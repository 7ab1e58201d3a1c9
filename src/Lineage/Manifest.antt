-- ===== src/Lineage/Manifest.antt =====
-- graph/lineage_manifest.rs: the manifest of a lineage transition.
pub mod Siblings
use ffhn.Base.{
  ℕ, ◌≡◌, ◌↔◌, refl, ap, Bool, true, false, ◌&&◌, ◌||◌, not, Option, none, some, List, [], ◌∷◌, Eq,
  same, list_eq, nat_eq, same_list_iff, option_eq, ◌==◌, ==_iff, if◌then◌else◌, arith,
}
use ffhn.Base.Errors.{
  Text, CoreResult, contract, ok, err, ◌>>=◌, ◌>>◌, ok_or, refuse_if, check_each,
}
use ffhn.Base.Dict.{Dict, get, contains_key}
use ffhn.Identity.{UuidLib, MeasurementIdentity, SourceIdentity, validate_source_identity}

pub data LineageScope : Type 0 where
  init source_reset : LineageScope
  measurement_reset : Text → LineageScope

pub data LineageRecovery : Type 0 where
  apply_target_identity continue_scope_swap unresolvable : LineageRecovery

-- "ffhn.lineage_manifest"; the version is 1.
abbrev pub lineage_manifest_schema_name : Text
lineage_manifest_schema_name =
    b'f' ∷ b'f' ∷ b'h' ∷ b'n' ∷ b'.' ∷ b'l' ∷ b'i' ∷ b'n' ∷ b'e' ∷ b'a' ∷ b'g' ∷ b'e' ∷ b'_' ∷ b'm'
    ∷ b'a' ∷ b'n' ∷ b'i' ∷ b'f' ∷ b'e' ∷ b's' ∷ b't' ∷ []

pub record LineageManifest (uuids : UuidLib) : Type 0 where
  pub schema_name : Text
  pub schema_version : ℕ
  pub source_id : Text
  pub scope : LineageScope
  pub from : Option (SourceIdentity uuids)
  pub target : SourceIdentity uuids

module _ (uuids : UuidLib) where
  -- The derived `PartialEq` of the identities.
  abbrev pub same_measurement : MeasurementIdentity uuids → MeasurementIdentity uuids → Bool
  same_measurement a b =
      uuids.uuid_eq.beq a.measurement_instance_id b.measurement_instance_id
      && (a.reset_count == b.reset_count)

  pub same_measurement_iff :
      (a b : MeasurementIdentity uuids) → (same_measurement a b ≡ true) ↔ (a ≡ b)
  same_measurement_iff a b = ground (
    arith,
    uuids.uuid_eq.beq_iff a.measurement_instance_id b.measurement_instance_id,
    ==_iff a.reset_count b.reset_count,
  )

  abbrev same_entry : Text × MeasurementIdentity uuids → Text × MeasurementIdentity uuids → Bool
  same_entry a b = same a.0 b.0 && same_measurement a.1 b.1

  pub same_entry_iff : (a b : Text × MeasurementIdentity uuids) → (same_entry a b ≡ true) ↔ (a ≡ b)
  same_entry_iff (i, a) (j, b) = ground (arith, same_list_iff i j, same_measurement_iff a b)

  abbrev pub entries_eq : Eq (Dict (MeasurementIdentity uuids))
  entries_eq = list_eq ⦃e = record { beq = same_entry; beq_iff = same_entry_iff }⦄

  abbrev pub same_identity : SourceIdentity uuids → SourceIdentity uuids → Bool
  same_identity a b =
      same a.schema_name b.schema_name
      && (a.schema_version == b.schema_version)
      && uuids.uuid_eq.beq a.source_instance_id b.source_instance_id
      && entries_eq.beq a.measurements b.measurements

  pub same_identity_iff : (a b : SourceIdentity uuids) → (same_identity a b ≡ true) ↔ (a ≡ b)
  same_identity_iff a b = ground (
    arith,
    same_list_iff a.schema_name b.schema_name,
    ==_iff a.schema_version b.schema_version,
    uuids.uuid_eq.beq_iff a.source_instance_id b.source_instance_id,
    entries_eq.beq_iff a.measurements b.measurements,
  )

  instance abbrev pub source_identity_eq : Eq (SourceIdentity uuids)
  source_identity_eq = record { beq = same_identity; beq_iff = same_identity_iff }

  -- `MeasurementReset`: the checks of the entries of the prior identity and of the target.
  abbrev pub check_prior :
      Text
      → Dict (MeasurementIdentity uuids)
      → Text × MeasurementIdentity uuids
      → CoreResult (Unit {0})
  check_prior reset_id target (id, prior) = do
    entry ←
        ok_or (get id target)
          (contract "measurement reset must preserve every non-reset measurement identity")
    refuse_if (not (same id reset_id) && not (same_measurement entry prior))
        (contract "measurement reset must not change a sibling measurement identity")

  abbrev pub check_target :
      Text
      → Dict (MeasurementIdentity uuids)
      → Text × MeasurementIdentity uuids
      → CoreResult (Unit {0})
  check_target reset_id from (id, entry) =
      refuse_if (not (same id reset_id) && not (contains_key id from))
        (contract "measurement reset must not add an unrelated measurement identity")

  abbrev is_prior : Option (MeasurementIdentity uuids) → MeasurementIdentity uuids → Bool
  is_prior none fresh = false
  is_prior (some prior) fresh = same_measurement prior fresh

  unfoldable pub validate_measurement_reset :
      LineageManifest uuids → Text → SourceIdentity uuids → CoreResult (Unit {0})
  validate_measurement_reset m reset_id from = do
    refuse_if (not (uuids.uuid_eq.beq from.source_instance_id m.target.source_instance_id))
        (contract "measurement reset must preserve the source instance identity")
    fresh ←
        ok_or (get reset_id m.target.measurements)
          (contract "measurement reset target must contain the reset measurement identity")
    check_each (check_prior reset_id m.target.measurements) from.measurements
    check_each (check_target reset_id from.measurements) m.target.measurements
    refuse_if (is_prior (get reset_id from.measurements) fresh)
        (contract "measurement reset must mint a fresh measurement identity")

  abbrev is_empty : Dict (MeasurementIdentity uuids) → Bool
  is_empty [] = true
  is_empty _ = false

  -- The `match` on the scope and the prior identity.
  abbrev pub check_scope :
      LineageManifest uuids → LineageScope → Option (SourceIdentity uuids) → CoreResult (Unit {0})
  check_scope m init none =
      if is_empty m.target.measurements
      then ok tt
      else err
          (contract "initial lineage manifest target must not preallocate measurement identities")
  check_scope m init (some from) =
      err (contract "initial lineage manifest must not carry a prior identity")
  check_scope m source_reset (some from) =
      if is_empty m.target.measurements
        && not (uuids.uuid_eq.beq m.target.source_instance_id from.source_instance_id)
      then ok tt
      else err (
          contract
            "source-reset lineage manifest must mint a fresh source identity and must not preallocate measurement identities")
  check_scope m source_reset none =
      if is_empty m.target.measurements
      then ok tt
      else err (
          contract
            "source-reset lineage manifest must mint a fresh source identity and must not preallocate measurement identities")
  check_scope m (measurement_reset reset_id) (some from) =
      validate_measurement_reset m reset_id from
  check_scope m (measurement_reset reset_id) none =
      err (contract "measurement-reset lineage manifest requires a prior identity")

  abbrev pub check_from : Option (SourceIdentity uuids) → CoreResult (Unit {0})
  check_from none = ok tt
  check_from (some from) = validate_source_identity uuids from

  -- `LineageManifest::validate`.
  unfoldable pub validate_manifest : LineageManifest uuids → CoreResult (Unit {0})
  unfolding validate_measurement_reset
  validate_manifest m = do
    refuse_if (not (same m.schema_name lineage_manifest_schema_name) || not (m.schema_version == 1))
        (contract "lineage manifest is not a current FFHN lineage manifest")
    validate_source_identity uuids m.target
    check_from m.from
    check_scope m m.scope m.from

  -- `LineageManifest::new`.
  unfoldable pub new_manifest :
      Text
      → LineageScope
      → Option (SourceIdentity uuids)
      → SourceIdentity uuids
      → CoreResult (LineageManifest uuids)
  unfolding validate_manifest
  new_manifest source_id scope from target = do
    let manifest : LineageManifest uuids = record {
      schema_name = lineage_manifest_schema_name;
      schema_version = 1;
      source_id = source_id;
      scope = scope;
      from = from;
      target = target;
    }
    validate_manifest manifest
    ok manifest

  abbrev pub is_init : LineageScope → Bool
  is_init init = true
  is_init _ = false

  abbrev pub is_from : Option (SourceIdentity uuids) → SourceIdentity uuids → Bool
  is_from none identity = false
  is_from (some from) identity = same from identity

  unfoldable pub recover_against :
      LineageManifest uuids → Option (SourceIdentity uuids) → LineageRecovery
  recover_against m none = if is_init m.scope then apply_target_identity else unresolvable
  recover_against m (some identity) =
      if is_from m.from identity
      then apply_target_identity
      else (if same identity m.target then continue_scope_swap else unresolvable)
