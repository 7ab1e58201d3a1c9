-- ===== src/Examples/Lineages.antt =====
-- The transitions of lineages at concrete inputs.
use ffhn.Base.{◌≡◌, ◌≢◌, refl, none, some, [], ◌∷◌, same, list_eq, nat_eq, false}
use ffhn.Base.Errors.{Text, ok}
use ffhn.Base.Dict.{get}
use ffhn.Identity.{
  MeasurementIdentity, SourceIdentity, validate_source_identity, validate_measurement_identity,
  validate_instance_id, fresh_source_identity,
}
use ffhn.Lineage.Manifest.{
  source_reset, measurement_reset, apply_target_identity, LineageManifest,
  lineage_manifest_schema_name, validate_manifest, validate_measurement_reset, recover_against,
}
use ffhn.Lineage.Manifest.Siblings.{validate_manifest-siblings}
use ffhn.Lineage.Disk.{SourceDir}
use ffhn.Lineage.Swap.{empty_storage}
use ffhn.Lineage.Transition.{
  apply_source_transition, apply_blind_source_transition, recover_lineage_transition,
}
use ffhn.Lineage.Transition.SourceScope.{transitioned}
use ffhn.Lineage.Transition.Done.{Done}
use ffhn.Lineage.Transition.Blind.{blind_manifest, IsBlindCrash, apply_blind_source_transition-Done}
use ffhn.Lineage.Transition.Crash.{Interrupted, apply_source_transition-crash}
use ffhn.Examples.Rules.{bytes}
use ffhn.Examples.States.{clock, numbers, addresses}
use ffhn.Lineage.Disk.{StorageTree}
use ffhn.Lineage.Swap.{empty_measurement}
use ffhn.Lineage.Transition.{apply_measurement_transition}
use ffhn.Lineage.Transition.MeasurementCrash.{
  measurement_reset_dir, apply_measurement_transition-crash,
}

abbrev first_lineage : SourceIdentity numbers
first_lineage = record (fresh_source_identity numbers 7) {
  measurements =
      (b'a' ∷ [], record { measurement_instance_id = 8; reset_count = 0 })
      ∷ (b'b' ∷ [], record { measurement_instance_id = 9; reset_count = 0 })
      ∷ [];
}

abbrev second_lineage : SourceIdentity numbers
second_lineage = record (fresh_source_identity numbers 7) {
  measurements =
      (b'a' ∷ [], record { measurement_instance_id = 10; reset_count = 1 })
      ∷ (b'b' ∷ [], record { measurement_instance_id = 9; reset_count = 0 })
      ∷ [];
}

abbrev measurement_manifest : LineageManifest numbers
measurement_manifest = record {
  schema_name = lineage_manifest_schema_name;
  schema_version = 1;
  source_id = b's' ∷ [];
  scope = measurement_reset (b'a' ∷ []);
  from = some first_lineage;
  target = second_lineage;
}

measurement_manifest-valid : validate_manifest numbers measurement_manifest ≡ ok tt
unfolding validate_manifest validate_measurement_reset validate_source_identity
    validate_measurement_identity validate_instance_id
measurement_manifest-valid = refl

validate_manifest-siblings_example :
    (second_lineage.source_instance_id ≡ first_lineage.source_instance_id)
    × ((id : Text)
        → same id (b'a' ∷ []) ≡ false
        → get id second_lineage.measurements ≡ get id first_lineage.measurements)
    × (fresh : MeasurementIdentity numbers) × (get (b'a' ∷ []) second_lineage.measurements
        ≡ some fresh)
    × (get (b'a' ∷ []) first_lineage.measurements ≢ some fresh)
validate_manifest-siblings_example =
    validate_manifest-siblings numbers measurement_manifest (b'a' ∷ []) first_lineage
      measurement_manifest-valid refl refl

abbrev source_manifest : LineageManifest numbers
source_manifest = record {
  schema_name = lineage_manifest_schema_name;
  schema_version = 1;
  source_id = b's' ∷ [];
  scope = source_reset;
  from = some first_lineage;
  target = fresh_source_identity numbers 11;
}

-- A source that has run under its first lineage.
abbrev used : SourceDir numbers addresses
used = record {
  source_id = b's' ∷ [];
  lineage_manifest = none;
  identity = some first_lineage;
  storage = some (empty_storage numbers addresses);
  tombstone = none;
}

source_manifest-valid : validate_manifest numbers source_manifest ≡ ok tt
unfolding validate_manifest validate_source_identity validate_measurement_identity
    validate_instance_id
source_manifest-valid = refl

resolved : recover_against numbers source_manifest used.identity ≡ apply_target_identity
unfolding recover_against
resolved = refl

apply_source_transition-crash_example :
    ((apply_source_transition clock numbers addresses bytes source_manifest used).result ≡ ok tt)
    × ((apply_source_transition clock numbers addresses bytes source_manifest used).final
        ≡ transitioned clock numbers addresses bytes source_manifest)
    × ((e : SourceDir numbers addresses)
        → Interrupted clock numbers addresses bytes
            (apply_source_transition clock numbers addresses bytes source_manifest)
            used
            e
        → ((recover_lineage_transition clock numbers addresses bytes e).result ≡ ok tt)
          × ((recover_lineage_transition clock numbers addresses bytes e).final
              ≡ transitioned clock numbers addresses bytes source_manifest))
apply_source_transition-crash_example =
    apply_source_transition-crash clock numbers addresses bytes source_manifest used
      source_manifest-valid refl refl refl (λ h. cc (resolved, h))

twelve-valid : validate_instance_id numbers 12 ≡ ok tt
unfolding validate_instance_id
twelve-valid = refl

apply_blind_source_transition-Done_example :
    Done
      (IsBlindCrash clock numbers addresses bytes used
        (blind_manifest numbers (b's' ∷ []) 12 source_reset))
      (apply_blind_source_transition clock numbers addresses bytes 12 source_reset)
      used
      tt
      (transitioned clock numbers addresses bytes
        (blind_manifest numbers (b's' ∷ []) 12 source_reset))
apply_blind_source_transition-Done_example =
    apply_blind_source_transition-Done clock numbers addresses bytes used 12 source_reset
      twelve-valid refl

-- A storage in which every measurement has a directory.
abbrev used_tree : StorageTree numbers addresses
used_tree = record (empty_storage numbers addresses) {
  measurements = some (λ j. some (empty_measurement numbers));
}

abbrev measured : SourceDir numbers addresses
measured = record used { storage = some used_tree }

abbrev next_identity : MeasurementIdentity numbers
next_identity = record { measurement_instance_id = 10; reset_count = 1 }

measured-resolved :
    recover_against numbers measurement_manifest measured.identity ≡ apply_target_identity
unfolding recover_against
measured-resolved = refl

apply_measurement_transition-crash_example :
    ((apply_measurement_transition clock numbers addresses bytes measurement_manifest
        measured).result
      ≡ ok tt)
    × ((apply_measurement_transition clock numbers addresses bytes measurement_manifest
          measured).final
        ≡ measurement_reset_dir clock numbers addresses bytes measurement_manifest
            (b'a' ∷ [])
            next_identity
            used_tree)
    × ((e : SourceDir numbers addresses)
        → Interrupted clock numbers addresses bytes
            (apply_measurement_transition clock numbers addresses bytes measurement_manifest)
            measured
            e
        → ((recover_lineage_transition clock numbers addresses bytes e).result ≡ ok tt)
          × ((recover_lineage_transition clock numbers addresses bytes e).final
              ≡ measurement_reset_dir clock numbers addresses bytes measurement_manifest
                  (b'a' ∷ [])
                  next_identity
                  used_tree))
apply_measurement_transition-crash_example =
    apply_measurement_transition-crash clock numbers addresses bytes measurement_manifest
      (b'a' ∷ []) next_identity used_tree measured measurement_manifest-valid refl refl refl refl
      (λ h. cc (measured-resolved, h))
