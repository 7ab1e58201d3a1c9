-- ===== src/Commit/Manifest.antt =====
-- graph/manifest.rs: the manifest of a commit, its validation, and the gate of its recovery.
use ffhn.Base.{
  ℕ, ◌+◌, ◌-◌, ◌^◌, Bool, true, false, ◌&&◌, ◌||◌, not, Option, none, some, List, [], ◌∷◌, ◌++◌,
  any, all, length, min, same, list_eq, nat_eq, ◌==◌, if◌then◌else◌,
}
use ffhn.Base.Dict.{Dict, get, contains_key}
use ffhn.Base.Errors.{Text, CoreResult, contract, ok, ◌>>=◌, ◌>>◌, refuse_if, check_each}
use ffhn.Identity.{UuidLib, SourceIdentity, MeasurementIdentity, validate_instance_id}
use ffhn.Commit.Path.{slash, measurements_text, state_json, source_state_json}
use ffhn.Commit.Operation.{CommitOperation, install, remove, validate_operation}

pub data CommitCause : Type 0 where
  acquisition delivery_result : CommitCause

pub data CommitRecovery : Type 0 where
  apply unresolvable : CommitRecovery

-- "ffhn.commit_manifest".
abbrev pub commit_manifest_schema_name : Text
commit_manifest_schema_name =
    b'f' ∷ b'f' ∷ b'h' ∷ b'n' ∷ b'.' ∷ b'c' ∷ b'o' ∷ b'm' ∷ b'm' ∷ b'i' ∷ b't' ∷ b'_' ∷ b'm' ∷ b'a'
    ∷ b'n' ∷ b'i' ∷ b'f' ∷ b'e' ∷ b's' ∷ b't' ∷ []

pub record CommitManifest (lib : UuidLib) : Type 0 where
  pub schema_name : Text
  pub schema_version : ℕ
  pub source_id : Text
  pub source_instance_id : lib.Uuid
  pub generation : ℕ
  pub touched_measurement_instances : Dict lib.Uuid
  pub identity_measurement_additions : Dict lib.Uuid
  pub cause : CommitCause
  pub entries : List CommitOperation

abbrev pub is_delivery_result : CommitCause → Bool
is_delivery_result acquisition = false
is_delivery_result delivery_result = true

abbrev pub is_remove : CommitOperation → Bool
is_remove (install final staged prior result) = false
is_remove (remove final prior) = true

abbrev pub installs : Text → CommitOperation → Bool
installs path (install final staged prior result) = same final path
installs path (remove final prior) = false

-- `format!("measurements/{}/state.json", measurement_id)`.
abbrev pub measurement_state_path : Text → Text
measurement_state_path id = measurements_text ++ (slash ∷ (id ++ (slash ∷ state_json)))

-- The variables of the loop over the entries: `final_paths`, `staged_paths` and
-- `source_state_installs`.
pub record PathCheck : Type 0 where
  pub final_paths : List Text
  pub staged_paths : List Text
  pub source_state_installs : ℕ

abbrev pub path_check_start : PathCheck
path_check_start = record { final_paths = []; staged_paths = []; source_state_installs = 0 }

abbrev pub is_in : Text → List Text → Bool
is_in path paths = any (λ other. same path other) paths

unfoldable pub check_paths : PathCheck → List CommitOperation → CoreResult PathCheck
check_paths c [] = ok c
check_paths c (install final staged prior result ∷ entries) =
    refuse_if (is_in final c.final_paths || is_in staged c.staged_paths)
      (contract "commit manifest must not apply more than one operation to a final or staged path")
    >> check_paths
        (record {
          final_paths = final ∷ c.final_paths;
          staged_paths = staged ∷ c.staged_paths;
          source_state_installs =
              if same final source_state_json
              then c.source_state_installs + 1
              else c.source_state_installs;
        })
        entries
check_paths c (remove final prior ∷ entries) =
    refuse_if (is_in final c.final_paths)
      (contract "commit manifest must not apply more than one operation to a final or staged path")
    >> check_paths (record c { final_paths = final ∷ c.final_paths }) entries

-- One round of the last loop of `validate`.
abbrev pub validate_entry : CommitCause → CommitOperation → CoreResult (Unit {0})
validate_entry cause entry = do
  refuse_if (not (is_delivery_result cause) && is_remove entry)
      (contract "acquisition commit must not remove durable records")
  validate_operation entry

module _ (lib : UuidLib) where
  open lib use {Uuid, uuid_eq}

  abbrev pub is_current : CommitManifest lib → Bool
  is_current m =
      same m.schema_name commit_manifest_schema_name
      && (m.schema_version == 1)
      && not (m.generation == 0)
      && not (length m.entries == 0)

  -- `CommitManifest::validate`.
  unfoldable pub validate_manifest : CommitManifest lib → CoreResult (Unit {0})
  unfolding check_paths
  validate_manifest m = do
    refuse_if (not (is_current m))
        (contract "commit manifest is not a current nonempty FFHN commit manifest")
    validate_instance_id lib m.source_instance_id
    refuse_if
        (any (λ entry. contains_key entry.0 m.identity_measurement_additions)
          m.touched_measurement_instances)
        (contract "commit manifest touched and identity-addition measurement maps must be disjoint")
    refuse_if (is_delivery_result m.cause && not (length m.identity_measurement_additions == 0))
        (contract "delivery-result commit must not create measurement lineage")
    refuse_if
        (any (λ entry. not (any (installs (measurement_state_path entry.0)) m.entries))
          m.identity_measurement_additions)
        (contract "commit identity addition requires its measurement state install operation")
    c ← check_paths path_check_start m.entries
    refuse_if (not (c.source_state_installs == 1))
        (contract "every normal commit must install exactly one successor source-state document")
    check_each (λ entry. validate_instance_id lib entry.1) m.touched_measurement_instances
    check_each (λ entry. validate_instance_id lib entry.1) m.identity_measurement_additions
    check_each (validate_entry m.cause) m.entries

  -- The parts of a manifest, without its schema name and version, are the arguments.
  unfoldable pub new_manifest :
      Text
      → Uuid
      → ℕ
      → Dict Uuid
      → Dict Uuid
      → CommitCause
      → List CommitOperation
      → CoreResult (CommitManifest lib)
  new_manifest source_id source_instance_id generation touched additions cause entries = do
    let manifest : CommitManifest lib = record {
      schema_name = commit_manifest_schema_name;
      schema_version = 1;
      source_id = source_id;
      source_instance_id = source_instance_id;
      generation = generation;
      touched_measurement_instances = touched;
      identity_measurement_additions = additions;
      cause = cause;
      entries = entries;
    }
    validate_manifest manifest
    ok manifest

  -- The measurement is registered with this instance.
  abbrev pub known_as : Option (MeasurementIdentity lib) → Uuid → Bool
  known_as none id = false
  known_as (some known) id = uuid_eq.beq known.measurement_instance_id id

  -- The measurement is not registered, or with this instance.
  abbrev pub not_known_otherwise : Option (MeasurementIdentity lib) → Uuid → Bool
  not_known_otherwise none id = true
  not_known_otherwise (some known) id = uuid_eq.beq known.measurement_instance_id id

  unfoldable pub lineage_matches : CommitManifest lib → SourceIdentity lib → Bool
  lineage_matches m identity =
      uuid_eq.beq m.source_instance_id identity.source_instance_id
      && all (λ entry. known_as (get entry.0 identity.measurements) entry.1)
          m.touched_measurement_instances
      && all (λ entry. not_known_otherwise (get entry.0 identity.measurements) entry.1)
          m.identity_measurement_additions

  -- `current_generation.saturating_add(1)` of `u64`.
  abbrev pub saturating_next : ℕ → ℕ
  saturating_next n = min (n + 1) (2 ^ 64 - 1)

  unfoldable pub recover_against : CommitManifest lib → SourceIdentity lib → ℕ → CommitRecovery
  recover_against m identity current_generation =
      let generation_matches =
        m.generation == current_generation || m.generation == saturating_next current_generation in
      if lineage_matches m identity && generation_matches then apply else unresolvable
