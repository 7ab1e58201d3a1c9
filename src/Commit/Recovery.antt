-- ===== src/Commit/Recovery.antt =====
-- graph/commit.rs: the commit of a source directory, and its recovery after a crash.
use ffhn.Base.{
  ℕ, Bool, true, false, not, ◌||◌, Option, none, some, [], ◌∷◌, same, list_eq, nat_eq, ◌==◌,
  if◌then◌else◌,
}
use ffhn.Base.Dict.{Dict, get}
use ffhn.Base.Errors.{Text, CoreResult, contract, ok, err, ◌>>=◌, ◌>>◌, refuse_if, ok_or}
use ffhn.Identity.{
  UuidLib, SourceIdentity, MeasurementIdentity, register_measurement_instance,
  validate_source_identity,
}
use ffhn.Commit.Path.{source_state_json}
use ffhn.Commit.Manifest.{
  CommitManifest, CommitRecovery, apply, unresolvable, recover_against, validate_manifest,
}
use ffhn.Commit.Store.{Node, regular, Storage, key_of, discard_uncommitted_staging}
use ffhn.Commit.Replay.{replay_commit_operations}

-- What the recovery reads of a decoded source state.
pub record StateHead (lib : UuidLib) : Type 0 where
  pub generation : ℕ
  pub source_instance_id : lib.Uuid

-- A source directory: the documents `.ffhn-identity.json` and `commit.manifest`, and the entries below
-- its storage directory.
pub record SourceDir (lib : UuidLib) : Type 0 where
  pub identity : Option (SourceIdentity lib)
  pub manifest : Option (CommitManifest lib)
  pub storage : Storage

abbrev pub is_apply : CommitRecovery → Bool
is_apply apply = true
is_apply unresolvable = false

-- `read_json_regular`, up to the decoding.
abbrev pub document_bytes : Option Node → CoreResult (Option Text)
document_bytes none = ok none
document_bytes (some (regular bytes)) = ok (some bytes)
document_bytes (some _) = err (contract "{role} must be a non-symlink regular file")

module _ (lib : UuidLib) where
  open lib use {Uuid, uuid_eq}

  abbrev pub add_known :
      Option (MeasurementIdentity lib)
      → SourceIdentity lib
      → Text
      → Uuid
      → CoreResult (SourceIdentity lib)
  add_known none identity id instance_id = register_measurement_instance lib identity id instance_id
  add_known (some known) identity id instance_id =
      if uuid_eq.beq known.measurement_instance_id instance_id
      then ok identity
      else err (contract "commit identity addition conflicts with existing measurement lineage")

  unfoldable pub apply_identity_additions :
      SourceIdentity lib → Dict Uuid → CoreResult (SourceIdentity lib)
  apply_identity_additions identity [] = ok identity
  apply_identity_additions identity ((id, instance_id) ∷ additions) = do
    next ← add_known (get id identity.measurements) identity id instance_id
    apply_identity_additions next additions

-- `decode` reads the document `source-state.json` (the crate `serde_json`).
module _ (lib : UuidLib) (sha256_hex : Text → Text)
    (decode : Text → CoreResult (StateHead lib)) where
  open lib use {Uuid, uuid_eq}

  abbrev pub decode_found : Option Text → CoreResult (Option (StateHead lib))
  decode_found none = ok none
  decode_found (some bytes) = decode bytes >>= λ state. ok (some state)

  unfoldable pub read_source_state : Storage → CoreResult (Option (StateHead lib))
  read_source_state s = do found ← document_bytes (s (key_of source_state_json)); decode_found found

  -- `recover_normal_commit` with a manifest, up to `write_identity` and with it.
  unfoldable pub authorise : SourceDir lib → CommitManifest lib → CoreResult (SourceIdentity lib)
  authorise dir m = do
    identity ← ok_or dir.identity (contract "normal commit requires a source identity")
    state ← read_source_state dir.storage
    current ← ok_or state (contract "normal commit requires source state")
    refuse_if (not (is_apply (recover_against lib m identity current.generation)))
        (contract "commit manifest does not match observed source lineage or generation")
    extended ← apply_identity_additions lib identity m.identity_measurement_additions
    validate_source_identity lib extended
    ok extended

  -- The check of the installed source state, after the replay.
  unfoldable pub require_installed : CommitManifest lib → Storage → CoreResult (Unit {0})
  require_installed m s = do
    state ← read_source_state s
    installed ← ok_or state (contract "commit removed source state")
    refuse_if
        (not (installed.generation == m.generation)
          || not (uuid_eq.beq installed.source_instance_id m.source_instance_id))
        (contract "commit operations did not install the manifest generation source state")

  unfoldable pub require_commit_source : Text → CommitManifest lib → CoreResult (Unit {0})
  require_commit_source source_id m =
      refuse_if (not (same m.source_id source_id))
        (contract "commit manifest source_id does not match the source directory")

  -- The recovery with a manifest; a manifest that is read is validated.
  unfoldable pub recover_with :
      Text → SourceDir lib → CommitManifest lib → CoreResult (SourceDir lib)
  recover_with source_id dir m = do
    validate_manifest lib m
    require_commit_source source_id m
    identity ← authorise dir m
    storage ← replay_commit_operations sha256_hex dir.storage m.entries
    require_installed m storage
    ok (record { identity = some identity; manifest = none; storage = storage })

  abbrev recover_by :
      Text → SourceDir lib → Option (CommitManifest lib) → CoreResult (SourceDir lib)
  recover_by source_id dir (some m) = recover_with source_id dir m
  recover_by source_id dir none = do
    storage ← discard_uncommitted_staging dir.storage
    ok (record dir { storage = storage })

  unfoldable pub recover_normal_commit : Text → SourceDir lib → CoreResult (SourceDir lib)
  recover_normal_commit source_id dir = recover_by source_id dir dir.manifest

  -- The commit point is the written manifest.
  unfoldable pub apply_normal_commit :
      Text → SourceDir lib → CommitManifest lib → CoreResult (SourceDir lib)
  apply_normal_commit source_id dir m = do
    require_commit_source source_id m
    validate_manifest lib m
    recover_normal_commit source_id (record dir { manifest = some m })
