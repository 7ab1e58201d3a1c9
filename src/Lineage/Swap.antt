-- ===== src/Lineage/Swap.antt =====
-- graph/storage.rs and graph/transition.rs: the durable effects of a lineage transition, and the swaps of
-- storage that they make up. What is written below `.ffhn` is written after that has been opened.
use ffhn.Base.{not, Option, none, some, [], ◌∷◌, same, list_eq, nat_eq, if◌then◌else◌}
use ffhn.Base.Errors.{Text, contract, contract_about, io, ok_or, refuse_if}
use ffhn.Base.Dict.{get}
use ffhn.Base.Texts.{is_some}
use ffhn.Stamps.{TimeLib}
use ffhn.Identity.{UuidLib, SourceIdentity, validate_source_identity}
use ffhn.Policy.Types.{ValueLib}
use ffhn.State.Facts.{UrlLib}
use ffhn.State.Document.{SourceState, fresh, validate_state}
use ffhn.Measurement.Document
use ffhn.Measurement.Document.{MeasurementState}
use ffhn.Lineage.Manifest.{LineageManifest, validate_manifest}
use ffhn.Lineage.Disk.{
  MeasurementTree, StorageTree, of_storage, of_measurement, SourceDir, Program, pure, lift, read,
  effect, ◌>>=◌, ◌>>◌,
}

-- "source storage root".
abbrev pub storage_root : Text
storage_root =
    b's' ∷ b'o' ∷ b'u' ∷ b'r' ∷ b'c' ∷ b'e' ∷ b' ' ∷ b's' ∷ b't' ∷ b'o' ∷ b'r' ∷ b'a' ∷ b'g' ∷ b'e'
    ∷ b' ' ∷ b'r' ∷ b'o' ∷ b'o' ∷ b't' ∷ []

module _ (uuids : UuidLib) where
  abbrev pub empty_measurement : MeasurementTree uuids
  empty_measurement = record { state = none; other_files = λ name. none }

module _ (uuids : UuidLib) (urls : UrlLib) where
  abbrev pub empty_storage : StorageTree uuids urls
  empty_storage = record { source_state = none; measurements = none; other_files = λ name. none }

  -- `write_identity` and `write_lineage_manifest`: a staged file that is renamed.
  unfoldable pub write_identity : SourceIdentity uuids → Program (SourceDir uuids urls) (Unit {0})
  write_identity identity = do
    lift (validate_source_identity uuids identity)
    effect (λ d. record d { identity = some identity })

  unfoldable pub write_lineage_manifest :
      LineageManifest uuids → Program (SourceDir uuids urls) (Unit {0})
  write_lineage_manifest m = do
    lift (validate_manifest uuids m)
    effect (λ d. record d { lineage_manifest = some m })

  -- `remove_regular_file` of the manifest.
  unfoldable pub remove_manifest : Program (SourceDir uuids urls) (Unit {0})
  remove_manifest = do
    present ← read (λ d. is_some d.lineage_manifest)
    lift (refuse_if (not present) io)
    effect (λ d. record d { lineage_manifest = none })

  -- `remove_tombstone`, of a directory or of nothing.
  unfoldable pub remove_tombstone : Program (SourceDir uuids urls) (Unit {0})
  remove_tombstone = effect (λ d. record d { tombstone = none })

  unfoldable pub create_storage : Program (SourceDir uuids urls) (Unit {0})
  create_storage = do
    present ← read (λ d. is_some d.storage)
    lift (
        refuse_if present
          (contract_about "{} already exists and cannot be created again" storage_root))
    effect (λ d. record d { storage = some empty_storage })

  abbrev pub with_source_state :
      Option (StorageTree uuids urls) → SourceState uuids urls → Option (StorageTree uuids urls)
  with_source_state none state = none
  with_source_state (some tree) state = some (record tree { source_state = some state })

  -- The rename of `.ffhn` to `.ffhn-tombstone`, where `.ffhn` is there.
  abbrev pub bury : Option (StorageTree uuids urls) → Program (SourceDir uuids urls) (Unit {0})
  bury none = pure tt
  bury (some tree) = effect (λ d. record d { storage = none; tombstone = some (of_storage tree) })

  -- `open_storage` and `open_or_create_real_child` of `measurements`.
  abbrev pub with_measurements : Option (StorageTree uuids urls) → Option (StorageTree uuids urls)
  with_measurements none = none
  with_measurements (some tree) = elim tree.measurements [
    | none ↦ some (record tree { measurements = some (λ id. none) })
    | some found ↦ some tree
  ]

  abbrev pub found_measurement :
      Option (StorageTree uuids urls) → Text → Option (MeasurementTree uuids)
  found_measurement none id = none
  found_measurement (some tree) id = elim tree.measurements [ none ↦ none | some found ↦ found id ]

  -- The directory below `measurements` replaced, or removed.
  abbrev pub put_measurement :
      Text
      → Option (MeasurementTree uuids)
      → Option (StorageTree uuids urls)
      → Option (StorageTree uuids urls)
  put_measurement id entry none = none
  put_measurement id entry (some tree) = elim tree.measurements [
    | none ↦ some tree
    | some found ↦ some (record tree {
      measurements = some (λ other. if same other id then entry else found other);
    })
  ]

  abbrev pub bury_measurement :
      Text → Option (MeasurementTree uuids) → Program (SourceDir uuids urls) (Unit {0})
  bury_measurement id none = pure tt
  bury_measurement id (some tree) = effect (λ d. record d {
    storage = put_measurement id none d.storage;
    tombstone = some (of_measurement tree);
  })

  -- `create_measurement_dir` opens the directory or creates an empty one.
  abbrev pub with_directory : Option (MeasurementTree uuids) → MeasurementTree uuids
  with_directory none = empty_measurement uuids
  with_directory (some tree) = tree

module _ (time : TimeLib) (uuids : UuidLib) (urls : UrlLib) where
  unfoldable pub write_source_state :
      SourceState uuids urls → Program (SourceDir uuids urls) (Unit {0})
  write_source_state state = do
    lift (validate_state time uuids urls state)
    effect (λ d. record d { storage = with_source_state uuids urls d.storage state })

  unfoldable pub swap_source_storage :
      SourceIdentity uuids → Program (SourceDir uuids urls) (Unit {0})
  unfolding remove_tombstone create_storage write_source_state
  swap_source_storage target = do
    remove_tombstone uuids urls
    old ← read (λ d. d.storage)
    bury uuids urls old
    create_storage uuids urls
    write_source_state (fresh time uuids urls target.source_instance_id)
    remove_tombstone uuids urls

module _ (time : TimeLib) (uuids : UuidLib) (urls : UrlLib) (lib : ValueLib) where
  unfoldable pub write_measurement_state :
      Text → MeasurementState uuids → Program (SourceDir uuids urls) (Unit {0})
  write_measurement_state id state = do
    lift (Document.validate_state time uuids lib state)
    effect (λ d. record d { storage = with_measurements uuids urls d.storage })
    tree ← read (λ d. with_directory uuids urls (found_measurement uuids urls d.storage id))
    effect (λ d. record d { storage = put_measurement uuids urls id (some tree) d.storage })
    effect (λ d. record d {
      storage = put_measurement uuids urls id (some (record tree { state = some state })) d.storage;
    })

  unfoldable pub swap_measurement_storage :
      SourceIdentity uuids → Text → Program (SourceDir uuids urls) (Unit {0})
  unfolding remove_tombstone write_measurement_state
  swap_measurement_storage target id = do
    measurement_identity ← lift (
        ok_or (get id target.measurements)
          (contract "measurement reset target lacks the measurement identity"))
    present ← read (λ d. is_some d.storage)
    lift (refuse_if (not present) io)
    effect (λ d. record d { storage = with_measurements uuids urls d.storage })
    remove_tombstone uuids urls
    old ← read (λ d. found_measurement uuids urls d.storage id)
    bury_measurement uuids urls id old
    write_measurement_state id (
        Document.fresh time uuids lib target.source_instance_id
          measurement_identity.measurement_instance_id)
    remove_tombstone uuids urls
