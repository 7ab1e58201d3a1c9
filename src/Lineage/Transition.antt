-- ===== src/Lineage/Transition.antt =====
-- graph/transition.rs: the lineage transitions, whose effects are durable one by one.
pub mod Done
pub mod SourceScope
pub mod Resolved
pub mod Crash
pub mod Blind
pub mod MeasurementScope
pub mod MeasurementCrash
use ffhn.Base.{
  Bool, true, false, not, Option, none, some, [], ◌∷◌, ◌&&◌, same, list_eq, nat_eq, if◌then◌else◌,
}
use ffhn.Base.Errors.{
  Text, CoreError, CoreResult, contract, contract_about, json, io, ok, map_err, err, ok_or,
  refuse_if,
}
use ffhn.Base.Dict.{get}
use ffhn.Base.Texts.{is_some}
use ffhn.Stamps.{TimeLib}
use ffhn.Identity.{UuidLib, SourceIdentity, validate_source_identity, fresh_source_identity}
use ffhn.Policy.Types.{ValueLib}
use ffhn.State.Facts.{UrlLib}
use ffhn.State.Document.{SourceState, fresh, validate_state}
use ffhn.Measurement.Document
use ffhn.Measurement.Document.{MeasurementState}
use ffhn.Lineage.Manifest.{
  LineageScope, init, source_reset, measurement_reset, LineageRecovery, apply_target_identity,
  continue_scope_swap, unresolvable, LineageManifest, validate_manifest, new_manifest,
  recover_against,
}
use ffhn.Lineage.Disk.{
  MeasurementTree, StorageTree, Tombstone, of_storage, of_measurement, SourceDir, Program, pure,
  fail, lift, read, effect, ◌>>=◌, ◌>>◌,
}
use ffhn.Lineage.Swap.{
  write_identity, write_lineage_manifest, remove_manifest, swap_source_storage,
  swap_measurement_storage,
}

abbrev pub is_source_scope : LineageScope → Bool
is_source_scope init = true
is_source_scope source_reset = true
is_source_scope (measurement_reset id) = false

-- What the reader of a document refuses: `serde` validates it.
abbrev pub as_json : CoreResult (Unit {0}) → CoreResult (Unit {0})
as_json r = map_err (λ e. json) r

module _ (uuids : UuidLib) where
  abbrev pub is_blind : LineageScope → Option (SourceIdentity uuids) → Bool
  is_blind source_reset none = true
  is_blind _ _ = false

  abbrev pub checked_identity : Option (SourceIdentity uuids) → CoreResult (Unit {0})
  checked_identity none = ok tt
  checked_identity (some identity) = as_json (validate_source_identity uuids identity)

  abbrev pub checked_manifest : Option (LineageManifest uuids) → CoreResult (Unit {0})
  checked_manifest none = ok tt
  checked_manifest (some m) = as_json (validate_manifest uuids m)

module _ (time : TimeLib) (uuids : UuidLib) (urls : UrlLib) (lib : ValueLib) where
  abbrev pub Source : Type 0
  Source = SourceDir uuids urls

  abbrev pub Manifest : Type 0
  Manifest = LineageManifest uuids

  unfoldable pub require_source_scope : Manifest → Program Source (Unit {0})
  require_source_scope m = do
    source_id ← read (λ d. d.source_id)
    lift (
        refuse_if (not (same m.source_id source_id))
          (contract "lineage manifest source_id does not match the source directory"))
    lift (
        refuse_if (not (is_source_scope m.scope))
          (contract "source transition requires init or source_reset lineage scope"))

  unfoldable pub require_measurement_scope : Manifest → Program Source (Unit {0})
  require_measurement_scope m = do
    source_id ← read (λ d. d.source_id)
    lift (
        refuse_if (not (same m.source_id source_id))
          (contract "lineage manifest source_id does not match the source directory"))
    lift (
        refuse_if (is_source_scope m.scope)
          (contract "measurement transition requires measurement_reset lineage scope"))

  abbrev pub follow : Manifest → LineageRecovery → Program Source (Unit {0})
  follow m apply_target_identity = write_identity uuids urls m.target
  follow m continue_scope_swap = pure tt
  follow m unresolvable =
      fail (contract "lineage manifest does not match the observed source identity")

  unfoldable pub apply_manifest_authority : Manifest → Program Source (Unit {0})
  unfolding write_identity recover_against
  apply_manifest_authority m = do
    observed ← read (λ d. d.identity)
    lift (checked_identity uuids observed)
    follow m (recover_against uuids m observed)

  -- The `match` on the scope.
  abbrev pub swap_scope : Manifest → LineageScope → Program Source (Unit {0})
  swap_scope m init = require_source_scope m >> swap_source_storage time uuids urls m.target
  swap_scope m source_reset = require_source_scope m >> swap_source_storage time uuids urls m.target
  swap_scope m (measurement_reset id) =
      require_measurement_scope m >> swap_measurement_storage time uuids urls lib m.target id

  abbrev pub recover_manifest : Option Manifest → Program Source (Unit {0})
  recover_manifest none = pure tt
  recover_manifest (some m) =
      apply_manifest_authority m >> swap_scope m m.scope >> remove_manifest uuids urls

  -- `recover_lineage_transition`; the reader of the manifest validates it.
  unfoldable pub recover_lineage_transition : Program Source (Unit {0})
  unfolding apply_manifest_authority swap_source_storage swap_measurement_storage remove_manifest
      require_source_scope require_measurement_scope
  recover_lineage_transition = do
    pending ← read (λ d. d.lineage_manifest)
    lift (checked_manifest uuids pending)
    recover_manifest pending

  unfoldable pub apply_source_transition : Manifest → Program Source (Unit {0})
  unfolding write_lineage_manifest recover_lineage_transition
  apply_source_transition m = do
    require_source_scope m
    lift (
        refuse_if (is_blind uuids m.scope m.from)
          (contract "a source reset without readable prior authority must use blind source reset"))
    write_lineage_manifest uuids urls m
    recover_lineage_transition

  unfoldable pub apply_measurement_transition : Manifest → Program Source (Unit {0})
  unfolding write_lineage_manifest recover_lineage_transition
  apply_measurement_transition m = do
    require_measurement_scope m
    write_lineage_manifest uuids urls m
    recover_lineage_transition

  -- `apply_blind_source_transition`; the minted source instance is an argument.
  unfoldable pub apply_blind_source_transition :
      uuids.Uuid → LineageScope → Program Source (Unit {0})
  unfolding write_lineage_manifest write_identity swap_source_storage remove_manifest
  apply_blind_source_transition minted scope = do
    lift (
        refuse_if (not (is_source_scope scope))
          (contract "blind source transition requires init or source_reset scope"))
    let target = fresh_source_identity uuids minted
    source_id ← read (λ d. d.source_id)
    m ← lift (new_manifest uuids source_id scope none target)
    write_lineage_manifest uuids urls m
    write_identity uuids urls target
    swap_source_storage time uuids urls target
    remove_manifest uuids urls
