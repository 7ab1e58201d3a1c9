-- ===== src/Lineage/Transition/MeasurementCrash.antt =====
-- graph/transition.rs: a measurement transition that is interrupted is completed by its recovery, and
-- changes no sibling.
use ffhn.Base.{
  ◌≡◌, ◌≢◌, ◌⊎◌, refl, sym, ap, subst, true, Bool-cases, inl, inr, not, Option, none, some, [], ◌∷◌,
  same, list_eq, nat_eq, same_list_iff, arith, ◌||◌, ◌==◌,
}
use mathlib.Core.Path.{ap₂}
use ffhn.Base.Errors.{Text, contract, json, ok, refuse_if, map_err, check_each, >>=-eq-ok}
use ffhn.Base.Dict.{Dict, get}
use ffhn.Stamps.{TimeLib}
use ffhn.Identity.{
  UuidLib, MeasurementIdentity, SourceIdentity, validate_instance_id, validate_measurement_identity,
  validate_source_identity, source_identity_schema_name,
}
use ffhn.Policy.Types.{ValueLib}
use ffhn.State.Facts.{UrlLib}
use ffhn.Lineage.Manifest.{
  measurement_reset, unresolvable, LineageManifest, lineage_manifest_schema_name, validate_manifest,
  recover_against,
}
use ffhn.Lineage.Disk.{StorageTree, Tombstone, SourceDir, lift, ◌>>◌}
use ffhn.Lineage.Swap.{write_lineage_manifest, remove_manifest}
use ffhn.Lineage.Transition.{
  checked_identity, checked_manifest, require_measurement_scope, apply_manifest_authority,
  swap_scope, recover_lineage_transition, apply_measurement_transition,
}
use ffhn.Lineage.Transition.Done.{Done, Done-then, lift-Done}
use ffhn.Lineage.Transition.SourceScope.{during, Resolvable, follow-Done}
use ffhn.Lineage.Transition.Resolved.{resolvable, target-Resolvable}
use ffhn.Lineage.Transition.Crash.{Interrupted, Interrupted-All}
use ffhn.Lineage.Transition.MeasurementScope.{
  Subtrees, storage_of, pending_with, HasSiblings, reset_subtrees, IsPending, swap-Done,
}

known-valid :
    (uuids : UuidLib) (entries : Dict (MeasurementIdentity uuids)) (id : Text)
    {found : MeasurementIdentity uuids}
    → check_each (λ entry. validate_measurement_identity uuids entry.1) entries ≡ ok tt
    → get id entries ≡ some found
    → validate_instance_id uuids found.measurement_instance_id ≡ ok tt
unfolding validate_measurement_identity
known-valid uuids [] id h known = absurd (cc (known))
known-valid uuids ((j, entry) ∷ rest) id {found} h known =
    let (_, e, h₁) = >>=-eq-ok (validate_measurement_identity uuids entry) _ h in
    elim (Bool-cases (same j id)) [
      | inl f ↦
          let one : entry ≡ found = ground (arith, f, known) in
          subst (λ x. validate_instance_id uuids x.measurement_instance_id ≡ ok tt) one e
      | inr f ↦ known-valid uuids rest id {found = found} h₁ (ground (arith, f, known))
    ]

module _ (time : TimeLib) (uuids : UuidLib) (urls : UrlLib) (lib : ValueLib)
    (m : LineageManifest uuids) (id : Text) (minted : MeasurementIdentity uuids)
    (tree : StorageTree uuids urls) where
  -- The directory after the transition: the target identity, and the storage with a fresh state of the
  -- measurement beside its siblings.
  abbrev pub measurement_reset_dir : SourceDir uuids urls
  measurement_reset_dir = record {
    source_id = m.source_id;
    lineage_manifest = none;
    identity = some m.target;
    storage =
        some (storage_of uuids urls tree (reset_subtrees time uuids urls lib m id minted tree));
    tombstone = none;
  }

  -- What the checks of the manifest have established.
  record IsResetManifest : Type 0 where
    is_valid : validate_manifest uuids m ≡ ok tt
    reset_scope : m.scope ≡ measurement_reset id
    reset_known : get id m.target.measurements ≡ some minted
    target_valid : validate_source_identity uuids m.target ≡ ok tt
    instance_valid : validate_instance_id uuids m.target.source_instance_id ≡ ok tt
    minted_valid : validate_instance_id uuids minted.measurement_instance_id ≡ ok tt

  -- The directory is pending with a resolvable identity and all siblings, or the transition is over.
  Recoverable : SourceDir uuids urls → Type 0
  Recoverable e =
      ((identity : Option (SourceIdentity uuids)) × (measurements : Subtrees uuids)
        × (tombstone : Option (Tombstone uuids urls)) × Resolvable uuids m identity
        × HasSiblings uuids urls id tree measurements
        × (e
            ≡ during uuids urls m identity (some (storage_of uuids urls tree measurements))
                tombstone))
      ⊎ (e ≡ measurement_reset_dir)

  pending-Recoverable : IsResetManifest → IsPending time uuids urls lib m id minted tree Recoverable
  unfolding Recoverable IsPending
  pending-Recoverable h measurements tombstone siblings = inl (
    some m.target,
    measurements,
    tombstone,
    target-Resolvable time uuids urls lib m h.target_valid,
    siblings,
    refl,
  )

  require-Done :
      (d : SourceDir uuids urls)
      → d.source_id ≡ m.source_id
      → IsResetManifest
      → Done Recoverable (require_measurement_scope time uuids urls lib m) d tt d
  unfolding require_measurement_scope
  require-Done d home h =
      let itself : same m.source_id d.source_id ≡ true =
        (same_list_iff m.source_id d.source_id).1 (sym home) in
      rw (itself, h.reset_scope) (refl, refl, tt)

  swap_scope-Done :
      (measurements : Subtrees uuids) (tombstone : Option (Tombstone uuids urls))
      → IsResetManifest
      → HasSiblings uuids urls id tree measurements
      → Done Recoverable
          (swap_scope time uuids urls lib m (measurement_reset id))
          (pending_with time uuids urls lib m id minted tree measurements tombstone)
          tt
          (pending_with time uuids urls lib m id minted tree
            (reset_subtrees time uuids urls lib m id minted tree)
            none)
  swap_scope-Done measurements tombstone h siblings =
      Done-then Recoverable (require_measurement_scope time uuids urls lib m) _
        {d = pending_with time uuids urls lib m id minted tree measurements tombstone}
        (require-Done (pending_with time uuids urls lib m id minted tree measurements tombstone)
          refl h)
        (swap-Done time uuids urls lib m id minted tree Recoverable measurements tombstone
          (pending-Recoverable h) h.reset_known h.instance_valid h.minted_valid siblings)

  recover-Done :
      (identity : Option (SourceIdentity uuids)) (measurements : Subtrees uuids)
      (tombstone : Option (Tombstone uuids urls))
      → IsResetManifest
      → Resolvable uuids m identity
      → HasSiblings uuids urls id tree measurements
      → Done Recoverable
          (recover_lineage_transition time uuids urls lib)
          (during uuids urls m identity (some (storage_of uuids urls tree measurements)) tombstone)
          tt
          measurement_reset_dir
  unfolding recover_lineage_transition apply_manifest_authority remove_manifest Resolvable
      Recoverable IsPending
  recover-Done identity measurements tombstone h (read_ok, cases) siblings =
      let storage = some (storage_of uuids urls tree measurements) in
      let pending = pending-Recoverable h measurements tombstone siblings in
      let swapped =
        subst
          (λ scope.
            Done Recoverable (swap_scope time uuids urls lib m scope)
              (pending_with time uuids urls lib m id minted tree measurements tombstone) tt
              (pending_with time uuids urls lib m id minted tree
                (reset_subtrees time uuids urls lib m id minted tree) none))
          (sym h.reset_scope) (swap_scope-Done measurements tombstone h siblings) in
      Done-then Recoverable (lift (checked_manifest uuids (some m))) _
        (lift-Done Recoverable (checked_manifest uuids (some m))
          (ap (map_err (λ e. json)) h.is_valid))
        (Done-then Recoverable
          (apply_manifest_authority time uuids urls lib m
            >> swap_scope time uuids urls lib m m.scope)
          _
          (Done-then Recoverable (apply_manifest_authority time uuids urls lib m) _
            (Done-then Recoverable (lift (checked_identity uuids identity)) _
              (lift-Done Recoverable (checked_identity uuids identity) read_ok)
              (follow-Done time uuids urls lib m Recoverable (recover_against uuids m identity)
                identity storage tombstone pending h.target_valid cases))
            swapped)
          (refl, refl, (inr refl, tt)))

  Recoverable-Done :
      (e : SourceDir uuids urls)
      → IsResetManifest
      → Recoverable e
      → Done Recoverable (recover_lineage_transition time uuids urls lib) e tt measurement_reset_dir
  unfolding Recoverable recover_lineage_transition
  Recoverable-Done e h (inl (identity, measurements, tombstone, known, siblings, one)) =
      subst
        (λ x.
          Done Recoverable (recover_lineage_transition time uuids urls lib) x tt
            measurement_reset_dir)
        (sym one) (recover-Done identity measurements tombstone h known siblings)
  Recoverable-Done e h (inr one) =
      subst
        (λ x.
          Done Recoverable (recover_lineage_transition time uuids urls lib) x tt
            measurement_reset_dir)
        (sym one) (refl, refl, tt)

  established :
      validate_manifest uuids m ≡ ok tt
      → m.scope ≡ measurement_reset id
      → get id m.target.measurements ≡ some minted
      → IsResetManifest
  unfolding validate_manifest validate_source_identity
  established h scope known =
      let (_, _, h₁) =
        >>=-eq-ok
          (refuse_if
            (not (same m.schema_name lineage_manifest_schema_name) || not (m.schema_version == 1))
            (contract "lineage manifest is not a current FFHN lineage manifest"))
          _ h in
      let (_, target, _) = >>=-eq-ok (validate_source_identity uuids m.target) _ h₁ in
      let (_, _, h₂) =
        >>=-eq-ok
          (refuse_if
            (not (same m.target.schema_name source_identity_schema_name)
              || not (m.target.schema_version == 1))
            (contract "source identity is not a current FFHN source identity"))
          _ target in
      let (_, instance_id, h₃) =
        >>=-eq-ok (validate_instance_id uuids m.target.source_instance_id) _ h₂ in
      record {
        is_valid = h;
        reset_scope = scope;
        reset_known = known;
        target_valid = target;
        instance_valid = instance_id;
        minted_valid = known-valid uuids m.target.measurements id h₃ known;
      }

  apply-Done :
      (d : SourceDir uuids urls)
      → IsResetManifest
      → d.source_id ≡ m.source_id
      → d.storage ≡ some tree
      → recover_against uuids m d.identity ≢ unresolvable
      → Done Recoverable
          (apply_measurement_transition time uuids urls lib m)
          d
          tt
          measurement_reset_dir
  unfolding apply_measurement_transition write_lineage_manifest Recoverable HasSiblings
  apply-Done d h home opened known =
      let begun : Recoverable (record d { lineage_manifest = some m }) = inl (
        d.identity,
        tree.measurements,
        d.tombstone,
        resolvable time uuids urls lib m d.identity h.is_valid h.target_valid known,
        λ j sibling. refl,
        ap₂ (λ s t. record d { source_id = s; storage = t; lineage_manifest = some m }) home opened,
      ) in
      Done-then Recoverable (require_measurement_scope time uuids urls lib m) _ {d = d}
        (require-Done d home h)
        (Done-then Recoverable (write_lineage_manifest uuids urls m) _ {d = d}
          (Done-then Recoverable (lift (validate_manifest uuids m)) _ {d = d}
            (lift-Done Recoverable (validate_manifest uuids m) h.is_valid)
            (refl, refl, (begun, tt)))
          (Recoverable-Done (record d { lineage_manifest = some m }) h begun))

  -- A measurement transition with a valid manifest that gives the reset measurement a target identity,
  -- in the directory of the manifest's source, with its storage there, and against an identity that the
  -- manifest resolves, returns and leaves the target identity, a fresh state of the measurement, and
  -- all else of the storage as it was. From every directory that a crash can leave once the transition
  -- has had an effect, be it of the transition itself or of any number of recoveries after it, the
  -- recovery returns and leaves that same directory.
  pub apply_measurement_transition-crash :
      (d : SourceDir uuids urls)
      → validate_manifest uuids m ≡ ok tt
      → m.scope ≡ measurement_reset id
      → get id m.target.measurements ≡ some minted
      → d.source_id ≡ m.source_id
      → d.storage ≡ some tree
      → recover_against uuids m d.identity ≢ unresolvable
      → ((apply_measurement_transition time uuids urls lib m d).result ≡ ok tt)
        × ((apply_measurement_transition time uuids urls lib m d).final ≡ measurement_reset_dir)
        × ((e : SourceDir uuids urls)
            → Interrupted time uuids urls lib
                (apply_measurement_transition time uuids urls lib m)
                d
                e
            → ((recover_lineage_transition time uuids urls lib e).result ≡ ok tt)
              × ((recover_lineage_transition time uuids urls lib e).final ≡ measurement_reset_dir))
  apply_measurement_transition-crash d valid scope fresh_id home opened known =
      let h = established valid scope fresh_id in
      let done = apply-Done d h home opened known in
      (
        done.0,
        done.1,
        λ e reached.
            let again = Recoverable-Done e h (
              Interrupted-All time uuids urls lib
                (apply_measurement_transition time uuids urls lib m) Recoverable d e done.2
                (λ f before. (Recoverable-Done f h before).2) reached) in
            (again.0, again.1),
      )
