-- ===== src/Lineage/Transition/SourceScope.antt =====
-- graph/transition.rs: a source transition that stops anywhere is completed by its recovery.
use ffhn.Base.{
  ◌≡◌, ◌⊎◌, refl, sym, ap, true, inl, inr, Option, none, some, same, list_eq, nat_eq, same_list_iff,
  arith,
}
use ffhn.Base.Errors.{json, ok, map_err}
use ffhn.Stamps.{TimeLib}
use ffhn.Identity.{UuidLib, SourceIdentity, validate_source_identity, validate_instance_id}
use ffhn.Policy.Types.{ValueLib}
use ffhn.State.Facts.{UrlLib}
use ffhn.State.Document.{SourceState, fresh, validate_state}
use ffhn.Health.Source.{validate_source}
use ffhn.Lineage.Manifest.{
  LineageScope, init, source_reset, measurement_reset, LineageRecovery, apply_target_identity,
  continue_scope_swap, unresolvable, LineageManifest, validate_manifest, recover_against,
  source_identity_eq,
}
use ffhn.Lineage.Disk.{StorageTree, Tombstone, of_storage, SourceDir, lift, ◌>>◌}
use ffhn.Lineage.Swap.{
  write_identity, remove_manifest, remove_tombstone, empty_storage, create_storage,
  write_source_state, swap_source_storage,
}
use ffhn.Lineage.Transition.{
  is_source_scope, require_source_scope, follow, checked_identity, apply_manifest_authority,
  swap_scope, checked_manifest, recover_lineage_transition,
}
use ffhn.Lineage.Transition.Done.{Done, Done-then, lift-Done}

module _ (uuids : UuidLib) (urls : UrlLib) (m : LineageManifest uuids) where
  -- The directory of the manifest's source while the transition is pending.
  abbrev pub during :
      Option (SourceIdentity uuids)
      → Option (StorageTree uuids urls)
      → Option (Tombstone uuids urls)
      → SourceDir uuids urls
  during identity storage tombstone = record {
    source_id = m.source_id;
    lineage_manifest = some m;
    identity = identity;
    storage = storage;
    tombstone = tombstone;
  }

module _ (uuids : UuidLib) (m : LineageManifest uuids) where
  -- What the checks of the manifest and of its scope have established.
  pub record IsSourceManifest : Type 0 where
    pub is_valid : validate_manifest uuids m ≡ ok tt
    pub target_valid : validate_source_identity uuids m.target ≡ ok tt
    pub instance_valid : validate_instance_id uuids m.target.source_instance_id ≡ ok tt
    pub source_scope : is_source_scope m.scope ≡ true

  -- The identity on the disk is the prior or the target one, or is missing at initialization; the
  -- reader accepts it.
  unfoldable pub Resolvable : Option (SourceIdentity uuids) → Type 0
  Resolvable identity =
      (checked_identity uuids identity ≡ ok tt)
      × ((recover_against uuids m identity ≡ apply_target_identity)
          ⊎ ((recover_against uuids m identity ≡ continue_scope_swap) × (identity ≡ some m.target)))

module _ (time : TimeLib) (uuids : UuidLib) (urls : UrlLib) (lib : ValueLib)
    (m : LineageManifest uuids) where
  abbrev fresh_state : SourceState uuids urls
  fresh_state = fresh time uuids urls m.target.source_instance_id

  abbrev fresh_storage : StorageTree uuids urls
  fresh_storage = record (empty_storage uuids urls) { source_state = some fresh_state }

  -- The directory after the transition: the target identity and a fresh storage, and nothing else.
  abbrev pub transitioned : SourceDir uuids urls
  transitioned = record {
    source_id = m.source_id;
    lineage_manifest = none;
    identity = some m.target;
    storage = some fresh_storage;
    tombstone = none;
  }

  fresh-valid :
      (id : uuids.Uuid)
      → validate_instance_id uuids id ≡ ok tt
      → validate_state time uuids urls (fresh time uuids urls id) ≡ ok tt
  unfolding validate_state fresh validate_source
  fresh-valid id h = ground (arith, h)

  unfoldable pub IsPending : (SourceDir uuids urls → Type 0) → Type 0
  IsPending P =
      (storage : Option (StorageTree uuids urls)) (tombstone : Option (Tombstone uuids urls))
      → P (during uuids urls m (some m.target) storage tombstone)

  written-Done :
      (P : SourceDir uuids urls → Type 0) (tombstone : Option (Tombstone uuids urls))
      → IsPending P
      → validate_instance_id uuids m.target.source_instance_id ≡ ok tt
      → Done P
          (write_source_state time uuids urls fresh_state >> remove_tombstone uuids urls)
          (during uuids urls m (some m.target) (some (empty_storage uuids urls)) tombstone)
          tt
          (during uuids urls m (some m.target) (some fresh_storage) none)
  unfolding write_source_state remove_tombstone IsPending
  written-Done P tombstone pending valid =
      Done-then P (write_source_state time uuids urls fresh_state) _
        (Done-then P (lift (validate_state time uuids urls fresh_state)) _
          (lift-Done P (validate_state time uuids urls fresh_state)
            (fresh-valid m.target.source_instance_id valid))
          (refl, refl, (pending (some fresh_storage) tombstone, tt)))
        (refl, refl, (pending (some fresh_storage) none, tt))

  -- The swap of the storage completes from every pending directory with the target identity.
  pub swap-Done :
      (P : SourceDir uuids urls → Type 0) (storage : Option (StorageTree uuids urls))
      (tombstone : Option (Tombstone uuids urls))
      → IsPending P
      → validate_instance_id uuids m.target.source_instance_id ≡ ok tt
      → Done P
          (swap_source_storage time uuids urls m.target)
          (during uuids urls m (some m.target) storage tombstone)
          tt
          (during uuids urls m (some m.target) (some fresh_storage) none)
  unfolding swap_source_storage remove_tombstone create_storage IsPending
  swap-Done P none tombstone pending valid =
      let (a, b, c) = written-Done P none pending valid in
      (a, b, (pending none none, (pending (some (empty_storage uuids urls)) none, c)))
  swap-Done P (some tree) tombstone pending valid =
      let (a, b, c) = written-Done P (some (of_storage tree)) pending valid in
      (
        a,
        b,
        (
          pending (some tree) none,
          (
            pending none (some (of_storage tree)),
            (pending (some (empty_storage uuids urls)) (some (of_storage tree)), c),
          ),
        ),
      )

  pub require-Done :
      (P : SourceDir uuids urls → Type 0) (d : SourceDir uuids urls)
      → d.source_id ≡ m.source_id
      → IsSourceManifest uuids m
      → Done P (require_source_scope time uuids urls lib m) d tt d
  unfolding require_source_scope
  require-Done P d home h =
      let itself : same m.source_id d.source_id ≡ true =
        (same_list_iff m.source_id d.source_id).1 (sym home) in
      rw (itself, h.source_scope) (refl, refl, tt)

  scope-Done :
      (P : SourceDir uuids urls → Type 0) (scope : LineageScope)
      (storage : Option (StorageTree uuids urls)) (tombstone : Option (Tombstone uuids urls))
      → IsPending P
      → IsSourceManifest uuids m
      → is_source_scope scope ≡ true
      → Done P
          (swap_scope time uuids urls lib m scope)
          (during uuids urls m (some m.target) storage tombstone)
          tt
          (during uuids urls m (some m.target) (some fresh_storage) none)
  scope-Done P init storage tombstone pending h kind =
      Done-then P (require_source_scope time uuids urls lib m) _
        (require-Done P (during uuids urls m (some m.target) storage tombstone) refl h)
        (swap-Done P storage tombstone pending h.instance_valid)
  scope-Done P source_reset storage tombstone pending h kind =
      Done-then P (require_source_scope time uuids urls lib m) _
        (require-Done P (during uuids urls m (some m.target) storage tombstone) refl h)
        (swap-Done P storage tombstone pending h.instance_valid)
  scope-Done P (measurement_reset id) storage tombstone pending h kind = absurd (cc (kind))

  pub follow-Done :
      (P : SourceDir uuids urls → Type 0) (recovery : LineageRecovery)
      (identity : Option (SourceIdentity uuids)) (storage : Option (StorageTree uuids urls))
      (tombstone : Option (Tombstone uuids urls))
      → P (during uuids urls m (some m.target) storage tombstone)
      → validate_source_identity uuids m.target ≡ ok tt
      → (recovery ≡ apply_target_identity)
        ⊎ ((recovery ≡ continue_scope_swap) × (identity ≡ some m.target))
      → Done P
          (follow time uuids urls lib m recovery)
          (during uuids urls m identity storage tombstone)
          tt
          (during uuids urls m (some m.target) storage tombstone)
  unfolding write_identity
  follow-Done P apply_target_identity identity storage tombstone pending valid cases =
      Done-then P (lift (validate_source_identity uuids m.target)) _
        (lift-Done P (validate_source_identity uuids m.target) valid) (refl, refl, (pending, tt))
  follow-Done P continue_scope_swap identity storage tombstone pending valid (inr (_, e)) =
      (refl, ap (λ i. during uuids urls m i storage tombstone) e, tt)
  follow-Done P continue_scope_swap identity storage tombstone pending valid (inl e) =
      absurd (cc (e))
  follow-Done P unresolvable identity storage tombstone pending valid (inl e) = absurd (cc (e))
  follow-Done P unresolvable identity storage tombstone pending valid (inr (e, _)) = absurd (cc (e))

  -- The recovery completes from every pending directory.
  pub recover-Done :
      (P : SourceDir uuids urls → Type 0) (identity : Option (SourceIdentity uuids))
      (storage : Option (StorageTree uuids urls)) (tombstone : Option (Tombstone uuids urls))
      → IsPending P
      → P transitioned
      → IsSourceManifest uuids m
      → Resolvable uuids m identity
      → Done P
          (recover_lineage_transition time uuids urls lib)
          (during uuids urls m identity storage tombstone)
          tt
          transitioned
  unfolding recover_lineage_transition apply_manifest_authority remove_manifest Resolvable IsPending
  recover-Done P identity storage tombstone pending end h (read_ok, cases) =
      Done-then P (lift (checked_manifest uuids (some m))) _
        (lift-Done P (checked_manifest uuids (some m)) (ap (map_err (λ e. json)) h.is_valid))
        (Done-then P
          (apply_manifest_authority time uuids urls lib m
            >> swap_scope time uuids urls lib m m.scope)
          _
          (Done-then P (apply_manifest_authority time uuids urls lib m) _
            (Done-then P (lift (checked_identity uuids identity)) _
              (lift-Done P (checked_identity uuids identity) read_ok)
              (follow-Done P (recover_against uuids m identity) identity storage tombstone
                (pending storage tombstone) h.target_valid cases))
            (scope-Done P m.scope storage tombstone pending h h.source_scope))
          (refl, refl, (end, tt)))
