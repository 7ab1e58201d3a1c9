-- ===== src/Lineage/Transition/Blind.antt =====
-- graph/transition.rs: the blind source transition, which reads nothing of the old lineage.
use ffhn.Base.{◌≡◌, ◌⊎◌, refl, ap, true, inl, inr, not, none, some, list_eq, nat_eq, arith}
use ffhn.Base.Errors.{Text, CoreResult, contract, ok, refuse_if, then_ok}
use ffhn.Stamps.{TimeLib}
use ffhn.Identity.{UuidLib, validate_source_identity, validate_instance_id, fresh_source_identity}
use ffhn.Policy.Types.{ValueLib}
use ffhn.State.Facts.{UrlLib}
use ffhn.Lineage.Manifest.{
  LineageScope, init, source_reset, measurement_reset, LineageManifest,
  lineage_manifest_schema_name, validate_manifest, new_manifest,
}
use ffhn.Lineage.Disk.{SourceDir, Program, lift, read, ◌>>=◌, ◌>>◌}
use ffhn.Lineage.Swap.{write_identity, write_lineage_manifest, remove_manifest, swap_source_storage}
use ffhn.Lineage.Transition.{
  is_source_scope, recover_lineage_transition, apply_blind_source_transition,
}
use ffhn.Lineage.Transition.Done.{Done, Done-then, lift-Done}
use ffhn.Lineage.Transition.SourceScope.{
  during, transitioned, IsPending, IsSourceManifest, swap-Done,
}
use ffhn.Lineage.Transition.Resolved.{established}
use ffhn.Lineage.Transition.Crash.{Recoverable, pending-Recoverable, Recoverable-Done}

module _ (uuids : UuidLib) where
  -- The manifest that the blind transition writes.
  abbrev pub blind_manifest : Text → uuids.Uuid → LineageScope → LineageManifest uuids
  blind_manifest source_id minted scope = record {
    schema_name = lineage_manifest_schema_name;
    schema_version = 1;
    source_id = source_id;
    scope = scope;
    from = none;
    target = fresh_source_identity uuids minted;
  }

  fresh_identity-valid :
      (minted : uuids.Uuid)
      → validate_instance_id uuids minted ≡ ok tt
      → validate_source_identity uuids (fresh_source_identity uuids minted) ≡ ok tt
  unfolding validate_source_identity
  fresh_identity-valid minted h = ground (arith, h)

  blind_manifest-valid :
      (source_id : Text) (minted : uuids.Uuid) (scope : LineageScope)
      → validate_instance_id uuids minted ≡ ok tt
      → is_source_scope scope ≡ true
      → validate_manifest uuids (blind_manifest source_id minted scope) ≡ ok tt
  unfolding validate_manifest
  blind_manifest-valid source_id minted init h kind = rw (fresh_identity-valid minted h) refl
  blind_manifest-valid source_id minted source_reset h kind =
      rw (fresh_identity-valid minted h) refl
  blind_manifest-valid source_id minted (measurement_reset id) h kind = absurd (cc (kind))

module _ (time : TimeLib) (uuids : UuidLib) (urls : UrlLib) (lib : ValueLib) where
  abbrev Source : Type 0
  Source = SourceDir uuids urls

  -- What a crash of the blind transition leaves: the old directory with the manifest beside it, or a
  -- directory from which the recovery returns with the result of the transition.
  unfoldable pub IsBlindCrash : Source → LineageManifest uuids → Source → Type 0
  IsBlindCrash d m e =
      (e ≡ record d { lineage_manifest = some m })
      ⊎ (((recover_lineage_transition time uuids urls lib e).result ≡ ok tt)
          × ((recover_lineage_transition time uuids urls lib e).final
              ≡ transitioned time uuids urls lib m))

  written-Done :
      (d : Source) (m : LineageManifest uuids)
      → validate_manifest uuids m ≡ ok tt
      → Done
          (IsBlindCrash d m)
          (write_lineage_manifest uuids urls m)
          d
          tt
          (record d { lineage_manifest = some m })
  unfolding write_lineage_manifest IsBlindCrash
  written-Done d m valid =
      Done-then (IsBlindCrash d m) (lift (validate_manifest uuids m)) _ {d = d}
        (lift-Done (IsBlindCrash d m) (validate_manifest uuids m) valid)
        (refl, refl, (inl refl, tt))

  -- From the identity on, every directory is recoverable.
  swapped-Done :
      (d : Source) (m : LineageManifest uuids)
      → m.source_id ≡ d.source_id
      → IsSourceManifest uuids m
      → Done
          (IsBlindCrash d m)
          (write_identity uuids urls m.target
            >> (swap_source_storage time uuids urls m.target >> remove_manifest uuids urls))
          (during uuids urls m d.identity d.storage d.tombstone)
          tt
          (transitioned time uuids urls lib m)
  unfolding write_identity remove_manifest IsPending IsBlindCrash Recoverable
  swapped-Done d m home h =
      let P = IsBlindCrash d m in
      let recovers : (e : Source) → Recoverable time uuids urls lib m e → P e = λ e known.
        let done = Recoverable-Done time uuids urls lib m e h known in inr (done.0, done.1) in
      let pending : IsPending time uuids urls lib m P = λ storage tombstone.
        recovers (during uuids urls m (some m.target) storage tombstone)
          (pending-Recoverable time uuids urls lib m h storage tombstone) in
      Done-then P (write_identity uuids urls m.target) _
        (Done-then P (lift (validate_source_identity uuids m.target)) _
          (lift-Done P (validate_source_identity uuids m.target) h.target_valid)
          (refl, refl, (pending d.storage d.tombstone, tt)))
        (Done-then P (swap_source_storage time uuids urls m.target) _
          (swap-Done time uuids urls lib m P d.storage d.tombstone pending h.instance_valid)
          (refl, refl, (recovers (transitioned time uuids urls lib m) (inr refl), tt)))

  -- Whatever the directory held, the blind transition of a valid minted instance returns, and leaves
  -- that identity with a fresh storage and nothing else. After each of its effects the directory is the
  -- old one with the manifest beside it, or one from which the recovery returns with that same result.
  pub apply_blind_source_transition-Done :
      (d : Source) (minted : uuids.Uuid) (scope : LineageScope)
      → validate_instance_id uuids minted ≡ ok tt
      → is_source_scope scope ≡ true
      → Done
          (IsBlindCrash d (blind_manifest uuids d.source_id minted scope))
          (apply_blind_source_transition time uuids urls lib minted scope)
          d
          tt
          (transitioned time uuids urls lib (blind_manifest uuids d.source_id minted scope))
  unfolding apply_blind_source_transition new_manifest
  apply_blind_source_transition-Done d minted scope minted_valid kind =
      let m = blind_manifest uuids d.source_id minted scope in
      let valid = blind_manifest-valid uuids d.source_id minted scope minted_valid kind in
      let scoped : CoreResult (Unit {0}) =
        refuse_if (not (is_source_scope scope))
          (contract "blind source transition requires init or source_reset scope") in
      let seen : scoped ≡ ok tt =
        ap
          (λ b.
            refuse_if (not b)
              (contract "blind source transition requires init or source_reset scope"))
          kind in
      let made : new_manifest uuids d.source_id scope none m.target ≡ ok m = then_ok _ valid refl in
      let finish : LineageManifest uuids → Program Source (Unit {0}) = λ x.
        write_lineage_manifest uuids urls x
        >> (write_identity uuids urls m.target
            >> (swap_source_storage time uuids urls m.target >> remove_manifest uuids urls)) in
      let make : Text → Program Source (Unit {0}) =
        λ source_id. lift (new_manifest uuids source_id scope none m.target) >>= finish in
      Done-then (IsBlindCrash d m) (lift scoped) (λ u. read (λ x. x.source_id) >>= make) {d = d}
        (lift-Done (IsBlindCrash d m) scoped seen)
        (Done-then (IsBlindCrash d m) (read (λ x. x.source_id)) make {d = d} (refl, refl, tt)
          (Done-then (IsBlindCrash d m) (lift (new_manifest uuids d.source_id scope none m.target))
            finish {d = d}
            (lift-Done (IsBlindCrash d m) (new_manifest uuids d.source_id scope none m.target) made)
            (Done-then (IsBlindCrash d m) (write_lineage_manifest uuids urls m)
              (λ u.
                write_identity uuids urls m.target
                >> (swap_source_storage time uuids urls m.target >> remove_manifest uuids urls))
              {d = d} (written-Done d m valid)
              (swapped-Done d m refl (established time uuids urls lib m valid kind)))))
