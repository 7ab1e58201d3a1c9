-- ===== src/Lineage/Transition/Crash.antt =====
-- graph/transition.rs: a source transition that is interrupted, and its recoveries that are interrupted,
-- are completed by a recovery.
use ffhn.Base.{
  ◌≡◌, ◌≢◌, ◌⊎◌, refl, sym, ap, subst, true, false, inl, inr, Option, some, List, [], ◌∷◌, All,
  list_eq, nat_eq,
}
use ffhn.Base.Errors.{CoreResult, contract, ok, refuse_if}
use ffhn.Stamps.{TimeLib}
use ffhn.Identity.{UuidLib, SourceIdentity}
use ffhn.Policy.Types.{ValueLib}
use ffhn.State.Facts.{UrlLib}
use ffhn.Lineage.Manifest.{
  unresolvable, LineageManifest, validate_manifest, recover_against, source_identity_eq,
}
use ffhn.Lineage.Disk.{Program, StorageTree, Tombstone, SourceDir, lift}
use ffhn.Lineage.Swap.{write_lineage_manifest}
use ffhn.Lineage.Transition.{
  is_source_scope, require_source_scope, recover_lineage_transition, is_blind,
  apply_source_transition,
}
use ffhn.Lineage.Transition.Done.{Done, Done-then, lift-Done}
use ffhn.Lineage.Transition.SourceScope.{
  during, transitioned, IsPending, IsSourceManifest, Resolvable, require-Done, recover-Done,
}
use ffhn.Lineage.Transition.Resolved.{established, resolvable, target-Resolvable}

unfoldable pub Member : {D : Type 0} → D → List D → Type 0
Member e [] = ⊥
Member e (x ∷ xs) = (e ≡ x) ⊎ Member e xs

All-member : {D : Type 0} (P : D → Type 0) (e : D) (xs : List D) → All P xs → Member e xs → P e
unfolding Member
All-member P e (x ∷ xs) (h, all) (inl one) = subst P (sym one) h
All-member P e (x ∷ xs) (h, all) (inr later) = All-member P e xs all later
All-member P e [] all found = absurd found

module _ (time : TimeLib) (uuids : UuidLib) (urls : UrlLib) (lib : ValueLib)
    (program : Program (SourceDir uuids urls) (Unit {0})) where
  -- The directories that a crash of the program can leave from `d` once it has an effect on the disk, and
  -- those that a crash of a recovery can leave then.
  pub data Interrupted (d : SourceDir uuids urls) : SourceDir uuids urls → Type 0 where
    in_transition : (e : SourceDir uuids urls) → Member e (program d).visited → Interrupted d e
    in_recovery :
        (e f : SourceDir uuids urls)
        → Interrupted d e
        → Member f (recover_lineage_transition time uuids urls lib e).visited
        → Interrupted d f

  -- What holds of the directories on the way of the program, and is kept by the recovery, holds of them
  -- all.
  pub Interrupted-All :
      (P : SourceDir uuids urls → Type 0) (d e : SourceDir uuids urls)
      → All P (program d).visited
      → ((f : SourceDir uuids urls)
          → P f
          → All P (recover_lineage_transition time uuids urls lib f).visited)
      → Interrupted d e
      → P e
  Interrupted-All P d e all kept (in_transition f found) =
      All-member P e (program d).visited all found
  Interrupted-All P d e all kept (in_recovery f g before found) =
      All-member P e (recover_lineage_transition time uuids urls lib f).visited
        (kept f (Interrupted-All P d f all kept before)) found

module _ (time : TimeLib) (uuids : UuidLib) (urls : UrlLib) (lib : ValueLib)
    (m : LineageManifest uuids) where
  -- The directory is pending with a resolvable identity, or the transition is over.
  unfoldable pub Recoverable : SourceDir uuids urls → Type 0
  Recoverable e =
      ((identity : Option (SourceIdentity uuids)) × (storage : Option (StorageTree uuids urls))
        × (tombstone : Option (Tombstone uuids urls)) × Resolvable uuids m identity
        × (e ≡ during uuids urls m identity storage tombstone))
      ⊎ (e ≡ transitioned time uuids urls lib m)

  pub pending-Recoverable : IsSourceManifest uuids m → IsPending time uuids urls lib m Recoverable
  unfolding Recoverable IsPending
  pending-Recoverable h storage tombstone = inl (
    some m.target,
    storage,
    tombstone,
    target-Resolvable time uuids urls lib m h.target_valid,
    refl,
  )

  pub Recoverable-Done :
      (e : SourceDir uuids urls)
      → IsSourceManifest uuids m
      → Recoverable e
      → Done Recoverable
          (recover_lineage_transition time uuids urls lib)
          e
          tt
          (transitioned time uuids urls lib m)
  unfolding Recoverable recover_lineage_transition
  Recoverable-Done e h (inl (identity, storage, tombstone, known, one)) =
      subst
        (λ x.
          Done Recoverable (recover_lineage_transition time uuids urls lib) x tt
            (transitioned time uuids urls lib m))
        (sym one)
        (recover-Done time uuids urls lib m Recoverable identity storage tombstone
          (pending-Recoverable h) (inr refl) h known)
  Recoverable-Done e h (inr one) =
      subst
        (λ x.
          Done Recoverable (recover_lineage_transition time uuids urls lib) x tt
            (transitioned time uuids urls lib m))
        (sym one) (refl, refl, tt)

  write-Done :
      (d : SourceDir uuids urls)
      → IsSourceManifest uuids m
      → Recoverable (record d { lineage_manifest = some m })
      → Done Recoverable
          (write_lineage_manifest uuids urls m)
          d
          tt
          (record d { lineage_manifest = some m })
  unfolding write_lineage_manifest
  write-Done d h begun =
      Done-then Recoverable (lift (validate_manifest uuids m)) _
        (lift-Done Recoverable (validate_manifest uuids m) h.is_valid) (refl, refl, (begun, tt))

  apply-Done :
      (d : SourceDir uuids urls)
      → IsSourceManifest uuids m
      → is_blind uuids m.scope m.from ≡ false
      → d.source_id ≡ m.source_id
      → recover_against uuids m d.identity ≢ unresolvable
      → Done Recoverable
          (apply_source_transition time uuids urls lib m)
          d
          tt
          (transitioned time uuids urls lib m)
  unfolding apply_source_transition Recoverable
  apply-Done d h sighted home known =
      let begun : Recoverable (record d { lineage_manifest = some m }) = inl (
        d.identity,
        d.storage,
        d.tombstone,
        resolvable time uuids urls lib m d.identity h.is_valid h.target_valid known,
        ap (λ s. record d { source_id = s; lineage_manifest = some m }) home,
      ) in
      let sight : CoreResult (Unit {0}) =
        refuse_if (is_blind uuids m.scope m.from) (
          contract "a source reset without readable prior authority must use blind source reset") in
      let seen : sight ≡ ok tt =
        ap
          (λ b. refuse_if b (
            contract "a source reset without readable prior authority must use blind source reset"))
          sighted in
      Done-then Recoverable (require_source_scope time uuids urls lib m) _ {d = d}
        (require-Done time uuids urls lib m Recoverable d home h)
        (Done-then Recoverable (lift sight) _ {d = d} (lift-Done Recoverable sight seen) (
          Done-then Recoverable (write_lineage_manifest uuids urls m) _ {d = d}
            (write-Done d h begun)
            (Recoverable-Done (record d { lineage_manifest = some m }) h begun)))

  Interrupted-Recoverable :
      (d e : SourceDir uuids urls)
      → IsSourceManifest uuids m
      → All Recoverable (apply_source_transition time uuids urls lib m d).visited
      → Interrupted time uuids urls lib (apply_source_transition time uuids urls lib m) d e
      → Recoverable e
  Interrupted-Recoverable d e h all reached =
      Interrupted-All time uuids urls lib (apply_source_transition time uuids urls lib m)
        Recoverable d e all (λ f known. (Recoverable-Done f h known).2) reached

  -- A source transition with a valid manifest of that scope, in the directory of the manifest's source,
  -- not blind, and against an identity that the manifest resolves, returns and leaves the target
  -- identity with a fresh storage and nothing else. From every directory that a crash can leave once the
  -- transition has had an effect, be it of the transition itself or of any number of recoveries after
  -- it, the recovery returns and leaves that same directory.
  pub apply_source_transition-crash :
      (d : SourceDir uuids urls)
      → validate_manifest uuids m ≡ ok tt
      → is_source_scope m.scope ≡ true
      → is_blind uuids m.scope m.from ≡ false
      → d.source_id ≡ m.source_id
      → recover_against uuids m d.identity ≢ unresolvable
      → ((apply_source_transition time uuids urls lib m d).result ≡ ok tt)
        × ((apply_source_transition time uuids urls lib m d).final
            ≡ transitioned time uuids urls lib m)
        × ((e : SourceDir uuids urls)
            → Interrupted time uuids urls lib (apply_source_transition time uuids urls lib m) d e
            → ((recover_lineage_transition time uuids urls lib e).result ≡ ok tt)
              × ((recover_lineage_transition time uuids urls lib e).final
                  ≡ transitioned time uuids urls lib m))
  apply_source_transition-crash d valid scope sighted home known =
      let h = established time uuids urls lib m valid scope in
      let done = apply-Done d h sighted home known in
      (
        done.0,
        done.1,
        λ e reached.
            let again = Recoverable-Done e h (Interrupted-Recoverable d e h done.2 reached) in
            (again.0, again.1),
      )
