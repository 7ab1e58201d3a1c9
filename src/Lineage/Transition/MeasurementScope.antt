-- ===== src/Lineage/Transition/MeasurementScope.antt =====
-- graph/transition.rs: the swap of the storage of one measurement.
use ffhn.Base.{
  ◌≡◌, refl, ap, true, false, Bool-cases, inl, inr, Option, none, some, same, list_eq, nat_eq,
  same_list_iff, arith, if◌then◌else◌, when_true,
}
use ffhn.Base.Errors.{Text, ok}
use ffhn.Base.Dict.{get}
use ffhn.Stamps.{TimeLib}
use ffhn.Identity.{UuidLib, MeasurementIdentity, validate_instance_id}
use ffhn.Health.{validate_extraction}
use ffhn.Policy.Types.{ValueLib}
use ffhn.State.Facts.{UrlLib}
use ffhn.Measurement.Document.{MeasurementState, fresh, validate_state}
use ffhn.Lineage.Manifest.{LineageManifest}
use ffhn.Lineage.Disk.{MeasurementTree, StorageTree, Tombstone, of_measurement, SourceDir, ◌>>◌}
use ffhn.Lineage.Swap.{
  empty_measurement, remove_tombstone, bury_measurement, write_measurement_state,
  swap_measurement_storage,
}
use ffhn.Lineage.Transition.Done.{Done}
use ffhn.Lineage.Transition.SourceScope.{during}

-- What a directory `measurements` holds, if it is there.
abbrev pub held : {T : Type 0} → Option (Text → Option T) → Text → Option T
held none j = none
held (some found) j = found j

-- The directory `measurements` of a storage, if it is there.
abbrev pub Subtrees : UuidLib → Type 0
Subtrees uuids = Option (Text → Option (MeasurementTree uuids))

module _ (uuids : UuidLib) (urls : UrlLib) (tree : StorageTree uuids urls) where
  -- The storage with other measurements.
  abbrev pub storage_of : Subtrees uuids → StorageTree uuids urls
  storage_of measurements = record tree { measurements = measurements }

module _ (uuids : UuidLib) (urls : UrlLib) (id : Text) (tree : StorageTree uuids urls) where
  -- The siblings of the reset measurement are those of the storage.
  unfoldable pub HasSiblings : Subtrees uuids → Type 0
  HasSiblings measurements =
      (j : Text) → same j id ≡ false → held measurements j ≡ held tree.measurements j

-- The manifest, the reset measurement with its target identity, and what the storage holds besides
-- that measurement.
module _ (time : TimeLib) (uuids : UuidLib) (urls : UrlLib) (lib : ValueLib)
    (m : LineageManifest uuids) (id : Text) (minted : MeasurementIdentity uuids)
    (tree : StorageTree uuids urls) where
  -- The directory with those measurements while the transition to the target identity is pending.
  abbrev pub pending_with : Subtrees uuids → Option (Tombstone uuids urls) → SourceDir uuids urls
  pending_with measurements tombstone =
      during uuids urls m (some m.target) (some (storage_of uuids urls tree measurements)) tombstone

  abbrev fresh_state : MeasurementState uuids
  fresh_state = fresh time uuids lib m.target.source_instance_id minted.measurement_instance_id

  abbrev fresh_tree : MeasurementTree uuids
  fresh_tree = record (empty_measurement uuids) { state = some fresh_state }

  -- The measurements after the reset: a fresh one beside its siblings.
  abbrev pub reset_subtrees : Subtrees uuids
  reset_subtrees = some (λ j. if same j id then some fresh_tree else held tree.measurements j)

  fresh-valid :
      validate_instance_id uuids m.target.source_instance_id ≡ ok tt
      → validate_instance_id uuids minted.measurement_instance_id ≡ ok tt
      → validate_state time uuids lib fresh_state ≡ ok tt
  unfolding validate_state fresh validate_extraction
  fresh-valid h k = ground (arith, h, k)

  unfoldable pub IsPending : (SourceDir uuids urls → Type 0) → Type 0
  IsPending P =
      (measurements : Subtrees uuids) (tombstone : Option (Tombstone uuids urls))
      → HasSiblings uuids urls id tree measurements
      → P (pending_with measurements tombstone)

  abbrev Subtree : Type 0
  Subtree = Text → Option (MeasurementTree uuids)

  -- One measurement replaced.
  abbrev put : Option (MeasurementTree uuids) → Subtree → Subtree
  put entry found j = if same j id then entry else found j

  put-HasSiblings :
      (entry : Option (MeasurementTree uuids)) (found : Subtree)
      → HasSiblings uuids urls id tree (some found)
      → HasSiblings uuids urls id tree (some (put entry found))
  unfolding HasSiblings
  put-HasSiblings entry found h j sibling = rw sibling (h j sibling)

  put-reset_at :
      (entry : Option (MeasurementTree uuids)) (found : Subtree)
      → HasSiblings uuids urls id tree (some found)
      → (j : Text)
      → put (some fresh_tree) (put entry found) j
        ≡ (if same j id then some fresh_tree else held tree.measurements j)
  unfolding HasSiblings
  put-reset_at entry found h j = elim (Bool-cases (same j id)) [
    | inl e ↦ rw e refl
    | inr e ↦ rw e (h j e)
  ]

  put-reset :
      (entry : Option (MeasurementTree uuids)) (found : Subtree)
      → HasSiblings uuids urls id tree (some found)
      → some (put (some fresh_tree) (put entry found)) ≡ reset_subtrees
  put-reset entry found h = ap some (λ i j. put-reset_at entry found h j i)

  written-Done :
      (P : SourceDir uuids urls → Type 0) (found : Subtree)
      (tombstone : Option (Tombstone uuids urls))
      → IsPending P
      → validate_state time uuids lib fresh_state ≡ ok tt
      → HasSiblings uuids urls id tree (some found)
      → found id ≡ none
      → Done P
          (write_measurement_state time uuids urls lib id fresh_state
            >> remove_tombstone uuids urls)
          (pending_with (some found) tombstone)
          tt
          (pending_with reset_subtrees none)
  unfolding write_measurement_state remove_tombstone IsPending
  written-Done P found tombstone pending valid siblings absent =
      let empty = some (empty_measurement uuids) in
      let made = put-HasSiblings empty found siblings in
      let filled = put-HasSiblings (some fresh_tree) (put empty found) made in
      rw (valid, absent)
        (
          refl,
          ap (λ x. pending_with x none) (put-reset empty found siblings),
          (
            pending (some found) tombstone siblings,
            (
              pending (some (put empty found)) tombstone made,
              (
                pending (some (put (some fresh_tree) (put empty found))) tombstone filled,
                (pending (some (put (some fresh_tree) (put empty found))) none filled, tt),
              ),
            ),
          ),
        )

  -- The burial of the old directory, where it is there, and what follows.
  buried-Done :
      (P : SourceDir uuids urls → Type 0) (found : Subtree) (old : Option (MeasurementTree uuids))
      → IsPending P
      → validate_state time uuids lib fresh_state ≡ ok tt
      → HasSiblings uuids urls id tree (some found)
      → found id ≡ old
      → Done P
          (bury_measurement uuids urls id old
            >> (write_measurement_state time uuids urls lib id fresh_state
                >> remove_tombstone uuids urls))
          (pending_with (some found) none)
          tt
          (pending_with reset_subtrees none)
  unfolding IsPending
  buried-Done P found none pending valid siblings absent =
      written-Done P found none pending valid siblings absent
  buried-Done P found (some old) pending valid siblings present =
      let gone = put-HasSiblings none found siblings in
      let itself : same id id ≡ true = (same_list_iff id id).1 refl in
      let (a, b, c) =
        written-Done P (put none found) (some (of_measurement old)) pending valid gone
          (when_true _ _ itself) in
      (a, b, (pending (some (put none found)) (some (of_measurement old)) gone, c))

  -- The swap completes from every pending directory with the target identity.
  pub swap-Done :
      (P : SourceDir uuids urls → Type 0) (measurements : Subtrees uuids)
      (tombstone : Option (Tombstone uuids urls))
      → IsPending P
      → get id m.target.measurements ≡ some minted
      → validate_instance_id uuids m.target.source_instance_id ≡ ok tt
      → validate_instance_id uuids minted.measurement_instance_id ≡ ok tt
      → HasSiblings uuids urls id tree measurements
      → Done P
          (swap_measurement_storage time uuids urls lib m.target id)
          (pending_with measurements tombstone)
          tt
          (pending_with reset_subtrees none)
  unfolding swap_measurement_storage remove_tombstone IsPending HasSiblings
  swap-Done P none tombstone pending known h k siblings =
      let (a, b, c) = buried-Done P (λ j. none) none pending (fresh-valid h k) siblings refl in
      rw known (
        a,
        b,
        (
          pending (some (λ j. none)) tombstone siblings,
          (pending (some (λ j. none)) none siblings, c),
        ),
      )
  swap-Done P (some found) tombstone pending known h k siblings =
      let (a, b, c) = buried-Done P found (found id) pending (fresh-valid h k) siblings refl in
      rw known
        (a, b, (pending (some found) tombstone siblings, (pending (some found) none siblings, c)))
