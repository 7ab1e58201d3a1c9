-- ===== src/Lineage/Disk.antt =====
-- graph/storage.rs: the directory of a source as the lineage transitions see it, and the programs that
-- change it one durable effect at a time.
use ffhn.Base.{Option, List, [], ◌∷◌, ◌++◌, list_eq, nat_eq}
use ffhn.Base.Errors.{Text, CoreError, CoreResult, ok, err}
use ffhn.Identity.{UuidLib, SourceIdentity}
use ffhn.State.Facts.{UrlLib}
use ffhn.State.Document.{SourceState}
use ffhn.Measurement.Document.{MeasurementState}
use ffhn.Lineage.Manifest.{LineageManifest}

-- One directory below `measurements`, with what else it holds.
pub record MeasurementTree (uuids : UuidLib) : Type 0 where
  pub state : Option (MeasurementState uuids)
  pub other_files : Text → Option Text

-- The directory `.ffhn`, with the directory `measurements` if it is there, and what else it holds.
pub record StorageTree (uuids : UuidLib) (urls : UrlLib) : Type 0 where
  pub source_state : Option (SourceState uuids urls)
  pub measurements : Option (Text → Option (MeasurementTree uuids))
  pub other_files : Text → Option Text

-- The entry `.ffhn-tombstone`: a renamed directory.
pub data Tombstone (uuids : UuidLib) (urls : UrlLib) : Type 0 where
  of_storage : StorageTree uuids urls → Tombstone uuids urls
  of_measurement : MeasurementTree uuids → Tombstone uuids urls

-- The directory of one source: `.ffhn-lineage.manifest`, `.ffhn-identity.json`, `.ffhn` and
-- `.ffhn-tombstone`.
pub record SourceDir (uuids : UuidLib) (urls : UrlLib) : Type 0 where
  pub source_id : Text
  pub lineage_manifest : Option (LineageManifest uuids)
  pub identity : Option (SourceIdentity uuids)
  pub storage : Option (StorageTree uuids urls)
  pub tombstone : Option (Tombstone uuids urls)

-- A run of a program: the directories that stood on the disk after each effect, in order, the last
-- one, and the result.
pub record Run (D : Type 0) (A : Type 0) : Type 0 where
  pub visited : List D
  pub final : D
  pub result : CoreResult A

abbrev pub Program : Type 0 → Type 0 → Type 0
Program D A = D → Run D A

module _ {D : Type 0} where
  infixl 5 ◌>>=◌ ◌>>◌
  abbrev pub pure : {A : Type 0} → A → Program D A
  pure a d = record { visited = []; final = d; result = ok a }

  abbrev pub fail : {A : Type 0} → CoreError → Program D A
  fail e d = record { visited = []; final = d; result = err e }

  -- A check without effect.
  abbrev pub lift : {A : Type 0} → CoreResult A → Program D A
  lift (ok a) = pure a
  lift (err e) = fail e

  abbrev pub read : {A : Type 0} → (D → A) → Program D A
  read f d = record { visited = []; final = d; result = ok (f d) }

  -- One durable effect.
  abbrev pub effect : (D → D) → Program D (Unit {0})
  effect f d = record { visited = f d ∷ []; final = f d; result = ok tt }

  -- What follows a step, with the directories visited before it.
  abbrev pub resume : {A B : Type 0} → List D → D → CoreResult A → (A → Program D B) → Run D B
  resume visited d (err e) next = record { visited = visited; final = d; result = err e }
  resume visited d (ok a) next =
      let rest = next a d in
      record { visited = visited ++ rest.visited; final = rest.final; result = rest.result }

  abbrev pub ◌>>=◌ : {A B : Type 0} → Program D A → (A → Program D B) → Program D B
  (program >>= next) d = let run = program d in resume run.visited run.final run.result next

  abbrev pub ◌>>◌ : {B : Type 0} → Program D (Unit {0}) → Program D B → Program D B
  first >> second = first >>= λ unit. second
