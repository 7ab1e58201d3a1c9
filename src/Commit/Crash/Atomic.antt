-- ===== src/Commit/Crash/Atomic.antt =====
-- graph/commit.rs: the recovery of a commit that was interrupted, compared with the whole commit.
use ffhn.Base.{[], ◌≡◌, refl, ap, sym, ◌∙◌, subst, true, some, List, ◌++◌, list_eq, nat_eq}
use ffhn.Base.Errors.{Text, CoreResult, ok, ◌>>=◌, >>=-eq-ok, then_ok}
use ffhn.Identity.{UuidLib}
use ffhn.Commit.Operation.{CommitOperation}
use ffhn.Commit.Manifest.{CommitManifest, validate_manifest}
use ffhn.Commit.Crash.Begun.{BegunBy, begun-opens, begun-resume}
use ffhn.Commit.Crash.Gate.{
  authorise-found, authorise-again, installed-Passes, middle-Passes, opened-Passes,
}
use ffhn.Commit.Store.{open_components}
use ffhn.Commit.Replay.{replay_commit_operations}
use ffhn.Commit.Recovery.{
  StateHead, SourceDir, authorise, require_installed, require_commit_source, recover_with,
  recover_normal_commit,
}
use ffhn.Commit.Crash.Additions.{additions-extend, additions-again, lineage-again}
use ffhn.Commit.Crash.Resume.{Apart, replay-split}
use ffhn.Commit.Crash.Validated.{validate_manifest-Apart}

module _ (lib : UuidLib) (sha256_hex : Text → Text)
    (decode : Text → CoreResult (StateHead lib)) where
  open lib use {Uuid, uuid_eq}

  -- A commit that is interrupted: the identity is written, the given operations are replayed, and the
  -- given directories on the way to the next final path are opened; the manifest is still there.
  unfoldable pub interrupted :
      SourceDir lib
      → CommitManifest lib
      → List CommitOperation
      → List Text
      → CoreResult (SourceDir lib)
  interrupted dir m done opened = do
    identity ← authorise lib sha256_hex decode dir m
    replayed ← replay_commit_operations sha256_hex dir.storage done
    storage ← open_components true replayed [] opened
    ok (record { identity = some identity; manifest = some m; storage = storage })

  -- If the recovery of a source directory with a manifest succeeds, then a commit that is interrupted
  -- with its identity written, after any number of its operations, between two of them or after some of
  -- the directories on the way to the next final path, leaves a directory whose recovery has the same
  -- result.
  pub recover-interrupted :
      (source_id : Text) (dir : SourceDir lib) (m : CommitManifest lib)
      (done rest : List CommitOperation) (opened : List Text) {final : SourceDir lib}
      → m.entries ≡ done ++ rest
      → BegunBy rest opened
      → recover_with lib sha256_hex decode source_id dir m ≡ ok final
      → (left : SourceDir lib) × (interrupted dir m done opened ≡ ok left)
        × (recover_normal_commit lib sha256_hex decode source_id left ≡ ok final)
  unfolding recover_with interrupted recover_normal_commit
  recover-interrupted source_id dir m done rest opened {final} e begun h =
      let (u, e₁, k₁) = >>=-eq-ok (validate_manifest lib m) _ h in
      let (v, e₂, k₂) = >>=-eq-ok (require_commit_source lib sha256_hex decode source_id m) _ k₁ in
      let (i, e₃, k₃) = >>=-eq-ok (authorise lib sha256_hex decode dir m) _ k₂ in
      let (s₂, e₄, k₄) =
        >>=-eq-ok (replay_commit_operations sha256_hex dir.storage m.entries) _ k₃ in
      let (w, e₅, k₅) = >>=-eq-ok (require_installed lib sha256_hex decode m s₂) _ k₄ in
      let (s₁, f, g) =
        replay-split sha256_hex dir.storage done rest
          (ap (replay_commit_operations sha256_hex dir.storage) (sym e) ∙ e₄) in
      let (s₃, o) = begun-opens sha256_hex s₁ rest opened begun g in
      let (passes, (before, lineage, adds, valid)) =
        authorise-found lib sha256_hex decode dir m e₃ in
      let (apart, paths) = validate_manifest-Apart lib m e₁ in
      let (extends, known) = additions-extend lib before m.identity_measurement_additions adds in
      let left : SourceDir lib = record { identity = some i; manifest = some m; storage = s₃ } in
      let again : authorise lib sha256_hex decode left m ≡ ok i =
        authorise-again lib sha256_hex decode left m i refl
          (opened-Passes lib sha256_hex decode m s₁ opened o (
            middle-Passes lib sha256_hex decode m dir.storage s₁ s₂ done rest e₁ e f g passes
              (installed-Passes lib sha256_hex decode m s₂ e₅)))
          (lineage-again lib m before adds lineage)
          (additions-again lib i m.identity_measurement_additions known) valid in
      let resumed : replay_commit_operations sha256_hex s₃ m.entries ≡ ok s₂ =
        ap (replay_commit_operations sha256_hex s₃) e
        ∙ (begun-resume sha256_hex dir.storage s₁ done rest opened (subst Apart e apart) begun f o
            ∙ (ap (replay_commit_operations sha256_hex dir.storage) (sym e) ∙ e₄)) in
      (
        left,
        then_ok _ e₃ (then_ok _ f (then_ok _ o refl)),
        then_ok _ e₁ (then_ok _ e₂ (then_ok _ again (then_ok _ resumed (then_ok _ e₅ k₅)))),
      )
