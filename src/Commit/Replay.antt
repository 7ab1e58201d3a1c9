-- ===== src/Commit/Replay.antt =====
-- graph/commit.rs: the staging of files and the replay of the operations of a commit.
pub mod Effects
use ffhn.Base.{
  Bool, true, false, not, Option, none, some, List, [], ◌∷◌, ◌++◌, same, list_eq, nat_eq, option_eq,
  if◌then◌else◌,
}
use ffhn.Base.Errors.{Text, CoreResult, contract, ok, err, ◌>>=◌, ◌>>◌, refuse_if, ok_or}
use ffhn.Base.Texts.{is_some}
use ffhn.Commit.Path.{is_staged}
use ffhn.Commit.Operation.{CommitOperation, install, remove}
use ffhn.Commit.Store.{
  Storage, regular, put, key_of, open_manifest_parent, read_regular_bytes, rename,
}

-- `stable_json::sha256_hex`, of the crate `sha2`.
module _ (sha256_hex : Text → Text) where
  unfoldable pub stage_bytes : Storage → Text → Text → CoreResult (Storage × Text)
  stage_bytes s path bytes = do
    refuse_if (not (is_staged path))
        (contract "normal-commit bytes must be staged inside the reserved staged directory")
    opened ← open_manifest_parent true s path
    refuse_if (is_some (opened (key_of path)))
        (contract "{role} already exists and cannot be created again")
    ok (put (key_of path) (some (regular bytes)) opened, sha256_hex bytes)

  -- The stable JSON of the value is the result of the serializer, the first argument; the newline has
  -- the code 10.
  unfoldable pub stage_json :
      {T : Type 0} → (T → CoreResult Text) → Storage → Text → T → CoreResult (Storage × Text)
  stage_json stable_json s path value = do
    json ← stable_json value
    stage_bytes s path (json ++ (10 ∷ []))

  abbrev hash_of : Option Text → Option Text
  hash_of none = none
  hash_of (some bytes) = some (sha256_hex bytes)

  unfoldable pub existing_file_sha256 : Storage → Text → CoreResult (Option Text)
  existing_file_sha256 s path = do
    opened ← open_manifest_parent false s path
    found ← read_regular_bytes opened path
    ok (hash_of found)

  -- The second half of `replay_install`: from the staged file to its final place.
  unfoldable pub install_staged : Storage → Text → Text → Text → CoreResult Storage
  install_staged s final staged result = do
    opened ← open_manifest_parent false s staged
    found ← read_regular_bytes opened staged
    bytes ← ok_or found (contract "commit staged file is absent")
    refuse_if (not (same (sha256_hex bytes) result))
        (contract "commit staged file does not match the result hash")
    ok (rename staged final opened)

  -- What `replay_install` does with the bytes at the final place.
  unfoldable pub install_over :
      Storage → Text → Text → Option Text → Text → Option Text → CoreResult Storage
  install_over s final staged prior result none = do
    refuse_if (is_some prior)
        (contract "commit install requires an expected prior file that is absent")
    install_staged s final staged result
  install_over s final staged prior result (some bytes) =
      if same (sha256_hex bytes) result
      then ok s
      else (refuse_if (not (same prior (some (sha256_hex bytes))))
            (contract "commit install final bytes do not match the expected prior hash")
          >> install_staged s final staged result)

  unfoldable pub replay_install : Storage → Text → Text → Option Text → Text → CoreResult Storage
  replay_install s final staged prior result = do
    opened ← open_manifest_parent true s final
    found ← read_regular_bytes opened final
    install_over opened final staged prior result found

  unfoldable pub remove_found : Storage → Text → Text → Option Text → CoreResult Storage
  remove_found s final prior none = ok s
  remove_found s final prior (some bytes) = do
    refuse_if (not (same (sha256_hex bytes) prior))
        (contract "commit remove final bytes do not match the expected prior hash")
    ok (put (key_of final) none s)

  unfoldable pub replay_remove : Storage → Text → Text → CoreResult Storage
  replay_remove s final prior = do
    opened ← open_manifest_parent true s final
    found ← read_regular_bytes opened final
    remove_found opened final prior found

  unfoldable pub replay_operation : Storage → CommitOperation → CoreResult Storage
  replay_operation s (install final staged prior result) =
      replay_install s final staged prior result
  replay_operation s (remove final prior) = replay_remove s final prior

  unfoldable pub replay_commit_operations : Storage → List CommitOperation → CoreResult Storage
  replay_commit_operations s [] = ok s
  replay_commit_operations s (operation ∷ operations) = do
    next ← replay_operation s operation
    replay_commit_operations next operations
