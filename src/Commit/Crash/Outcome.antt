-- ===== src/Commit/Crash/Outcome.antt =====
-- graph/commit.rs: what a commit leaves, and what a staged file reads back as.
use ffhn.Base.{
  ◌≡◌, refl, ap, sym, ◌∙◌, true, false, not, some, List, [], ◌∷◌, ◌++◌, All, list_eq, nat_eq,
}
use ffhn.Base.Errors.{Text, CoreError, contract, ok, refused, ◌>>◌, refuse_if, >>=-eq-ok, then_ok}
use ffhn.Base.Texts.{is_some}
use ffhn.Identity.{UuidLib}
use ffhn.Commit.Path.{is_staged}
use ffhn.Commit.Manifest.{CommitManifest, validate_manifest}
use ffhn.Commit.Store.{
  Storage, directory, regular, Key, put, key_of, parents, bytes_of, open_components,
  open_existing_child, open_manifest_parent, read_regular_bytes, need_directory,
}
use ffhn.Commit.Store.Directories.{
  AreOpen, components-AreOpen, AreOpen-keep, put-there, put-elsewhere,
}
use ffhn.Commit.Replay.{replay_commit_operations, stage_bytes, existing_file_sha256}
use ffhn.Commit.Crash.{Done}
use ffhn.Commit.Crash.Resume.{All-Done}
use ffhn.Commit.Crash.Validated.{validate_manifest-Apart}

opened_unchanged :
    (s : Storage) (dir : Key) (rest : List Text)
    → AreOpen s dir rest
    → open_components false s dir rest ≡ ok s
unfolding AreOpen open_components open_existing_child
opened_unchanged s dir [] h = refl
opened_unchanged s dir (c ∷ rest) h =
    then_ok (λ opened. open_components false opened (dir ++ (c ∷ [])) rest)
      (ap (λ n. need_directory n >> ok s) h.0) (opened_unchanged s _ rest h.1)

is_free :
    (s : Storage) (k : Key) (e : CoreError)
    → refuse_if (is_some (s k)) e ≡ ok tt
    → s k ≡ some directory
    → ⊥
is_free s k e h d = cc (refused _ _ h, ap is_some d)

module _ (sha256_hex : Text → Text) where
  -- When the operations of a validated manifest are all replayed, then at the final path of every
  -- `Install` stands a file with the result hash, and at that of every `Remove` nothing; this holds of
  -- each operation at the end, after the later ones.
  pub replay-Done-All :
      (lib : UuidLib) (m : CommitManifest lib) (s : Storage) {s' : Storage}
      → validate_manifest lib m ≡ ok tt
      → replay_commit_operations sha256_hex s m.entries ≡ ok s'
      → All (Done sha256_hex s') m.entries
  replay-Done-All lib m s v h =
      All-Done sha256_hex s m.entries (validate_manifest-Apart lib m v).0 h

  -- Bytes that are staged at a path are read back there with the hash that the staging has returned.
  pub stage_bytes-existing_file_sha256 :
      (s : Storage) (path bytes : Text) {s' : Storage} {hash : Text}
      → stage_bytes sha256_hex s path bytes ≡ ok (s', hash)
      → existing_file_sha256 sha256_hex s' path ≡ ok (some hash)
  unfolding stage_bytes existing_file_sha256 open_manifest_parent read_regular_bytes
  stage_bytes-existing_file_sha256 s path bytes {s'} {hash} h =
      let (u, e₁, k₁) =
        >>=-eq-ok
          (refuse_if (not (is_staged path))
            (contract "normal-commit bytes must be staged inside the reserved staged directory"))
          _ h in
      let (opened, e₂, k₂) = >>=-eq-ok (open_manifest_parent true s path) _ k₁ in
      let (v, e₃, k₃) =
        >>=-eq-ok
          (refuse_if (is_some (opened (key_of path)))
            (contract "{role} already exists and cannot be created again"))
          _ k₂ in
      let written : put (key_of path) (some (regular bytes)) opened ≡ s' = cc (k₃) in
      let hashed : sha256_hex bytes ≡ hash = cc (k₃) in
      let at_path : s' (key_of path) ≡ some (regular bytes) =
        ap (λ x. x (key_of path)) (sym written) ∙ put-there (key_of path) _ opened in
      let on_the_way : AreOpen s' [] (parents (key_of path)) =
        AreOpen-keep opened s' [] (parents (key_of path))
          (λ q d.
            ap (λ x. x q) (sym written)
            ∙ (put-elsewhere (key_of path) q (some (regular bytes)) opened
                  (λ p. is_free opened (key_of path) _ e₃ (ap opened (sym p) ∙ d))
                ∙ d))
          (components-AreOpen s [] (parents (key_of path)) e₂) in
      then_ok _ (opened_unchanged s' [] (parents (key_of path)) on_the_way)
        (then_ok _ (ap bytes_of at_path) (ap (λ x. ok (some x)) hashed))
