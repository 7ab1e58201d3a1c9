-- ===== src/Commit/Crash.antt =====
-- graph/commit.rs: what the replay of an operation leaves, and what the other operations keep of it.
pub mod Additions
pub mod Atomic
pub mod Outcome
pub mod Resume
pub mod Gate
pub mod Begun
pub mod Layout
pub mod Validated
pub mod Valid
use ffhn.Base.{
  ◌≡◌, ◌≢◌, ◌⊎◌, inl, inr, refl, ap, sym, ◌∙◌, subst, true, Option, none, some, List, [], ◌∷◌, ◌++◌,
  same, list_eq, nat_eq, All, when_true,
}
use ffhn.Base.Errors.{Text, CoreResult, ok, ◌>>=◌, >>=-eq-ok, then_ok}
use ffhn.Commit.Operation.{CommitOperation, install, remove, final_path}
use ffhn.Commit.Store.{
  Node, directory, regular, Key, Storage, put, key_of, parents, open_manifest_parent,
  read_regular_bytes, bytes_of, rename, open_components,
}
use ffhn.Commit.Store.Directories.{
  AreOpen, NoParent, put-there, put-elsewhere, key-cases, components-keep, components-AreOpen,
  components-elsewhere, components-open_already, AreOpen-keep,
}
use ffhn.Commit.Replay.{
  install_over, replay_install, remove_found, replay_remove, replay_operation,
  replay_commit_operations,
}
use ffhn.Commit.Replay.Effects.{
  FileWith, Moved, Installed, Removed, install-Installed, remove-Removed,
}

-- The operation does not touch the entry.
unfoldable pub Untouched : Key → CommitOperation → Type 0
Untouched q (install final staged prior result) =
    (q ≢ key_of final) × (q ≢ key_of staged) × NoParent q [] (parents (key_of final))
Untouched q (remove final prior) = (q ≢ key_of final) × NoParent q [] (parents (key_of final))

-- The file is not moved to where it stands.
unfoldable pub IsMove : CommitOperation → Type 0
IsMove (install final staged prior result) = key_of final ≢ key_of staged
IsMove (remove final prior) = Unit

rename-there :
    (final staged : Text) (s : Storage)
    → key_of final ≢ key_of staged
    → rename staged final s (key_of final) ≡ s (key_of staged)
rename-there final staged s d =
    put-elsewhere (key_of staged) (key_of final) none (put (key_of final) (s (key_of staged)) s) d
    ∙ put-there (key_of final) _ s

rename-elsewhere :
    (final staged : Text) (s : Storage) (q : Key)
    → q ≢ key_of final
    → q ≢ key_of staged
    → rename staged final s q ≡ s q
rename-elsewhere final staged s q d e =
    put-elsewhere (key_of staged) q none (put (key_of final) (s (key_of staged)) s) e
    ∙ put-elsewhere (key_of final) q (s (key_of staged)) s d

module _ (sha256_hex : Text → Text) where
  -- The result of the operation stands.
  unfoldable pub Done : Storage → CommitOperation → Type 0
  Done s (install final staged prior result) =
      AreOpen s [] (parents (key_of final)) × FileWith sha256_hex s final result
  Done s (remove final prior) = AreOpen s [] (parents (key_of final)) × (s (key_of final) ≡ none)

  Installed-keeps :
      (s : Storage) (final staged result : Text) (s' : Storage)
      → Installed sha256_hex s final staged result s'
      → (q : Key) → s q ≡ some directory
      → s' q ≡ some directory
  unfolding Installed Moved FileWith
  Installed-keeps s final staged result s' (inl (f, e)) q d = ap (λ x. x q) e ∙ d
  Installed-keeps s final staged result s' (inr ((bytes, at_staged, hash), e, no_directory)) q d =
      ap (λ x. x q) e
      ∙ (rename-elsewhere final staged s q (λ p. no_directory (ap s (sym p) ∙ d))
            (λ p. cc (ap s p, at_staged, d))
          ∙ d)

  Removed-keeps :
      (s : Storage) (final : Text) (s' : Storage)
      → Removed sha256_hex s final s'
      → (q : Key) → s q ≡ some directory
      → s' q ≡ some directory
  unfolding Removed
  Removed-keeps s final s' (inl (f, e)) q d = ap (λ x. x q) e ∙ d
  Removed-keeps s final s' (inr (no_directory, e)) q d =
      ap (λ x. x q) e
      ∙ (put-elsewhere (key_of final) q none s (λ p. no_directory (ap s (sym p) ∙ d)) ∙ d)

  -- The replay keeps every directory.
  replay-keeps :
      (s : Storage) (op : CommitOperation) {s' : Storage}
      → replay_operation sha256_hex s op ≡ ok s'
      → (q : Key) → s q ≡ some directory
      → s' q ≡ some directory
  unfolding replay_operation open_manifest_parent
  replay-keeps s (install final staged prior result) {s'} h q d =
      let (opened, e, i) = install-Installed sha256_hex s final staged prior result h in
      Installed-keeps opened final staged result s' i q
        (components-keep s [] (parents (key_of final)) q directory e d)
  replay-keeps s (remove final prior) {s'} h q d =
      let (opened, e, i) = remove-Removed sha256_hex s final prior h in
      Removed-keeps opened final s' i q
        (components-keep s [] (parents (key_of final)) q directory e d)

  -- The replay leaves the entries that the operation does not touch.
  pub replay-elsewhere :
      (s : Storage) (op : CommitOperation) {s' : Storage} (q : Key)
      → replay_operation sha256_hex s op ≡ ok s'
      → Untouched q op
      → s' q ≡ s q
  unfolding replay_operation Untouched open_manifest_parent Installed Moved Removed
  replay-elsewhere s (install final staged prior result) {s'} q h (d, e, n) =
      let (opened, o, i) = install-Installed sha256_hex s final staged prior result h in
      let kept : opened q ≡ s q = components-elsewhere s [] (parents (key_of final)) q o n in
      elim i [
        | inl (f, p) ↦ ap (λ x. x q) p ∙ kept
        | inr (f, p, x) ↦ ap (λ x. x q) p ∙ (rename-elsewhere final staged opened q d e ∙ kept)
      ]
  replay-elsewhere s (remove final prior) {s'} q h (d, n) =
      let (opened, o, i) = remove-Removed sha256_hex s final prior h in
      let kept : opened q ≡ s q = components-elsewhere s [] (parents (key_of final)) q o n in
      elim i [
        | inl (f, p) ↦ ap (λ x. x q) p ∙ kept
        | inr (f, p) ↦ ap (λ x. x q) p ∙ (put-elsewhere (key_of final) q none opened d ∙ kept)
      ]

  -- A successful replay leaves the result of the operation.
  pub replay-Done :
      (s : Storage) (op : CommitOperation) {s' : Storage}
      → IsMove op
      → replay_operation sha256_hex s op ≡ ok s'
      → Done s' op
  unfolding replay_operation Done IsMove open_manifest_parent Installed Moved Removed FileWith
  replay-Done s (install final staged prior result) {s'} m h =
      let (opened, o, i) = install-Installed sha256_hex s final staged prior result h in
      let on_the_way : AreOpen s' [] (parents (key_of final)) =
        AreOpen-keep opened s' [] (parents (key_of final))
          (Installed-keeps opened final staged result s' i)
          (components-AreOpen s [] (parents (key_of final)) o) in
      (
        on_the_way,
        elim i [
          | inl ((bytes, at_final, hash), p) ↦
              (bytes, ap (λ x. x (key_of final)) p ∙ at_final, hash)
          | inr ((bytes, at_staged, hash), p, x) ↦ (
            bytes,
            ap (λ x. x (key_of final)) p ∙ (rename-there final staged opened m ∙ at_staged),
            hash,
          )
        ],
      )
  replay-Done s (remove final prior) {s'} m h =
      let (opened, o, i) = remove-Removed sha256_hex s final prior h in
      let on_the_way : AreOpen s' [] (parents (key_of final)) =
        AreOpen-keep opened s' [] (parents (key_of final)) (Removed-keeps opened final s' i)
          (components-AreOpen s [] (parents (key_of final)) o) in
      (
        on_the_way,
        elim i [
          | inl (gone, p) ↦ ap (λ x. x (key_of final)) p ∙ gone
          | inr (x, p) ↦ ap (λ x. x (key_of final)) p ∙ put-there (key_of final) none opened
        ],
      )

  -- What an operation has left is kept by an operation that does not touch its final path.
  pub Done-keep :
      (s : Storage) (op other : CommitOperation) {s' : Storage}
      → replay_operation sha256_hex s other ≡ ok s'
      → Untouched (key_of (final_path op)) other
      → Done s op
      → Done s' op
  unfolding Done FileWith
  Done-keep s (install final staged prior result) other {s'} h u (w, (bytes, at_final, hash)) = (
    AreOpen-keep s s' [] (parents (key_of final)) (replay-keeps s other h) w,
    (bytes, replay-elsewhere s other (key_of final) h u ∙ at_final, hash),
  )
  Done-keep s (remove final prior) other {s'} h u (w, gone) = (
    AreOpen-keep s s' [] (parents (key_of final)) (replay-keeps s other h) w,
    replay-elsewhere s other (key_of final) h u ∙ gone,
  )

  -- An operation whose result stands is replayed without a change.
  pub Done-replay :
      (s : Storage) (op : CommitOperation) → Done s op → replay_operation sha256_hex s op ≡ ok s
  unfolding Done FileWith replay_operation replay_install replay_remove open_manifest_parent
      read_regular_bytes install_over remove_found
  Done-replay s (install final staged prior result) (w, (bytes, at_final, hash)) =
      then_ok _ (components-open_already s [] (parents (key_of final)) w)
        (then_ok _ (ap bytes_of at_final) (when_true (ok s) _ hash))
  Done-replay s (remove final prior) (w, gone) =
      then_ok _ (components-open_already s [] (parents (key_of final)) w)
        (then_ok _ (ap bytes_of gone) refl)
