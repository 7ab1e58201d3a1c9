-- ===== src/Commit/Replay/Effects.antt =====
-- What a successful replay of one operation has done to the entries.
use ffhn.Base.{
  subst, if-true, if-false, ◌≡◌, ◌≢◌, ◌⊎◌, inl, inr, refl, ap, sym, ◌∙◌, true, false, not, Option,
  none, some, [], same, list_eq, nat_eq, option_eq, Bool-cases,
}
use ffhn.Base.Errors.{Text, contract, ok, refuse_if, ok_or, >>=-eq-ok, accepted, found-ok}
use ffhn.Base.Texts.{is_some}
use ffhn.Commit.Store.{
  Node, directory, special, regular, Storage, put, bytes_of, key_of, parents, open_manifest_parent,
  read_regular_bytes, rename,
}
use ffhn.Commit.Store.Directories.{components-unchanged}
use ffhn.Commit.Replay.{install_staged, install_over, replay_install, remove_found, replay_remove}

bytes-none : (n : Option Node) → bytes_of n ≡ ok none → n ≡ none
bytes-none none h = refl
bytes-none (some directory) h = absurd (cc (h))
bytes-none (some special) h = absurd (cc (h))
bytes-none (some (regular b)) h = absurd (cc (h))

bytes-some : (n : Option Node) (b : Text) → bytes_of n ≡ ok (some b) → n ≡ some (regular b)
bytes-some none b h = absurd (cc (h))
bytes-some (some directory) b h = absurd (cc (h))
bytes-some (some special) b h = absurd (cc (h))
bytes-some (some (regular a)) b h = cc (h)

module _ (sha256_hex : Text → Text) where
  -- A file with the given digest stands at the path.
  unfoldable pub FileWith : Storage → Text → Text → Type 0
  FileWith s path hash =
      (bytes : Text) × (s (key_of path) ≡ some (regular bytes))
      × (same (sha256_hex bytes) hash ≡ true)

  unfoldable pub Moved : Storage → Text → Text → Text → Storage → Type 0
  unfolding FileWith
  Moved s final staged result s' =
      FileWith s staged result × (s' ≡ rename staged final s) × (s (key_of final) ≢ some directory)

  staged-Moved :
      (s : Storage) (final staged result : Text) {s' : Storage}
      → s (key_of final) ≢ some directory
      → install_staged sha256_hex s final staged result ≡ ok s'
      → Moved s final staged result s'
  unfolding Moved FileWith install_staged read_regular_bytes open_manifest_parent
  staged-Moved s final staged result {s'} d h =
      let (s₁, e₁, k₁) = >>=-eq-ok (open_manifest_parent false s staged) _ h in
      let same_storage : s₁ ≡ s = components-unchanged s [] (parents (key_of staged)) e₁ in
      let (found, e₂, k₂) = >>=-eq-ok (read_regular_bytes s₁ staged) _ k₁ in
      let (bytes, e₃, k₃) =
        >>=-eq-ok (ok_or found (contract "commit staged file is absent")) _ k₂ in
      let (u, e₄, k₄) =
        >>=-eq-ok
          (refuse_if (not (same (sha256_hex bytes) result))
            (contract "commit staged file does not match the result hash"))
          _ k₃ in
      let at_staged : s₁ (key_of staged) ≡ some (regular bytes) =
        bytes-some _ bytes (e₂ ∙ ap ok (found-ok found _ e₃)) in
      let no_directory : s₁ (key_of final) ≢ some directory =
        λ e. d (ap (λ x. x (key_of final)) (sym same_storage) ∙ e) in
      subst (λ x. Moved x final staged result s') same_storage
        ((bytes, at_staged, accepted (same (sha256_hex bytes) result) _ e₄), cc (k₄), no_directory)

  -- The file was there already, or the staged one is moved.
  unfoldable pub Installed : Storage → Text → Text → Text → Storage → Type 0
  Installed s final staged result s' =
      (FileWith s final result × (s' ≡ s)) ⊎ Moved s final staged result s'

  over-Installed :
      (s : Storage) (final staged : Text) (prior : Option Text) (result : Text)
      (found : Option Text) {s' : Storage}
      → bytes_of (s (key_of final)) ≡ ok found
      → install_over sha256_hex s final staged prior result found ≡ ok s'
      → Installed s final staged result s'
  unfolding Installed FileWith install_over
  over-Installed s final staged prior result none e h =
      let (u, e₁, k₁) =
        >>=-eq-ok
          (refuse_if (is_some prior)
            (contract "commit install requires an expected prior file that is absent"))
          _ h in
      inr (staged-Moved s final staged result (λ d. cc (bytes-none _ e, d)) k₁)
  over-Installed s final staged prior result (some bytes) {s'} e h =
      elim (Bool-cases (same (sha256_hex bytes) result)) [
        | inl hash ↦
            (let q : ok s ≡ ok s' = if-true _ _ hash h in
              inl ((bytes, bytes-some _ bytes e, hash), cc (q)))
        | inr other ↦
            let (u, e₁, k₁) =
              >>=-eq-ok
                (refuse_if (not (same prior (some (sha256_hex bytes))))
                  (contract "commit install final bytes do not match the expected prior hash"))
                _ (if-false _ _ other h) in
            inr (staged-Moved s final staged result (λ d. cc (bytes-some _ bytes e, d)) k₁)
      ]

  pub install-Installed :
      (s : Storage) (final staged : Text) (prior : Option Text) (result : Text) {s' : Storage}
      → replay_install sha256_hex s final staged prior result ≡ ok s'
      → (opened : Storage) × (open_manifest_parent true s final ≡ ok opened)
        × Installed opened final staged result s'
  unfolding replay_install read_regular_bytes
  install-Installed s final staged prior result h =
      let (opened, e₁, k₁) = >>=-eq-ok (open_manifest_parent true s final) _ h in
      let (found, e₂, k₂) = >>=-eq-ok (read_regular_bytes opened final) _ k₁ in
      (opened, e₁, over-Installed opened final staged prior result found e₂ k₂)

  -- The file was absent already, or it is removed.
  unfoldable pub Removed : Storage → Text → Storage → Type 0
  Removed s final s' =
      ((s (key_of final) ≡ none) × (s' ≡ s))
      ⊎ ((s (key_of final) ≢ some directory) × (s' ≡ put (key_of final) none s))

  found-Removed :
      (s : Storage) (final prior : Text) (found : Option Text) {s' : Storage}
      → bytes_of (s (key_of final)) ≡ ok found
      → remove_found sha256_hex s final prior found ≡ ok s'
      → Removed s final s'
  unfolding Removed remove_found
  found-Removed s final prior none e h = inl (bytes-none _ e, cc (h))
  found-Removed s final prior (some bytes) e h =
      let (u, e₁, k₁) =
        >>=-eq-ok
          (refuse_if (not (same (sha256_hex bytes) prior))
            (contract "commit remove final bytes do not match the expected prior hash"))
          _ h in
      inr (λ d. cc (bytes-some _ bytes e, d), cc (k₁))

  pub remove-Removed :
      (s : Storage) (final prior : Text) {s' : Storage}
      → replay_remove sha256_hex s final prior ≡ ok s'
      → (opened : Storage) × (open_manifest_parent true s final ≡ ok opened)
        × Removed opened final s'
  unfolding replay_remove read_regular_bytes
  remove-Removed s final prior h =
      let (opened, e₁, k₁) = >>=-eq-ok (open_manifest_parent true s final) _ h in
      let (found, e₂, k₂) = >>=-eq-ok (read_regular_bytes opened final) _ k₁ in
      (opened, e₁, found-Removed opened final prior found e₂ k₂)
