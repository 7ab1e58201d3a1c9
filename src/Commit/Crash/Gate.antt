-- ===== src/Commit/Crash/Gate.antt =====
-- graph/commit.rs: the gate of a recovery that starts from an interrupted commit.
use ffhn.Base.{
  Option-cases, [], ◌≡◌, refl, ap, sym, ◌∙◌, subst, true, false, ◌||◌, not, some, List, ◌++◌, All,
  list_eq, nat_eq, arith, inl, inr, ◌==◌,
}
use ffhn.Base.Errors.{
  Text, CoreResult, contract, ok, ◌>>=◌, refuse_if, ok_or, >>=-eq-ok, refused, accepted, found-ok,
}
use ffhn.Identity.{UuidLib, SourceIdentity, validate_source_identity}
use ffhn.Commit.Path.{source_state_json, valid_layout, is_staged}
use ffhn.Commit.Operation.{CommitOperation}
use ffhn.Commit.Manifest.{
  CommitManifest, validate_manifest, recover_against, lineage_matches, saturating_next,
}
use ffhn.Commit.Store.Directories.{components-keep}
use ffhn.Commit.Store.{Node, open_components, Storage, key_of}
use ffhn.Commit.Replay.{replay_commit_operations}
use ffhn.Commit.Recovery.{
  document_bytes, StateHead, SourceDir, decode_found, read_source_state, apply_identity_additions,
  is_apply, authorise, require_installed,
}
use ffhn.Commit.Crash.{Untouched}
use ffhn.Commit.Crash.Resume.{Apart, All-front, final-cases, All-elsewhere}
use ffhn.Commit.Crash.Valid.{HasLayout, HasPaths, All-Untouched}
use ffhn.Commit.Crash.Validated.{validate_manifest-Apart}

source_state-HasLayout : HasLayout source_state_json
unfolding HasLayout valid_layout is_staged
source_state-HasLayout = (refl, refl)

module _ (lib : UuidLib) (sha256_hex : Text → Text)
    (decode : Text → CoreResult (StateHead lib)) where
  open lib use {Uuid, uuid_eq}

  -- A source state that the gate of the recovery lets pass.
  pub Passes : CommitManifest lib → Storage → Type 0
  Passes m s =
      (state : StateHead lib) × (read_source_state lib sha256_hex decode s ≡ ok (some state))
      × ((m.generation == state.generation || m.generation == saturating_next lib state.generation)
          ≡ true)

  -- What the first recovery has found.
  pub authorise-found :
      (dir : SourceDir lib) (m : CommitManifest lib) {i : SourceIdentity lib}
      → authorise lib sha256_hex decode dir m ≡ ok i
      → Passes m dir.storage
        × ((before : SourceIdentity lib) × (lineage_matches lib m before ≡ true)
            × (apply_identity_additions lib before m.identity_measurement_additions ≡ ok i)
            × (validate_source_identity lib i ≡ ok tt))
  unfolding authorise Passes recover_against
  authorise-found dir m {i} h =
      let (before, e₁, k₁) =
        >>=-eq-ok (ok_or dir.identity (contract "normal commit requires a source identity")) _ h in
      let (found, e₂, k₂) = >>=-eq-ok (read_source_state lib sha256_hex decode dir.storage) _ k₁ in
      let (current, e₃, k₃) =
        >>=-eq-ok (ok_or found (contract "normal commit requires source state")) _ k₂ in
      let (u, e₄, k₄) =
        >>=-eq-ok
          (refuse_if (not (is_apply (recover_against lib m before current.generation)))
            (contract "commit manifest does not match observed source lineage or generation"))
          _ k₃ in
      let (extended, e₅, k₅) =
        >>=-eq-ok (apply_identity_additions lib before m.identity_measurement_additions) _ k₄ in
      let (v, e₆, k₆) = >>=-eq-ok (validate_source_identity lib extended) _ k₅ in
      let gate : is_apply (recover_against lib m before current.generation) ≡ true =
        accepted _ _ e₄ in
      let same_identity : extended ≡ i = cc (k₆) in
      (
        (current, e₂ ∙ ap ok (found-ok found _ e₃), ground arith),
        (
          before,
          ground arith,
          e₅ ∙ ap ok same_identity,
          ap (validate_source_identity lib) (sym same_identity) ∙ e₆,
        ),
      )

  -- The recovery that starts from the interrupted commit is authorised with the same identity.
  pub authorise-again :
      (dir : SourceDir lib) (m : CommitManifest lib) (i : SourceIdentity lib)
      → dir.identity ≡ some i
      → Passes m dir.storage
      → lineage_matches lib m i ≡ true
      → apply_identity_additions lib i m.identity_measurement_additions ≡ ok i
      → validate_source_identity lib i ≡ ok tt
      → authorise lib sha256_hex decode dir m ≡ ok i
  unfolding authorise Passes recover_against
  authorise-again dir m i known (current, read, gate) lineage adds valid =
      let passed : refuse_if (not (is_apply (recover_against lib m i current.generation)))
            (contract "commit manifest does not match observed source lineage or generation")
          ≡ ok tt =
        ground arith in
      ground (arith, known, read, passed, adds, valid)

  -- The source state that a storage holds passes the gate again.
  Passes-same :
      (m : CommitManifest lib) (s s' : Storage)
      → s' (key_of source_state_json) ≡ s (key_of source_state_json)
      → Passes m s
      → Passes m s'
  unfolding Passes read_source_state
  Passes-same m s s' e (state, read, gate) =
      (state, ap (λ n. document_bytes n >>= decode_found lib sha256_hex decode) e ∙ read, gate)

  -- The source state of the commit passes it, too.
  pub installed-Passes :
      (m : CommitManifest lib) (s : Storage)
      → require_installed lib sha256_hex decode m s ≡ ok tt
      → Passes m s
  unfolding require_installed Passes
  installed-Passes m s h =
      let (found, e₁, k₁) = >>=-eq-ok (read_source_state lib sha256_hex decode s) _ h in
      let (state, e₂, k₂) = >>=-eq-ok (ok_or found (contract "commit removed source state")) _ k₁ in
      let other : (not (state.generation == m.generation)
            || not (uuid_eq.beq state.source_instance_id m.source_instance_id))
          ≡ false =
        refused _ _ k₂ in
      (state, e₁ ∙ ap ok (found-ok found _ e₂), ground arith)

  -- After some of the operations the source state is the one before, or the one of the commit.
  pub middle-Passes :
      (m : CommitManifest lib) (s s₁ s₂ : Storage) (done rest : List CommitOperation)
      → validate_manifest lib m ≡ ok tt
      → m.entries ≡ done ++ rest
      → replay_commit_operations sha256_hex s done ≡ ok s₁
      → replay_commit_operations sha256_hex s₁ rest ≡ ok s₂
      → Passes m s
      → Passes m s₂
      → Passes m s₁
  middle-Passes m s s₁ s₂ done rest v e h k before after =
      let (apart, paths) = validate_manifest-Apart lib m v in
      elim (final-cases source_state_json done rest (subst Apart e apart)) [
        | inl later ↦ Passes-same m s₂ s₁ (sym (All-elsewhere sha256_hex s₁ rest _ k later)) after
        | inr earlier ↦
            let untouched : All (Untouched (key_of source_state_json)) done =
              All-Untouched source_state_json done source_state-HasLayout
                (All-front HasPaths done rest (subst (All HasPaths) e paths)) earlier in
            Passes-same m s s₁ (All-elsewhere sha256_hex s done _ h untouched) before
      ]

  Passes-node :
      (m : CommitManifest lib) (s : Storage)
      → Passes m s
      → (n : Node) × (s (key_of source_state_json) ≡ some n)
  unfolding Passes read_source_state
  Passes-node m s (state, read, gate) = elim (Option-cases (s (key_of source_state_json))) [
    | inl e ↦
        absurd (cc (sym read ∙ ap (λ n. document_bytes n >>= decode_found lib sha256_hex decode) e))
    | inr (n, e) ↦ (n, e)
  ]

  -- Opening directories keeps the source state.
  pub opened-Passes :
      (m : CommitManifest lib) (s : Storage) (opened : List Text) {s' : Storage}
      → open_components true s [] opened ≡ ok s'
      → Passes m s
      → Passes m s'
  opened-Passes m s opened {s'} o p =
      let (n, e) = Passes-node m s p in
      Passes-same m s s' (components-keep s [] opened (key_of source_state_json) n o e ∙ sym e) p
