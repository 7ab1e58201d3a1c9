-- ===== src/Commit/Crash/Begun.antt =====
-- graph/commit.rs: an operation that is interrupted while the parents of its final path are opened.
use mathlib.Core.List.{append_assoc}
use ffhn.Base.{append_nil, ◌≡◌, refl, ap, sym, ◌∙◌, subst, true, List, [], ◌∷◌, ◌++◌, All}
use ffhn.Base.Errors.{Text, CoreResult, ok, ◌>>=◌, >>=-eq-ok, then_ok}
use ffhn.Commit.Operation.{CommitOperation, install, remove, final_path}
use ffhn.Commit.Store.{
  Storage, Key, directory, regular, key_of, parents, open_or_create_child, open_components,
  open_manifest_parent, read_regular_bytes,
}
use ffhn.Commit.Store.Directories.{
  NoParent, AreOpen-keep, components-AreOpen, components-keep, components-elsewhere,
  components-open_already,
}
use ffhn.Commit.Replay.{
  install_over, remove_found, replay_install, replay_remove, replay_operation,
  replay_commit_operations,
}
use ffhn.Commit.Replay.Effects.{FileWith, install-Installed, remove-Removed}
use ffhn.Commit.Crash.{Untouched, Done}
use ffhn.Commit.Crash.Resume.{Apart, Apart-front, All-back, All-Done, again, resume, replay-append}

-- The directories are the first ones on the way to the final path of the next operation, or none.
pub data BegunBy : List CommitOperation → List Text → Type 0 where
  between : {rest : List CommitOperation} → BegunBy rest []
  inside :
      {op : CommitOperation} {rest : List CommitOperation} {opened : List Text} (left : List Text)
      → parents (key_of (final_path op)) ≡ opened ++ left
      → BegunBy (op ∷ rest) opened

components-front :
    (s : Storage) (dir : Key) (xs ys : List Text) {s' : Storage}
    → open_components true s dir xs ≡ ok s'
    → open_components true s dir (xs ++ ys) ≡ open_components true s' (dir ++ xs) ys
unfolding open_components
components-front s dir [] ys {s'} h =
    let same_storage : s ≡ s' = cc (h) in
    ap (λ x. open_components true x dir ys) same_storage
    ∙ ap (λ d. open_components true s' d ys) (sym (append_nil dir))
components-front s dir (x ∷ xs) ys {s'} h =
    let (next, e, k) = >>=-eq-ok (open_or_create_child s (dir ++ (x ∷ []))) _ h in
    then_ok _ e (components-front next (dir ++ (x ∷ [])) xs ys k)
    ∙ ap (λ d. open_components true s' d ys) (append_assoc dir (x ∷ []) xs)

-- Opening all the directories after the first ones is opening them from the start.
reopen :
    (s : Storage) (dir : Key) (xs ys : List Text) {s' : Storage}
    → open_components true s dir xs ≡ ok s'
    → open_components true s' dir (xs ++ ys) ≡ open_components true s dir (xs ++ ys)
reopen s dir xs ys {s'} h =
    components-front s' dir xs ys
      (components-open_already s' dir xs (components-AreOpen s dir xs h))
    ∙ sym (components-front s dir xs ys h)

front_opens :
    (s : Storage) (dir : Key) (xs ys : List Text) {s' : Storage}
    → open_components true s dir (xs ++ ys) ≡ ok s'
    → (middle : Storage) × (open_components true s dir xs ≡ ok middle)
unfolding open_components
front_opens s dir [] ys h = (s, refl)
front_opens s dir (x ∷ xs) ys h =
    let (next, e, k) = >>=-eq-ok (open_or_create_child s (dir ++ (x ∷ []))) _ h in
    let (middle, f) = front_opens next (dir ++ (x ∷ [])) xs ys k in (middle, then_ok _ e f)

NoParent-front : (q dir : Key) (xs ys : List Text) → NoParent q dir (xs ++ ys) → NoParent q dir xs
unfolding NoParent
NoParent-front q dir [] ys h = tt
NoParent-front q dir (x ∷ xs) ys h = (h.0, NoParent-front q (dir ++ (x ∷ [])) xs ys h.1)

Untouched-NoParent :
    (q : Key) (op : CommitOperation)
    → Untouched q op
    → NoParent q [] (parents (key_of (final_path op)))
unfolding Untouched
Untouched-NoParent q (install final staged prior result) (d, e, n) = n
Untouched-NoParent q (remove final prior) (d, n) = n

module _ (sha256_hex : Text → Text) where
  -- Opening directories keeps what an operation has left, if none of them is its final path.
  Done-open :
      (s : Storage) (op : CommitOperation) (opened : List Text) {s' : Storage}
      → open_components true s [] opened ≡ ok s'
      → NoParent (key_of (final_path op)) [] opened
      → Done sha256_hex s op
      → Done sha256_hex s' op
  unfolding Done FileWith
  Done-open s (install final staged prior result) opened {s'} h n (w, (bytes, at_final, hash)) = (
    AreOpen-keep s s' [] (parents (key_of final))
        (λ q d. components-keep s [] opened q directory h d) w,
    (bytes, components-keep s [] opened (key_of final) (regular bytes) h at_final, hash),
  )
  Done-open s (remove final prior) opened {s'} h n (w, gone) = (
    AreOpen-keep s s' [] (parents (key_of final))
        (λ q d. components-keep s [] opened q directory h d) w,
    components-elsewhere s [] opened (key_of final) h n ∙ gone,
  )

  parents-reopen :
      (s : Storage) (path : Text) (opened left : List Text) {s' : Storage}
      → parents (key_of path) ≡ opened ++ left
      → open_components true s [] opened ≡ ok s'
      → open_manifest_parent true s' path ≡ open_manifest_parent true s path
  unfolding open_manifest_parent
  parents-reopen s path opened left {s'} e h =
      ap (open_components true s' []) e
      ∙ (reopen s [] opened left h ∙ ap (open_components true s []) (sym e))

  -- An operation whose first directories are open already is replayed with the same result.
  begun-replay :
      (s : Storage) (op : CommitOperation) (opened left : List Text) {s' : Storage}
      → parents (key_of (final_path op)) ≡ opened ++ left
      → open_components true s [] opened ≡ ok s'
      → replay_operation sha256_hex s' op ≡ replay_operation sha256_hex s op
  unfolding replay_operation replay_install replay_remove
  begun-replay s (install final staged prior result) opened left e h =
      ap
        (λ (o : CoreResult Storage). o >>= λ x. read_regular_bytes x final >>= λ found.
          install_over sha256_hex x final staged prior result found)
        (parents-reopen s final opened left e h)
  begun-replay s (remove final prior) opened left e h =
      ap
        (λ (o : CoreResult Storage). o >>= λ x.
          read_regular_bytes x final >>= λ found. remove_found sha256_hex x final prior found)
        (parents-reopen s final opened left e h)

  Done-open-All :
      (s : Storage) (done : List CommitOperation) (op : CommitOperation)
      (rest : List CommitOperation) (opened left : List Text) {s' : Storage}
      → Apart (done ++ (op ∷ rest))
      → parents (key_of (final_path op)) ≡ opened ++ left
      → open_components true s [] opened ≡ ok s'
      → All (Done sha256_hex s) done
      → All (Done sha256_hex s') done
  unfolding Apart
  Done-open-All s [] op rest opened left a e h d = tt
  Done-open-All s (x ∷ done) op rest opened left a e h d =
      let q = key_of (final_path x) in
      let untouched : Untouched q op = (All-back (Untouched q) done (op ∷ rest) a.1).0 in
      let elsewhere : NoParent q [] (opened ++ left) =
        subst (NoParent q []) e (Untouched-NoParent q op untouched) in
      (
        Done-open s x opened h (NoParent-front q [] opened left elsewhere) d.0,
        Done-open-All s done op rest opened left a.2 e h d.1,
      )

  -- The replay after an interruption in the middle of an operation has the result of the whole replay.
  pub begun-resume :
      (s s₁ : Storage) (done rest : List CommitOperation) (opened : List Text) {s' : Storage}
      → Apart (done ++ rest)
      → BegunBy rest opened
      → replay_commit_operations sha256_hex s done ≡ ok s₁
      → open_components true s₁ [] opened ≡ ok s'
      → replay_commit_operations sha256_hex s' (done ++ rest)
        ≡ replay_commit_operations sha256_hex s (done ++ rest)
  unfolding open_components replay_commit_operations
  begun-resume s s₁ done rest [] {s'} a between h o =
      let same_storage : s₁ ≡ s' = cc (o) in
      resume sha256_hex s done rest (Apart-front done rest a) (h ∙ ap ok same_storage)
  begun-resume s s₁ done (op ∷ rest) opened {s'} a (inside left e) h o =
      let still_done : All (Done sha256_hex s') done =
        Done-open-All s₁ done op rest opened left a e o
          (All-Done sha256_hex s done (Apart-front done (op ∷ rest) a) h) in
      replay-append sha256_hex s' done (op ∷ rest) (again sha256_hex s' done still_done)
      ∙ (ap (λ (r : CoreResult Storage). r >>= λ x. replay_commit_operations sha256_hex x rest)
            (begun-replay s₁ op opened left e o)
          ∙ sym (replay-append sha256_hex s done (op ∷ rest) h))

  operation_opens :
      (s : Storage) (op : CommitOperation) {s' : Storage}
      → replay_operation sha256_hex s op ≡ ok s'
      → (middle : Storage) × (open_components true s [] (parents (key_of (final_path op)))
          ≡ ok middle)
  unfolding replay_operation open_manifest_parent
  operation_opens s (install final staged prior result) h =
      let (opened, e, i) = install-Installed sha256_hex s final staged prior result h in (opened, e)
  operation_opens s (remove final prior) h =
      let (opened, e, i) = remove-Removed sha256_hex s final prior h in (opened, e)

  -- Where the rest is replayed with success, the directories can be opened.
  pub begun-opens :
      (s : Storage) (rest : List CommitOperation) (opened : List Text) {s' : Storage}
      → BegunBy rest opened
      → replay_commit_operations sha256_hex s rest ≡ ok s'
      → (middle : Storage) × (open_components true s [] opened ≡ ok middle)
  unfolding replay_commit_operations open_components
  begun-opens s rest [] between h = (s, refl)
  begun-opens s (op ∷ rest) opened (inside left e) h =
      let (next, f, k) = >>=-eq-ok (replay_operation sha256_hex s op) _ h in
      let (middle, g) = operation_opens s op f in
      front_opens s [] opened left (ap (open_components true s []) (sym e) ∙ g)
