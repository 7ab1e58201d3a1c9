-- ===== src/Commit/Crash/Resume.antt =====
-- graph/commit.rs: the replay of a commit that was interrupted between two of its operations.
use ffhn.Base.{
  ◌≡◌, refl, ap, sym, ◌∙◌, subst, List, [], ◌∷◌, ◌++◌, All, ◌≢◌, ◌⊎◌, inl, inr, Bool-cases, same,
  list_eq, nat_eq, same_list_iff,
}
use ffhn.Base.Errors.{Text, CoreResult, ok, >>=-eq-ok, then_ok}
use ffhn.Commit.Operation.{CommitOperation, final_path}
use ffhn.Commit.Store.{Storage, Key, key_of}
use ffhn.Commit.Replay.{replay_operation, replay_commit_operations}
use ffhn.Commit.Crash.{
  Untouched, IsMove, Done, replay-elsewhere, replay-Done, Done-keep, Done-replay,
}

-- No operation touches the final path of an earlier one.
unfoldable pub Apart : List CommitOperation → Type 0
Apart [] = Unit
Apart (op ∷ ops) = IsMove op × All (Untouched (key_of (final_path op))) ops × Apart ops

pub All-front :
    (P : CommitOperation → Type 0) (xs ys : List CommitOperation) → All P (xs ++ ys) → All P xs
All-front P [] ys h = tt
All-front P (x ∷ xs) ys h = (h.0, All-front P xs ys h.1)

pub All-back :
    (P : CommitOperation → Type 0) (xs ys : List CommitOperation) → All P (xs ++ ys) → All P ys
All-back P [] ys h = h
All-back P (x ∷ xs) ys h = All-back P xs ys h.1

-- The front of a list of operations that are apart.
pub Apart-front : (xs ys : List CommitOperation) → Apart (xs ++ ys) → Apart xs
unfolding Apart
Apart-front [] ys a = tt
Apart-front (op ∷ xs) ys a = (a.0, All-front _ xs ys a.1, Apart-front xs ys a.2)

-- A path is the final path of one of the first operations, and then the others do not touch it, or
-- of none of the first operations.
pub final-cases :
    (p : Text) (xs ys : List CommitOperation)
    → Apart (xs ++ ys)
    → All (Untouched (key_of p)) ys ⊎ All (λ op. p ≢ final_path op) xs
unfolding Apart
final-cases p [] ys a = inr tt
final-cases p (op ∷ xs) ys a = elim (Bool-cases (same p (final_path op))) [
  | inl e ↦ inl (
      subst (λ q. All (Untouched (key_of q)) ys) (sym ((same_list_iff p (final_path op)).0 e))
        (All-back _ xs ys a.1))
  | inr e ↦ elim (final-cases p xs ys a.2) [
    | inl u ↦ inl u
    | inr d ↦ inr (λ q. cc (e, (same_list_iff p (final_path op)).1 q), d)
  ]
]

module _ (sha256_hex : Text → Text) where
  abbrev replay : Storage → List CommitOperation → CoreResult Storage
  replay = replay_commit_operations sha256_hex

  pub replay-append :
      (s : Storage) (xs ys : List CommitOperation) {s' : Storage}
      → replay s xs ≡ ok s'
      → replay s (xs ++ ys) ≡ replay s' ys
  unfolding replay_commit_operations
  replay-append s [] ys {s'} h = let q : s ≡ s' = cc (h) in ap (λ x. replay x ys) q
  replay-append s (op ∷ xs) ys h =
      let (next, e, k) = >>=-eq-ok (replay_operation sha256_hex s op) _ h in
      then_ok _ e (replay-append next xs ys k)

  Done-through :
      (s : Storage) (op : CommitOperation) (xs : List CommitOperation) {s' : Storage}
      → replay s xs ≡ ok s'
      → All (Untouched (key_of (final_path op))) xs
      → Done sha256_hex s op
      → Done sha256_hex s' op
  unfolding replay_commit_operations
  Done-through s op [] h u d = subst (λ x. Done sha256_hex x op) (cc (h)) d
  Done-through s op (other ∷ xs) h u d =
      let (next, e, k) = >>=-eq-ok (replay_operation sha256_hex s other) _ h in
      Done-through next op xs k u.1 (Done-keep sha256_hex s op other e u.0 d)

  pub All-Done :
      (s : Storage) (xs : List CommitOperation) {s' : Storage}
      → Apart xs
      → replay s xs ≡ ok s'
      → All (Done sha256_hex s') xs
  unfolding replay_commit_operations Apart
  All-Done s [] a h = tt
  All-Done s (op ∷ xs) a h =
      let (next, e, k) = >>=-eq-ok (replay_operation sha256_hex s op) _ h in
      (Done-through next op xs k a.1 (replay-Done sha256_hex s op a.0 e), All-Done next xs a.2 k)

  pub again :
      (s : Storage) (xs : List CommitOperation) → All (Done sha256_hex s) xs → replay s xs ≡ ok s
  unfolding replay_commit_operations
  again s [] d = refl
  again s (op ∷ xs) d = then_ok _ (Done-replay sha256_hex s op d.0) (again s xs d.1)

  -- The replay leaves an entry that no operation touches.
  pub All-elsewhere :
      (s : Storage) (xs : List CommitOperation) (q : Key) {s' : Storage}
      → replay s xs ≡ ok s'
      → All (Untouched q) xs
      → s' q ≡ s q
  unfolding replay_commit_operations
  All-elsewhere s [] q {s'} h u = let e : s ≡ s' = cc (h) in ap (λ x. x q) (sym e)
  All-elsewhere s (op ∷ xs) q h u =
      let (next, e, k) = >>=-eq-ok (replay_operation sha256_hex s op) _ h in
      All-elsewhere next xs q k u.1 ∙ replay-elsewhere sha256_hex s op q e u.0

  -- A replay that succeeds is one of the first operations and then of the others.
  pub replay-split :
      (s : Storage) (xs ys : List CommitOperation) {s' : Storage}
      → replay s (xs ++ ys) ≡ ok s'
      → (middle : Storage) × (replay s xs ≡ ok middle) × (replay middle ys ≡ ok s')
  unfolding replay_commit_operations
  replay-split s [] ys h = (s, refl, h)
  replay-split s (op ∷ xs) ys h =
      let (next, e, k) = >>=-eq-ok (replay_operation sha256_hex s op) _ h in
      let (middle, f, g) = replay-split next xs ys k in (middle, then_ok _ e f, g)

  -- Where the operations replayed before a crash are apart, replaying the whole list from the storage
  -- that they leave has the result, a storage or an error, of replaying it from the first storage.
  pub resume :
      (s : Storage) (xs ys : List CommitOperation) {s' : Storage}
      → Apart xs
      → replay s xs ≡ ok s'
      → replay s' (xs ++ ys) ≡ replay s (xs ++ ys)
  resume s xs ys {s'} a h =
      replay-append s' xs ys (again s' xs (All-Done s xs a h)) ∙ sym (replay-append s xs ys h)
