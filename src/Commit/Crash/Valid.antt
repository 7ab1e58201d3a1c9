-- ===== src/Commit/Crash/Valid.antt =====
-- graph/manifest.rs: in a validated manifest no operation touches the final path of another one.
use ffhn.Base.{
  ◌≡◌, ◌≢◌, refl, ap, ◌∙◌, true, false, ◌||◌, not, List, [], ◌∷◌, All, same, list_eq, nat_eq,
  same_list_iff, arith, inl, inr, Bool-cases, if-false,
}
use ffhn.Base.Errors.{Text, contract, ok, refuse_if, >>=-eq-ok, refused}
use ffhn.Base.Texts.{split-injective}
use ffhn.Commit.Path.{slash, valid_layout, validate_final_path, is_staged}
use ffhn.Commit.Operation.{CommitOperation, install, remove, final_path, validate_operation}
use ffhn.Commit.Store.{key_of}
use ffhn.Commit.Manifest.{PathCheck, is_in, check_paths}
use ffhn.Commit.Crash.{Untouched, IsMove}
use ffhn.Commit.Crash.Resume.{Apart}
use ffhn.Commit.Crash.Layout.{layout-NoParent, layout-is_staged}

other_key : (p q : Text) → p ≢ q → key_of p ≢ key_of q
other_key p q d e = d (split-injective slash p q e)

-- What the later operations and their own validation need of a final path.
unfoldable pub HasLayout : Text → Type 0
HasLayout path = (valid_layout (key_of path) ≡ true) × (is_staged path ≡ false)

-- What `CommitOperation::validate` tells of the paths.
unfoldable pub HasPaths : CommitOperation → Type 0
HasPaths (install final staged prior result) =
    HasLayout final × (is_staged staged ≡ true) × (final ≢ staged)
HasPaths (remove final prior) = HasLayout final

layout-ok :
    (path : Text) {u : Unit {0}}
    → validate_final_path path ≡ ok u
    → valid_layout (key_of path) ≡ true
unfolding validate_final_path
layout-ok path h = elim (Bool-cases (valid_layout (key_of path))) [
  | inl e ↦ e
  | inr e ↦ absurd (cc (if-false _ _ e h))
]

pub operation-HasPaths : (op : CommitOperation) → validate_operation op ≡ ok tt → HasPaths op
unfolding validate_operation HasPaths HasLayout
operation-HasPaths (install final staged prior result) h =
    let (u₁, e₁, k₁) =
      >>=-eq-ok
        (refuse_if (same final staged)
          (contract "commit install final_path and staged_path must differ"))
        _ h in
    let (u₂, e₂, k₂) =
      >>=-eq-ok
        (refuse_if (is_staged final || not (is_staged staged)) (
          contract
            "commit install paths must keep final files outside and staged files inside the reserved staged directory"))
        _ k₁ in
    let (u₃, e₃, k₃) = >>=-eq-ok (validate_final_path final) _ k₂ in
    let outside : (is_staged final || not (is_staged staged)) ≡ false = refused _ _ e₂ in
    (
      (layout-ok final e₃, ground arith),
      ground arith,
      λ d. cc (refused _ _ e₁, (same_list_iff final staged).1 d),
    )
operation-HasPaths (remove final prior) h =
    let (u₁, e₁, k₁) = >>=-eq-ok (validate_final_path final) _ h in
    (layout-ok final e₁, layout-is_staged final (layout-ok final e₁))

pub path-Untouched :
    (p : Text) (op : CommitOperation)
    → HasLayout p
    → HasPaths op
    → p ≢ final_path op
    → Untouched (key_of p) op
unfolding HasLayout HasPaths Untouched
path-Untouched p (install final staged prior result) (l, o) ((k, x), t, m) d = (
  other_key p final d,
  other_key p staged (λ e. cc (ap is_staged e, o, t)),
  layout-NoParent (key_of p) (key_of final) l k,
)
path-Untouched p (remove final prior) (l, o) (k, x) d =
    (other_key p final d, layout-NoParent (key_of p) (key_of final) l k)

pub All-Untouched :
    (p : Text) (ops : List CommitOperation)
    → HasLayout p
    → All HasPaths ops
    → All (λ op. p ≢ final_path op) ops
    → All (Untouched (key_of p)) ops
All-Untouched p [] l h d = tt
All-Untouched p (op ∷ ops) l h d = (path-Untouched p op l h.0 d.0, All-Untouched p ops l h.1 d.1)

HasPaths-IsMove : (op : CommitOperation) → HasPaths op → IsMove op
unfolding HasPaths IsMove
HasPaths-IsMove (install final staged prior result) (l, t, m) = other_key final staged m
HasPaths-IsMove (remove final prior) h = tt

pub HasPaths-HasLayout : (op : CommitOperation) → HasPaths op → HasLayout (final_path op)
unfolding HasPaths
HasPaths-HasLayout (install final staged prior result) h = h.0
HasPaths-HasLayout (remove final prior) h = h

-- The loop goes on with the final path among those that it has seen.
next_check :
    (c : PathCheck) (op : CommitOperation) (ops : List CommitOperation) {c' : PathCheck}
    → check_paths c (op ∷ ops) ≡ ok c'
    → (is_in (final_path op) c.final_paths ≡ false)
      × ((next : PathCheck) × (next.final_paths ≡ final_path op ∷ c.final_paths)
          × (check_paths next ops ≡ ok c'))
unfolding check_paths
next_check c (install final staged prior result) ops h =
    let (u, e, k) =
      >>=-eq-ok
        (refuse_if (is_in final c.final_paths || is_in staged c.staged_paths) (
          contract
            "commit manifest must not apply more than one operation to a final or staged path"))
        _ h in
    let free : (is_in final c.final_paths || is_in staged c.staged_paths) ≡ false = refused _ _ e in
    (ground arith, (_, refl, k))
next_check c (remove final prior) ops h =
    let (u, e, k) =
      >>=-eq-ok
        (refuse_if (is_in final c.final_paths) (
          contract
            "commit manifest must not apply more than one operation to a final or staged path"))
        _ h in
    (refused _ _ e, (_, refl, k))

-- A path that was seen is not the final path of a later operation.
seen-other :
    (p : Text) (c : PathCheck) (ops : List CommitOperation) {c' : PathCheck}
    → is_in p c.final_paths ≡ true
    → check_paths c ops ≡ ok c'
    → All (λ op. p ≢ final_path op) ops
seen-other p c [] s h = tt
seen-other p c (op ∷ ops) s h =
    let (free, (next, f, k)) = next_check c op ops h in
    (
      λ e. cc (free, s, ap (λ x. is_in x c.final_paths) e),
      seen-other p next ops (ap (is_in p) f ∙ ground arith) k,
    )

pub paths-Apart :
    (c : PathCheck) (ops : List CommitOperation) {c' : PathCheck}
    → check_paths c ops ≡ ok c'
    → All HasPaths ops
    → Apart ops
unfolding Apart
paths-Apart c [] h a = tt
paths-Apart c (op ∷ ops) h a =
    let (free, (next, f, k)) = next_check c op ops h in
    let seen : is_in (final_path op) next.final_paths ≡ true =
      ap (is_in (final_path op)) f
      ∙ ground (arith, (same_list_iff (final_path op) (final_path op)).1 refl) in
    (
      HasPaths-IsMove op a.0,
      All-Untouched (final_path op) ops (HasPaths-HasLayout op a.0) a.1
          (seen-other (final_path op) next ops seen k),
      paths-Apart next ops k a.1,
    )
