-- ===== src/Commit/Store/Directories.antt =====
-- The directories on the way to a file: what opening them changes.
use ffhn.Base.{
  ◌≡◌, ◌≢◌, ◌⊎◌, inl, inr, refl, ap, sym, ◌∙◌, true, false, Option, none, some, List, [], ◌∷◌, ◌++◌,
  same, list_eq, nat_eq, if◌then◌else◌, same_list_iff, Bool-cases,
}
use ffhn.Base.Errors.{Text, ok, ◌>>=◌, ◌>>◌, >>=-eq-ok, then_ok}
use ffhn.Commit.Store.{
  Node, directory, special, regular, Key, Storage, put, open_existing_child, open_or_create_child,
  create_missing, need_directory, open_components,
}

-- The directories on the way to a file stand.
unfoldable pub AreOpen : Storage → Key → List Text → Type 0
AreOpen s dir [] = Unit
AreOpen s dir (component ∷ rest) =
    (s (dir ++ (component ∷ [])) ≡ some directory) × AreOpen s (dir ++ (component ∷ [])) rest

-- The key is none of the directories on the way to a file.
unfoldable pub NoParent : Key → Key → List Text → Type 0
NoParent q dir [] = Unit
NoParent q dir (component ∷ rest) =
    (q ≢ dir ++ (component ∷ [])) × NoParent q (dir ++ (component ∷ [])) rest

same_key_refl : (k : Key) → same k k ≡ true
same_key_refl k = (same_list_iff k k).1 refl

different_keys : (k q : Key) → q ≢ k → same k q ≡ false
different_keys k q h = elim (Bool-cases (same k q)) [
  | inl e ↦ absurd (h (sym ((same_list_iff k q).0 e)))
  | inr e ↦ e
]

pub put-there : (k : Key) (n : Option Node) (s : Storage) → put k n s k ≡ n
put-there k n s = ap (λ b. if b then n else s k) (same_key_refl k)

pub put-elsewhere : (k q : Key) (n : Option Node) (s : Storage) → q ≢ k → put k n s q ≡ s q
put-elsewhere k q n s h = ap (λ b. if b then n else s q) (different_keys k q h)

-- A directory that stands is opened, and one that is missing is made.
Opened : Storage → Key → Option Node → Storage → Type 0
Opened s k n s' =
    ((s k ≡ none) × (s' ≡ put k (some directory) s)) ⊎ ((s k ≡ some directory) × (s' ≡ s))

Opened-child :
    (s : Storage) (k : Key) (n : Option Node) {s' : Storage}
    → s k ≡ n
    → (open_existing_child (create_missing n k s) k >>= λ u. ok (create_missing n k s)) ≡ ok s'
    → Opened s k n s'
unfolding Opened open_existing_child
Opened-child s k none e h =
    let (u, e₁, k₁) = >>=-eq-ok (open_existing_child (create_missing none k s) k) _ h in
    inl (e, cc (k₁))
Opened-child s k (some directory) e h =
    let (u, e₁, k₁) = >>=-eq-ok (open_existing_child s k) _ h in inr (e, cc (k₁))
Opened-child s k (some special) e h =
    let (u, e₁, k₁) = >>=-eq-ok (open_existing_child s k) _ h in absurd (cc (e₁, e))
Opened-child s k (some (regular bytes)) e h =
    let (u, e₁, k₁) = >>=-eq-ok (open_existing_child s k) _ h in absurd (cc (e₁, e))

child-cases :
    (s : Storage) (k : Key) {s' : Storage} → open_or_create_child s k ≡ ok s' → Opened s k (s k) s'
unfolding open_or_create_child
child-cases s k h = Opened-child s k (s k) refl h

-- A missing directory is made by the opening, and one that stands is left.
child-open :
    (s : Storage) (k : Key) {s' : Storage}
    → open_or_create_child s k ≡ ok s'
    → s' k ≡ some directory
unfolding Opened
child-open s k h = elim (child-cases s k h) [
  | inl (e, q) ↦ ap (λ x. x k) q ∙ put-there k (some directory) s
  | inr (e, q) ↦ ap (λ x. x k) q ∙ e
]

-- The opening changes no other entry.
child-elsewhere :
    (s : Storage) (k q : Key) {s' : Storage} → open_or_create_child s k ≡ ok s' → q ≢ k → s' q ≡ s q
unfolding Opened
child-elsewhere s k q h d = elim (child-cases s k h) [
  | inl (e, p) ↦ ap (λ x. x q) p ∙ put-elsewhere k q (some directory) s d
  | inr (e, p) ↦ ap (λ x. x q) p
]

pub key-cases : (q k : Key) → (q ≡ k) ⊎ (q ≢ k)
key-cases q k = elim (Bool-cases (same k q)) [
  | inl e ↦ inl (sym ((same_list_iff k q).0 e))
  | inr e ↦ inr (λ d. cc (e, (same_list_iff k q).1 (sym d)))
]

-- The opening keeps what stands.
child-keeps :
    (s : Storage) (k q : Key) (n : Node) {s' : Storage}
    → open_or_create_child s k ≡ ok s'
    → s q ≡ some n
    → s' q ≡ some n
unfolding Opened
child-keeps s k q n h e = elim (child-cases s k h) [
  | inl (free, p) ↦ elim (key-cases q k) [
    | inl d ↦ absurd (cc (free, e, ap s d))
    | inr d ↦ ap (λ x. x q) p ∙ (put-elsewhere k q (some directory) s d ∙ e)
  ]
  | inr (d, p) ↦ ap (λ x. x q) p ∙ e
]

pub components-keep :
    (s : Storage) (dir : Key) (rest : List Text) (q : Key) (n : Node) {s' : Storage}
    → open_components true s dir rest ≡ ok s'
    → s q ≡ some n
    → s' q ≡ some n
unfolding open_components
components-keep s dir [] q n h e = cc (h, e)
components-keep s dir (c ∷ rest) q n h e =
    let (s₁, e₁, k₁) = >>=-eq-ok (open_or_create_child s (dir ++ (c ∷ []))) _ h in
    components-keep s₁ (dir ++ (c ∷ [])) rest q n k₁ (child-keeps s (dir ++ (c ∷ [])) q n e₁ e)

-- After the opening the directories on the way stand.
pub components-AreOpen :
    (s : Storage) (dir : Key) (rest : List Text) {s' : Storage}
    → open_components true s dir rest ≡ ok s'
    → AreOpen s' dir rest
unfolding open_components AreOpen
components-AreOpen s dir [] h = tt
components-AreOpen s dir (c ∷ rest) h =
    let (s₁, e₁, k₁) = >>=-eq-ok (open_or_create_child s (dir ++ (c ∷ []))) _ h in
    (
      components-keep s₁ (dir ++ (c ∷ [])) rest _ directory k₁ (child-open s _ e₁),
      components-AreOpen s₁ (dir ++ (c ∷ [])) rest k₁,
    )

-- The opening leaves the entries that are none of the directories on the way.
pub components-elsewhere :
    (s : Storage) (dir : Key) (rest : List Text) (q : Key) {s' : Storage}
    → open_components true s dir rest ≡ ok s'
    → NoParent q dir rest
    → s' q ≡ s q
unfolding open_components NoParent
components-elsewhere s dir [] q h d = cc (h)
components-elsewhere s dir (c ∷ rest) q h d =
    let (s₁, e₁, k₁) = >>=-eq-ok (open_or_create_child s (dir ++ (c ∷ []))) _ h in
    components-elsewhere s₁ (dir ++ (c ∷ [])) rest q k₁ d.1 ∙ child-elsewhere s _ q e₁ d.0

-- Where the directories stand already, the opening changes nothing.
child-open_already :
    (s : Storage) (k : Key) → s k ≡ some directory → open_or_create_child s k ≡ ok s
unfolding open_or_create_child open_existing_child
child-open_already s k e =
    let opened : Option Node → Storage = λ n. create_missing n k s in
    ap (λ n. open_existing_child (opened n) k >>= λ u. ok (opened n)) e
    ∙ ap (λ n. need_directory n >>= λ u. ok s) e

pub components-open_already :
    (s : Storage) (dir : Key) (rest : List Text)
    → AreOpen s dir rest
    → open_components true s dir rest ≡ ok s
unfolding AreOpen open_components
components-open_already s dir [] h = refl
components-open_already s dir (c ∷ rest) h =
    then_ok (λ opened. open_components true opened (dir ++ (c ∷ [])) rest)
      (child-open_already s _ h.0) (components-open_already s _ rest h.1)

-- Without creation the opening changes nothing.
pub components-unchanged :
    (s : Storage) (dir : Key) (rest : List Text) {s' : Storage}
    → open_components false s dir rest ≡ ok s'
    → s' ≡ s
unfolding open_components
components-unchanged s dir [] h = cc (h)
components-unchanged s dir (c ∷ rest) h =
    let (s₁, e₁, k₁) = >>=-eq-ok (open_existing_child s (dir ++ (c ∷ [])) >> ok s) _ h in
    let (u, e₂, k₂) = >>=-eq-ok (open_existing_child s (dir ++ (c ∷ []))) _ e₁ in
    components-unchanged s₁ (dir ++ (c ∷ [])) rest k₁ ∙ cc (k₂)

pub AreOpen-keep :
    (s s' : Storage) (dir : Key) (rest : List Text)
    → ((q : Key) → s q ≡ some directory → s' q ≡ some directory)
    → AreOpen s dir rest
    → AreOpen s' dir rest
unfolding AreOpen
AreOpen-keep s s' dir [] keep h = tt
AreOpen-keep s s' dir (c ∷ rest) keep h = (keep _ h.0, AreOpen-keep s s' _ rest keep h.1)
