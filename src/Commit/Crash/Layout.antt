-- ===== src/Commit/Crash/Layout.antt =====
-- graph/manifest/path_validation.rs: no path of the layout is a directory of another one, or staged.
use ffhn.Base.{
  ◌≡◌, refl, ap, sym, ◌∙◌, true, false, List, [], ◌∷◌, same, list_eq, nat_eq, same_list_iff, arith,
  inl, inr, Bool-cases, Option-cases,
}
use ffhn.Base.Errors.{Text}
use ffhn.Base.Texts.{split, strip_prefix, strip_prefix-append, is_some}
use ffhn.Commit.Path.{
  slash, source_state_json, state_json, source_outbox_text, dead_letters_text, outbox_text,
  measurements_text, valid_layout, is_staged, staged_prefix, staged_text,
}
use ffhn.Commit.Store.{Key, key_of, parents}
use ffhn.Commit.Store.Directories.{NoParent}

clash : (x a b : Text) → same x a ≡ true → same x b ≡ true → same a b ≡ false → ⊥
clash x a b h k d =
    cc (d, (same_list_iff a b).1 (sym ((same_list_iff x a).0 h) ∙ (same_list_iff x b).0 k))

-- The first component of a path of several, and the third one of a path of four.
one_no_parent :
    (x : Text) (rest : List Text) (y : Text)
    → valid_layout (x ∷ []) ≡ true
    → valid_layout (x ∷ y ∷ rest) ≡ true
    → ⊥
unfolding valid_layout
one_no_parent x [] y h k = elim (Bool-cases (same x source_outbox_text)) [
  | inl e ↦ clash x _ _ h e refl
  | inr e ↦ clash x source_state_json dead_letters_text h (ground arith) refl
]
one_no_parent x (z ∷ []) y h k = clash x source_state_json measurements_text h (ground arith) refl
one_no_parent x (z ∷ w ∷ []) y h k =
    clash x source_state_json measurements_text h (ground arith) refl
one_no_parent x (z ∷ w ∷ v ∷ rest) y h k = absurd (cc (k))

at_measurements :
    (x y z : Text) (rest : List Text)
    → valid_layout (x ∷ y ∷ z ∷ rest) ≡ true
    → same x measurements_text ≡ true
unfolding valid_layout
at_measurements x y z [] k = ground arith
at_measurements x y z (w ∷ []) k = ground arith
at_measurements x y z (w ∷ v ∷ rest) k = absurd (cc (k))

two_no_parent :
    (x y : Text) (rest : List Text) (z : Text)
    → valid_layout (x ∷ y ∷ []) ≡ true
    → valid_layout (x ∷ y ∷ z ∷ rest) ≡ true
    → ⊥
unfolding valid_layout
two_no_parent x y rest z h k = elim (Bool-cases (same x source_outbox_text)) [
  | inl e ↦ clash x _ _ e (at_measurements x y z rest k) refl
  | inr e ↦
      clash x dead_letters_text measurements_text (ground arith) (at_measurements x y z rest k) refl
]

three_no_parent :
    (x y z w : Text)
    → valid_layout (x ∷ y ∷ z ∷ []) ≡ true
    → valid_layout (x ∷ y ∷ z ∷ w ∷ []) ≡ true
    → ⊥
unfolding valid_layout
three_no_parent x y z w h k = elim (Bool-cases (same z outbox_text)) [
  | inl e ↦ clash z state_json outbox_text (ground arith) e refl
  | inr e ↦ clash z state_json dead_letters_text (ground arith) (ground arith) refl
]

no_layout :
    (x y z w v : Text) (rest : List Text) → valid_layout (x ∷ y ∷ z ∷ w ∷ v ∷ rest) ≡ true → ⊥
unfolding valid_layout
no_layout x y z w v rest k = cc (k)

-- No path of the layout is a directory of another one.
pub layout-NoParent :
    (q k : Key) → valid_layout q ≡ true → valid_layout k ≡ true → NoParent q [] (parents k)
unfolding NoParent
layout-NoParent q [] h e = tt
layout-NoParent q (x ∷ []) h e = tt
layout-NoParent q (x ∷ y ∷ []) h e = (λ d. one_no_parent x [] y (ap valid_layout (sym d) ∙ h) e, tt)
layout-NoParent q (x ∷ y ∷ z ∷ []) h e = (
  λ d. one_no_parent x (z ∷ []) y (ap valid_layout (sym d) ∙ h) e,
  (λ d. two_no_parent x y [] z (ap valid_layout (sym d) ∙ h) e, tt),
)
layout-NoParent q (x ∷ y ∷ z ∷ w ∷ []) h e = (
  λ d. one_no_parent x (z ∷ w ∷ []) y (ap valid_layout (sym d) ∙ h) e,
  (
    λ d. two_no_parent x y (w ∷ []) z (ap valid_layout (sym d) ∙ h) e,
    (λ d. three_no_parent x y z w (ap valid_layout (sym d) ∙ h) e, tt),
  ),
)
layout-NoParent q (x ∷ y ∷ z ∷ w ∷ v ∷ rest) h e = absurd (no_layout x y z w v rest e)

-- No path below the staging directory is in the layout.
no_staged_layout : (rest : List Text) → valid_layout (staged_text ∷ rest) ≡ true → ⊥
unfolding valid_layout
no_staged_layout [] h = cc (h)
no_staged_layout (x ∷ []) h = cc (h)
no_staged_layout (x ∷ y ∷ []) h = cc (h)
no_staged_layout (x ∷ y ∷ z ∷ []) h = cc (h)
no_staged_layout (x ∷ y ∷ z ∷ w ∷ rest) h = cc (h)

pub layout-is_staged : (path : Text) → valid_layout (key_of path) ≡ true → is_staged path ≡ false
unfolding is_staged
layout-is_staged path h = elim (Option-cases (strip_prefix staged_prefix path)) [
  | inl e ↦ ap is_some e
  | inr (rest, e) ↦ absurd (
      no_staged_layout (split slash rest)
        (ap (λ p. valid_layout (key_of p)) (sym (strip_prefix-append staged_prefix path e)) ∙ h))
]
