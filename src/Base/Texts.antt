-- ===== src/Base/Texts.antt =====
-- Methods of `str` that the source uses, on the bytes of a text.
use Prim.Native.Nat.{ℕ}
use mathlib.Core.Path.{◌≡◌, refl, ap, sym, ◌∙◌}
use mathlib.Core.Logic.{inl, inr}
use mathlib.Core.Bool.{Bool, true, false}
use mathlib.Core.Option.{Option, none, some}
use mathlib.Core.List.{List, [], ◌∷◌, ◌++◌}
use native.Mathlib.Omega.{arith}
use ffhn.Base.Tests.{if◌then◌else◌, ◌==◌, same, list_eq, nat_eq, Bool-cases, if-true, if-false}
use ffhn.Base.Errors.{Text}

abbrev pub map_option {ℓ κ} : {A : Type ℓ} {B : Type κ} → (A → B) → Option A → Option B
map_option f none = none
map_option f (some a) = some (f a)

abbrev pub is_some {ℓ} : {A : Type ℓ} → Option A → Bool
is_some none = false
is_some (some a) = true

-- `strip_prefix` and `starts_with`.
abbrev pub strip_prefix : Text → Text → Option Text
strip_prefix [] value = some value
strip_prefix (p ∷ prefix) [] = none
strip_prefix (p ∷ prefix) (c ∷ value) = if p == c then strip_prefix prefix value else none

abbrev pub starts_with : Text → Text → Bool
starts_with prefix value = is_some (strip_prefix prefix value)

abbrev pub strip_suffix : Text → Text → Option Text
strip_suffix suffix [] = if same suffix [] then some [] else none
strip_suffix suffix (c ∷ value) =
    let rest = strip_suffix suffix value in
    if same suffix (c ∷ value) then some [] else map_option (λ stem. c ∷ stem) rest

-- `split_once` and `contains`, with a nonempty pattern.
abbrev pub split_once : Text → Text → Option (Text × Text)
split_once pattern [] = none
split_once pattern (c ∷ value) =
    let rest = split_once pattern value in
    elim (strip_prefix pattern (c ∷ value)) [
      | some after ↦ some ([], after)
      | none ↦ map_option (λ parts. (c ∷ parts.0, parts.1)) rest
    ]

abbrev pub contains : Text → Text → Bool
contains pattern value = is_some (split_once pattern value)

abbrev pub push_front : ℕ → List Text → List Text
push_front c [] = (c ∷ []) ∷ []
push_front c (part ∷ parts) = (c ∷ part) ∷ parts

-- `split(separator)`.
abbrev pub split : ℕ → Text → List Text
split separator [] = [] ∷ []
split separator (c ∷ value) =
    let rest = split separator value in if c == separator then [] ∷ rest else push_front c rest

-- `join(separator)`.
abbrev pub join : ℕ → List Text → Text
join separator [] = []
join separator (part ∷ []) = part
join separator (part ∷ next ∷ parts) = part ++ (separator ∷ join separator (next ∷ parts))

join-push_front : (s c : ℕ) (parts : List Text) → join s (push_front c parts) ≡ c ∷ join s parts
join-push_front s c [] = refl
join-push_front s c (p ∷ []) = refl
join-push_front s c (p ∷ q ∷ parts) = refl

push_front-cons :
    (c : ℕ) (parts : List Text) → (p : Text) × (ps : List Text) × (push_front c parts ≡ p ∷ ps)
push_front-cons c [] = (c ∷ [], [], refl)
push_front-cons c (p ∷ ps) = (c ∷ p, ps, refl)

pub split-cons : (s : ℕ) (value : Text) → (p : Text) × (ps : List Text) × (split s value ≡ p ∷ ps)
split-cons s [] = ([], [], refl)
split-cons s (c ∷ value) = elim (Bool-cases (c == s)) [
  | inl h ↦ ([], split s value, ground arith)
  | inr h ↦ let (p, ps, e) = push_front-cons c (split s value) in (p, ps, ground (arith, e))
]

join-empty_front :
    (s : ℕ) (parts : List Text)
    → ((p : Text) × (ps : List Text) × (parts ≡ p ∷ ps))
    → join s ([] ∷ parts) ≡ s ∷ join s parts
join-empty_front s [] (p, ps, e) = cc
join-empty_front s (q ∷ parts) h = refl

pub join-split : (s : ℕ) (value : Text) → join s (split s value) ≡ value
join-split s [] = refl
join-split s (c ∷ value) = ground (
  arith,
  join-split s value,
  join-push_front s c (split s value),
  join-empty_front s (split s value) (split-cons s value),
)

pub split-injective : (s : ℕ) (v w : Text) → split s v ≡ split s w → v ≡ w
split-injective s v w h = sym (join-split s v) ∙ ap (join s) h ∙ join-split s w

pub strip_prefix-append :
    (prefix value : Text) {rest : Text}
    → strip_prefix prefix value ≡ some rest
    → value ≡ prefix ++ rest
strip_prefix-append [] value h = cc (h)
strip_prefix-append (p ∷ prefix) [] h = absurd (cc (h))
strip_prefix-append (p ∷ prefix) (c ∷ value) {rest} h = elim (Bool-cases (p == c)) [
  | inl e ↦
      let same_first : p ≡ c = ground arith in
      let same_rest : value ≡ prefix ++ rest = strip_prefix-append prefix value (if-true _ _ e h) in
      cc (same_first, same_rest)
  | inr e ↦ let q : none ≡ some rest = if-false _ _ e h in absurd (cc (q))
]
