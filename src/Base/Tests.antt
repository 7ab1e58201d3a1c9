-- ===== src/Base/Tests.antt =====
-- Boolean tests on the native numbers, the conditional, and equality as an interface.
use Prim.Native.Nat.{ℕ, ◌≤◌, ◌<◌, compare, Ordering}
use mathlib.Core.Path.{◌≡◌, refl, ap, sym, ◌∙◌}
use mathlib.Core.Logic.{◌↔◌, ◌⊎◌, inl, inr}
use mathlib.Core.Bool.{Bool, true, false, ◌&&◌}
use mathlib.Core.Option.{Option, none, some}
use mathlib.Core.List.{List, [], ◌∷◌}
use native.Mathlib.Omega.{arith}

abbrev pub ltb : ℕ → ℕ → Bool
ltb a b = elim (compare a b) [ Ordering.lt ↦ true | _ ↦ false ]

abbrev pub leb : ℕ → ℕ → Bool
leb a b = elim (compare a b) [ Ordering.gt ↦ false | _ ↦ true ]

infix 50 ◌==◌
abbrev pub ◌==◌ : ℕ → ℕ → Bool
a == b = elim (compare a b) [ Ordering.eq ↦ true | _ ↦ false ]

infix 1 if◌then◌else◌
abbrev pub if◌then◌else◌ {ℓ} : {A : Type ℓ} → Bool → A → A → A
if true then x else y = x
if false then x else y = y

pub if-true :
    {A : Type 0} {b : Bool} (x y : A) {z : A} → b ≡ true → (if b then x else y) ≡ z → x ≡ z
if-true x y h e = ap (λ b. if b then x else y) (sym h) ∙ e

pub when_true {ℓ} : {A : Type ℓ} {b : Bool} (x y : A) → b ≡ true → (if b then x else y) ≡ x
when_true x y h = ap (λ b. if b then x else y) h

pub when_false {ℓ} : {A : Type ℓ} {b : Bool} (x y : A) → b ≡ false → (if b then x else y) ≡ y
when_false x y h = ap (λ b. if b then x else y) h

pub if-false :
    {A : Type 0} {b : Bool} (x y : A) {z : A} → b ≡ false → (if b then x else y) ≡ z → y ≡ z
if-false x y h e = ap (λ b. if b then x else y) (sym h) ∙ e

pub ltb→lt : (a b : ℕ) → ltb a b ≡ true → a < b
ltb→lt a b h = ground arith

pub lt→ltb : (a b : ℕ) → a < b → ltb a b ≡ true
lt→ltb a b h = ground arith

pub leb→le : (a b : ℕ) → leb a b ≡ true → a ≤ b
leb→le a b h = ground arith

pub le→leb : (a b : ℕ) → a ≤ b → leb a b ≡ true
le→leb a b h = ground arith

pub not-leb→lt : (a b : ℕ) → leb a b ≡ false → b < a
not-leb→lt a b h = ground arith

pub ==_iff : (a b : ℕ) → ((a == b) ≡ true) ↔ (a ≡ b)
==_iff a b = ground arith

pub ruleset tests = (arith, ltb→lt, lt→ltb, leb→le, le→leb)

pub Bool-cases : (b : Bool) → (b ≡ true) ⊎ (b ≡ false)
Bool-cases true = inl refl
Bool-cases false = inr refl

pub Option-cases {ℓ} : {A : Type ℓ} (o : Option A) → (o ≡ none) ⊎ ((a : A) × (o ≡ some a))
Option-cases none = inl refl
Option-cases (some a) = inr (a, refl)

pub Ordering-cases : (o : Ordering) → (o ≡ Ordering.lt) ⊎ ((o ≡ Ordering.eq) ⊎ (o ≡ Ordering.gt))
Ordering-cases Ordering.lt = inl refl
Ordering-cases Ordering.eq = inr (inl refl)
Ordering-cases Ordering.gt = inr (inr refl)

-- `PartialEq`, where the source compares values of a type.
pub record Eq {ℓ} (A : Type ℓ) : Type ℓ where
  pub beq : A → A → Bool
  pub beq_iff : (a b : A) → (beq a b ≡ true) ↔ (a ≡ b)

abbrev pub same {ℓ} : {A : Type ℓ} ⦃e : Eq A⦄ → A → A → Bool
same ⦃e⦄ = e.beq

-- A decidable equality gives the interface.
abbrev dec_test {ℓ} : {P : Type ℓ} → Dec P → Bool
dec_test (yes p) = true
dec_test (no p) = false

pub dec_test_iff {ℓ} : {P : Type ℓ} (d : Dec P) → (dec_test d ≡ true) ↔ P
dec_test_iff (yes p) = (λ e. p, λ q. refl)
dec_test_iff (no p) = (λ e. cc, λ q. absurd (p q))

abbrev pub discrete_eq {ℓ} : {A : Type ℓ} → Discrete A → Eq A
discrete_eq d = record { beq = λ a b. dec_test (d a b); beq_iff = λ a b. dec_test_iff (d a b) }

instance abbrev pub nat_eq : Eq ℕ
nat_eq = record { beq = ◌==◌; beq_iff = ==_iff }

module _ {ℓ} {A : Type ℓ} ⦃e : Eq A⦄ where
  abbrev pub same_option : Option A → Option A → Bool
  same_option none none = true
  same_option (some a) (some b) = same a b
  same_option _ _ = false

  pub same_option_iff : (a b : Option A) → (same_option a b ≡ true) ↔ (a ≡ b)
  same_option_iff none none = (λ h. refl, λ h. refl)
  same_option_iff none (some b) = (λ h. cc, λ h. cc)
  same_option_iff (some a) none = (λ h. cc, λ h. cc)
  same_option_iff (some a) (some b) = (λ h. cc ((e.beq_iff a b).0 h), λ h. (e.beq_iff a b).1 (cc))

  abbrev pub same_list : List A → List A → Bool
  same_list [] [] = true
  same_list (a ∷ r) (b ∷ s) = same a b && same_list r s
  same_list _ _ = false

  pub same_list_iff : (a b : List A) → (same_list a b ≡ true) ↔ (a ≡ b)
  same_list_iff [] [] = (λ h. refl, λ h. refl)
  same_list_iff [] (b ∷ s) = (λ h. cc, λ h. cc)
  same_list_iff (a ∷ r) [] = (λ h. cc, λ h. cc)
  same_list_iff (a ∷ r) (b ∷ s) = (
    ground (arith, e.beq_iff a b, same_list_iff r s),
    ground (arith, e.beq_iff a b, same_list_iff r s),
  )

instance abbrev pub option_eq {ℓ} : {A : Type ℓ} ⦃e : Eq A⦄ → Eq (Option A)
option_eq = record { beq = same_option; beq_iff = same_option_iff }

instance abbrev pub list_eq {ℓ} : {A : Type ℓ} ⦃e : Eq A⦄ → Eq (List A)
list_eq = record { beq = same_list; beq_iff = same_list_iff }
