-- ===== src/Base/Errors.antt =====
-- `CoreError` (crates/ffhn-core/src/error.rs) and `Result`, whose operator `?` is a `do` block.
use Prim.Native.Nat.{ℕ}
use Prim.Native.String.{String}
use mathlib.Core.Path.{◌≡◌, refl, ap, ◌∙◌}
use mathlib.Core.Bool.{Bool, true, false, not}
use mathlib.Core.Option.{Option, none, some}
use mathlib.Core.List.{List, [], ◌∷◌}
use mathlib.Core.Logic.{◌⊎◌, inl, inr}

-- A UTF-8 text of the program, as its bytes.
abbrev pub Text : Type 0
Text = List ℕ

-- The messages of `format!` are kept as the template and the text that it takes; the wrapped
-- errors of other crates are kept without their content.
pub data CoreError : Type 0 where
  io json toml url time_format time_parse : CoreError
  contract internal policy_invariant : String → CoreError
  contract_about : String → Text → CoreError

pub data Result {ℓ} (E : Type 0) (A : Type ℓ) : Type ℓ where
  ok : A → Result E A
  err : E → Result E A

abbrev pub CoreResult : Type 0 → Type 0
CoreResult A = Result CoreError A

infixl 5 ◌>>=◌ ◌>>◌
abbrev pub ◌>>=◌ {ℓ κ} :
    {E : Type 0} {A : Type ℓ} {B : Type κ} → Result E A → (A → Result E B) → Result E B
err failure >>= next = err failure
ok value >>= next = next value

abbrev pub ◌>>◌ {ℓ} : {E : Type 0} {B : Type ℓ} → Result E (Unit {0}) → Result E B → Result E B
check >> next = check >>= λ unit. next

-- `if test { return Err(error) }`.
abbrev pub refuse_if : {E : Type 0} → Bool → E → Result E (Unit {0})
refuse_if true e = err e
refuse_if false e = ok tt

-- `Option::ok_or`.
abbrev pub ok_or {ℓ} : {E : Type 0} {A : Type ℓ} → Option A → E → Result E A
ok_or (some a) e = ok a
ok_or none e = err e

abbrev pub is_ok {ℓ} : {E : Type 0} {A : Type ℓ} → Result E A → Bool
is_ok (ok a) = true
is_ok (err e) = false

pub Result-cases {ℓ} :
    {E : Type 0} {A : Type ℓ} (r : Result E A) → ((a : A) × (r ≡ ok a)) ⊎ ((e : E) × (r ≡ err e))
Result-cases (ok a) = inl (a, refl)
Result-cases (err e) = inr (e, refl)

-- Inversion of a successful step.
pub >>=-eq-ok {ℓ κ} :
    {E : Type 0} {A : Type ℓ} {B : Type κ} (step : Result E A) (next : A → Result E B) {result : B}
    → (step >>= next) ≡ ok result
    → (value : A) × (step ≡ ok value) × (next value ≡ ok result)
>>=-eq-ok (err failure) next h = cc
>>=-eq-ok (ok value) next h = (value, refl, h)

-- `for x in xs { check(x)?; }`.
abbrev pub check_each {ℓ} :
    {E : Type 0} {A : Type ℓ} → (A → Result E (Unit {0})) → List A → Result E (Unit {0})
check_each check [] = ok tt
check_each check (x ∷ xs) = check x >> check_each check xs

-- `map_err`.
abbrev pub map_err {ℓ} : {E F : Type 0} {A : Type ℓ} → (E → F) → Result E A → Result F A
map_err f (ok a) = ok a
map_err f (err e) = err (f e)

-- A step that is known to succeed, and what follows it.
pub then_ok {ℓ κ} :
    {E : Type 0} {A : Type ℓ} {B : Type κ} {m : Result E A} (f : A → Result E B) {a : A}
    {r : Result E B}
    → m ≡ ok a
    → f a ≡ r
    → (m >>= f) ≡ r
then_ok f h k = ap (λ x. x >>= f) h ∙ k

-- A check that passed.
pub refused : {E : Type 0} (b : Bool) (e : E) → refuse_if b e ≡ ok tt → b ≡ false
refused true e h = absurd (cc (h))
refused false e h = refl

pub accepted : {E : Type 0} (b : Bool) (e : E) → refuse_if (not b) e ≡ ok tt → b ≡ true
accepted true e h = refl
accepted false e h = absurd (cc (h))

-- An option that was there.
pub found-ok {ℓ} :
    {E : Type 0} {A : Type ℓ} (o : Option A) (e : E) {a : A} → ok_or o e ≡ ok a → o ≡ some a
found-ok none e h = absurd (cc (h))
found-ok (some b) e h = cc (h)
