-- ===== src/Exact/Unsigned.antt =====
-- `Unsigned<LIMBS>`: `LIMBS` words of 64 bits, the lowest first, as a list. The code indexes two
-- arrays of the same static length; the recursions below go through both lists at once, and the
-- clauses for lists of different lengths are out of the type's reach.
pub mod Sum
pub mod Product
pub mod Compare
use ffhn.Base.{
  ℕ, zero, suc, ◌+◌, ◌-◌, ◌*◌, ◌/◌, ◌%◌, ◌^◌, ◌≤◌, ◌<◌, ◌≡◌, compare, Ordering, Bool, true, false,
  ◌||◌, Option, none, some, List, [], ◌∷◌, length, replicate, All, ltb, leb, ◌==◌, if◌then◌else◌,
}

-- The number of values of a `u64`.
abbrev pub word : ℕ
word = 2 ^ 64

infixl 5 ◌>>=◌
abbrev pub ◌>>=◌ {ℓ κ} : {A : Type ℓ} {B : Type κ} → Option A → (A → Option B) → Option B
none >>= f = none
some a >>= f = f a

-- The number that the limbs stand for.
abbrev pub value : List ℕ → ℕ
value [] = 0
value (x ∷ xs) = x + word * value xs

-- The invariant of the type: `n` limbs, each of them a `u64`.
pub record IsUnsigned (n : ℕ) (limbs : List ℕ) : Type 0 where
  pub count : length limbs ≡ n
  pub words : All (λ x. x < word) limbs

-- A checked operation meets the specification `v` on `n` limbs: a result has the value `v`, and
-- the operation fails exactly where `v` does not fit.
abbrev pub Exact : ℕ → ℕ → Option (List ℕ) → Type 0
Exact n v none = word ^ n ≤ v
Exact n v (some c) = IsUnsigned n c × (value c ≡ v)

-- `overflowing_add`, `overflowing_sub` and `overflowing_mul(2)` of `u64`.
abbrev pub overflowing_add : ℕ → ℕ → ℕ × Bool
overflowing_add a b = ((a + b) % word, leb word (a + b))

abbrev pub overflowing_sub : ℕ → ℕ → ℕ × Bool
overflowing_sub a b = ((a + word - b) % word, ltb a b)

abbrev pub overflowing_double : ℕ → ℕ × Bool
overflowing_double a = (a * 2 % word, leb word (a * 2))

abbrev pub bit_of : Bool → ℕ
bit_of true = 1
bit_of false = 0

-- `ZERO`.
abbrev pub zero_limbs : ℕ → List ℕ
zero_limbs n = replicate n 0

-- The two halves of a `u128`, for `LIMBS` of 0, 1 and more: `get_mut(1)?` fails where there is no
-- second limb.
unfoldable pub try_from_u128 : ℕ → ℕ → Option (List ℕ)
try_from_u128 zero v = if v == 0 then some [] else none
try_from_u128 (suc zero) v = if v / word == 0 then some ((v % word) ∷ []) else none
try_from_u128 (suc (suc n)) v =
    some ((v % word) ∷ (if v / word == 0 then 0 else v / word) ∷ replicate n 0)

-- One round of the loop of `checked_add`: the limb to store and the carry.
pub add_limb : ℕ → ℕ → Bool → ℕ × Bool
add_limb a b carry =
    let (sum, left_carry) = overflowing_add a b in
    let (total, carry_carry) = overflowing_add sum (bit_of carry) in
    (total, left_carry || carry_carry)

-- The loop: the limbs that it stores, and the last carry.
pub add_loop : List ℕ → List ℕ → Bool → List ℕ × Bool
add_loop [] b carry = ([], carry)
add_loop (x ∷ a) [] carry = ([], carry)
add_loop (x ∷ a) (y ∷ b) carry =
    let (s, carry') = add_limb x y carry in
    let (values, last) = add_loop a b carry' in (s ∷ values, last)

abbrev pub unless : List ℕ × Bool → Option (List ℕ)
unless (values, true) = none
unless (values, false) = some values

unfoldable pub checked_add : List ℕ → List ℕ → Option (List ℕ)
unfolding add_loop add_limb
checked_add a b = unless (add_loop a b false)

pub sub_limb : ℕ → ℕ → Bool → ℕ × Bool
sub_limb a b borrow =
    let (difference, left_borrow) = overflowing_sub a b in
    let (rest, borrow_borrow) = overflowing_sub difference (bit_of borrow) in
    (rest, left_borrow || borrow_borrow)

pub sub_loop : List ℕ → List ℕ → Bool → List ℕ × Bool
sub_loop [] b borrow = ([], borrow)
sub_loop (x ∷ a) [] borrow = ([], borrow)
sub_loop (x ∷ a) (y ∷ b) borrow =
    let (d, borrow') = sub_limb x y borrow in
    let (values, last) = sub_loop a b borrow' in (d ∷ values, last)

unfoldable pub checked_sub : List ℕ → List ℕ → Option (List ℕ)
unfolding sub_loop sub_limb
checked_sub a b = unless (sub_loop a b false)

-- The carry of `checked_double` is 0 or 1, and is added without a check.
pub double_loop : List ℕ → Bool → List ℕ × Bool
double_loop [] carry = ([], carry)
double_loop (x ∷ a) carry =
    let (doubled, overflowed) = overflowing_double x in
    let (values, last) = double_loop a overflowed in ((doubled + bit_of carry) ∷ values, last)

unfoldable pub checked_double : List ℕ → Option (List ℕ)
unfolding double_loop
checked_double a = unless (double_loop a false)

-- `product.checked_add(self)` where the lowest bit of the multiplier is set.
abbrev pub add_if_odd : ℕ → List ℕ → List ℕ → Option (List ℕ)
add_if_odd multiplier self product =
    if multiplier % 2 == 1 then checked_add product self else some product

-- `self.checked_double()` where bits of the multiplier are left.
abbrev pub double_if_left : ℕ → List ℕ → Option (List ℕ)
double_if_left multiplier self = if multiplier == 0 then some self else checked_double self

-- The loop of `checked_mul_u128`, with the rounds left.
pub mul_loop : ℕ → List ℕ → ℕ → List ℕ → Option (List ℕ)
mul_loop zero self multiplier product = some product
mul_loop (suc rounds) self multiplier product =
    let next = do
      product' ← add_if_odd multiplier self product
      self' ← double_if_left (multiplier / 2) self
      mul_loop rounds self' (multiplier / 2) product'
    in if multiplier == 0 then some product else next

unfoldable pub checked_mul_u128 : ℕ → List ℕ → ℕ → Option (List ℕ)
unfolding mul_loop checked_add checked_double
checked_mul_u128 n self multiplier = mul_loop 128 self multiplier (zero_limbs n)

-- `for _ in 0..scale { value = value?.checked_mul_u128(10); }`.
unfoldable pub multiply_by_power_of_ten : ℕ → Option (List ℕ) → ℕ → Option (List ℕ)
unfolding checked_mul_u128
multiply_by_power_of_ten n v zero = v
multiply_by_power_of_ten n v (suc scale) =
    multiply_by_power_of_ten n (v >>= λ limbs. checked_mul_u128 n limbs 10) scale

-- `Ord::cmp`: the highest limb that differs decides.
unfoldable pub cmp : List ℕ → List ℕ → Ordering
cmp [] b = Ordering.eq
cmp (x ∷ a) [] = Ordering.eq
cmp (x ∷ a) (y ∷ b) = elim (cmp a b) [ Ordering.eq ↦ compare x y | other ↦ other ]

-- `>=` by `PartialOrd`.
abbrev pub at_least : List ℕ → List ℕ → Bool
at_least a b = elim (cmp a b) [ Ordering.lt ↦ false | _ ↦ true ]
