-- ===== src/Exact/Unsigned/Sum.antt =====
-- `checked_add`, `checked_sub` and `checked_double` compute exactly, or fail exactly on overflow.
use native.Mathlib.Nat.{pow-suc}
use ffhn.Base.{
  ℕ, zero, suc, ◌+◌, ◌*◌, ◌%◌, ◌^◌, ◌<◌, ◌≡◌, ap, Bool, true, false, Option, none, some, List, [],
  ◌∷◌, arith, leb,
}
use ffhn.Exact.Unsigned.{
  word, value, IsUnsigned, Exact, bit_of, add_limb, add_loop, sub_limb, sub_loop, double_loop,
  checked_add, checked_sub, checked_double, unless,
}

-- The capacity of one more limb.
pub capacity-suc : (n : ℕ) → word ^ suc n ≡ word * word ^ n
capacity-suc n = omega (arith, pow-suc word n)

add_limb_exact :
    (x y : ℕ) (carry : Bool)
    → x < word
    → y < word
    → ((add_limb x y carry).0 + word * bit_of (add_limb x y carry).1 ≡ x + y + bit_of carry)
      × ((add_limb x y carry).0 < word)
unfolding add_limb
add_limb_exact x y carry hx hy = ground arith

sub_limb_exact :
    (x y : ℕ) (borrow : Bool)
    → x < word
    → y < word
    → ((sub_limb x y borrow).0 + y + bit_of borrow ≡ x + word * bit_of (sub_limb x y borrow).1)
      × ((sub_limb x y borrow).0 < word)
unfolding sub_limb
sub_limb_exact x y borrow hx hy = ground arith

-- A lower limb and the limbs above it.
IsUnsigned-cons : (n x : ℕ) (a : List ℕ) → x < word → IsUnsigned n a → IsUnsigned (suc n) (x ∷ a)
IsUnsigned-cons n x a h k = record { count = omega arith; words = (h, k.words) }

pub IsUnsigned-tail : (n x : ℕ) (a : List ℕ) → IsUnsigned (suc n) (x ∷ a) → IsUnsigned n a
IsUnsigned-tail n x a h = record { count = omega arith; words = h.words.1 }

-- The loops, for any carry that comes in.
add_loop_exact :
    (n : ℕ) (a b : List ℕ) (carry : Bool)
    → IsUnsigned n a
    → IsUnsigned n b
    → IsUnsigned n (add_loop a b carry).0
      × (value (add_loop a b carry).0 + word ^ n * bit_of (add_loop a b carry).1
          ≡ value a + value b + bit_of carry)
unfolding add_loop
add_loop_exact zero [] [] carry ha hb = (ha, omega arith)
add_loop_exact zero [] (y ∷ b) carry ha hb = absurd (omega arith)
add_loop_exact zero (x ∷ a) b carry ha hb = absurd (omega arith)
add_loop_exact (suc n) [] b carry ha hb = absurd (omega arith)
add_loop_exact (suc n) (x ∷ a) [] carry ha hb = absurd (omega arith)
add_loop_exact (suc n) (x ∷ a) (y ∷ b) carry ha hb =
    let low = add_limb_exact x y carry ha.words.0 hb.words.0 in
    let c = (add_limb x y carry).1 in
    let high = add_loop_exact n a b c (IsUnsigned-tail n x a ha) (IsUnsigned-tail n y b hb) in
    (
      IsUnsigned-cons n _ _ low.1 high.0,
      omega (arith, low.0, high.1, ap (λ (t : ℕ). t * bit_of (add_loop a b c).1) (capacity-suc n)),
    )

sub_loop_exact :
    (n : ℕ) (a b : List ℕ) (borrow : Bool)
    → IsUnsigned n a
    → IsUnsigned n b
    → IsUnsigned n (sub_loop a b borrow).0
      × (value (sub_loop a b borrow).0 + value b + bit_of borrow
          ≡ value a + word ^ n * bit_of (sub_loop a b borrow).1)
unfolding sub_loop
sub_loop_exact zero [] [] borrow ha hb = (ha, omega arith)
sub_loop_exact zero [] (y ∷ b) borrow ha hb = absurd (omega arith)
sub_loop_exact zero (x ∷ a) b borrow ha hb = absurd (omega arith)
sub_loop_exact (suc n) [] b borrow ha hb = absurd (omega arith)
sub_loop_exact (suc n) (x ∷ a) [] borrow ha hb = absurd (omega arith)
sub_loop_exact (suc n) (x ∷ a) (y ∷ b) borrow ha hb =
    let low = sub_limb_exact x y borrow ha.words.0 hb.words.0 in
    let c = (sub_limb x y borrow).1 in
    let high = sub_loop_exact n a b c (IsUnsigned-tail n x a ha) (IsUnsigned-tail n y b hb) in
    (
      IsUnsigned-cons n _ _ low.1 high.0,
      omega (arith, low.0, high.1, ap (λ (t : ℕ). t * bit_of (sub_loop a b c).1) (capacity-suc n)),
    )

double_loop_exact :
    (n : ℕ) (a : List ℕ) (carry : Bool)
    → IsUnsigned n a
    → IsUnsigned n (double_loop a carry).0
      × (value (double_loop a carry).0 + word ^ n * bit_of (double_loop a carry).1
          ≡ 2 * value a + bit_of carry)
unfolding double_loop
double_loop_exact zero [] carry ha = (ha, omega arith)
double_loop_exact zero (x ∷ a) carry ha = absurd (omega arith)
double_loop_exact (suc n) [] carry ha = absurd (omega arith)
double_loop_exact (suc n) (x ∷ a) carry ha =
    let c = leb word (x * 2) in
    let high = double_loop_exact n a c (IsUnsigned-tail n x a ha) in
    let low : (x * 2) % word + word * bit_of c ≡ 2 * x = ground arith in
    (
      IsUnsigned-cons n _ _ (ground arith) high.0,
      omega (arith, low, high.1, ap (λ (t : ℕ). t * bit_of (double_loop a c).1) (capacity-suc n)),
    )

-- Every value fits.
pub value-lt : (n : ℕ) (a : List ℕ) → IsUnsigned n a → value a < word ^ n
value-lt zero [] h = omega arith
value-lt zero (x ∷ a) h = absurd (omega arith)
value-lt (suc n) [] h = absurd (omega arith)
value-lt (suc n) (x ∷ a) h = omega (arith, capacity-suc n, value-lt n a (IsUnsigned-tail n x a h))

-- A carry out of the highest limb is the overflow.
unless-Exact :
    (n v : ℕ) (r : List ℕ × Bool)
    → IsUnsigned n r.0
    → value r.0 + word ^ n * bit_of r.1 ≡ v
    → Exact n v (unless r)
unless-Exact n v (values, true) h e = omega arith
unless-Exact n v (values, false) h e = (h, omega arith)

-- On two numbers of `n` limbs `checked_add` returns the sum where `n` limbs can hold it, and fails
-- exactly where they cannot.
pub checked_add-Exact :
    (n : ℕ) (a b : List ℕ)
    → IsUnsigned n a
    → IsUnsigned n b
    → Exact n (value a + value b) (checked_add a b)
unfolding checked_add
checked_add-Exact n a b ha hb =
    let r = add_loop_exact n a b false ha hb in
    unless-Exact n (value a + value b) (add_loop a b false) r.0 (omega (arith, r.1))

-- On a number of `n` limbs `checked_double` returns the double where it fits, and fails exactly where
-- it does not.
pub checked_double-Exact :
    (n : ℕ) (a : List ℕ) → IsUnsigned n a → Exact n (2 * value a) (checked_double a)
unfolding checked_double
checked_double-Exact n a ha =
    let r = double_loop_exact n a false ha in
    unless-Exact n (2 * value a) (double_loop a false) r.0 (omega (arith, r.1))

-- The specification of a subtraction: the difference, or a failure exactly below zero.
abbrev pub ExactDifference : ℕ → ℕ → ℕ → Option (List ℕ) → Type 0
ExactDifference n x y none = x < y
ExactDifference n x y (some c) = IsUnsigned n c × (value c + y ≡ x)

difference_exact :
    (n x y : ℕ) (r : List ℕ × Bool)
    → IsUnsigned n r.0
    → x < word ^ n
    → value r.0 + y ≡ x + word ^ n * bit_of r.1
    → ExactDifference n x y (unless r)
difference_exact n x y (values, true) h lt e = omega (arith, value-lt n values h)
difference_exact n x y (values, false) h lt e = (h, omega arith)

-- On two numbers of `n` limbs `checked_sub` returns the difference, and fails exactly where it would
-- be negative.
pub checked_sub_exact :
    (n : ℕ) (a b : List ℕ)
    → IsUnsigned n a
    → IsUnsigned n b
    → ExactDifference n (value a) (value b) (checked_sub a b)
unfolding checked_sub
checked_sub_exact n a b ha hb =
    let r = sub_loop_exact n a b false ha hb in
    difference_exact n (value a) (value b) (sub_loop a b false) r.0 (value-lt n a ha)
      (omega (arith, r.1))
