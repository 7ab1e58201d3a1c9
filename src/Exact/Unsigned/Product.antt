-- ===== src/Exact/Unsigned/Product.antt =====
-- `try_from_u128`, `checked_mul_u128` and `multiply_by_power_of_ten` compute exactly, or fail
-- exactly on overflow.
use native.Mathlib.Nat.{pow-suc, one-le-pow}
use ffhn.Base.{
  ℕ, zero, suc, ◌+◌, ◌*◌, ◌/◌, ◌%◌, ◌^◌, ◌≤◌, ◌<◌, ◌≡◌, refl, ap, subst, ◌≢◌, Option, none, some,
  List, All, replicate, length-replicate, arith, Bool-cases, inl, inr, ◌==◌, if◌then◌else◌,
}
use ffhn.Exact.Unsigned.{
  word, value, IsUnsigned, Exact, ◌>>=◌, zero_limbs, try_from_u128, add_if_odd, double_if_left,
  mul_loop, checked_mul_u128, multiply_by_power_of_ten,
}
use ffhn.Exact.Unsigned.Sum.{checked_add-Exact, checked_double-Exact}

zero_words : (n : ℕ) → All (λ x. x < word) (replicate n 0)
zero_words zero = tt
zero_words (suc n) = (omega arith, zero_words n)

pub zero_limbs-IsUnsigned : (n : ℕ) → IsUnsigned n (zero_limbs n)
zero_limbs-IsUnsigned n = record { count = length-replicate n 0; words = zero_words n }

pub value-zero_limbs : (n : ℕ) → value (zero_limbs n) ≡ 0
value-zero_limbs zero = refl
value-zero_limbs (suc n) = omega (arith, value-zero_limbs n)

-- `try_from_u128` of a number below `2 ^ 128` keeps it where `n` limbs hold it, and fails exactly
-- where they do not.
pub try_from_u128-Exact : (n v : ℕ) → v < word * word → Exact n v (try_from_u128 n v)
unfolding try_from_u128
try_from_u128-Exact zero v h = elim (Bool-cases (v == 0)) [
  | inl e ↦ rw e (record { count = refl; words = tt }, ground arith)
  | inr e ↦ rw e (ground arith)
]
try_from_u128-Exact (suc zero) v h = elim (Bool-cases (v / word == 0)) [
  | inl e ↦ rw e (record { count = refl; words = (omega arith, tt) }, ground arith)
  | inr e ↦ rw e (ground arith)
]
try_from_u128-Exact (suc (suc n)) v h = (
  record {
    count = omega (arith, length-replicate {A = ℕ} n 0);
    words = (omega arith, (ground arith, zero_words n));
  },
  ground (arith, value-zero_limbs n),
)

-- A step that fails only past the bound, and a rest that is exact.
then-Exact :
    (n u v : ℕ) (r : Option (List ℕ)) (f : List ℕ → Option (List ℕ))
    → Exact n u r
    → u ≤ v
    → ((c : List ℕ) → IsUnsigned n c → value c ≡ u → Exact n v (f c))
    → Exact n v (r >>= f)
then-Exact n u v none f h le k = omega arith
then-Exact n u v (some c) f h le k = k c h.0 h.1

pub Exact-congr : (n : ℕ) {u v : ℕ} (r : Option (List ℕ)) → u ≡ v → Exact n u r → Exact n v r
Exact-congr n r e h = subst (λ t. Exact n t r) e h

add_if_odd-Exact :
    (n m : ℕ) (self product : List ℕ)
    → IsUnsigned n self
    → IsUnsigned n product
    → Exact n (value product + value self * (m % 2)) (add_if_odd m self product)
add_if_odd-Exact n m self product hs hp = elim (Bool-cases (m % 2 == 1)) [
  | inl odd ↦
      let e : m % 2 ≡ 1 = ground arith in
      rw (odd, e) (Exact-congr n _ (omega arith) (checked_add-Exact n product self hp hs))
  | inr even ↦ let e : m % 2 ≡ 0 = ground arith in rw (even, e) (hp, omega arith)
]

-- The factor by which the doubling grows `self`.
growth : ℕ → ℕ
growth m = if m == 0 then 1 else 2

double_if_left-Exact :
    (n m : ℕ) (self : List ℕ)
    → IsUnsigned n self
    → Exact n (growth m * value self) (double_if_left m self)
unfolding growth
double_if_left-Exact n m self hs = elim (Bool-cases (m == 0)) [
  | inl done ↦ rw done (hs, omega arith)
  | inr left ↦ rw left (checked_double-Exact n self hs)
]

growth-mul : (m x : ℕ) → growth (m / 2) * x * (m / 2) ≡ x * (2 * (m / 2))
unfolding growth
growth-mul m x = elim (Bool-cases (m / 2 == 0)) [
  | inl done ↦ let e : m / 2 ≡ 0 = ground arith in rw (done, e) (omega arith)
  | inr left ↦ rw left (omega arith)
]

growth-le : (m x : ℕ) → m ≢ 0 → growth (m / 2) * x ≤ x * m
unfolding growth
growth-le m x h = elim (Bool-cases (m / 2 == 0)) [
  | inl done ↦ rw done (grind arith)
  | inr left ↦ rw left (grind arith)
]

halves : (m x : ℕ) → x * m ≡ x * (2 * (m / 2)) + x * (m % 2)
halves m x = let e : m ≡ 2 * (m / 2) + m % 2 = omega arith in omega (arith, ap (λ (t : ℕ). x * t) e)

-- The loop adds `self * multiplier` to the product, in at most as many rounds as there are bits.
mul_loop-Exact :
    (n rounds : ℕ) (self : List ℕ) (m : ℕ) (product : List ℕ)
    → m < 2 ^ rounds
    → IsUnsigned n self
    → IsUnsigned n product
    → Exact n (value product + value self * m) (mul_loop rounds self m product)
unfolding mul_loop
mul_loop-Exact n zero self m product h hs hp =
    let e : m ≡ 0 = omega arith in (hp, rw e (omega arith))
mul_loop-Exact n (suc rounds) self m product h hs hp = elim (Bool-cases (m == 0)) [
  | inl done ↦ let e : m ≡ 0 = ground arith in rw (done, e) (hp, omega arith)
  | inr left ↦ rw left (
      then-Exact n _ _ (add_if_odd m self product) _ (add_if_odd-Exact n m self product hs hp)
        (omega (arith, halves m (value self)))
        λ p hp' ep.
          then-Exact n _ _ (double_if_left (m / 2) self) _ (double_if_left-Exact n (m / 2) self hs)
            (omega (arith, growth-le m (value self) (ground arith)))
            λ s hs' es.
              Exact-congr n _
                (omega (
                  arith,
                  ep,
                  halves m (value self),
                  growth-mul m (value self),
                  ap (λ (t : ℕ). t * (m / 2)) es,
                ))
                (mul_loop-Exact n rounds s (m / 2) p (omega (arith, pow-suc 2 rounds)) hs' hp'))
]

-- On a number of `n` limbs and a `u128`, `checked_mul_u128` returns the product where `n` limbs hold
-- it, and fails exactly where they do not.
pub checked_mul_u128-Exact :
    (n : ℕ) (self : List ℕ) (m : ℕ)
    → m < 2 ^ 128
    → IsUnsigned n self
    → Exact n (value self * m) (checked_mul_u128 n self m)
unfolding checked_mul_u128
checked_mul_u128-Exact n self m h hs =
    Exact-congr n _ (omega (arith, value-zero_limbs n))
      (mul_loop-Exact n 128 self m (zero_limbs n) h hs (zero_limbs-IsUnsigned n))

overflow_stays : (n scale : ℕ) → multiply_by_power_of_ten n none scale ≡ none
unfolding multiply_by_power_of_ten
overflow_stays n zero = refl
overflow_stays n (suc scale) = overflow_stays n scale

power_grows : (u scale : ℕ) → u ≤ u * 10 ^ scale
power_grows u scale = grind (arith, one-le-pow scale 10)

ten-pow-suc : (u scale : ℕ) → u * 10 * 10 ^ scale ≡ u * 10 ^ suc scale
ten-pow-suc u scale = omega (arith, ap (λ (t : ℕ). u * t) (pow-suc 10 scale))

-- Given a step that is exact for `u` on `n` limbs, `multiply_by_power_of_ten` is exact for
-- `u * 10 ^ scale`: it returns the product where it fits, and fails exactly where it does not.
pub multiply_by_power_of_ten-Exact :
    (n scale u : ℕ) (r : Option (List ℕ))
    → Exact n u r
    → Exact n (u * 10 ^ scale) (multiply_by_power_of_ten n r scale)
unfolding multiply_by_power_of_ten
multiply_by_power_of_ten-Exact n zero u r h = Exact-congr n r (omega arith) h
multiply_by_power_of_ten-Exact n (suc scale) u none h =
    rw (overflow_stays n scale) (omega (arith, power_grows u (suc scale)))
multiply_by_power_of_ten-Exact n (suc scale) u (some c) h = Exact-congr n _ (ten-pow-suc u scale) (
    multiply_by_power_of_ten-Exact n scale (u * 10) (checked_mul_u128 n c 10) (
      Exact-congr n _ (ap (λ (t : ℕ). t * 10) h.1)
        (checked_mul_u128-Exact n c 10 (omega arith) h.0)))
