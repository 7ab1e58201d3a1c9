-- ===== src/Policy/Value/Integers.antt =====
-- The exact deltas of integers. A percentage never overflows `Unsigned256`; an absolute delta
-- overflows exactly where the difference is no `i128`.
use native.Mathlib.Nat.{pow-le-pow_right, mul-le-mul}
use ffhn.Base.{
  ℕ, ◌*◌, ◌^◌, ◌≤◌, ◌<◌, ◌≡◌, ◌≢◌, ◌∙◌, ap, false, Option, List, arith, if◌then◌else◌, leb, ◌==◌,
}
use ffhn.Base.Int.{ℤ, pos, pos_part, neg_part, ◌-ℤ◌, abs_ℕ, leb_ℤ}
use ffhn.Exact.Unsigned
use ffhn.Exact.Unsigned.{
  word, value, IsUnsigned, Exact, try_from_u128, checked_mul_u128, multiply_by_power_of_ten,
  at_least,
}
use ffhn.Exact.Unsigned.Product.{
  try_from_u128-Exact, checked_mul_u128-Exact, multiply_by_power_of_ten-Exact, Exact-congr,
}
use ffhn.Exact.Unsigned.Compare.{at_least-value}
use ffhn.Exact.Decimal.Delta.{fits}
use ffhn.Policy.Value.{
  decision, overflow, absolute_difference, compare_percentage_cross_products,
  integer_percentage_delta_at_least, integer_delta_at_least, limbs256,
}

-- The range of `i128`.
pub record IsI128 (a : ℤ) : Type 0 where
  pub above : pos_part a < 2 ^ 127
  pub below : neg_part a ≤ 2 ^ 127

-- For two integers in the range of `i128`, `absolute_difference` is their distance, which is below
-- `2 ^ 128`.
pub absolute_difference_exact :
    (a b : ℤ)
    → IsI128 a
    → IsI128 b
    → (absolute_difference a b ≡ abs_ℕ (a -ℤ b)) × (abs_ℕ (a -ℤ b) < 2 ^ 128)
unfolding absolute_difference ◌-ℤ◌
absolute_difference_exact a b ha hb = (ground arith, ground arith)

abs-le : (a : ℤ) → IsI128 a → abs_ℕ a ≤ 2 ^ 127
abs-le a h = ground arith

nonzero_test : (n : ℕ) → n ≢ 0 → (n == 0) ≡ false
nonzero_test n h = ground arith

-- A `u128` multiplied by a number, on four limbs.
product-Exact :
    (v m : ℕ)
    → v < 2 ^ 128
    → m < 2 ^ 128
    → Exact limbs256
        (v * m)
        (Unsigned.◌>>=◌ (try_from_u128 limbs256 v) (λ value. checked_mul_u128 limbs256 value m))
product-Exact v m hv hm =
    let start =
      fits limbs256 v (try_from_u128 limbs256 v) (try_from_u128-Exact limbs256 v (omega arith))
        (omega arith) in
    rw start.1 (
      Exact-congr limbs256 _ (ap (λ (t : ℕ). t * m) start.3)
        (checked_mul_u128-Exact limbs256 start.0 m hm start.2))

-- For two integers in the range of `i128`, `delta_abs` reports an overflow exactly where their
-- distance is at least `2 ^ 127`, and otherwise decides whether it is at least the threshold.
pub integer_delta_at_least_exact :
    (c p t : ℤ)
    → IsI128 c
    → IsI128 p
    → integer_delta_at_least c p t ≡ (
        if leb (2 ^ 127) (abs_ℕ (c -ℤ p))
        then overflow
        else decision (leb_ℤ t (pos (abs_ℕ (c -ℤ p)))))
unfolding integer_delta_at_least ◌-ℤ◌
integer_delta_at_least_exact c p t hc hp = ground arith

left_fits : (d e : ℕ) → d < 2 ^ 128 → e ≤ 28 → d * 100 * 10 ^ e < word ^ limbs256
left_fits d e h k =
    let h100 : d * 100 ≤ 2 ^ 128 * 100 = omega arith in
    let le : d * 100 * 10 ^ e ≤ 2 ^ 128 * 100 * 10 ^ 28 =
      mul-le-mul h100 (pow-le-pow_right (omega arith) k) in
    omega arith

right_fits : (x y : ℕ) → x ≤ 2 ^ 127 → y < 2 ^ 96 → x * y < word ^ limbs256
right_fits x y h k =
    let k' : y ≤ 2 ^ 96 = omega arith in
    let le : x * y ≤ 2 ^ 127 * 2 ^ 96 = mul-le-mul h k' in omega arith

compare-Exact :
    (x y : ℕ) (l r : Option (List ℕ))
    → Exact limbs256 x l
    → Exact limbs256 y r
    → x < word ^ limbs256
    → y < word ^ limbs256
    → compare_percentage_cross_products l r ≡ decision (leb y x)
unfolding compare_percentage_cross_products
compare-Exact x y l r hl hr lx ly =
    let a = fits limbs256 x l hl lx in
    let b = fits limbs256 y r hr ly in
    rw (a.1, b.1) (ap decision (at_least-value limbs256 a.0 b.0 a.2 b.2 ∙ cc (a.3, b.3)))

-- For two integers in the range of `i128`, the reference not zero, and a percentage `m / 10 ^ e` with
-- `m < 2 ^ 96` and `e ≤ 28`, `delta_pct` decides whether `distance * 100 / reference` is at least the
-- percentage, by cross products, and never overflows.
pub integer_percentage_delta_at_least_exact :
    (c p : ℤ) (m e : ℕ)
    → IsI128 c
    → IsI128 p
    → m < 2 ^ 96
    → e ≤ 28
    → abs_ℕ p ≢ 0
    → integer_percentage_delta_at_least c p (pos m) e
      ≡ decision (leb (abs_ℕ p * m) (abs_ℕ (c -ℤ p) * 100 * 10 ^ e))
unfolding integer_percentage_delta_at_least
integer_percentage_delta_at_least_exact c p m e hc hp hm he nonzero =
    let d = absolute_difference_exact c p hc hp in
    let v = abs_ℕ (c -ℤ p) in
    let small : abs_ℕ p ≤ 2 ^ 127 = abs-le p hp in
    rw (nonzero_test (abs_ℕ p) nonzero, d.0)
      (compare-Exact (v * 100 * 10 ^ e) (abs_ℕ p * m) _ _
        (multiply_by_power_of_ten-Exact limbs256 e (v * 100) _
          (product-Exact v 100 d.1 (omega arith)))
        (product-Exact (abs_ℕ p) m (omega arith) (omega arith)) (left_fits v e d.1 he)
        (right_fits (abs_ℕ p) m small hm))
