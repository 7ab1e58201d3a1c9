-- ===== src/Exact/Decimal/Percentage.antt =====
-- `percentage_delta_at_least` multiplies crosswise and never leaves its width.
use native.Mathlib.Nat.{pow-le-pow_right, mul-le-mul, one-le-pow}
use ffhn.Base.{
  ℕ, ◌-◌, ◌*◌, ◌^◌, ◌≤◌, ◌<◌, ◌≡◌, ◌≢◌, refl, sym, ◌∙◌, max, false, Option, some, List, arith, ap,
  leb,
}
use ffhn.Base.Errors.{ok, then_ok}
use ffhn.Exact.Unsigned.{word, value, IsUnsigned, multiply_by_power_of_ten, checked_mul_u128}
use ffhn.Exact.Unsigned.Product.{checked_mul_u128-Exact, multiply_by_power_of_ten-Exact}
use ffhn.Exact.Unsigned.Compare.{at_least-value}
use ffhn.Exact.Decimal.{
  DecimalParts, limbs320, percentage_delta_at_least, decision, decimal_width_value, is_zero,
}
use ffhn.Exact.Decimal.Spec.{IsDecimal, scaled, apart, abs-sub-signed, scaled-le, gap-le}
use ffhn.Exact.Decimal.Delta.{Yields, fits, align_exact, absolute_delta_exact}
use ffhn.Exact.Decimal.Scale.{mul_cancel_leb, scaled_up, apart_scaled}

width_ok :
    {v : ℕ} (r : Option (List ℕ))
    → (limbs : List ℕ) × (r ≡ some limbs) × IsUnsigned limbs320 limbs × (value limbs ≡ v)
    → Yields v (decimal_width_value r)
width_ok r h = (h.0, rw h.1 refl, h.2, h.3)

-- The distance is at most twice the largest aligned coefficient.
apart-le :
    (c r : DecimalParts) (s : ℕ)
    → IsDecimal c
    → IsDecimal r
    → s ≤ 28
    → apart c r s ≤ 2 * (2 ^ 96 * 10 ^ 28)
apart-le c r s hc hr top =
    rw (abs-sub-signed c.negative r.negative (scaled c s) (scaled r s))
      (gap-le c.negative r.negative _ _ _ (scaled-le c s hc top) (scaled-le r s hr top))

-- The left cross product needs fewer than 320 bits.
left_fits : (d e : ℕ) → d ≤ 2 * (2 ^ 96 * 10 ^ 28) → e ≤ 28 → d * 100 * 10 ^ e < word ^ limbs320
left_fits d e h k =
    let h100 : d * 100 ≤ 2 * (2 ^ 96 * 10 ^ 28) * 100 = omega arith in
    let le : d * 100 * 10 ^ e ≤ 2 * (2 ^ 96 * 10 ^ 28) * 100 * 10 ^ 28 =
      mul-le-mul h100 (pow-le-pow_right (omega arith) k) in
    omega arith

-- So does the right one.
right_fits : (x y : ℕ) → x ≤ 2 ^ 96 * 10 ^ 28 → y < 2 ^ 96 → x * y < word ^ limbs320
right_fits x y h k =
    let k' : y ≤ 2 ^ 96 = omega arith in
    let le : x * y ≤ 2 ^ 96 * 10 ^ 28 * 2 ^ 96 = mul-le-mul h k' in omega arith

at_common_scale :
    (c r p : DecimalParts)
    → IsDecimal c
    → IsDecimal r
    → IsDecimal p
    → is_zero r ≡ false
    → p.negative ≡ false
    → let m = max c.scale r.scale in
      percentage_delta_at_least c r p
      ≡ ok (decision (leb (scaled r m * p.coefficient) (apart c r m * 100 * 10 ^ p.scale)))
unfolding percentage_delta_at_least
at_common_scale c r p hc hr hp nonzero nonneg =
    let m = max c.scale r.scale in
    let top : m ≤ 28 = omega (arith, hc.scale_bound, hr.scale_bound) in
    let d = absolute_delta_exact c r m hc hr (omega arith) (omega arith) top in
    let a = align_exact r m hr (omega arith) top in
    let near = apart-le c r m hc hr top in
    let hundredfold = width_ok _ (
      fits limbs320 _ (checked_mul_u128 limbs320 d.0 100)
        (checked_mul_u128-Exact limbs320 d.0 100 (omega arith) d.2) (omega (arith, d.3))) in
    let left = width_ok _ (
      fits limbs320 _ (multiply_by_power_of_ten limbs320 (some hundredfold.0) p.scale)
        (multiply_by_power_of_ten-Exact limbs320 p.scale _ (some hundredfold.0)
          (hundredfold.2, hundredfold.3))
        (left_fits (value d.0) p.scale (omega (arith, d.3, near)) hp.scale_bound)) in
    let right = width_ok _ (
      fits limbs320 _ (checked_mul_u128 limbs320 a.0 p.coefficient)
        (checked_mul_u128-Exact limbs320 a.0 p.coefficient (omega (arith, hp.coefficient_bound))
          a.2)
        (right_fits (value a.0) p.coefficient (omega (arith, a.3, scaled-le r m hr top))
          hp.coefficient_bound)) in
    rw (nonzero, nonneg)
      (then_ok _ d.1 (
        then_ok _ a.1 (
          then_ok _ hundredfold.1 (
            then_ok _ left.1 (
              then_ok _ right.1 (
                ap (λ b. ok (decision b))
                  (at_least-value limbs320 left.0 right.0 left.2 right.2
                    ∙ cc (left.3, right.3, d.3, a.3))))))))

cross_scaled :
    (x y k p e : ℕ) → 1 ≤ k → leb (x * k * p) (y * k * 100 * e) ≡ leb (x * p) (y * 100 * e)
cross_scaled x y k p e h =
    let l : x * k * p ≡ x * p * k = omega arith in
    let r : y * k * 100 * e ≡ y * 100 * e * k = omega arith in
    rw (l, r) (mul_cancel_leb (x * p) (y * 100 * e) k h)

-- For three decimals in range, the reference not zero and the percentage not negative,
-- `percentage_delta_at_least` answers, without a fault, whether `distance * 100 / reference` is at
-- least the percentage, by cross products at any common scale of the two values.
pub percentage_delta_at_least_exact :
    (c r p : DecimalParts) (s : ℕ)
    → IsDecimal c
    → IsDecimal r
    → IsDecimal p
    → c.scale ≤ s
    → r.scale ≤ s
    → r.coefficient ≢ 0
    → p.negative ≡ false
    → percentage_delta_at_least c r p
      ≡ ok (decision (leb (scaled r s * p.coefficient) (apart c r s * 100 * 10 ^ p.scale)))
unfolding is_zero
percentage_delta_at_least_exact c r p s hc hr hp lc lr nonzero nonneg =
    let m = max c.scale r.scale in
    at_common_scale c r p hc hr hp (ground arith) nonneg
    ∙ ap (λ b. ok (decision b))
        (sym (
          rw
            (
              apart_scaled c r m s (omega arith) (omega arith) (omega arith),
              scaled_up r m s (omega arith) (omega arith),
            )
            (cross_scaled (scaled r m) (apart c r m) (10 ^ (s - m)) p.coefficient (10 ^ p.scale)
              (one-le-pow (s - m) 10 (omega arith)))))
