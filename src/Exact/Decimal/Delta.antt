-- ===== src/Exact/Decimal/Delta.antt =====
-- `absolute_delta_at_least` never rounds and never leaves its width.
use ffhn.Base.{
  ℕ, ◌+◌, ◌-◌, ◌*◌, ◌^◌, ◌≤◌, ◌<◌, ◌≡◌, refl, sym, ◌∙◌, max, Bool, true, false, Option, none, some,
  List, arith, ap, leb, Bool-cases, inl, inr, compare, Ordering-cases,
}
use ffhn.Base.Int.{pos, leb_ℤ}
use ffhn.Base.Errors.{ok, then_ok}
use ffhn.Exact.Unsigned.{
  word, value, IsUnsigned, Exact, try_from_u128, multiply_by_power_of_ten, checked_add, checked_sub,
  zero_limbs,
}
use ffhn.Exact.Unsigned.Sum.{checked_add-Exact, checked_sub_exact, ExactDifference}
use ffhn.Exact.Unsigned.Product.{
  try_from_u128-Exact, multiply_by_power_of_ten-Exact, zero_limbs-IsUnsigned, value-zero_limbs,
}
use ffhn.Exact.Unsigned.Compare.{cmp-value, at_least-value}
use ffhn.Exact.Decimal.{
  DecimalParts, Checked, limbs320, align, distance, absolute_delta, absolute_delta_at_least,
  same_sign, scale_difference, delta,
}
use ffhn.Exact.Decimal.Scale.{signed-leb, threshold_scaled}
use ffhn.Exact.Decimal.Spec.{IsDecimal, scaled, numerator, apart, gap, abs-sub-signed, scaled-le}

-- A step that returns limbs of a known value.
abbrev pub Yields : ℕ → Checked (List ℕ) → Type 0
Yields v r = (limbs : List ℕ) × (r ≡ ok limbs) × IsUnsigned limbs320 limbs × (value limbs ≡ v)

pub fits :
    (n v : ℕ) (r : Option (List ℕ))
    → Exact n v r
    → v < word ^ n
    → (limbs : List ℕ) × (r ≡ some limbs) × IsUnsigned n limbs × (value limbs ≡ v)
fits n v none h lt = absurd (omega arith)
fits n v (some limbs) h lt = (limbs, refl, h.0, h.1)

scale_difference_fits : (a b : ℕ) → b ≤ a → scale_difference a b ≡ some (a - b)
unfolding scale_difference
scale_difference_fits a b h = ground arith

difference_fits :
    (n x y : ℕ) (r : Option (List ℕ))
    → ExactDifference n x y r
    → y ≤ x
    → (limbs : List ℕ) × (r ≡ some limbs) × IsUnsigned n limbs × (value limbs ≡ x - y)
difference_fits n x y none h le = absurd (omega arith)
difference_fits n x y (some limbs) h le = (limbs, refl, h.0, omega (arith, h.1))

-- An aligned coefficient is the numerator at the common scale, without its sign.
pub align_exact :
    (p : DecimalParts) (scale : ℕ)
    → IsDecimal p
    → p.scale ≤ scale
    → scale ≤ 28
    → Yields (scaled p scale) (align p scale)
unfolding align
align_exact p scale h le top =
    let start =
      fits limbs320 p.coefficient (try_from_u128 limbs320 p.coefficient)
        (try_from_u128-Exact limbs320 p.coefficient (omega (arith, h.coefficient_bound)))
        (omega (arith, h.coefficient_bound)) in
    let e = scale - p.scale in
    let power =
      fits limbs320 (p.coefficient * 10 ^ e) (multiply_by_power_of_ten limbs320 (some start.0) e)
        (multiply_by_power_of_ten-Exact limbs320 e p.coefficient (some start.0) (start.2, start.3))
        (omega (arith, scaled-le p scale h top)) in
    (
      power.0,
      rw (align, scale_difference_fits scale p.scale le, start.1, power.1) refl,
      power.2,
      power.3,
    )

distance_exact :
    (a b : List ℕ)
    → IsUnsigned limbs320 a
    → IsUnsigned limbs320 b
    → Yields ((value a - value b) + (value b - value a)) (distance a b)
unfolding distance
distance_exact a b ha hb = elim (Ordering-cases (compare (value a) (value b))) [
  | inl less ↦
      let lt : value a < value b = ground arith in
      let d =
        difference_fits limbs320 _ _ (checked_sub b a) (checked_sub_exact limbs320 b a hb ha)
          (omega arith) in
      (d.0, rw (distance, cmp-value limbs320 a b ha hb, less, d.1) refl, d.2, omega (arith, d.3))
  | inr (inl equal) ↦
      let e : value a ≡ value b = ground arith in
      (
        zero_limbs limbs320,
        rw (distance, cmp-value limbs320 a b ha hb, equal) refl,
        zero_limbs-IsUnsigned limbs320,
        omega (arith, value-zero_limbs limbs320),
      )
  | inr (inr greater) ↦
      let lt : value b < value a = ground arith in
      let d =
        difference_fits limbs320 _ _ (checked_sub a b) (checked_sub_exact limbs320 a b ha hb)
          (omega arith) in
      (d.0, rw (distance, cmp-value limbs320 a b ha hb, greater, d.1) refl, d.2, omega (arith, d.3))
]

-- With the same sign the distance is the difference, with opposite signs the sum.
delta_exact :
    (s t : Bool) (a b : List ℕ)
    → IsUnsigned limbs320 a
    → IsUnsigned limbs320 b
    → value a ≤ 2 ^ 96 * 10 ^ 28
    → value b ≤ 2 ^ 96 * 10 ^ 28
    → Yields (gap s t (value a) (value b)) (delta (same_sign s t) a b)
unfolding gap delta
delta_exact s t a b ha hb la lb = elim (Bool-cases (same_sign s t)) [
  | inl same ↦ rw same (distance_exact a b ha hb)
  | inr opposite ↦
      let sum =
        fits limbs320 _ (checked_add a b) (checked_add-Exact limbs320 a b ha hb) (omega arith) in
      rw opposite (sum.0, rw sum.1 refl, sum.2, sum.3)
]

pub absolute_delta_exact :
    (c r : DecimalParts) (scale : ℕ)
    → IsDecimal c
    → IsDecimal r
    → c.scale ≤ scale
    → r.scale ≤ scale
    → scale ≤ 28
    → Yields (apart c r scale) (absolute_delta c r scale)
unfolding absolute_delta
absolute_delta_exact c r scale hc hr lc lr top =
    let a = align_exact c scale hc lc top in
    let b = align_exact r scale hr lr top in
    let d =
      delta_exact c.negative r.negative a.0 b.0 a.2 b.2
        (omega (arith, a.3, scaled-le c scale hc top))
        (omega (arith, b.3, scaled-le r scale hr top)) in
    (
      d.0,
      cc (a.1, b.1, d.1),
      d.2,
      cc (d.3, a.3, b.3, abs-sub-signed c.negative r.negative (scaled c scale) (scaled r scale)),
    )

-- At the scale that the code aligns to.
at_common_scale :
    (c r t : DecimalParts)
    → IsDecimal c
    → IsDecimal r
    → IsDecimal t
    → t.negative ≡ false
    → let m = max (max c.scale r.scale) t.scale in
      absolute_delta_at_least c r t ≡ ok (leb (scaled t m) (apart c r m))
unfolding absolute_delta_at_least
at_common_scale c r t hc hr ht nonneg =
    let m = max (max c.scale r.scale) t.scale in
    let d =
      absolute_delta_exact c r m hc hr (omega arith) (omega arith)
        (omega (arith, hc.scale_bound, hr.scale_bound, ht.scale_bound)) in
    let a =
      align_exact t m ht (omega arith)
        (omega (arith, hc.scale_bound, hr.scale_bound, ht.scale_bound)) in
    rw nonneg (
      then_ok _ d.1
        (then_ok _ a.1 (ap ok (at_least-value limbs320 d.0 a.0 d.2 a.2 ∙ cc (d.3, a.3)))))

below_zero : (c r t : DecimalParts) → t.negative ≡ true → absolute_delta_at_least c r t ≡ ok true
unfolding absolute_delta_at_least
below_zero c r t h = rw h refl

-- For three decimals in range `absolute_delta_at_least` answers, without a fault, whether the distance
-- of the first two is at least the third, all read at any common scale.
pub absolute_delta_at_least_exact :
    (c r t : DecimalParts) (s : ℕ)
    → IsDecimal c
    → IsDecimal r
    → IsDecimal t
    → c.scale ≤ s
    → r.scale ≤ s
    → t.scale ≤ s
    → absolute_delta_at_least c r t ≡ ok (leb_ℤ (numerator t s) (pos (apart c r s)))
absolute_delta_at_least_exact c r t s hc hr ht lc lr lt =
    let m = max (max c.scale r.scale) t.scale in
    elim (Bool-cases t.negative) [
      | inl below ↦
          below_zero c r t below
          ∙ sym (ap ok (signed-leb t.negative (scaled t s) (apart c r s) ∙ rw below refl))
      | inr nonneg ↦
          at_common_scale c r t hc hr ht nonneg
          ∙ sym (
              ap ok (
                threshold_scaled c r t m s (omega arith) (omega arith) (omega arith) (omega arith)
                ∙ signed-leb t.negative (scaled t m) (apart c r m)
                ∙ rw nonneg refl))
    ]
