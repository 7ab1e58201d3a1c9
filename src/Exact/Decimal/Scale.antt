-- ===== src/Exact/Decimal/Scale.antt =====
-- A comparison at one common scale is the comparison at any other.
use native.Mathlib.Nat.{pow-zero, pow-suc, one-le-pow, mul-le-mul_right, mul-sub}
use ffhn.Base.{
  ℕ, zero, suc, ◌+◌, ◌-◌, ◌*◌, ◌^◌, ◌≤◌, ◌≡◌, sym, ◌∙◌, Bool, arith, ap, leb, leb→le, le→leb,
  not-leb→lt, ◌||◌, Bool-cases, inl, inr,
}
use ffhn.Base.Int.{pos, leb_ℤ}
use ffhn.Exact.Decimal.{DecimalParts, same_sign}
use ffhn.Exact.Decimal.Spec.{scaled, numerator, apart, signed, gap, abs-sub-signed}

pow-add : (b m n : ℕ) → b ^ (m + n) ≡ b ^ m * b ^ n
pow-add b m zero = let e : m + 0 ≡ m = omega arith in rw (e, pow-zero b) (omega arith)
pow-add b m (suc n) =
    let e : m + suc n ≡ suc (m + n) = omega arith in
    rw e (
      omega (
        arith,
        pow-suc b (m + n),
        pow-suc b n,
        ap (λ (t : ℕ). t * b) (pow-add b m n),
        ap (λ (t : ℕ). b ^ m * t) (pow-suc b n),
      ))

pub scaled_up :
    (p : DecimalParts) (m s : ℕ) → p.scale ≤ m → m ≤ s → scaled p s ≡ scaled p m * 10 ^ (s - m)
scaled_up p m s h k =
    let e : s - p.scale ≡ (m - p.scale) + (s - m) = omega arith in
    rw e (omega (arith, ap (λ (t : ℕ). p.coefficient * t) (pow-add 10 (m - p.scale) (s - m))))

pub mul_cancel_leb : (x y k : ℕ) → 1 ≤ k → leb (x * k) (y * k) ≡ leb x y
mul_cancel_leb x y k h = elim (Bool-cases (leb x y)) [
  | inl le ↦ let e : x * k ≤ y * k = mul-le-mul_right k (leb→le x y le) in rw le (le→leb _ _ e)
  | inr gt ↦
      let e : suc y * k ≤ x * k = mul-le-mul_right k (not-leb→lt x y gt) in
      rw gt (ground (arith, e))
]

sub_mul : (x y k : ℕ) → x * k - y * k ≡ (x - y) * k
sub_mul x y k = omega (arith, mul-sub k x y)

gap_scaled : (s t : Bool) (x y k : ℕ) → gap s t (x * k) (y * k) ≡ gap s t x y * k
unfolding gap
gap_scaled s t x y k = elim (Bool-cases (same_sign s t)) [
  | inl e ↦ rw e (omega (arith, sub_mul x y k, sub_mul y x k))
  | inr e ↦ rw e (omega arith)
]

pub signed-leb : (s : Bool) (z g : ℕ) → leb_ℤ (signed s z) (pos g) ≡ (s || leb z g)
signed-leb s z g = ground arith

-- The distance grows with the scale as the numerators do.
pub apart_scaled :
    (p q : DecimalParts) (m s : ℕ)
    → p.scale ≤ m
    → q.scale ≤ m
    → m ≤ s
    → apart p q s ≡ apart p q m * 10 ^ (s - m)
apart_scaled p q m s hp hq le =
    abs-sub-signed p.negative q.negative (scaled p s) (scaled q s)
    ∙ rw (scaled_up p m s hp le, scaled_up q m s hq le)
        (gap_scaled p.negative q.negative (scaled p m) (scaled q m) (10 ^ (s - m))
          ∙ ap (λ (t : ℕ). t * 10 ^ (s - m))
              (sym (abs-sub-signed p.negative q.negative (scaled p m) (scaled q m))))

-- So an order of numerators and distances does not depend on the scale.
pub threshold_scaled :
    (c r t : DecimalParts) (m s : ℕ)
    → c.scale ≤ m
    → r.scale ≤ m
    → t.scale ≤ m
    → m ≤ s
    → leb_ℤ (numerator t s) (pos (apart c r s)) ≡ leb_ℤ (numerator t m) (pos (apart c r m))
threshold_scaled c r t m s hc hr ht le =
    signed-leb t.negative (scaled t s) (apart c r s)
    ∙ rw (scaled_up t m s ht le, apart_scaled c r m s hc hr le)
        (rw
          (mul_cancel_leb (scaled t m) (apart c r m) (10 ^ (s - m))
            (one-le-pow (s - m) 10 (omega arith)))
          (sym (signed-leb t.negative (scaled t m) (apart c r m))))
