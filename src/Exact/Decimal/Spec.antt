-- ===== src/Exact/Decimal/Spec.antt =====
-- What the comparisons of decimals mean: a decimal is the fraction `numerator / 10 ^ scale`, read
-- at any scale that both operands reach.
use native.Mathlib.Nat.{pow-le-pow_right, mul-le-mul}
use ffhn.Base.{ℕ, ◌+◌, ◌-◌, ◌*◌, ◌^◌, ◌≤◌, ◌<◌, ◌≡◌, Bool, arith, if◌then◌else◌}
use ffhn.Base.Int.{ℤ, pos, sub_ℕ, abs_ℕ, ◌-ℤ◌}
use ffhn.Exact.Decimal.{DecimalParts, same_sign}

-- What `Decimal` promises of its mantissa and its scale.
pub record IsDecimal (p : DecimalParts) : Type 0 where
  pub coefficient_bound : p.coefficient < 2 ^ 96
  pub scale_bound : p.scale ≤ 28

-- The coefficient at a scale of at least the decimal's own.
abbrev pub scaled : DecimalParts → ℕ → ℕ
scaled p scale = p.coefficient * 10 ^ (scale - p.scale)

abbrev pub signed : Bool → ℕ → ℤ
signed negative n = if negative then sub_ℕ 0 n else pos n

-- The numerator at a scale.
abbrev pub numerator : DecimalParts → ℕ → ℤ
numerator p scale = signed p.negative (scaled p scale)

-- The distance of two decimals at a scale.
abbrev pub apart : DecimalParts → DecimalParts → ℕ → ℕ
apart p q scale = abs_ℕ (numerator p scale -ℤ numerator q scale)

-- The distance of two signed numbers.
unfoldable pub gap : Bool → Bool → ℕ → ℕ → ℕ
gap s t x y = if same_sign s t then (x - y) + (y - x) else x + y

pub abs-sub-signed : (s t : Bool) (x y : ℕ) → abs_ℕ (signed s x -ℤ signed t y) ≡ gap s t x y
unfolding ◌-ℤ◌ gap
abs-sub-signed s t x y = ground arith

pub scaled-le :
    (p : DecimalParts) (scale : ℕ) → IsDecimal p → scale ≤ 28 → scaled p scale ≤ 2 ^ 96 * 10 ^ 28
scaled-le p scale h le =
    let k : p.coefficient ≤ 2 ^ 96 = omega (arith, h.coefficient_bound) in
    let e : scale - p.scale ≤ 28 = omega arith in mul-le-mul k (pow-le-pow_right (omega arith) e)

pub gap-le : (s t : Bool) (x y b : ℕ) → x ≤ b → y ≤ b → gap s t x y ≤ 2 * b
unfolding gap
gap-le s t x y b hx hy = ground arith
