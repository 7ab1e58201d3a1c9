-- ===== src/Exact/Decimal.antt =====
-- `DecimalParts` and the two exact comparisons of decimals, on `Unsigned320`.
pub mod Spec
pub mod Scale
pub mod Delta
pub mod Percentage
use ffhn.Base.{
  ℕ, zero, suc, ◌+◌, ◌-◌, ◌*◌, ◌^◌, ◌≤◌, ◌<◌, ◌≡◌, max, Bool, true, false, ◌&&◌, not, Option, none,
  some, List, leb, ltb, ◌==◌, if◌then◌else◌, Ordering,
}
use ffhn.Base.Int.{ℤ, abs_ℕ, is_negative}
use ffhn.Base.Errors.{Result, ok, err, ◌>>=◌, ◌>>◌, refuse_if, ok_or}
use ffhn.Exact.Unsigned
use ffhn.Exact.Unsigned.{
  try_from_u128, checked_add, checked_sub, checked_mul_u128, multiply_by_power_of_ten, cmp,
  at_least, zero_limbs,
}

pub record DecimalParts : Type 0 where
  pub negative : Bool
  pub coefficient : ℕ
  pub scale : ℕ

-- The arguments are what `Decimal::mantissa` and `Decimal::scale` return.
unfoldable pub from_decimal : ℤ → ℕ → DecimalParts
from_decimal mantissa scale = record {
  negative = is_negative mantissa && not (abs_ℕ mantissa == 0);
  coefficient = abs_ℕ mantissa;
  scale = scale;
}

unfoldable pub is_zero : DecimalParts → Bool
is_zero p = p.coefficient == 0

pub data DecimalPercentageResult : Type 0 where
  decision : Bool → DecimalPercentageResult
  unavailable zero_reference : DecimalPercentageResult

pub data ExactNumericInvariantError : Type 0 where
  alignment_scale_regression width_proof_violation : ExactNumericInvariantError

abbrev pub Checked : Type 0 → Type 0
Checked A = Result ExactNumericInvariantError A

-- The limbs of `Unsigned320`.
abbrev pub limbs320 : ℕ
limbs320 = 5

abbrev pub decimal_width_value : {A : Type 0} → Option A → Checked A
decimal_width_value v = ok_or v width_proof_violation

-- `a.checked_sub(b)` of `u32`.
pub scale_difference : ℕ → ℕ → Option ℕ
scale_difference a b = if ltb a b then none else some (a - b)

pub align : DecimalParts → ℕ → Checked (List ℕ)
align parts scale = do
  exponent ← ok_or (scale_difference scale parts.scale) alignment_scale_regression
  limbs ← decimal_width_value (try_from_u128 limbs320 parts.coefficient)
  decimal_width_value (multiply_by_power_of_ten limbs320 (some limbs) exponent)

abbrev pub same_sign : Bool → Bool → Bool
same_sign true b = b
same_sign false b = not b

-- The `match` on the comparison of the aligned coefficients.
pub distance : List ℕ → List ℕ → Checked (List ℕ)
distance current reference = elim (cmp current reference) [
  | Ordering.lt ↦ decimal_width_value (checked_sub reference current)
  | Ordering.eq ↦ ok (zero_limbs limbs320)
  | Ordering.gt ↦ decimal_width_value (checked_sub current reference)
]

-- The distance for operands of the same sign, or of opposite signs.
pub delta : Bool → List ℕ → List ℕ → Checked (List ℕ)
delta same current reference =
    if same then distance current reference else decimal_width_value (checked_add current reference)

pub absolute_delta : DecimalParts → DecimalParts → ℕ → Checked (List ℕ)
absolute_delta current reference scale = do
  current_coefficient ← align current scale
  reference_coefficient ← align reference scale
  delta (same_sign current.negative reference.negative) current_coefficient reference_coefficient

unfoldable pub absolute_delta_at_least : DecimalParts → DecimalParts → DecimalParts → Checked Bool
unfolding absolute_delta align scale_difference distance delta
absolute_delta_at_least current reference threshold = if threshold.negative then ok true else (do
  let scale = max (max current.scale reference.scale) threshold.scale
  difference ← absolute_delta current reference scale
  threshold' ← align threshold scale
  ok (at_least difference threshold'))

unfoldable pub percentage_delta_at_least :
    DecimalParts → DecimalParts → DecimalParts → Checked DecimalPercentageResult
unfolding absolute_delta align scale_difference distance delta is_zero
percentage_delta_at_least current reference percentage =
    if is_zero reference
    then ok zero_reference
    else if percentage.negative
    then ok unavailable
    else (do
      let value_scale = max current.scale reference.scale
      difference ← absolute_delta current reference value_scale
      reference' ← align reference value_scale
      hundredfold ← decimal_width_value (checked_mul_u128 limbs320 difference 100)
      left ←
          decimal_width_value
            (multiply_by_power_of_ten limbs320 (some hundredfold) percentage.scale)
      right ← decimal_width_value (checked_mul_u128 limbs320 reference' percentage.coefficient)
      ok (decision (at_least left right)))
