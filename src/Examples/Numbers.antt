-- ===== src/Examples/Numbers.antt =====
-- The exact numbers, the typed values and the retry delay at concrete inputs.
use ffhn.Base.{
  ℕ, ◌-◌, ◌*◌, ◌^◌, ◌≡◌, refl, true, false, List, [], ◌∷◌, compare, leb, arith, if◌then◌else◌, min,
}
use ffhn.Base.Int.{pos, negsuc, abs_ℕ, ◌-ℤ◌, leb_ℤ}
use ffhn.Base.Errors.{ok}
use ffhn.Exact.Unsigned.{value, IsUnsigned, Exact, cmp, checked_mul_u128}
use ffhn.Exact.Unsigned.Product.{checked_mul_u128-Exact}
use ffhn.Exact.Unsigned.Compare.{cmp-value}
use ffhn.Exact.Decimal.{
  DecimalParts, absolute_delta_at_least, percentage_delta_at_least, DecimalPercentageResult,
}
use ffhn.Exact.Decimal.Spec.{IsDecimal, scaled, numerator, apart}
use ffhn.Exact.Decimal.Delta.{absolute_delta_at_least_exact}
use ffhn.Exact.Decimal.Percentage.{percentage_delta_at_least_exact}
use ffhn.Policy.Value.{
  decision, overflow, integer_delta_at_least, integer_percentage_delta_at_least,
}
use ffhn.Policy.Value.Integers.{
  IsI128, integer_delta_at_least_exact, integer_percentage_delta_at_least_exact,
}
use ffhn.Delivery.Record.{DeliveryPolicy}
use ffhn.Retry.{capped_delay, capped_delay-doubling}

-- The largest number of two limbs, and a small one.
abbrev full : List ℕ
full = (2 ^ 64 - 1) ∷ (2 ^ 64 - 1) ∷ []

abbrev seven : List ℕ
seven = 7 ∷ 1 ∷ []

full-IsUnsigned : IsUnsigned 2 full
full-IsUnsigned = record { count = refl; words = (omega arith, (omega arith, tt)) }

seven-IsUnsigned : IsUnsigned 2 seven
seven-IsUnsigned = record { count = refl; words = (omega arith, (omega arith, tt)) }

checked_mul_u128-Exact_example : Exact 2 (value seven * 10) (checked_mul_u128 2 seven 10)
checked_mul_u128-Exact_example = checked_mul_u128-Exact 2 seven 10 (omega arith) seven-IsUnsigned

cmp-value_example : cmp full seven ≡ compare (value full) (value seven)
cmp-value_example = cmp-value 2 full seven full-IsUnsigned seven-IsUnsigned

-- `-1.5`, `2.25` and `3`.
abbrev minus_one_half : DecimalParts
minus_one_half = record { coefficient = 15; negative = true; scale = 1 }

abbrev two_quarter : DecimalParts
two_quarter = record { coefficient = 225; negative = false; scale = 2 }

abbrev three : DecimalParts
three = record { coefficient = 3; negative = false; scale = 0 }

minus_one_half-IsDecimal : IsDecimal minus_one_half
minus_one_half-IsDecimal = record { coefficient_bound = omega arith; scale_bound = omega arith }

two_quarter-IsDecimal : IsDecimal two_quarter
two_quarter-IsDecimal = record { coefficient_bound = omega arith; scale_bound = omega arith }

three-IsDecimal : IsDecimal three
three-IsDecimal = record { coefficient_bound = omega arith; scale_bound = omega arith }

absolute_delta_at_least_exact_example :
    absolute_delta_at_least minus_one_half two_quarter three
    ≡ ok (leb_ℤ (numerator three 2) (pos (apart minus_one_half two_quarter 2)))
absolute_delta_at_least_exact_example =
    absolute_delta_at_least_exact minus_one_half two_quarter three 2 minus_one_half-IsDecimal
      two_quarter-IsDecimal three-IsDecimal (omega arith) (omega arith) (omega arith)

percentage_delta_at_least_exact_example :
    percentage_delta_at_least minus_one_half two_quarter three
    ≡ ok (
        DecimalPercentageResult.decision
          (leb (scaled two_quarter 2 * 3) (apart minus_one_half two_quarter 2 * 100 * 10 ^ 0)))
percentage_delta_at_least_exact_example =
    percentage_delta_at_least_exact minus_one_half two_quarter three 2 minus_one_half-IsDecimal
      two_quarter-IsDecimal three-IsDecimal (omega arith) (omega arith) (ground arith) refl

-- The ends of the range of `i128`.
least-IsI128 : IsI128 (negsuc (2 ^ 127 - 1))
least-IsI128 = record { above = omega arith; below = omega arith }

greatest-IsI128 : IsI128 (pos (2 ^ 127 - 1))
greatest-IsI128 = record { above = omega arith; below = omega arith }

integer_delta_at_least_exact_example :
    integer_delta_at_least (negsuc (2 ^ 127 - 1)) (pos (2 ^ 127 - 1)) (pos 5) ≡ (
      if leb (2 ^ 127) (abs_ℕ (negsuc (2 ^ 127 - 1) -ℤ pos (2 ^ 127 - 1)))
      then overflow
      else decision (leb_ℤ (pos 5) (pos (abs_ℕ (negsuc (2 ^ 127 - 1) -ℤ pos (2 ^ 127 - 1))))))
integer_delta_at_least_exact_example =
    integer_delta_at_least_exact (negsuc (2 ^ 127 - 1)) (pos (2 ^ 127 - 1)) (pos 5) least-IsI128
      greatest-IsI128

integer_percentage_delta_at_least_exact_example :
    integer_percentage_delta_at_least (negsuc (2 ^ 127 - 1)) (pos (2 ^ 127 - 1)) (pos 25) 1
    ≡ decision (
        leb
          (abs_ℕ (pos (2 ^ 127 - 1)) * 25)
          (abs_ℕ (negsuc (2 ^ 127 - 1) -ℤ pos (2 ^ 127 - 1)) * 100 * 10 ^ 1))
integer_percentage_delta_at_least_exact_example =
    integer_percentage_delta_at_least_exact (negsuc (2 ^ 127 - 1)) (pos (2 ^ 127 - 1)) 25 1
      least-IsI128 greatest-IsI128 (omega arith) (omega arith) (omega arith)

abbrev backoff : DeliveryPolicy
backoff = record {
  max_pending = 10;
  max_attempts = 3;
  base_backoff_ms = 100;
  max_backoff_ms = 250;
  jitter_ratio = [];
}

capped_delay-doubling_example : capped_delay backoff 3 ≡ min (100 * 2 ^ (3 - 1)) 250
capped_delay-doubling_example = capped_delay-doubling backoff 3 (omega arith) (omega arith)
