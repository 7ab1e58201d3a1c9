-- ===== src/Policy/Value.antt =====
-- policy/value.rs: typed values, their order and their exact deltas.
pub mod Integers
pub mod Decimals
use Prim.Native.String.{String}
use ffhn.Base.{
  ℕ, ◌+◌, ◌-◌, ◌*◌, ◌%◌, ◌^◌, ◌≡◌, Bool, true, false, ◌&&◌, ◌||◌, Option, none, some, List, [],
  Ordering, same, list_eq, nat_eq, leb, ltb, ◌==◌, if◌then◌else◌, compare, not,
}
use ffhn.Base.Int.{ℤ, pos, negsuc, pos_part, neg_part, ◌-ℤ◌, abs_ℕ, is_negative, ltb_ℤ, leb_ℤ}
use ffhn.Base.Errors.{Text, Result, ok, err, ◌>>=◌, ok_or}
use ffhn.Exact.Unsigned
use ffhn.Exact.Unsigned.{try_from_u128, checked_mul_u128, multiply_by_power_of_ten, at_least}
use ffhn.Exact.Decimal.{
  DecimalParts, Checked, DecimalPercentageResult, from_decimal, absolute_delta_at_least,
  percentage_delta_at_least,
}
use ffhn.Policy.Types.{DeclaredType, TypeParams, Observation, ValueLib}

pub data ArithmeticResult : Type 0 where
  decision : Bool → ArithmeticResult
  unavailable overflow zero_reference : ArithmeticResult

-- `i128::checked_sub` and `i128::checked_abs`.
abbrev pub i128_range : ℤ → Bool
i128_range a = leb (pos_part a) (2 ^ 127 - 1) && leb (neg_part a) (2 ^ 127)

unfoldable pub checked_sub : ℤ → ℤ → Option ℤ
checked_sub a b = let d = a -ℤ b in if i128_range d then some d else none

unfoldable pub checked_abs : ℤ → Option ℤ
checked_abs a = if i128_range (pos (abs_ℕ a)) then some (pos (abs_ℕ a)) else none

abbrev pub cmp_ℤ : ℤ → ℤ → Ordering
cmp_ℤ a b = compare (pos_part a + neg_part b) (pos_part b + neg_part a)

abbrev pub same_sign : ℤ → ℤ → Bool
same_sign a b = if is_negative a then is_negative b else not (is_negative b)

-- `abs_diff`, or the sum of two `unsigned_abs`, which wraps as a `u128` does.
unfoldable pub absolute_difference : ℤ → ℤ → ℕ
absolute_difference left right =
    if same_sign left right then abs_ℕ (left -ℤ right) else (abs_ℕ left + abs_ℕ right) % 2 ^ 128

unfoldable pub compare_percentage_cross_products :
    Option (List ℕ) → Option (List ℕ) → ArithmeticResult
compare_percentage_cross_products none right = overflow
compare_percentage_cross_products (some left) none = overflow
compare_percentage_cross_products (some left) (some right) = decision (at_least left right)

-- The limbs of `Unsigned256`.
abbrev pub limbs256 : ℕ
limbs256 = 4

-- The percentage is given by its mantissa and its scale.
unfoldable pub integer_percentage_delta_at_least : ℤ → ℤ → ℤ → ℕ → ArithmeticResult
unfolding absolute_difference compare_percentage_cross_products
integer_percentage_delta_at_least current previous mantissa scale =
    if abs_ℕ previous == 0
    then zero_reference
    else if is_negative mantissa
    then unavailable
    else compare_percentage_cross_products
        (multiply_by_power_of_ten limbs256
          (Unsigned.◌>>=◌ (try_from_u128 limbs256 (absolute_difference current previous))
            (λ value. checked_mul_u128 limbs256 value 100))
          scale)
        (Unsigned.◌>>=◌ (try_from_u128 limbs256 (abs_ℕ previous))
          (λ value. checked_mul_u128 limbs256 value (abs_ℕ mantissa)))

-- `current.checked_sub(previous).and_then(i128::checked_abs)`, and the test.
unfoldable pub integer_delta_at_least : ℤ → ℤ → ℤ → ArithmeticResult
unfolding checked_sub checked_abs
integer_delta_at_least current previous threshold =
    elim (Unsigned.◌>>=◌ (checked_sub current previous) checked_abs) [
      | none ↦ overflow
      | some delta ↦ decision (leb_ℤ threshold delta)
    ]

module _ (lib : ValueLib) where
  open lib use {
    Decimal, mantissa, scale, decimal_cmp, decimal_zero, Version, version_cmp, version_text,
    Instant, instant_cmp, parse_integer, parse_decimal, parse_version, parse_instant, trim,
    parse_canonical_value,
  }

  pub data PolicyValue : Type 0 where
    text : Text → PolicyValue
    integer : ℤ → PolicyValue
    decimal : Decimal → PolicyValue
    money : Decimal → Text → PolicyValue
    semver : Version → PolicyValue
    datetime : Instant → PolicyValue

  -- `PolicyValue::compare`.
  unfoldable pub compare_values : PolicyValue → PolicyValue → Option Ordering
  compare_values (integer a) (integer b) = some (cmp_ℤ a b)
  compare_values (decimal a) (decimal b) = some (decimal_cmp a b)
  compare_values (money a left_currency) (money b right_currency) =
      if same left_currency right_currency then some (decimal_cmp a b) else none
  compare_values (semver a) (semver b) = some (version_cmp a b)
  compare_values (datetime a) (datetime b) = some (instant_cmp a b)
  compare_values _ _ = none

  abbrev is_lt : Ordering → Bool
  is_lt Ordering.lt = true
  is_lt _ = false

  abbrev is_eq : Ordering → Bool
  is_eq Ordering.eq = true
  is_eq _ = false

  unfoldable pub is_negative_numeric : PolicyValue → Bool
  is_negative_numeric (integer a) = ltb_ℤ a (pos 0)
  is_negative_numeric (decimal a) = is_lt (decimal_cmp a decimal_zero)
  is_negative_numeric (money a currency) = is_lt (decimal_cmp a decimal_zero)
  is_negative_numeric _ = false

  unfoldable pub canonical_identity_eq : PolicyValue → PolicyValue → Bool
  canonical_identity_eq (text a) (text b) = same a b
  canonical_identity_eq (integer a) (integer b) = is_eq (cmp_ℤ a b)
  canonical_identity_eq (decimal a) (decimal b) = is_eq (decimal_cmp a b)
  canonical_identity_eq (money a left_currency) (money b right_currency) =
      is_eq (decimal_cmp a b) && same left_currency right_currency
  canonical_identity_eq (semver a) (semver b) = same (version_text a) (version_text b)
  canonical_identity_eq (datetime a) (datetime b) = is_eq (instant_cmp a b)
  canonical_identity_eq _ _ = false

  abbrev pub parts : Decimal → DecimalParts
  parts d = from_decimal (mantissa d) (scale d)

  unfoldable pub decimal_absolute_delta_at_least :
      Decimal → Decimal → Decimal → Checked ArithmeticResult
  decimal_absolute_delta_at_least current previous threshold = do
    at_least ← absolute_delta_at_least (parts current) (parts previous) (parts threshold)
    ok (decision at_least)

  abbrev pub arithmetic_of : DecimalPercentageResult → ArithmeticResult
  arithmetic_of (DecimalPercentageResult.decision b) = decision b
  arithmetic_of DecimalPercentageResult.unavailable = unavailable
  arithmetic_of DecimalPercentageResult.zero_reference = zero_reference

  unfoldable pub decimal_percentage_delta_at_least :
      Decimal → Decimal → Decimal → Checked ArithmeticResult
  decimal_percentage_delta_at_least current previous percentage = do
    result ← percentage_delta_at_least (parts current) (parts previous) (parts percentage)
    ok (arithmetic_of result)

  unfoldable pub exact_abs_delta_at_least :
      PolicyValue → PolicyValue → PolicyValue → Checked ArithmeticResult
  unfolding decimal_absolute_delta_at_least integer_delta_at_least
  exact_abs_delta_at_least (integer current) (integer previous) (integer threshold) =
      ok (integer_delta_at_least current previous threshold)
  exact_abs_delta_at_least (decimal current) (decimal previous) (decimal threshold) =
      decimal_absolute_delta_at_least current previous threshold
  exact_abs_delta_at_least (money current cc) (money previous pc) (money threshold tc) =
      if same cc pc && same cc tc
      then decimal_absolute_delta_at_least current previous threshold
      else ok unavailable
  exact_abs_delta_at_least _ _ _ = ok unavailable

  unfoldable pub exact_percentage_delta_at_least :
      PolicyValue → PolicyValue → Decimal → Checked ArithmeticResult
  unfolding decimal_percentage_delta_at_least
  exact_percentage_delta_at_least (integer current) (integer previous) percentage =
      ok (
        integer_percentage_delta_at_least current previous (mantissa percentage) (scale percentage))
  exact_percentage_delta_at_least (decimal current) (decimal previous) percentage =
      decimal_percentage_delta_at_least current previous percentage
  exact_percentage_delta_at_least (money current cc) (money previous pc) percentage =
      if same cc pc
      then decimal_percentage_delta_at_least current previous percentage
      else ok unavailable
  exact_percentage_delta_at_least _ _ _ = ok unavailable

  unfoldable pub parse_canonical_value_as_policy_value :
      DeclaredType → TypeParams → Text → Result String PolicyValue
  parse_canonical_value_as_policy_value DeclaredType.text params canonical = ok (text canonical)
  parse_canonical_value_as_policy_value DeclaredType.integer params canonical = do
    value ← ok_or (parse_integer canonical) "canonical integer is invalid"
    ok (integer value)
  parse_canonical_value_as_policy_value DeclaredType.decimal params canonical = do
    value ← ok_or (parse_decimal canonical) "canonical decimal is invalid"
    ok (decimal value)
  parse_canonical_value_as_policy_value DeclaredType.money params canonical = do
    amount ← ok_or (parse_decimal canonical) "canonical money amount is invalid"
    currency ← ok_or params.currency "money type_params.currency is missing"
    ok (money amount currency)
  parse_canonical_value_as_policy_value DeclaredType.semver params canonical = do
    value ← ok_or (parse_version canonical) "canonical semantic version is invalid"
    ok (semver value)
  parse_canonical_value_as_policy_value DeclaredType.datetime params canonical = do
    value ← ok_or (parse_instant canonical) "canonical datetime is invalid"
    ok (datetime value)

  unfoldable pub parse_config_value : DeclaredType → TypeParams → Text → Result String PolicyValue
  unfolding parse_canonical_value_as_policy_value
  parse_config_value declared_type params raw = do
    canonical ← parse_canonical_value declared_type params raw
    parse_canonical_value_as_policy_value declared_type params canonical

  unfoldable pub parse_observation_value : Observation → Result String PolicyValue
  unfolding parse_canonical_value_as_policy_value
  parse_observation_value o =
      parse_canonical_value_as_policy_value o.declared_type o.type_params o.canonical_value

  unfoldable pub parse_percentage : Text → Result String Decimal
  parse_percentage raw =
      if not (same (trim raw) raw) || same raw []
      then err "must be a non-empty invariant decimal string"
      else ok_or (parse_decimal raw) "must be an invariant decimal percentage"
