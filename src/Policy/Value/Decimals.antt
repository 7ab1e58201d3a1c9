-- ===== src/Policy/Value/Decimals.antt =====
-- Within the range of `Decimal` no comparison of typed values can break its width proof.
use ffhn.Base.{
  ◌≡◌, refl, Bool, true, false, ◌&&◌, same, if◌then◌else◌, arith, Bool-cases, inl, inr, ◌≢◌,
  list_eq, nat_eq,
}
use ffhn.Base.Errors.{ok, then_ok}
use ffhn.Exact.Decimal.{
  DecimalParts, Checked, DecimalPercentageResult, from_decimal, percentage_delta_at_least, is_zero,
}
use ffhn.Exact.Decimal.Spec.{IsDecimal}
use ffhn.Exact.Decimal.Delta.{absolute_delta_at_least_exact}
use ffhn.Exact.Decimal.Percentage.{percentage_delta_at_least_exact}
use ffhn.Policy.Types.{ValueLib, DecimalRange}
use ffhn.Policy.Value.{
  ArithmeticResult, unavailable, PolicyValue, parts, integer, decimal, money,
  decimal_absolute_delta_at_least, decimal_percentage_delta_at_least, exact_abs_delta_at_least,
  exact_percentage_delta_at_least, integer_delta_at_least,
}

-- A zero reference or a negative percentage is answered before any arithmetic.
zero_percentage :
    (c r p : DecimalParts)
    → is_zero r ≡ true
    → (x : DecimalPercentageResult) × (percentage_delta_at_least c r p ≡ ok x)
unfolding percentage_delta_at_least
zero_percentage c r p h = (DecimalPercentageResult.zero_reference, rw h refl)

negative_percentage :
    (c r p : DecimalParts)
    → is_zero r ≡ false
    → p.negative ≡ true
    → (x : DecimalPercentageResult) × (percentage_delta_at_least c r p ≡ ok x)
unfolding percentage_delta_at_least
negative_percentage c r p h k = (DecimalPercentageResult.unavailable, rw (h, k) refl)

nonzero : (r : DecimalParts) → is_zero r ≡ false → r.coefficient ≢ 0
unfolding is_zero
nonzero r h = ground arith

-- Every percentage of decimals in range has a result.
percentage_total :
    (c r p : DecimalParts)
    → IsDecimal c
    → IsDecimal r
    → IsDecimal p
    → (x : DecimalPercentageResult) × (percentage_delta_at_least c r p ≡ ok x)
percentage_total c r p hc hr hp = elim (Bool-cases (is_zero r)) [
  | inl z ↦ zero_percentage c r p z
  | inr z ↦ elim (Bool-cases p.negative) [
    | inl n ↦ negative_percentage c r p z n
    | inr n ↦ (
      _,
      percentage_delta_at_least_exact c r p 28 hc hr hp hc.scale_bound hr.scale_bound (nonzero r z)
          n,
    )
  ]
]

module _ (lib : ValueLib) (range : DecimalRange lib) where
  pub parts-IsDecimal : (d : lib.Decimal) → IsDecimal (parts lib d)
  unfolding from_decimal
  parts-IsDecimal d = record {
    coefficient_bound = range.mantissa_range d;
    scale_bound = range.scale_range d;
  }

  delta_total :
      (a b t : lib.Decimal)
      → (x : ArithmeticResult) × (decimal_absolute_delta_at_least lib a b t ≡ ok x)
  unfolding decimal_absolute_delta_at_least
  delta_total a b t =
      let (ha, hb, ht) : IsDecimal (parts lib a)
          × IsDecimal (parts lib b)
          × IsDecimal (parts lib t) =
        (parts-IsDecimal a, parts-IsDecimal b, parts-IsDecimal t) in
      (
        _,
        then_ok _
            (absolute_delta_at_least_exact (parts lib a) (parts lib b) (parts lib t) 28 ha hb ht
              ha.scale_bound hb.scale_bound ht.scale_bound)
            refl,
      )

  percentage_result :
      (a b p : lib.Decimal)
      → (x : ArithmeticResult) × (decimal_percentage_delta_at_least lib a b p ≡ ok x)
  unfolding decimal_percentage_delta_at_least
  percentage_result a b p =
      let r =
        percentage_total (parts lib a) (parts lib b) (parts lib p) (parts-IsDecimal a)
          (parts-IsDecimal b) (parts-IsDecimal p) in
      (_, then_ok _ r.1 refl)

  money_guard :
      {r : Checked ArithmeticResult} (b : Bool)
      → (x : ArithmeticResult) × (r ≡ ok x)
      → (x : ArithmeticResult) × ((if b then r else ok unavailable) ≡ ok x)
  money_guard true h = h
  money_guard false h = (unavailable, refl)

  -- With decimals in their documented range `exact_abs_delta_at_least` has a result for any three
  -- values, of whatever types: no invariant error occurs.
  pub exact_abs_delta_total :
      (a b t : PolicyValue lib)
      → (x : ArithmeticResult) × (exact_abs_delta_at_least lib a b t ≡ ok x)
  unfolding exact_abs_delta_at_least
  exact_abs_delta_total (integer a) (integer b) (integer t) = (integer_delta_at_least a b t, refl)
  exact_abs_delta_total (decimal a) (decimal b) (decimal t) = delta_total a b t
  exact_abs_delta_total (money a ca) (money b cb) (money t ct) =
      money_guard (same ca cb && same ca ct) (delta_total a b t)
  exact_abs_delta_total _ _ _ = (unavailable, refl)

  -- With decimals in their documented range `exact_percentage_delta_at_least` has a result for any two
  -- values, of whatever types, and any percentage: no invariant error occurs.
  pub exact_percentage_delta_total :
      (a b : PolicyValue lib) (p : lib.Decimal)
      → (x : ArithmeticResult) × (exact_percentage_delta_at_least lib a b p ≡ ok x)
  unfolding exact_percentage_delta_at_least
  exact_percentage_delta_total (integer a) (integer b) p = (_, refl)
  exact_percentage_delta_total (decimal a) (decimal b) p = percentage_result a b p
  exact_percentage_delta_total (money a ca) (money b cb) p =
      money_guard (same ca cb) (percentage_result a b p)
  exact_percentage_delta_total _ _ _ = (unavailable, refl)
