-- ===== src/Policy/Validation/Typing.antt =====
-- policy/value.rs and policy/condition.rs: the values that one declared type allows.
use ffhn.Base.{
  ◌≡◌, ◌≢◌, refl, subst, Option, some, Ordering, list_eq, nat_eq, same_list_iff, when_true,
}
use ffhn.Base.Int.{ℤ}
use ffhn.Base.Errors.{Text, ok, ok_or, >>=-eq-ok, found-ok}
use ffhn.Policy.Types.{DeclaredType, TypeParams, ValueLib}
use ffhn.Policy.Value.{
  PolicyValue, text, integer, decimal, money, semver, datetime, compare_values, cmp_ℤ,
  parse_canonical_value_as_policy_value, parse_config_value,
}

module _ (lib : ValueLib) where
  -- The values of a measurement, by its declared type: an amount of money has the declared currency.
  pub data HasType (currency : Option Text) : DeclaredType → PolicyValue lib → Type 0 where
    is_text : (t : Text) → HasType currency DeclaredType.text (text t)
    is_integer : (n : ℤ) → HasType currency DeclaredType.integer (integer n)
    is_decimal : (d : lib.Decimal) → HasType currency DeclaredType.decimal (decimal d)
    is_money :
        (d : lib.Decimal) (unit : Text)
        → currency ≡ some unit
        → HasType currency DeclaredType.money (money d unit)
    is_semver : (v : lib.Version) → HasType currency DeclaredType.semver (semver v)
    is_datetime : (i : lib.Instant) → HasType currency DeclaredType.datetime (datetime i)

  -- What a canonical text is parsed to has the type that it was parsed as.
  pub parse_canonical-HasType :
      (declared : DeclaredType) (params : TypeParams) (canonical : Text) {v : PolicyValue lib}
      → parse_canonical_value_as_policy_value lib declared params canonical ≡ ok v
      → HasType params.currency declared v
  unfolding parse_canonical_value_as_policy_value
  parse_canonical-HasType DeclaredType.text params t {v} h =
      let e : text t ≡ v = cc (h) in subst (HasType params.currency DeclaredType.text) e (is_text t)
  parse_canonical-HasType DeclaredType.integer params t {v} h =
      let (n, _, k) = >>=-eq-ok (ok_or (lib.parse_integer t) "canonical integer is invalid") _ h in
      let e : integer n ≡ v = cc (k) in
      subst (HasType params.currency DeclaredType.integer) e (is_integer n)
  parse_canonical-HasType DeclaredType.decimal params t {v} h =
      let (d, _, k) = >>=-eq-ok (ok_or (lib.parse_decimal t) "canonical decimal is invalid") _ h in
      let e : decimal d ≡ v = cc (k) in
      subst (HasType params.currency DeclaredType.decimal) e (is_decimal d)
  parse_canonical-HasType DeclaredType.money params t {v} h =
      let (d, _, k) =
        >>=-eq-ok (ok_or (lib.parse_decimal t) "canonical money amount is invalid") _ h in
      let (c, found, k₁) =
        >>=-eq-ok (ok_or params.currency "money type_params.currency is missing") _ k in
      let e : money d c ≡ v = cc (k₁) in
      subst (HasType params.currency DeclaredType.money) e (is_money d c (found-ok _ _ found))
  parse_canonical-HasType DeclaredType.semver params t {v} h =
      let (n, _, k) =
        >>=-eq-ok (ok_or (lib.parse_version t) "canonical semantic version is invalid") _ h in
      let e : semver n ≡ v = cc (k) in
      subst (HasType params.currency DeclaredType.semver) e (is_semver n)
  parse_canonical-HasType DeclaredType.datetime params t {v} h =
      let (n, _, k) = >>=-eq-ok (ok_or (lib.parse_instant t) "canonical datetime is invalid") _ h in
      let e : datetime n ≡ v = cc (k) in
      subst (HasType params.currency DeclaredType.datetime) e (is_datetime n)

  -- What a threshold is parsed to has the declared type.
  pub parse_config_value-HasType :
      (declared : DeclaredType) (params : TypeParams) (raw : Text) {v : PolicyValue lib}
      → parse_config_value lib declared params raw ≡ ok v
      → HasType params.currency declared v
  unfolding parse_config_value
  parse_config_value-HasType declared params raw h =
      let (t, _, k) = >>=-eq-ok (lib.parse_canonical_value declared params raw) _ h in
      parse_canonical-HasType declared params t k

  -- Two values of one declared type other than text have an order.
  pub compare_values-HasType :
      {currency : Option Text} {declared : DeclaredType} {v w : PolicyValue lib}
      → declared ≢ DeclaredType.text
      → HasType currency declared v
      → HasType currency declared w
      → (order : Ordering) × (compare_values lib v w ≡ some order)
  unfolding compare_values
  compare_values-HasType ordered (is_text s) (is_text t) = absurd (ordered refl)
  compare_values-HasType ordered (is_integer m) (is_integer n) = (cmp_ℤ m n, refl)
  compare_values-HasType ordered (is_decimal c) (is_decimal d) = (lib.decimal_cmp c d, refl)
  compare_values-HasType ordered (is_money c j p) (is_money d k q) =
      let one : j ≡ k = cc (p, q) in
      (lib.decimal_cmp c d, when_true _ _ ((same_list_iff j k).1 one))
  compare_values-HasType ordered (is_semver m) (is_semver n) = (lib.version_cmp m n, refl)
  compare_values-HasType ordered (is_datetime m) (is_datetime n) = (lib.instant_cmp m n, refl)
