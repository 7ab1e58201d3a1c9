-- ===== src/Policy/Validation/Accepted.antt =====
-- policy/condition.rs: what `validate_predicate` establishes, and the steps of the evaluation that
-- rest on it.
use ffhn.Base.{
  ◌≡◌, ◌≢◌, ◌⊎◌, inl, inr, refl, sym, subst, ap, Bool, true, false, Bool-cases, Option, none, some,
  Ordering, list_eq, nat_eq, option_eq, arith,
}
use ffhn.Base.Errors.{Text, contract, ok, map_err, >>=-eq-ok}
use ffhn.Policy.Types.{
  DeclaredType, declared_type_eq, Observation, ConditionReference, ThresholdDirection,
  ConditionPredicate, changed, delta_abs, delta_pct, crosses, lt, gt, band, Condition,
  ConditionOutcome, satisfied, not_satisfied, ConditionContext, ValueLib,
}
use ffhn.Policy.Value.{
  PolicyValue, compare_values, parse_config_value, parse_observation_value, parse_percentage,
}
use ffhn.Policy.Contract.{
  PolicyContract, observation_matches_contract, outcome_of, selected_reference,
}
use ffhn.Policy.Evaluate.{
  ordered_outcome, crossing, resolve_observation, parse_threshold, evaluate_crosses,
}
use ffhn.Policy.Validation.{
  error, guarded, require_ordered, require_numeric, parse_condition_threshold, check_ordered,
  check_predicate,
}
use ffhn.Policy.Validation.Panics.{map_err-eq-ok, ordered, threshold}
use ffhn.Policy.Validation.Typing.{HasType, parse_config_value-HasType, compare_values-HasType}

-- A level predicate, whose outcome is the order of two values.
abbrev pub IsLevel : ConditionPredicate → Type 0
IsLevel (lt t) = Unit
IsLevel (gt t) = Unit
IsLevel (band a b direction) = Unit
IsLevel _ = ⊥

abbrev pub IsDecided : ConditionOutcome → Type 0
IsDecided outcome = (outcome ≡ satisfied) ⊎ (outcome ≡ not_satisfied)

outcome_of-IsDecided : (b : Bool) → IsDecided (outcome_of b)
outcome_of-IsDecided true = inl refl
outcome_of-IsDecided false = inr refl

module _ (lib : ValueLib) where
  -- The stored value of an observation has the form of its declared type.
  abbrev pub Readable : Observation → Type 0
  Readable o = (v : PolicyValue lib) × (parse_observation_value lib o ≡ ok v)

  -- The observations of a context that belong to the contract are readable.
  abbrev pub ReadableOption : PolicyContract → Option Observation → Type 0
  ReadableOption c found =
      (o : Observation) → found ≡ some o → observation_matches_contract c o ≡ true → Readable o

  abbrev pub ReadableContext : PolicyContract → ConditionContext → Type 0
  ReadableContext c context =
      (r : ConditionReference) → ReadableOption c (selected_reference r context)

  abbrev pub Limit : PolicyContract → Text → Type 0
  Limit c t =
      (v : PolicyValue lib) × (parse_config_value lib c.declared_type c.type_params t ≡ ok v)

  -- What the validation of a predicate has established.
  abbrev pub Accepted : PolicyContract → ConditionPredicate → Type 0
  Accepted c (changed r) = Unit
  Accepted c (delta_abs r t) = Limit c t
  Accepted c (delta_pct r t) = (p : lib.Decimal) × (parse_percentage lib t ≡ ok p)
  Accepted c (crosses t direction) = (c.declared_type ≢ DeclaredType.text) × Limit c t
  Accepted c (lt t) = (c.declared_type ≢ DeclaredType.text) × Limit c t
  Accepted c (gt t) = (c.declared_type ≢ DeclaredType.text) × Limit c t
  Accepted c (band a b direction) = (c.declared_type ≢ DeclaredType.text) × Limit c a × Limit c b

  ordered-Limit :
      (c : PolicyContract) (k : Condition) (t : Text)
      → guarded (check_ordered lib c.declared_type c.type_params k t) ≡ ok tt
      → (c.declared_type ≢ DeclaredType.text) × Limit c t
  ordered-Limit c k t h =
      let checked = map_err-eq-ok error (check_ordered lib c.declared_type c.type_params k t) h in
      let (_, e₁, k₁) = >>=-eq-ok (require_ordered c.declared_type k) _ checked in
      let (v, e₂, _) =
        >>=-eq-ok (parse_condition_threshold lib c.declared_type c.type_params t k "threshold") _
          k₁ in
      (
        ordered c.declared_type k (ap guarded e₁),
        (v, threshold lib c.declared_type c.type_params t k "threshold" (ap guarded e₂)),
      )

  pub check_predicate-Accepted :
      (c : PolicyContract) (k : Condition) (p : ConditionPredicate)
      → check_predicate lib c.declared_type c.type_params k p ≡ ok tt
      → Accepted c p
  unfolding check_predicate
  check_predicate-Accepted c k (changed r) h = tt
  check_predicate-Accepted c k (delta_abs r t) h =
      let (_, _, k₁) = >>=-eq-ok (guarded (require_numeric c.declared_type k)) _ h in
      let (v, e₂, _) =
        >>=-eq-ok
          (guarded (parse_condition_threshold lib c.declared_type c.type_params t k "threshold")) _
          k₁ in
      (v, threshold lib c.declared_type c.type_params t k "threshold" e₂)
  check_predicate-Accepted c k (delta_pct r t) h =
      let (_, _, k₁) = >>=-eq-ok (guarded (require_numeric c.declared_type k)) _ h in
      let (p, e₂, _) = >>=-eq-ok (guarded (map_err _ (parse_percentage lib t))) _ k₁ in
      (
        p,
        map_err-eq-ok _ (parse_percentage lib t)
            (map_err-eq-ok error (map_err _ (parse_percentage lib t)) e₂),
      )
  check_predicate-Accepted c k (crosses t direction) h = ordered-Limit c k t h
  check_predicate-Accepted c k (lt t) h = ordered-Limit c k t h
  check_predicate-Accepted c k (gt t) h = ordered-Limit c k t h
  check_predicate-Accepted c k (band a b direction) h =
      let (_, e₁, k₁) = >>=-eq-ok (guarded (require_ordered c.declared_type k)) _ h in
      let (v, e₂, k₂) =
        >>=-eq-ok
          (guarded
            (parse_condition_threshold lib c.declared_type c.type_params a k "enter_threshold"))
          _ k₁ in
      let (w, e₃, _) =
        >>=-eq-ok
          (guarded
            (parse_condition_threshold lib c.declared_type c.type_params b k "exit_threshold"))
          _ k₂ in
      (
        ordered c.declared_type k e₁,
        (v, threshold lib c.declared_type c.type_params a k "enter_threshold" e₂),
        (w, threshold lib c.declared_type c.type_params b k "exit_threshold" e₃),
      )

  pub resolve_total :
      (c : PolicyContract) (o : Option Observation)
      → ReadableOption c o
      → (v : Option (PolicyValue lib)) × (resolve_observation lib c o ≡ ok v)
  unfolding resolve_observation
  resolve_total c none readable = (none, refl)
  resolve_total c (some o) readable = elim (Bool-cases (observation_matches_contract c o)) [
    | inl e ↦ let (v, parsed) = readable o refl e in (some v, ground (arith, e, parsed))
    | inr e ↦ (none, rw e refl)
  ]

  pub crosses_total :
      (c : PolicyContract) (v t : PolicyValue lib) (o : Option Observation)
      (direction : ThresholdDirection)
      → ReadableOption c o
      → (x : ConditionOutcome) × (evaluate_crosses lib c v o t direction ≡ ok x)
  unfolding evaluate_crosses
  crosses_total c v t none direction readable = (_, refl)
  crosses_total c v t (some o) direction readable =
      elim (Bool-cases (observation_matches_contract c o)) [
        | inl e ↦
            let (w, parsed) = readable o refl e in
            (
              crossing lib direction (compare_values lib w t) (compare_values lib v t),
              rw (e, parsed) refl,
            )
        | inr e ↦ (ConditionOutcome.unavailable, rw e refl)
      ]

  pub limit_ok :
      (c : PolicyContract) (t : Text) (v : PolicyValue lib)
      → parse_config_value lib c.declared_type c.type_params t ≡ ok v
      → parse_threshold lib c t ≡ ok v
  unfolding parse_threshold
  limit_ok c t v e = ap (map_err contract) e

  pub ordered-IsDecided :
      (c : PolicyContract) (v w : PolicyValue lib) (t : Text) (test : Ordering → Bool)
      → c.declared_type ≢ DeclaredType.text
      → HasType lib c.type_params.currency c.declared_type v
      → parse_config_value lib c.declared_type c.type_params t ≡ ok w
      → IsDecided (ordered_outcome lib test (compare_values lib v w))
  ordered-IsDecided c v w t test kind typed e =
      let (order, compared) =
        compare_values-HasType lib kind typed
          (parse_config_value-HasType lib c.declared_type c.type_params t e) in
      subst (λ o. IsDecided (ordered_outcome lib test o)) (sym compared)
        (outcome_of-IsDecided (test order))
