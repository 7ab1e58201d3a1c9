-- ===== src/Policy/Validation/Panics.antt =====
-- policy/condition.rs: the validation of the conditions never stops at its `expect`.
use Prim.Native.String.{String}
use ffhn.Base.{◌≡◌, ◌≢◌, refl, Bool, true, false, List, [], ◌∷◌, any, same, list_eq, nat_eq}
use ffhn.Base.Errors.{
  Text, Result, CoreResult, CoreError, ok, err, ◌>>=◌, refuse_if, map_err, refused,
}
use ffhn.Policy.Types.{
  DeclaredType, declared_type_eq, TypeParams, ConditionPredicate, changed, delta_abs, delta_pct,
  crosses, lt, gt, band, Condition, ValueLib,
}
use ffhn.Policy.Value.{PolicyValue, parse_config_value, parse_percentage}
use ffhn.Policy.Validation.{
  error, panic, Guarded, guarded, require_ordered, require_numeric, parse_condition_threshold,
  check_predicate, validate_predicate, validate_each, validate_conditions,
}
use ffhn.Policy.Validation.Typing.{parse_config_value-HasType, compare_values-HasType}

-- The function does not stop at an `expect`.
abbrev pub NoPanic : {A : Type 0} → Guarded A → Type 0
NoPanic (err (panic message)) = ⊥
NoPanic _ = Unit

then_NoPanic :
    {A B : Type 0} (m : Guarded A) (f : A → Guarded B)
    → NoPanic m
    → ((a : A) → m ≡ ok a → NoPanic (f a))
    → NoPanic (m >>= f)
then_NoPanic (ok a) f h k = k a refl
then_NoPanic (err (error e)) f h k = tt
then_NoPanic (err (panic e)) f h k = h

guarded-NoPanic : {A : Type 0} (r : CoreResult A) → NoPanic (guarded r)
guarded-NoPanic (ok a) = tt
guarded-NoPanic (err e) = tt

refuse_NoPanic : (b : Bool) (e : CoreError) → NoPanic (refuse_if b (error e))
refuse_NoPanic true e = tt
refuse_NoPanic false e = tt

pub map_err-eq-ok :
    {E F A : Type 0} (f : E → F) (r : Result E A) {a : A} → map_err f r ≡ ok a → r ≡ ok a
map_err-eq-ok f (ok b) h = cc (h)
map_err-eq-ok f (err e) h = absurd (cc (h))

pub ordered :
    (declared : DeclaredType) (condition : Condition)
    → guarded (require_ordered declared condition) ≡ ok tt
    → declared ≢ DeclaredType.text
unfolding require_ordered
ordered declared condition h e =
    let kept = refused _ _ (map_err-eq-ok error (require_ordered declared condition) h) in
    let text_type = (declared_type_eq.beq_iff declared DeclaredType.text).1 e in
    absurd (cc (kept, text_type))

module _ (lib : ValueLib) where
  pub threshold :
      (declared : DeclaredType) (params : TypeParams) (raw : Text) (condition : Condition)
      (field : String) {v : PolicyValue lib}
      → guarded (parse_condition_threshold lib declared params raw condition field) ≡ ok v
      → parse_config_value lib declared params raw ≡ ok v
  unfolding parse_condition_threshold
  threshold declared params raw condition field h =
      map_err-eq-ok _ (parse_config_value lib declared params raw)
        (map_err-eq-ok error (parse_condition_threshold lib declared params raw condition field) h)

  predicate_NoPanic :
      (declared : DeclaredType) (params : TypeParams) (condition : Condition)
      (p : ConditionPredicate)
      → NoPanic (check_predicate lib declared params condition p)
  unfolding check_predicate
  predicate_NoPanic declared params k (changed r) = tt
  predicate_NoPanic declared params k (delta_abs r t) =
      then_NoPanic (guarded (require_numeric declared k)) _ (guarded-NoPanic _) λ _ _.
        then_NoPanic (guarded (parse_condition_threshold lib declared params t k "threshold")) _
          (guarded-NoPanic _) λ v _. refuse_NoPanic _ _
  predicate_NoPanic declared params k (delta_pct r t) =
      then_NoPanic (guarded (require_numeric declared k)) _ (guarded-NoPanic _) λ _ _.
        then_NoPanic (guarded (map_err _ (parse_percentage lib t))) _ (guarded-NoPanic _)
          λ v _. refuse_NoPanic _ _
  predicate_NoPanic declared params k (crosses t direction) = guarded-NoPanic _
  predicate_NoPanic declared params k (lt t) = guarded-NoPanic _
  predicate_NoPanic declared params k (gt t) = guarded-NoPanic _
  predicate_NoPanic declared params k (band a b direction) =
      then_NoPanic (guarded (require_ordered declared k)) _ (guarded-NoPanic _) λ _ e₁.
        then_NoPanic (guarded (parse_condition_threshold lib declared params a k "enter_threshold"))
          _ (guarded-NoPanic _)
          λ v e₂.
            then_NoPanic
              (guarded (parse_condition_threshold lib declared params b k "exit_threshold")) _
              (guarded-NoPanic _)
              λ w e₃.
                let (order, e₄) =
                  compare_values-HasType lib (ordered declared k e₁)
                    (parse_config_value-HasType lib declared params a
                      (threshold declared params a k "enter_threshold" e₂))
                    (parse_config_value-HasType lib declared params b
                      (threshold declared params b k "exit_threshold" e₃)) in
                rw e₄ (refuse_NoPanic _ _)

  each_NoPanic :
      (declared : DeclaredType) (params : TypeParams) (seen : List Text)
      (conditions : List Condition)
      → NoPanic (validate_each lib declared params seen conditions)
  unfolding validate_each validate_predicate
  each_NoPanic declared params seen [] = tt
  each_NoPanic declared params seen (k ∷ rest) =
      then_NoPanic (refuse_if (any (same k.condition_id) seen) _) _ (refuse_NoPanic _ _) λ _ _.
        then_NoPanic (validate_predicate lib declared params k) _
          (predicate_NoPanic declared params k k.predicate)
          λ _ _. each_NoPanic declared params (k.condition_id ∷ seen) rest

  -- `validate_conditions` returns: the `expect` of a band is never reached, since its two thresholds
  -- are parsed under one declared type that is not text.
  pub validate_conditions-NoPanic :
      (declared : DeclaredType) (params : TypeParams) (conditions : List Condition)
      → NoPanic (validate_conditions lib declared params conditions)
  unfolding validate_conditions
  validate_conditions-NoPanic declared params conditions =
      each_NoPanic declared params [] conditions
