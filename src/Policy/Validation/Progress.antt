-- ===== src/Policy/Validation/Progress.antt =====
-- policy/condition.rs and policy/evaluate/predicates.rs: under a contract that `validate_conditions`
-- accepts, the evaluation returns.
use mathlib.Core.Option
use ffhn.Base.{
  ◌≡◌, inl, inr, refl, ap, Bool, true, Bool-cases, Option, none, some, List, [], ◌∷◌, All, any,
  same, list_eq, nat_eq, option_eq, same_option_iff, arith,
}
use ffhn.Base.Errors.{Text, CoreResult, contract, ok, refuse_if, map_err, >>=-eq-ok, then_ok}
use ffhn.Policy.Types.{
  declared_type_eq, Observation, last_accepted_observation, fixed_initial_baseline,
  last_condition_transition, ConditionPredicate, changed, delta_abs, delta_pct, crosses, lt, gt,
  band, Condition, ConditionOutcome, ConditionContext, ConditionEvaluation, empty_context, ValueLib,
  DecimalRange,
}
use ffhn.Policy.Value.{PolicyValue, parse_observation_value}
use ffhn.Policy.Value.Decimals.{exact_abs_delta_total, exact_percentage_delta_total}
use ffhn.Policy.Contract.{
  PolicyContract, observation_matches_contract, is_lt, is_gt, selected_reference,
  arithmetic_outcome,
}
use ffhn.Policy.Evaluate.{
  inside_band, resolve_reference, evaluate_delta_abs, evaluate_delta_pct, evaluate_ordered,
  evaluate_band, evaluate_predicate, evaluation_of, evaluate_condition, evaluate_each,
  evaluate_conditions,
}
use ffhn.Policy.Validation.{validate_predicate, validate_each, validate_conditions}
use ffhn.Policy.Validation.Typing.{HasType, parse_canonical-HasType}
use ffhn.Policy.Validation.Accepted.{
  IsLevel, IsDecided, Readable, ReadableContext, Accepted, check_predicate-Accepted, resolve_total,
  crosses_total, limit_ok, ordered-IsDecided,
}

-- One evaluation for each condition, in order, that of a level predicate with a decision.
unfoldable pub Answers : List Condition → List ConditionEvaluation → Type 0
Answers [] [] = Unit
Answers (k ∷ ks) (e ∷ es) =
    (e.condition_id ≡ k.condition_id) × (IsLevel k.predicate → IsDecided e.outcome) × Answers ks es
Answers _ _ = ⊥

module _ (lib : ValueLib) (range : DecimalRange lib) where
  -- The evaluation of a predicate returns, and that of a level predicate decides.
  abbrev Returns : ConditionPredicate → CoreResult (ConditionOutcome × Bool × Bool) → Type 0
  Returns p result =
      (d : ConditionOutcome × Bool × Bool) × (result ≡ ok d) × (IsLevel p → IsDecided d.0)

  delta_total :
      (v t : PolicyValue lib) (o : Option (PolicyValue lib))
      → (x : ConditionOutcome) × (evaluate_delta_abs lib v o t ≡ ok x)
  unfolding evaluate_delta_abs
  delta_total v t none = (_, refl)
  delta_total v t (some r) =
      let (x, e) = exact_abs_delta_total lib range v r t in (arithmetic_outcome x, rw e refl)

  percentage_total :
      (v : PolicyValue lib) (p : lib.Decimal) (o : Option (PolicyValue lib))
      → (x : ConditionOutcome) × (evaluate_delta_pct lib v o p ≡ ok x)
  unfolding evaluate_delta_pct
  percentage_total v p none = (_, refl)
  percentage_total v p (some r) =
      let (x, e) = exact_percentage_delta_total lib range v r p in (arithmetic_outcome x, rw e refl)

  predicate_progress :
      (c : PolicyContract) (v : PolicyValue lib) (context : ConditionContext)
      (p : ConditionPredicate)
      → HasType lib c.type_params.currency c.declared_type v
      → ReadableContext lib c context
      → Accepted lib c p
      → Returns p (evaluate_predicate lib c v context p)
  unfolding evaluate_predicate resolve_reference selected_reference evaluate_ordered evaluate_band
  predicate_progress c v context (changed r) typed readable accepted =
      let (o, e) = resolve_total lib c (selected_reference r context) (readable r) in
      (_, then_ok _ e refl, λ level. absurd level)
  predicate_progress c v context (delta_abs r t) typed readable (w, e₂) =
      let (o, e₁) = resolve_total lib c (selected_reference r context) (readable r) in
      let (x, e₃) = delta_total v w o in
      (
        _,
        then_ok _ e₁ (then_ok _ (limit_ok lib c t w e₂) (then_ok _ e₃ refl)),
        λ level. absurd level,
      )
  predicate_progress c v context (delta_pct r t) typed readable (p, e₂) =
      let (o, e₁) = resolve_total lib c (selected_reference r context) (readable r) in
      let (x, e₃) = percentage_total v p o in
      (
        _,
        then_ok _ e₁ (then_ok _ (ap (map_err contract) e₂) (then_ok _ e₃ refl)),
        λ level. absurd level,
      )
  predicate_progress c v context (crosses t direction) typed readable (kind, (w, e₂)) =
      let (x, e₃) =
        crosses_total lib c v w context.last_accepted_observation direction
          (readable last_accepted_observation) in
      (_, then_ok _ (limit_ok lib c t w e₂) (then_ok _ e₃ refl), λ level. absurd level)
  predicate_progress c v context (lt t) typed readable (kind, (w, e₂)) = (
    _,
    then_ok _ (limit_ok lib c t w e₂) refl,
    λ level. ordered-IsDecided lib c v w t is_lt kind typed e₂,
  )
  predicate_progress c v context (gt t) typed readable (kind, (w, e₂)) = (
    _,
    then_ok _ (limit_ok lib c t w e₂) refl,
    λ level. ordered-IsDecided lib c v w t is_gt kind typed e₂,
  )
  predicate_progress c v context (band a b direction) typed readable (kind, (x, e₂), (y, e₃)) = (
    _,
    then_ok _ (limit_ok lib c a x e₂) (then_ok _ (limit_ok lib c b y e₃) refl),
    λ level. elim (Bool-cases context.active) [
      | inl e ↦ rw e (ordered-IsDecided lib c v y b (inside_band lib direction) kind typed e₃)
      | inr e ↦ rw e (ordered-IsDecided lib c v x a (inside_band lib direction) kind typed e₂)
    ],
  )

  AllAccepted : PolicyContract → List Condition → Type 0
  AllAccepted c conditions = All (λ k. Accepted lib c k.predicate) conditions

  each_accepted :
      (c : PolicyContract) (seen : List Text) (conditions : List Condition)
      → validate_each lib c.declared_type c.type_params seen conditions ≡ ok tt
      → AllAccepted c conditions
  unfolding validate_each validate_predicate AllAccepted
  each_accepted c seen [] h = tt
  each_accepted c seen (k ∷ rest) h =
      let (_, _, h₁) = >>=-eq-ok (refuse_if (any (same k.condition_id) seen) _) _ h in
      let (_, e, h₂) = >>=-eq-ok (validate_predicate lib c.declared_type c.type_params k) _ h₁ in
      (
        check_predicate-Accepted lib c k k.predicate e,
        each_accepted c (k.condition_id ∷ seen) rest h₂,
      )

  context_of-readable :
      (c : PolicyContract) (found : Option ConditionContext)
      → ((context : ConditionContext) → found ≡ some context → ReadableContext lib c context)
      → ReadableContext lib c (Option.get_or found empty_context)
  unfolding selected_reference
  context_of-readable c (some context) readable r o h = readable context refl r o h
  context_of-readable c none readable last_accepted_observation o h = absurd (cc (h))
  context_of-readable c none readable fixed_initial_baseline o h = absurd (cc (h))
  context_of-readable c none readable last_condition_transition o h = absurd (cc (h))

  each_progress :
      (c : PolicyContract) (v : PolicyValue lib) (contexts : Text → Option ConditionContext)
      (conditions : List Condition)
      → HasType lib c.type_params.currency c.declared_type v
      → ((id : Text) (context : ConditionContext)
          → contexts id ≡ some context
          → ReadableContext lib c context)
      → AllAccepted c conditions
      → (es : List ConditionEvaluation) × (evaluate_each lib c v contexts conditions ≡ ok es)
        × Answers conditions es
  unfolding evaluate_each evaluate_condition evaluation_of Answers AllAccepted
  each_progress c v contexts [] typed readable accepted = ([], refl, tt)
  each_progress c v contexts (k ∷ rest) typed readable (first, others) =
      let context = Option.get_or (contexts k.condition_id) empty_context in
      let (d, e₁, decided) =
        predicate_progress c v context k.predicate typed
          (context_of-readable c (contexts k.condition_id) (readable k.condition_id)) first in
      let (es, e₂, answers) = each_progress c v contexts rest typed readable others in
      (
        evaluation_of lib c k context d ∷ es,
        then_ok _ (then_ok _ e₁ refl) (then_ok _ e₂ refl),
        (refl, decided, answers),
      )

  observed-HasType :
      (c : PolicyContract) (o : Observation) {v : PolicyValue lib}
      → observation_matches_contract c o ≡ true
      → parse_observation_value lib o ≡ ok v
      → HasType lib c.type_params.currency c.declared_type v
  unfolding observation_matches_contract parse_observation_value
  observed-HasType c o {v} matched parsed =
      let one_type : o.declared_type ≡ c.declared_type =
        (declared_type_eq.beq_iff o.declared_type c.declared_type).0 (ground arith) in
      let one_unit : o.type_params.currency ≡ c.type_params.currency =
        (same_option_iff o.type_params.currency c.type_params.currency).0 (ground arith) in
      rw (← one_type, ← one_unit)
        (parse_canonical-HasType lib o.declared_type o.type_params o.canonical_value parsed)

  -- Under a contract whose conditions `validate_conditions` accepts, and with decimals in their
  -- documented range, the evaluation of a valid and readable observation of the contract returns,
  -- where the observations of the contexts that belong to the contract are readable. There is one
  -- evaluation for each condition, in order, and the outcome of `lt`, `gt` and `band` is satisfied or
  -- not satisfied.
  pub evaluate_conditions-progress :
      (c : PolicyContract) (o : Observation) (contexts : Text → Option ConditionContext)
      → validate_conditions lib c.declared_type c.type_params c.conditions ≡ ok tt
      → lib.validate_observation o ≡ ok tt
      → observation_matches_contract c o ≡ true
      → Readable lib o
      → ((id : Text) (context : ConditionContext)
          → contexts id ≡ some context
          → ReadableContext lib c context)
      → (es : List ConditionEvaluation) × (evaluate_conditions lib c o contexts ≡ ok es)
        × Answers c.conditions es
  unfolding validate_conditions evaluate_conditions
  evaluate_conditions-progress c o contexts accepted valid matched (v, parsed) readable =
      let (es, e, answers) =
        each_progress c v contexts c.conditions (observed-HasType c o matched parsed) readable
          (each_accepted c [] c.conditions accepted) in
      (es, ground (arith, valid, matched, parsed, e), answers)
