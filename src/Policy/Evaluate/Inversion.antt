-- ===== src/Policy/Evaluate/Inversion.antt =====
-- What a successful evaluation was made of.
use ffhn.Base.{◌≡◌, Bool}
use ffhn.Base.Errors.{ok, >>=-eq-ok}
use ffhn.Policy.Types.{Condition, ConditionOutcome, ConditionContext, ConditionEvaluation, ValueLib}
use ffhn.Policy.Value.{PolicyValue}
use ffhn.Policy.Contract.{PolicyContract}
use ffhn.Policy.Evaluate.{evaluate_predicate, evaluate_condition, evaluation_of}

pub evaluate_condition-eq-ok :
    (lib : ValueLib) (c : PolicyContract) (condition : Condition) (v : PolicyValue lib)
    (context : ConditionContext) {e : ConditionEvaluation}
    → evaluate_condition lib c condition v context ≡ ok e
    → (d : ConditionOutcome × Bool × Bool) × (evaluate_predicate lib c v context condition.predicate
        ≡ ok d)
      × (evaluation_of lib c condition context d ≡ e)
unfolding evaluate_condition
evaluate_condition-eq-ok lib c condition v context h =
    let s = >>=-eq-ok (evaluate_predicate lib c v context condition.predicate) _ h in
    (s.0, s.1, cc (s.2))
