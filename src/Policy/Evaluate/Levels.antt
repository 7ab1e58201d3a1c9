-- ===== src/Policy/Evaluate/Levels.antt =====
-- Level predicates (`lt`, `gt`, `band`): the state of a condition, its edges and its hysteresis.
use ffhn.Base.{
  ℕ, ◌+◌, ◌≡◌, ◌↔◌, refl, ap, Bool, true, false, ◌&&◌, some, List, [], ◌∷◌, Ordering, same, arith,
}
use ffhn.Base.Errors.{ok}
use ffhn.Policy.Types.{
  ConditionPredicate, changed, delta_abs, delta_pct, crosses, lt, gt, band, Condition,
  ConditionOutcome, not_satisfied, condition_outcome_eq, ConditionContext, ConditionEvaluation,
  ValueLib, ThresholdDirection,
}
use ffhn.Policy.Value.{PolicyValue, compare_values}
use ffhn.Policy.Evaluate.Inversion.{evaluate_condition-eq-ok}
use ffhn.Policy.Contract.{PolicyContract, next_level_active, outcome_of}
use ffhn.Policy.Evaluate.{
  evaluate_predicate, evaluate_condition, evaluation_of, evaluate_band, inside_band,
}

-- The predicates that keep a state.
abbrev pub IsLevel : ConditionPredicate → Type 0
IsLevel (lt threshold) = Unit
IsLevel (gt threshold) = Unit
IsLevel (band enter exit direction) = Unit
IsLevel _ = ⊥

-- What a level predicate decides: the next state follows the outcome, and it is no event.
abbrev pub FollowsOutcome : Bool → ConditionOutcome × Bool × Bool → Type 0
FollowsOutcome active (outcome, active_after, event) =
    (active_after ≡ next_level_active outcome active) × (event ≡ false)

abbrev pub bit : Bool → ℕ
bit true = 1
bit false = 0

-- How many evaluations trigger.
abbrev pub triggers : List ConditionEvaluation → ℕ
triggers [] = 0
triggers (e ∷ es) = bit e.trigger + triggers es

-- How many evaluations find an active condition not satisfied.
abbrev pub exits : List ConditionEvaluation → ℕ
exits [] = 0
exits (e ∷ es) = bit (e.active_before && same e.outcome not_satisfied) + exits es

module _ (lib : ValueLib) where
  level_follows :
      (c : PolicyContract) (v : PolicyValue lib) (context : ConditionContext)
      (p : ConditionPredicate) {d : ConditionOutcome × Bool × Bool}
      → IsLevel p
      → evaluate_predicate lib c v context p ≡ ok d
      → FollowsOutcome context.active d
  unfolding evaluate_predicate
  level_follows c v context (lt threshold) l h = ground arith
  level_follows c v context (gt threshold) l h = ground arith
  level_follows c v context (band enter exit direction) l h = ground arith
  level_follows c v context (changed reference) l h = absurd l
  level_follows c v context (delta_abs reference threshold) l h = absurd l
  level_follows c v context (delta_pct reference threshold) l h = absurd l
  level_follows c v context (crosses threshold direction) l h = absurd l

  edge :
      (c : PolicyContract) (condition : Condition) (context : ConditionContext)
      (d : ConditionOutcome × Bool × Bool)
      → FollowsOutcome context.active d
      → let e = evaluation_of lib c condition context d in
        (e.trigger ≡ true) ↔ ((context.active ≡ false) × (e.active_after ≡ true))
  unfolding evaluation_of next_level_active
  edge c condition context (o, after, event) f = (ground arith, ground arith)

  -- An evaluation of a level condition, if it returns, triggers exactly on a rising edge: the condition
  -- was not active and is active afterwards.
  pub trigger-rising_edge :
      (c : PolicyContract) (condition : Condition) (v : PolicyValue lib)
      (context : ConditionContext) {e : ConditionEvaluation}
      → IsLevel condition.predicate
      → evaluate_condition lib c condition v context ≡ ok e
      → (e.trigger ≡ true) ↔ ((context.active ≡ false) × (e.active_after ≡ true))
  trigger-rising_edge c condition v context l h =
      let (d, decided, made) = evaluate_condition-eq-ok lib c condition v context h in
      rw (← made)
        (edge c condition context d (level_follows c v context condition.predicate l decided))

  -- The evaluations of one condition, each from the state that the one before it left.
  pub data Run (c : PolicyContract) (condition : Condition)
      : Bool → List ConditionEvaluation → Bool → Type 0 where
    stop : {a : Bool} → Run c condition a [] a
    next :
        {a b : Bool} {es : List ConditionEvaluation}
        → (v : PolicyValue lib) (context : ConditionContext) (e : ConditionEvaluation)
        → context.active ≡ a
        → evaluate_condition lib c condition v context ≡ ok e
        → Run c condition e.active_after es b
        → Run c condition a (e ∷ es) b

  step_balance :
      (c : PolicyContract) (condition : Condition) (context : ConditionContext)
      (d : ConditionOutcome × Bool × Bool)
      → FollowsOutcome context.active d
      → let e = evaluation_of lib c condition context d in
        bit e.trigger + bit context.active
        ≡ bit (e.active_before && same e.outcome not_satisfied) + bit e.active_after
  unfolding evaluation_of next_level_active
  step_balance c condition context (o, after, event) f = ground arith

  step_balance_at :
      (c : PolicyContract) (condition : Condition) (context : ConditionContext)
      (d : ConditionOutcome × Bool × Bool) (e : ConditionEvaluation)
      → FollowsOutcome context.active d
      → evaluation_of lib c condition context d ≡ e
      → bit e.trigger + bit context.active
        ≡ bit (e.active_before && same e.outcome not_satisfied) + bit e.active_after
  step_balance_at c condition context d e f made =
      rw (← made) (step_balance c condition context d f)

  -- Along any run of evaluations of one level condition, each from the state that the one before it
  -- left, triggers and exits balance: the triggers and the first state (1 if active) together are
  -- as many as the exits and the last state.
  pub triggers-exits :
      (c : PolicyContract) (condition : Condition) {a b : Bool} {es : List ConditionEvaluation}
      → IsLevel condition.predicate
      → Run c condition a es b
      → triggers es + bit a ≡ exits es + bit b
  triggers-exits c condition l stop = refl
  triggers-exits c condition l (next v context e start h rest) =
      let (d, decided, made) = evaluate_condition-eq-ok lib c condition v context h in
      let f = level_follows c v context condition.predicate l decided in
      omega (
        arith,
        ap (λ x. bit x) start,
        step_balance_at c condition context d e f made,
        triggers-exits c condition l rest,
      )

  -- A band keeps its state between its two thresholds: where the value compares with both, and is
  -- inside by the exit threshold and not inside by the enter threshold, the outcome and the next
  -- state are those of the state before.
  pub band-hysteresis :
      (current enter exit : PolicyValue lib) (direction : ThresholdDirection) (was_active : Bool)
      (at_enter at_exit : Ordering)
      → compare_values lib current enter ≡ some at_enter
      → compare_values lib current exit ≡ some at_exit
      → inside_band lib direction at_exit ≡ true
      → inside_band lib direction at_enter ≡ false
      → evaluate_band lib current enter exit direction was_active
        ≡ (outcome_of was_active, was_active, false)
  unfolding evaluate_band
  band-hysteresis current enter exit direction was_active at_enter at_exit he hx inside outside =
      ground arith
