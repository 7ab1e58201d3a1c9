-- ===== src/Measurement/Accept/Recorded.antt =====
-- graph/measurement_state.rs: what an accepted observation leaves in the state of its measurement.
use ffhn.Base.{
  ◌≡◌, refl, sym, ◌∙◌, ap, subst, Bool, true, false, inl, inr, some, List, [], ◌∷◌, map, any, All,
  same, list_eq, nat_eq, same_list_iff, arith, ◌||◌, when_true, when_false,
}
use ffhn.Base.Errors.{Text, CoreResult, ok, err, >>=-eq-ok, found-ok, Result-cases}
use ffhn.Base.Dict.{Dict, get, insert, get-insert}
use ffhn.Policy.Types.{Condition, Observation, ConditionEvaluation}
use ffhn.Policy.Validation.{new_condition_id}
use ffhn.Policy.Validation.Unique.{is_declared, AreDistinct, new_condition_id-eq-ok}
use ffhn.Measurement.Document.{MeasurementConditionState}
use ffhn.Measurement.Accept.{
  required_condition_state_mut, evaluated_state, record_evaluation, record_each,
}

abbrev pub among : Text → List Text → Bool
among id ids = any (same id) ids

-- No identifier is that of a later one.
unfoldable pub DistinctIds : List Text → Type 0
DistinctIds [] = Unit
DistinctIds (id ∷ rest) = (among id rest ≡ false) × DistinctIds rest

declared-among :
    (id : Text) (conditions : List Condition)
    → among id (map (λ k. k.condition_id) conditions) ≡ is_declared id conditions
declared-among id [] = refl
declared-among id (k ∷ rest) = ap (λ b. same id k.condition_id || b) (declared-among id rest)

pub distinct-ids :
    (conditions : List Condition)
    → AreDistinct conditions
    → DistinctIds (map (λ k. k.condition_id) conditions)
unfolding AreDistinct DistinctIds
distinct-ids [] h = tt
distinct-ids (k ∷ rest) (fresh_id, h) =
    (declared-among k.condition_id rest ∙ fresh_id, distinct-ids rest h)

evaluated_state-eq-ok :
    (states : Dict MeasurementConditionState) (name : Text)
    {found : Text × MeasurementConditionState}
    → evaluated_state states name ≡ ok found
    → (found.0 ≡ name) × (get name states ≡ some found.1)
unfolding evaluated_state required_condition_state_mut
evaluated_state-eq-ok states name {found} h =
    let (id, e₁, h₁) = >>=-eq-ok (new_condition_id name) _ h in
    let (state, e₂, h₂) = >>=-eq-ok (required_condition_state_mut states id) _ h₁ in
    let pair : (id, state) ≡ found = cc (h₂) in
    let name_id : name ≡ id = new_condition_id-eq-ok name e₁ in
    let stored : get id states ≡ some state = found-ok _ _ e₂ in
    (
      ap (λ p. p.0) (sym pair) ∙ sym name_id,
      ap (λ i. get i states) name_id ∙ stored ∙ ap (λ p. some p.1) pair,
    )

-- One turn of the loop.
record_each-step :
    (o : Observation) (states : Dict MeasurementConditionState) (e : ConditionEvaluation)
    (rest : List ConditionEvaluation) {next : Dict MeasurementConditionState}
    → record_each o states (e ∷ rest) ≡ (next, ok tt)
    → (state : MeasurementConditionState) × (get e.condition_id states ≡ some state)
      × (record_each o (insert e.condition_id (record_evaluation o e state) states) rest
          ≡ (next, ok tt))
unfolding record_each
record_each-step o states e rest {next} h =
    elim (Result-cases (evaluated_state states e.condition_id)) [
      | inl ((id, state), found) ↦
          let (name, stored) = evaluated_state-eq-ok states e.condition_id found in
          let turned : record_each o (insert id (record_evaluation o e state) states) rest
              ≡ (next, ok tt) =
            rw (record_each, found) at h in
          (
            state,
            stored,
            subst
                (λ i.
                  record_each o (insert i (record_evaluation o e state) states) rest
                  ≡ (next, ok tt))
                name turned,
          )
      | inr (failure, found) ↦
          let stopped : ◌≡◌ {A = Dict MeasurementConditionState × CoreResult (Unit {0})}
              (states, err failure) (next, ok tt) =
            rw (record_each, found) at h in
          let wrong : err failure ≡ ok tt = ap (λ p. p.1) stopped in absurd (cc (wrong))
    ]

record_each-other :
    (o : Observation) (states : Dict MeasurementConditionState) (es : List ConditionEvaluation)
    (id : Text) {next : Dict MeasurementConditionState}
    → record_each o states es ≡ (next, ok tt)
    → among id (map (λ e. e.condition_id) es) ≡ false
    → get id next ≡ get id states
unfolding record_each
record_each-other o states [] id h other = ap (λ p. get id p.0) (sym h)
record_each-other o states (e ∷ rest) id h other =
    let (state, stored, h₁) = record_each-step o states e rest h in
    let later =
      record_each-other o (insert e.condition_id (record_evaluation o e state) states) rest id h₁
        (ground (arith, other)) in
    ground (
      arith,
      other,
      later,
      get-insert id e.condition_id (record_evaluation o e state) states,
      same_list_iff id e.condition_id,
      same_list_iff e.condition_id id,
    )

-- The state of the condition of an evaluation becomes what that makes of it.
unfoldable pub IsRecorded :
    Observation
    → Dict MeasurementConditionState
    → Dict MeasurementConditionState
    → ConditionEvaluation
    → Type 0
IsRecorded o former next e =
    (state : MeasurementConditionState) × (get e.condition_id former ≡ some state)
    × (get e.condition_id next ≡ some (record_evaluation o e state))

pub record_each-IsRecorded :
    (o : Observation) (former states : Dict MeasurementConditionState)
    (es : List ConditionEvaluation) {next : Dict MeasurementConditionState}
    → record_each o states es ≡ (next, ok tt)
    → DistinctIds (map (λ e. e.condition_id) es)
    → ((id : Text) → among id (map (λ e. e.condition_id) es) ≡ true → get id states ≡ get id former)
    → All (IsRecorded o former next) es
unfolding DistinctIds IsRecorded
record_each-IsRecorded o former states [] h distinct agree = tt
record_each-IsRecorded o former states (e ∷ rest) {next} h (fresh_id, distinct) agree =
    let (state, stored, h₁) = record_each-step o states e rest h in
    let itself : same e.condition_id e.condition_id ≡ true =
      (same_list_iff e.condition_id e.condition_id).1 refl in
    let changed = insert e.condition_id (record_evaluation o e state) states in
    (
      (
        state,
        sym (agree e.condition_id (ground (arith, itself))) ∙ stored,
        record_each-other o changed rest e.condition_id h₁ fresh_id
            ∙ get-insert e.condition_id e.condition_id (record_evaluation o e state) states
            ∙ when_true _ _ itself,
      ),
      record_each-IsRecorded o former changed rest h₁ distinct (λ id later.
          get-insert id e.condition_id (record_evaluation o e state) states
          ∙ when_false {b = same e.condition_id id} _ _
              (ground (arith, later, fresh_id, same_list_iff e.condition_id id))
          ∙ agree id (ground (arith, later))),
    )
