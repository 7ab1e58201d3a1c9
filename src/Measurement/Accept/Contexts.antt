-- ===== src/Measurement/Accept/Contexts.antt =====
-- graph/measurement_state.rs: the contexts of the declared conditions.
use ffhn.Base.{
  ◌≡◌, sym, ◌∙◌, ap, subst, true, false, Bool-cases, inl, inr, some, List, [], ◌∷◌, same, list_eq,
  nat_eq, same_list_iff, arith, when_true, when_false,
}
use ffhn.Base.Errors.{Text, ok, >>=-eq-ok, found-ok}
use ffhn.Base.Dict.{Dict, get, insert, get-insert}
use ffhn.Identity.{UuidLib}
use ffhn.Policy.Types.{Condition, ConditionContext}
use ffhn.Policy.Validation.{new_condition_id}
use ffhn.Policy.Validation.Unique.{is_declared, new_condition_id-eq-ok}
use ffhn.Measurement.Document.{MeasurementConditionState, MeasurementState}
use ffhn.Measurement.Accept.{required_condition_state, context_of, collect_contexts}

module _ (uuids : UuidLib) where
  contexts-other :
      (s : MeasurementState uuids) (acc : Dict ConditionContext) (conditions : List Condition)
      (id : Text) {contexts : Dict ConditionContext}
      → collect_contexts uuids s acc conditions ≡ ok contexts
      → is_declared id conditions ≡ false
      → get id contexts ≡ get id acc
  unfolding collect_contexts
  contexts-other s acc [] id h other = cc (h)
  contexts-other s acc (k ∷ rest) id h other =
      let (name, e₁, h₁) = >>=-eq-ok (new_condition_id k.condition_id) _ h in
      let (state, e₂, h₂) = >>=-eq-ok (required_condition_state s.condition_state name) _ h₁ in
      let same_name = new_condition_id-eq-ok k.condition_id e₁ in
      let apart : same name id ≡ false =
        ground (arith, other, same_name, same_list_iff id k.condition_id, same_list_iff name id) in
      contexts-other s (insert name (context_of uuids s state) acc) rest id h₂
        (ground (arith, other))
      ∙ get-insert id name (context_of uuids s state) acc
      ∙ when_false {b = same name id} _ _ apart

  -- The context of a declared condition is that of its state.
  unfoldable pub HasContext : MeasurementState uuids → Dict ConditionContext → Text → Type 0
  HasContext s contexts id =
      (state : MeasurementConditionState) × (get id s.condition_state ≡ some state)
      × (get id contexts ≡ some (context_of uuids s state))

  pub contexts-declared :
      (s : MeasurementState uuids) (acc : Dict ConditionContext) (conditions : List Condition)
      (id : Text) {contexts : Dict ConditionContext}
      → collect_contexts uuids s acc conditions ≡ ok contexts
      → is_declared id conditions ≡ true
      → HasContext s contexts id
  unfolding collect_contexts HasContext required_condition_state
  contexts-declared s acc [] id h known = absurd (cc (known))
  contexts-declared s acc (k ∷ rest) id {contexts} h known =
      let (name, e₁, h₁) = >>=-eq-ok (new_condition_id k.condition_id) _ h in
      let (state, e₂, h₂) = >>=-eq-ok (required_condition_state s.condition_state name) _ h₁ in
      elim (Bool-cases (is_declared id rest)) [
        | inl later ↦
            contexts-declared s (insert name (context_of uuids s state) acc) rest id h₂ later
        | inr last ↦
            let tested : same id k.condition_id ≡ true = ground (arith, known, last) in
            let one : name ≡ id =
              sym (new_condition_id-eq-ok k.condition_id e₁)
              ∙ sym ((same_list_iff id k.condition_id).0 tested) in
            subst (HasContext s contexts) one (
              state,
              found-ok _ _ e₂,
              ap (λ i. get i contexts) one
                  ∙ contexts-other s (insert name (context_of uuids s state) acc) rest id h₂ last
                  ∙ get-insert id name (context_of uuids s state) acc
                  ∙ when_true _ _ ((same_list_iff name id).1 one),
            )
      ]
