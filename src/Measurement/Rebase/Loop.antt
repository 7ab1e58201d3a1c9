-- ===== src/Measurement/Rebase/Loop.antt =====
-- graph/measurement_state.rs: the loop of `rebase_policy` over the declared conditions.
use ffhn.Base.{
  ◌≡◌, refl, sym, ◌∙◌, ap, subst, true, false, Bool-cases, inl, inr, some, Option-cases, List, [],
  ◌∷◌, same, list_eq, nat_eq, same_list_iff, arith, when_true,
}
use ffhn.Base.Errors.{Text, ok, ok_or, internal, >>=-eq-ok, found-ok}
use ffhn.Base.Dict.{Dict, get, insert, get-insert}
use ffhn.Stamps.{TimeLib}
use ffhn.Identity.{UuidLib}
use ffhn.Policy.Types.{Condition, ValueLib}
use ffhn.Policy.Evaluate.{evaluate_conditions}
use ffhn.Policy.Validation.{new_condition_id}
use ffhn.Policy.Validation.Unique.{is_declared, AreDistinct, new_condition_id-eq-ok}
use ffhn.Measurement.Document.{
  MeasurementConditionState, condition_states_eq, MeasurementDocument, MeasurementState,
}
use ffhn.Measurement.Rebase.{
  DefinitionDigest, required_definition_digest, rebased_condition_state, find_condition,
  seed_context, only, first_evaluation, seed, seeded, retained, rebase_each,
}

module _ (time : TimeLib) (uuids : UuidLib) (lib : ValueLib)
    (definition_digest : DefinitionDigest) where
  -- One turn of the loop.
  pub rebase_each-step :
      (s : MeasurementState uuids) (m : MeasurementDocument) (digests : Dict Text)
      (acc : Dict MeasurementConditionState) (k : Condition) (rest : List Condition)
      {next : Dict MeasurementConditionState}
      → rebase_each time uuids lib definition_digest s m digests acc (k ∷ rest) ≡ ok next
      → (digest : Text) × (state : MeasurementConditionState) × (new_condition_id k.condition_id
          ≡ ok k.condition_id)
        × (get k.condition_id digests ≡ some digest)
        × (retained
              (get k.condition_id s.condition_state)
              digest
              (rebased_condition_state time uuids lib definition_digest s m k.condition_id digest)
            ≡ ok state)
        × (rebase_each time uuids lib definition_digest s m digests
              (insert k.condition_id state acc)
              rest
            ≡ ok next)
  unfolding rebase_each required_definition_digest
  rebase_each-step s m digests acc k rest {next} h =
      let (id, e₁, h₁) = >>=-eq-ok (new_condition_id k.condition_id) _ h in
      let (digest, e₂, h₂) = >>=-eq-ok (required_definition_digest digests id) _ h₁ in
      let (state, e₃, h₃) =
        >>=-eq-ok
          (retained (get id s.condition_state) digest
            (rebased_condition_state time uuids lib definition_digest s m id digest))
          _ h₂ in
      let name : id ≡ k.condition_id = sym (new_condition_id-eq-ok k.condition_id e₁) in
      (
        digest,
        state,
        subst (λ i. new_condition_id k.condition_id ≡ ok i) name e₁,
        found-ok _ _ (subst (λ i. required_definition_digest digests i ≡ ok digest) name e₂),
        subst
            (λ i.
              retained (get i s.condition_state) digest
                (rebased_condition_state time uuids lib definition_digest s m i digest)
              ≡ ok state)
            name e₃,
        subst
            (λ i.
              rebase_each time uuids lib definition_digest s m digests (insert i state acc) rest
              ≡ ok next)
            name h₃,
      )

  insert-itself :
      (id : Text) (state : MeasurementConditionState) (acc : Dict MeasurementConditionState)
      → get id (insert id state acc) ≡ some state
  insert-itself id state acc =
      get-insert id id state acc ∙ when_true _ _ ((same_list_iff id id).1 refl)

  -- The loop does not change the state of another identifier.
  pub rebase_each-other :
      (s : MeasurementState uuids) (m : MeasurementDocument) (digests : Dict Text)
      (acc : Dict MeasurementConditionState) (conditions : List Condition) (id : Text)
      {next : Dict MeasurementConditionState}
      → rebase_each time uuids lib definition_digest s m digests acc conditions ≡ ok next
      → is_declared id conditions ≡ false
      → get id next ≡ get id acc
  unfolding rebase_each
  rebase_each-other s m digests acc [] id h other = cc (h)
  rebase_each-other s m digests acc (k ∷ rest) id {next} h other =
      let (digest, state, _, _, _, h₁) = rebase_each-step s m digests acc k rest h in
      let later =
        rebase_each-other s m digests (insert k.condition_id state acc) rest id h₁
          (ground (arith, other)) in
      ground (
        arith,
        other,
        later,
        get-insert id k.condition_id state acc,
        same_list_iff id k.condition_id,
        same_list_iff k.condition_id id,
      )

  seed-digest :
      (s : MeasurementState uuids) (m : MeasurementDocument) (id digest : Text)
      {state : MeasurementConditionState}
      → rebased_condition_state time uuids lib definition_digest s m id digest ≡ ok state
      → state.definition_digest ≡ digest
  unfolding rebased_condition_state
  seed-digest s m id digest {state} h = elim (Option-cases s.accepted_observation) [
    | inl e ↦ ground (arith, e, h)
    | inr (o, e) ↦
        let h₀ : seed time uuids lib definition_digest m (some o) id digest ≡ ok state =
          subst (λ x. seed time uuids lib definition_digest m x id digest ≡ ok state) e h in
        let (condition, _, h₁) =
          >>=-eq-ok
            (ok_or (find_condition id m.conditions)
              (internal "rebasing requested an undeclared condition"))
            _ h₀ in
        let (evaluations, _, h₂) =
          >>=-eq-ok
            (evaluate_conditions lib (record m { conditions = condition ∷ [] }) o
              (only id (seed_context o)))
            _ h₁ in
        let (evaluation, _, h₃) =
          >>=-eq-ok
            (ok_or (first_evaluation evaluations)
              (internal "rebasing did not evaluate its condition"))
            _ h₂ in
        let made : seeded digest o evaluation ≡ state = cc (h₃) in
        ap (λ c. c.definition_digest) (sym made)
  ]

  -- The state that the loop stores for a condition carries the digest of its definition, and is the
  -- stored one if that has the digest.
  pub retained-digest :
      (s : MeasurementState uuids) (m : MeasurementDocument) (id digest : Text)
      {state : MeasurementConditionState}
      → retained
          (get id s.condition_state)
          digest
          (rebased_condition_state time uuids lib definition_digest s m id digest)
        ≡ ok state
      → state.definition_digest ≡ digest
  retained-digest s m id digest {state} h = elim (Option-cases (get id s.condition_state)) [
    | inl e ↦ seed-digest s m id digest {state = state} (ground (arith, e, h))
    | inr (current, e) ↦ elim (Bool-cases (same current.definition_digest digest)) [
      | inl f ↦
          let kept : current ≡ state = ground (arith, e, f, h) in
          ap (λ c. c.definition_digest) (sym kept)
          ∙ (same_list_iff current.definition_digest digest).0 f
      | inr f ↦ seed-digest s m id digest {state = state} (ground (arith, e, f, h))
    ]
  ]

  -- A state that already holds what the loop has built for the conditions builds it again.
  pub rebase_each-again :
      (s t : MeasurementState uuids) (m : MeasurementDocument) (digests : Dict Text)
      (acc : Dict MeasurementConditionState) (conditions : List Condition)
      {next : Dict MeasurementConditionState}
      → AreDistinct conditions
      → rebase_each time uuids lib definition_digest s m digests acc conditions ≡ ok next
      → t.condition_state ≡ next
      → rebase_each time uuids lib definition_digest t m digests acc conditions ≡ ok next
  unfolding rebase_each required_definition_digest AreDistinct
  rebase_each-again s t m digests acc [] distinct h held = h
  rebase_each-again s t m digests acc (k ∷ rest) {next} (fresh_id, distinct) h held =
      let (digest, state, e₁, e₂, e₃, h₁) = rebase_each-step s m digests acc k rest h in
      let stored : get k.condition_id next ≡ some state =
        rebase_each-other s m digests (insert k.condition_id state acc) rest k.condition_id h₁
          fresh_id
        ∙ insert-itself k.condition_id state acc in
      let found : get k.condition_id t.condition_state ≡ some state =
        ap (get k.condition_id) held ∙ stored in
      let its_digest : same state.definition_digest digest ≡ true =
        (same_list_iff state.definition_digest digest).1
          (retained-digest s m k.condition_id digest e₃) in
      let again =
        rebase_each-again s t m digests (insert k.condition_id state acc) rest distinct h₁ held in
      ground (arith, e₁, e₂, found, its_digest, again)
