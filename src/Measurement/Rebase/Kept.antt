-- ===== src/Measurement/Rebase/Kept.antt =====
-- graph/measurement_state.rs: the states of the conditions after `rebase_policy`.
use ffhn.Base.{
  ◌≡◌, sym, ◌∙◌, ap, subst, true, false, Bool-cases, inl, inr, Option, none, some, List, [], ◌∷◌,
  same, list_eq, nat_eq, same_list_iff, arith, when_true,
}
use ffhn.Base.Errors.{Text, CoreResult, ok}
use ffhn.Base.Dict.{Dict, get, insert, get-insert}
use ffhn.Stamps.{TimeLib}
use ffhn.Identity.{UuidLib}
use ffhn.Policy.Types.{Condition, ValueLib}
use ffhn.Policy.Validation.Unique.{is_declared}
use ffhn.Measurement.Document.{
  MeasurementConditionState, condition_states_eq, MeasurementDocument, MeasurementState,
}
use ffhn.Measurement.Rebase.{
  DefinitionDigest, condition_definition_digests, digest_map, retained, rebase_each, adopt,
  rebase_policy, rebased,
}
use ffhn.Measurement.Rebase.Loop.{rebase_each-step, rebase_each-other, retained-digest}
use ffhn.Measurement.Rebase.Stable.{rebased-eq-ok, adopted, settled}

module _ (time : TimeLib) (uuids : UuidLib) (lib : ValueLib)
    (definition_digest : DefinitionDigest) where
  -- The state of a declared condition: it carries the digest of its definition, and it is the former
  -- state where that had the same digest.
  unfoldable pub IsRebased :
      Dict MeasurementConditionState → Dict Text → Dict MeasurementConditionState → Text → Type 0
  IsRebased former digests next id =
      (digest : Text) × (state : MeasurementConditionState) × (get id digests ≡ some digest)
      × (get id next ≡ some state)
      × (state.definition_digest ≡ digest)
      × ((current : MeasurementConditionState)
          → get id former ≡ some current
          → current.definition_digest ≡ digest
          → state ≡ current)

  kept :
      (found : Option MeasurementConditionState) (digest : Text)
      (other : CoreResult MeasurementConditionState) {state : MeasurementConditionState}
      → retained found digest other ≡ ok state
      → (current : MeasurementConditionState) → found ≡ some current
      → current.definition_digest ≡ digest
      → state ≡ current
  kept found digest other h current e d =
      let one = (same_list_iff current.definition_digest digest).1 d in ground (arith, h, e, one)

  rebase_each-IsRebased :
      (s : MeasurementState uuids) (m : MeasurementDocument) (digests : Dict Text)
      (acc : Dict MeasurementConditionState) (conditions : List Condition) (id : Text)
      {next : Dict MeasurementConditionState}
      → rebase_each time uuids lib definition_digest s m digests acc conditions ≡ ok next
      → is_declared id conditions ≡ true
      → IsRebased s.condition_state digests next id
  unfolding IsRebased
  rebase_each-IsRebased s m digests acc [] id h known = absurd (cc (known))
  rebase_each-IsRebased s m digests acc (k ∷ rest) id {next} h known =
      let (digest, state, _, e₂, e₃, h₁) =
        rebase_each-step time uuids lib definition_digest s m digests acc k rest h in
      elim (Bool-cases (is_declared id rest)) [
        | inl later ↦
            rebase_each-IsRebased s m digests (insert k.condition_id state acc) rest id h₁ later
        | inr last ↦
            let tested : same id k.condition_id ≡ true = ground (arith, known, last) in
            let one : k.condition_id ≡ id = sym ((same_list_iff id k.condition_id).0 tested) in
            let stored : get id next ≡ some state =
              rebase_each-other time uuids lib definition_digest s m digests
                (insert k.condition_id state acc) rest id h₁ last
              ∙ get-insert id k.condition_id state acc
              ∙ when_true _ _ ((same_list_iff k.condition_id id).1 one) in
            subst (IsRebased s.condition_state digests next) one (
              digest,
              state,
              e₂,
              ap (λ i. get i next) one ∙ stored,
              retained-digest time uuids lib definition_digest s m k.condition_id digest e₃,
              kept (get k.condition_id s.condition_state) digest _ e₃,
            )
      ]

  adopt-observations :
      (s t : MeasurementState uuids) (next : Dict MeasurementConditionState)
      → adopt uuids s next ≡ ok t
      → (t.accepted_observation ≡ s.accepted_observation)
        × (t.observation_seq ≡ s.observation_seq)
        × (t.measurement_value_digest ≡ s.measurement_value_digest)
  adopt-observations s t next h = elim (Bool-cases (same next s.condition_state)) [
    | inl e ↦
        let kept_state : s ≡ t = ground (arith, e, h) in
        (
          ap (λ x. x.accepted_observation) (sym kept_state),
          ap (λ x. x.observation_seq) (sym kept_state),
          ap (λ x. x.measurement_value_digest) (sym kept_state),
        )
    | inr e ↦ (ground (arith, e, h), ground (arith, e, h), ground (arith, e, h))
  ]

  -- After a rebase that returned, each declared condition has a state with the digest of its
  -- definition, which is its former state where that had the digest already; no other condition has a
  -- state; and the accepted observation, its sequence and its digest are as before.
  pub rebase_policy-IsRebased :
      (s t : MeasurementState uuids) (m : MeasurementDocument)
      → rebase_policy time uuids lib definition_digest s m ≡ (t, ok tt)
      → (pairs : List (Text × Text)) × (digests : Dict Text) × (condition_definition_digests
            definition_digest m m.conditions
          ≡ ok pairs)
        × (digest_map [] pairs ≡ ok digests)
        × ((id : Text)
            → is_declared id m.conditions ≡ true
            → IsRebased s.condition_state digests t.condition_state id)
        × ((id : Text) → is_declared id m.conditions ≡ false → get id t.condition_state ≡ none)
        × ((t.accepted_observation ≡ s.accepted_observation)
            × (t.observation_seq ≡ s.observation_seq)
            × (t.measurement_value_digest ≡ s.measurement_value_digest))
  unfolding rebase_policy
  rebase_policy-IsRebased s t m h =
      let (e, _) =
        settled time uuids lib definition_digest m s t
          (rebased time uuids lib definition_digest s m) h in
      let (pairs, digests, next, _, e₂, e₃, e₄, e₅) =
        rebased-eq-ok time uuids lib definition_digest s m e in
      let held = adopted time uuids lib definition_digest s t next e₅ in
      (
        pairs,
        digests,
        e₂,
        e₃,
        λ id known.
            subst (λ states. IsRebased s.condition_state digests states id) (sym held)
              (rebase_each-IsRebased s m digests [] m.conditions id e₄ known),
        λ id unknown.
            ap (get id) held
            ∙ rebase_each-other time uuids lib definition_digest s m digests [] m.conditions id e₄
                unknown,
        adopt-observations s t next e₅,
      )
