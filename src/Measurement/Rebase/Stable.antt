-- ===== src/Measurement/Rebase/Stable.antt =====
-- graph/measurement_state.rs: what `rebase_policy` keeps, and that it is idempotent.
use ffhn.Base.{
  ◌≡◌, sym, ◌∙◌, ap, subst, true, Bool-cases, inl, inr, not, List, [], same, list_eq, nat_eq, arith,
  when_false,
}
use ffhn.Base.Errors.{Text, CoreResult, ok, err, >>=-eq-ok, then_ok}
use ffhn.Base.Dict.{Dict}
use ffhn.Stamps.{TimeLib}
use ffhn.Identity.{UuidLib}
use ffhn.Policy.Types.{ValueLib}
use ffhn.Policy.Validation.{validate_conditions}
use ffhn.Policy.Validation.Unique.{validate_conditions-AreDistinct}
use ffhn.Measurement.Document.{
  MeasurementConditionState, condition_states_eq, MeasurementDocument, MeasurementState,
  validate_for_measurement,
}
use ffhn.Measurement.Rebase.{
  DefinitionDigest, condition_definition_digests, digest_map, rebase_each, adopt, rebased,
  settle_rebase, rebase_policy,
}
use ffhn.Measurement.Rebase.Loop.{rebase_each-again}

module _ (time : TimeLib) (uuids : UuidLib) (lib : ValueLib)
    (definition_digest : DefinitionDigest) where
  -- What a rebase that returned had computed.
  pub rebased-eq-ok :
      (s : MeasurementState uuids) (m : MeasurementDocument) {t : MeasurementState uuids}
      → rebased time uuids lib definition_digest s m ≡ ok t
      → (pairs : List (Text × Text)) × (digests : Dict Text) × (next : Dict
          MeasurementConditionState)
        × (validate_for_measurement time uuids lib s m ≡ ok tt)
        × (condition_definition_digests definition_digest m m.conditions ≡ ok pairs)
        × (digest_map [] pairs ≡ ok digests)
        × (rebase_each time uuids lib definition_digest s m digests [] m.conditions ≡ ok next)
        × (adopt uuids s next ≡ ok t)
  unfolding rebased
  rebased-eq-ok s m h =
      let (_, e₁, h₁) = >>=-eq-ok (validate_for_measurement time uuids lib s m) _ h in
      let (pairs, e₂, h₂) =
        >>=-eq-ok (condition_definition_digests definition_digest m m.conditions) _ h₁ in
      let (digests, e₃, h₃) = >>=-eq-ok (digest_map [] pairs) _ h₂ in
      let (next, e₄, h₄) =
        >>=-eq-ok (rebase_each time uuids lib definition_digest s m digests [] m.conditions) _ h₃ in
      (pairs, digests, next, e₁, e₂, e₃, e₄, h₄)

  pub adopted :
      (s t : MeasurementState uuids) (next : Dict MeasurementConditionState)
      → adopt uuids s next ≡ ok t
      → t.condition_state ≡ next
  adopted s t next h = elim (Bool-cases (same next s.condition_state)) [
    | inl e ↦
        let kept : s ≡ t = ground (arith, e, h) in
        ap (λ x. x.condition_state) (sym kept)
        ∙ sym ((condition_states_eq.beq_iff next s.condition_state).0 e)
    | inr e ↦ ground (arith, e, h)
  ]

  -- A settled rebase that returned has adopted its result and found it valid.
  pub settled :
      (m : MeasurementDocument) (s t : MeasurementState uuids)
      (prepared : CoreResult (MeasurementState uuids))
      → settle_rebase time uuids lib definition_digest m s prepared ≡ (t, ok tt)
      → (prepared ≡ ok t) × (validate_for_measurement time uuids lib t m ≡ ok tt)
  settled m s t (err e) h = let wrong : err e ≡ ok tt = ap (λ p. p.1) h in absurd (cc (wrong))
  settled m s t (ok next) h =
      let one : next ≡ t = ap (λ p. p.0) h in
      (
        ap ok one,
        subst (λ x. validate_for_measurement time uuids lib x m ≡ ok tt) one (ap (λ p. p.1) h),
      )

  -- `rebase_policy` is idempotent: on a measurement whose conditions are valid, a second call after
  -- one that returned changes nothing, the policy revision included, and returns.
  pub rebase_policy-idempotent :
      (s t : MeasurementState uuids) (m : MeasurementDocument)
      → validate_conditions lib m.declared_type m.type_params m.conditions ≡ ok tt
      → rebase_policy time uuids lib definition_digest s m ≡ (t, ok tt)
      → rebase_policy time uuids lib definition_digest t m ≡ (t, ok tt)
  unfolding rebase_policy rebased
  rebase_policy-idempotent s t m accepted h =
      let (e, valid) = settled m s t (rebased time uuids lib definition_digest s m) h in
      let (pairs, digests, next, _, e₂, e₃, e₄, e₅) = rebased-eq-ok s m e in
      let held = adopted s t next e₅ in
      let again =
        rebase_each-again time uuids lib definition_digest s t m digests [] m.conditions
          (validate_conditions-AreDistinct lib m.declared_type m.type_params m.conditions accepted)
          e₄ held in
      let unchanged : same next t.condition_state ≡ true =
        (condition_states_eq.beq_iff next t.condition_state).1 (sym held) in
      let second : rebased time uuids lib definition_digest t m ≡ ok t =
        then_ok _ valid
          (then_ok _ e₂ (then_ok _ e₃ (then_ok _ again (when_false _ _ (ap not unchanged))))) in
      ap (settle_rebase time uuids lib definition_digest m t) second ∙ ap (λ r. (t, r)) valid
