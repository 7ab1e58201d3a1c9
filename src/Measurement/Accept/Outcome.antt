-- ===== src/Measurement/Accept/Outcome.antt =====
-- graph/measurement_state.rs: an accepted observation, from the rebase to the last validation.
use ffhn.Base.{
  ℕ, ◌+◌, ◌≡◌, refl, sym, ◌∙◌, ap, subst, true, not, none, some, List, [], map, All, list_eq,
  nat_eq, arith,
}
use ffhn.Base.Errors.{Text, CoreResult, ok, err, ◌>>◌, refuse_if, >>=-eq-ok, found-ok}
use ffhn.Base.Dict.{Dict, get}
use ffhn.Stamps.{TimeLib}
use ffhn.Identity.{UuidLib, next_u64}
use ffhn.Health.{healthy_extraction}
use ffhn.Policy.Types.{Observation, ConditionContext, ConditionEvaluation, ValueLib}
use ffhn.Policy.Contract.{observation_matches_contract}
use ffhn.Policy.Evaluate.{evaluate_conditions}
use ffhn.Policy.Evaluate.Batch.{evaluate_conditions-ids}
use ffhn.Policy.Validation.{validate_conditions}
use ffhn.Policy.Validation.Unique.{is_declared, validate_conditions-AreDistinct}
use ffhn.Measurement.Document.{
  MeasurementConditionState, MeasurementDocument, MeasurementState, validate_for_measurement,
}
use ffhn.Measurement.Rebase.{DefinitionDigest, rebase_policy}
use ffhn.Measurement.Accept.{
  collect_contexts, collect_ids, require_exact_evaluation_ids, record_each, check_digests,
  evaluate_accepted, accepted_state, finish_observation, next_observation_seq, record_observation,
  after_rebase, after_checks, apply_accepted_observation,
}
use ffhn.Measurement.Rebase.Kept.{rebase_policy-IsRebased}
use ffhn.Measurement.Accept.Recorded.{DistinctIds, distinct-ids, IsRecorded, record_each-IsRecorded}
use ffhn.Measurement.Accept.Contexts.{HasContext, contexts-declared}

module _ (time : TimeLib) (uuids : UuidLib) (lib : ValueLib)
    (definition_digest : DefinitionDigest) where
  evaluate_accepted-eq-ok :
      (s : MeasurementState uuids) (m : MeasurementDocument) (o : Observation)
      {es : List ConditionEvaluation}
      → evaluate_accepted time uuids lib definition_digest s m o ≡ ok es
      → (contexts : Dict ConditionContext) × (collect_contexts uuids s [] m.conditions
          ≡ ok contexts)
        × (evaluate_conditions lib m o (λ id. get id contexts) ≡ ok es)
  unfolding evaluate_accepted
  evaluate_accepted-eq-ok s m o {es} h =
      let (_, _, h₁) = >>=-eq-ok (refuse_if (not (observation_matches_contract m o)) _) _ h in
      let (contexts, e₂, h₂) = >>=-eq-ok (collect_contexts uuids s [] m.conditions) _ h₁ in
      let (found, e₃, h₃) = >>=-eq-ok (evaluate_conditions lib m o (λ id. get id contexts)) _ h₂ in
      let (expected, _, h₄) =
        >>=-eq-ok (collect_ids [] (map (λ k. k.condition_id) m.conditions)) _ h₃ in
      let (observed, _, h₅) = >>=-eq-ok (collect_ids [] (map (λ e. e.condition_id) found)) _ h₄ in
      let (_, _, h₆) = >>=-eq-ok (require_exact_evaluation_ids expected observed) _ h₅ in
      let one : found ≡ es = cc (h₆) in (contexts, e₂, e₃ ∙ ap ok one)

  finish-eq-ok :
      (m : MeasurementDocument) (o : Observation) (digest : Text) (es : List ConditionEvaluation)
      (s t : MeasurementState uuids) (r : CoreResult ℕ) {answer : List ConditionEvaluation}
      → finish_observation time uuids lib definition_digest m o digest es s r ≡ (t, ok answer)
      → (seq : ℕ) × (r ≡ ok seq)
        × (accepted_state uuids s o digest seq ≡ t)
        × (validate_for_measurement time uuids lib t m ≡ ok tt)
        × (es ≡ answer)
  finish-eq-ok m o digest es s t (err e) h =
      let wrong : err e ≡ ok _ = ap (λ p. p.1) h in absurd (cc (wrong))
  finish-eq-ok m o digest es s t (ok seq) {answer} h =
      let one : accepted_state uuids s o digest seq ≡ t = ap (λ p. p.0) h in
      let (_, valid, k) =
        >>=-eq-ok (validate_for_measurement time uuids lib (accepted_state uuids s o digest seq) m)
          _ (ap (λ p. p.1) h) in
      (
        seq,
        refl,
        one,
        subst (λ x. validate_for_measurement time uuids lib x m ≡ ok tt) one valid,
        cc (k),
      )

  -- What the loop and the assignments make of the rebased state `s`.
  IsAccepted :
      MeasurementDocument
      → Observation
      → Text
      → MeasurementState uuids
      → MeasurementState uuids
      → List ConditionEvaluation
      → Type 0
  IsAccepted m o digest s t es =
      (next : Dict MeasurementConditionState) × (seq : ℕ) × (record_each o s.condition_state es
        ≡ (next, ok tt))
      × (next_u64 s.observation_seq ≡ some seq)
      × (accepted_state uuids (record s { condition_state = next }) o digest seq ≡ t)
      × (validate_for_measurement time uuids lib t m ≡ ok tt)

  record_observation-eq-ok :
      (m : MeasurementDocument) (o : Observation) (digest : Text) (s t : MeasurementState uuids)
      (r : CoreResult (List ConditionEvaluation)) {es : List ConditionEvaluation}
      → record_observation time uuids lib definition_digest m o digest s r ≡ (t, ok es)
      → (r ≡ ok es) × IsAccepted m o digest s t es
  unfolding IsAccepted
  record_observation-eq-ok m o digest s t (err e) h =
      let wrong : err e ≡ ok _ = ap (λ p. p.1) h in absurd (cc (wrong))
  record_observation-eq-ok m o digest s t (ok found) {es} h =
      let recorded = record_each o s.condition_state found in
      let changed : MeasurementState uuids = record s { condition_state = recorded.0 } in
      let (seq, e₁, made, valid, one) =
        finish-eq-ok m o digest found changed t (recorded.1 >> next_observation_seq uuids changed)
          h in
      let (_, e₂, h₂) = >>=-eq-ok recorded.1 _ e₁ in
      let loop : recorded ≡ (recorded.0, ok tt) = ap (λ r. (recorded.0, r)) e₂ in
      (
        ap ok one,
        (
          recorded.0,
          seq,
          subst (λ l. record_each o s.condition_state l ≡ (recorded.0, ok tt)) one loop,
          found-ok _ _ h₂,
          made,
          valid,
        ),
      )

  after_rebase-eq-ok :
      (m : MeasurementDocument) (o : Observation) (digest : Text) (t : MeasurementState uuids)
      (s : MeasurementState uuids) (r : CoreResult (Unit {0})) {es : List ConditionEvaluation}
      → after_rebase time uuids lib definition_digest m o digest (s, r) ≡ (t, ok es)
      → (r ≡ ok tt)
        × (evaluate_accepted time uuids lib definition_digest s m o ≡ ok es)
        × IsAccepted m o digest s t es
  after_rebase-eq-ok m o digest t s (err e) h =
      let wrong : err e ≡ ok _ = ap (λ p. p.1) h in absurd (cc (wrong))
  after_rebase-eq-ok m o digest t s (ok u) h =
      let (found, made) =
        record_observation-eq-ok m o digest s t
          (evaluate_accepted time uuids lib definition_digest s m o) h in
      (refl, found, made)

  after_checks-eq-ok :
      (s t : MeasurementState uuids) (m : MeasurementDocument) (o : Observation) (digest : Text)
      (r : CoreResult (Unit {0})) {es : List ConditionEvaluation}
      → after_checks time uuids lib definition_digest s m o digest r ≡ (t, ok es)
      → after_rebase time uuids lib definition_digest m o digest
          (rebase_policy time uuids lib definition_digest s m)
        ≡ (t, ok es)
  after_checks-eq-ok s t m o digest (err e) h =
      let wrong : err e ≡ ok _ = ap (λ p. p.1) h in absurd (cc (wrong))
  after_checks-eq-ok s t m o digest (ok u) h = h

  -- An accepted observation of a measurement with valid conditions rebases the policy, and evaluates
  -- the observation against the contexts of the rebased conditions; the state of each evaluated
  -- condition becomes what its evaluation makes of the rebased one; the observation and its digest
  -- are stored, its sequence grows by one, the extraction health and the integration fault are
  -- cleared, and the state is valid for the measurement.
  pub apply_accepted_observation-IsRecorded :
      (s t : MeasurementState uuids) (m : MeasurementDocument) (o : Observation) (digest : Text)
      (es : List ConditionEvaluation)
      → validate_conditions lib m.declared_type m.type_params m.conditions ≡ ok tt
      → apply_accepted_observation time uuids lib definition_digest s m o digest ≡ (t, ok es)
      → (u : MeasurementState uuids) × (contexts : Dict ConditionContext) × (rebase_policy time
            uuids lib definition_digest s m
          ≡ (u, ok tt))
        × ((id : Text) → is_declared id m.conditions ≡ true → HasContext uuids u contexts id)
        × (evaluate_conditions lib m o (λ id. get id contexts) ≡ ok es)
        × All (IsRecorded o u.condition_state t.condition_state) es
        × ((t.observation_seq ≡ s.observation_seq + 1)
            × (t.accepted_observation ≡ some o)
            × (t.measurement_value_digest ≡ some digest)
            × (t.extraction_health ≡ healthy_extraction)
            × (t.integration_fault_episode ≡ none))
        × (validate_for_measurement time uuids lib t m ≡ ok tt)
  unfolding apply_accepted_observation IsAccepted
  apply_accepted_observation-IsRecorded s t m o digest es accepted h =
      let (u, r) = rebase_policy time uuids lib definition_digest s m in
      let h₁ = after_checks-eq-ok s t m o digest (check_digests uuids s digest) h in
      let (e₁, e₂, (next, seq, e₃, e₄, made, valid)) = after_rebase-eq-ok m o digest t u r h₁ in
      let rebase : rebase_policy time uuids lib definition_digest s m ≡ (u, ok tt) =
        ap (λ x. (u, x)) e₁ in
      let (contexts, e₅, e₆) = evaluate_accepted-eq-ok u m o e₂ in
      let (_, _, _, _, _, _, (_, same_seq, _)) =
        rebase_policy-IsRebased time uuids lib definition_digest s u m rebase in
      let ids = evaluate_conditions-ids lib m o (λ id. get id contexts) e₆ in
      let distinct =
        distinct-ids m.conditions (
          validate_conditions-AreDistinct lib m.declared_type m.type_params m.conditions
            accepted) in
      (
        u,
        contexts,
        rebase,
        λ id known. contexts-declared uuids u [] m.conditions id e₅ known,
        e₆,
        subst (λ x. All (IsRecorded o u.condition_state x) es) (ap (λ x. x.condition_state) made)
            (record_each-IsRecorded o u.condition_state u.condition_state es e₃
              (subst DistinctIds (sym ids) distinct) (λ id known. refl)),
        (
          ap (λ x. x.observation_seq) (sym made) ∙ ground (arith, e₄, same_seq),
          ap (λ x. x.accepted_observation) (sym made),
          ap (λ x. x.measurement_value_digest) (sym made),
          ap (λ x. x.extraction_health) (sym made),
          ap (λ x. x.integration_fault_episode) (sym made),
        ),
        valid,
      )
