-- ===== src/State/Reach.antt =====
-- graph/state.rs: the executions of a source state, from its creation on.
use ffhn.Base.{
  ℕ, ◌+◌, ◌^◌, ◌<◌, ◌≡◌, inl, inr, refl, sym, subst, Bool, Option, none, some, List, list_eq,
  nat_eq, option_eq, arith,
}
use ffhn.Base.Errors.{
  Text, CoreResult, contract, ok, ◌>>◌, ok_or, check_each, >>=-eq-ok, then_ok, found-ok,
}
use ffhn.Stamps.{TimeLib}
use ffhn.Identity.{UuidLib, validate_instance_id, next_u64}
use ffhn.Health.Failure.{SourceFetchFailure, kind_eq}
use ffhn.Health.Source.{healthy_source, validate_source}
use ffhn.Health.Fault.{GraphIntegrationFaultCode, fault_code_eq}
use ffhn.Outbox.Admission.{OutboxOverflowFact}
use ffhn.State.Facts.{UrlLib, HttpValidators, validate_overflow, check_digest, validate_sha256}
use ffhn.State.Document.{SourceState, validate_state, fresh, require_timestamp}
use ffhn.State.Operations.{
  set_outbox_overflow, next_generation, with_representation_facts, apply_acquisition_failure,
  apply_source_integration_fault, clear_transient_episodes, with_cycle_schedule,
}
use ffhn.State.Validity.{
  HasParts, parts-valid, valid-parts, IsAtomic, apply_acquisition_failure-IsAtomic,
  apply_source_integration_fault-IsAtomic,
}

module _ (time : TimeLib) (uuids : UuidLib) (urls : UrlLib) where
  abbrev State : Type 0
  State = SourceState uuids urls

  -- One operation on a source state; of those that mutate it, also one that returns an error.
  pub data Step : State → State → Type 0 where
    overflow_set :
        {s s' : State} (facts : List OutboxOverflowFact)
        → set_outbox_overflow time uuids urls s facts ≡ ok s'
        → Step s s'
    generation_next : {s s' : State} → next_generation time uuids urls s ≡ ok s' → Step s s'
    represented :
        {s s' : State} (validators : Option (HttpValidators urls))
        (source_url base : Option urls.Url) (file : Option Text) (digest : Text)
        → with_representation_facts time uuids urls s validators source_url base file digest ≡ ok s'
        → Step s s'
    acquisition_failed :
        {s : State} (failure : SourceFetchFailure) (now : Text) (limit : ℕ)
        → Step s (apply_acquisition_failure time uuids urls s failure now limit).0
    integration_failed :
        {s : State} (code : GraphIntegrationFaultCode) (now : Text)
        → Step s (apply_source_integration_fault time uuids urls s code now).0
    cleared : {s : State} → Step s (clear_transient_episodes time uuids urls s)
    scheduled :
        {s s' : State} (completed due : Text)
        → with_cycle_schedule time uuids urls s completed due ≡ ok s'
        → Step s s'

  pub data Steps : State → State → Type 0 where
    stay : {s : State} → Steps s s
    then_step : {s middle s' : State} → Steps s middle → Step middle s' → Steps s s'

  IsValid : State → Type 0
  IsValid s = validate_state time uuids urls s ≡ ok tt

  atomic-IsValid :
      (s : State) (outcome : State × CoreResult Bool)
      → IsValid s
      → IsAtomic time uuids urls s outcome
      → IsValid outcome.0
  unfolding IsValid IsAtomic
  atomic-IsValid s outcome v (inl (answer, e, w)) = w
  atomic-IsValid s outcome v (inr (e, f, q)) = subst IsValid (sym q) v

  overflow_set-IsValid :
      (s : State) (facts : List OutboxOverflowFact) {s' : State}
      → HasParts time uuids urls s
      → set_outbox_overflow time uuids urls s facts ≡ ok s'
      → IsValid s'
  unfolding IsValid set_outbox_overflow HasParts
  overflow_set-IsValid s facts {s'} (head, body, health, overflow, fault, schedule) e =
      let (u, e₁, k₁) = >>=-eq-ok (check_each validate_overflow facts) _ e in
      let same_state : record s { outbox_overflow = facts } ≡ s' = cc (k₁) in
      subst IsValid same_state (
        parts-valid time uuids urls (record s { outbox_overflow = facts })
          (head, body, health, e₁, fault, schedule))

  pub next_u64-suc : (n : ℕ) {next : ℕ} → next_u64 n ≡ some next → (next ≡ n + 1) × (next < 2 ^ 64)
  next_u64-suc n h = ground arith

  next_generation-IsValid :
      (s : State) {s' : State}
      → HasParts time uuids urls s
      → next_generation time uuids urls s ≡ ok s'
      → IsValid s'
  unfolding IsValid next_generation HasParts
  next_generation-IsValid s {s'} ((current, id), body, health, overflow, fault, schedule) e =
      let (next, e₁, k₁) =
        >>=-eq-ok (ok_or (next_u64 s.generation) (contract "source generation overflowed")) _ e in
      let same_state : record s { generation = next } ≡ s' = cc (k₁) in
      let (successor, bound) = next_u64-suc s.generation (found-ok _ _ e₁) in
      subst IsValid same_state (
        parts-valid time uuids urls (record s { generation = next })
          ((ground arith, id), body, health, overflow, fault, schedule))

  checked-IsValid :
      (x : State) {s' : State} → (validate_state time uuids urls x >> ok x) ≡ ok s' → IsValid s'
  unfolding IsValid
  checked-IsValid x e =
      let (u, e₁, k₁) = >>=-eq-ok (validate_state time uuids urls x) _ e in
      subst IsValid (cc (k₁)) e₁

  cleared-IsValid :
      (s : State)
      → HasParts time uuids urls s
      → IsValid (clear_transient_episodes time uuids urls s)
  unfolding IsValid HasParts clear_transient_episodes validate_source
  cleared-IsValid s (head, body, health, overflow, fault, schedule) =
      parts-valid time uuids urls
        (record s { source_health = healthy_source; integration_fault_episode = none })
        (head, body, refl, overflow, refl, schedule)

  Step-IsValid : {s s' : State} → Step s s' → IsValid s → IsValid s'
  unfolding with_representation_facts with_cycle_schedule IsValid
  Step-IsValid {s} (overflow_set facts e) v =
      overflow_set-IsValid s facts (valid-parts time uuids urls s v) e
  Step-IsValid {s} (generation_next e) v =
      next_generation-IsValid s (valid-parts time uuids urls s v) e
  Step-IsValid {s} {s'} (represented validators source_url base file digest e) v =
      let (u₁, e₁, k₁) = >>=-eq-ok (validate_sha256 digest) _ e in
      let (u₂, e₂, k₂) = >>=-eq-ok (check_digest file) _ k₁ in checked-IsValid _ k₂
  Step-IsValid {s} (acquisition_failed failure now limit) v =
      atomic-IsValid s _ v
        (apply_acquisition_failure-IsAtomic time uuids urls s failure now limit v)
  Step-IsValid {s} (integration_failed code now) v =
      atomic-IsValid s _ v (apply_source_integration_fault-IsAtomic time uuids urls s code now v)
  Step-IsValid {s} cleared v = cleared-IsValid s (valid-parts time uuids urls s v)
  Step-IsValid {s} {s'} (scheduled completed due e) v =
      let (u₁, e₁, k₁) = >>=-eq-ok (require_timestamp time uuids urls completed) _ e in
      let (u₂, e₂, k₂) = >>=-eq-ok (require_timestamp time uuids urls due) _ k₁ in
      checked-IsValid _ k₂

  -- Every state that the operations reach from the fresh state of a valid source instance, in any
  -- order and with any arguments, passes `SourceState::validate`, also after operations that failed.
  pub Steps-valid :
      (id : uuids.Uuid)
      → validate_instance_id uuids id ≡ ok tt
      → (s : State) → Steps (fresh time uuids urls id) s
      → validate_state time uuids urls s ≡ ok tt
  unfolding IsValid fresh validate_state validate_source
  Steps-valid id v s stay = then_ok _ v refl
  Steps-valid id v s (then_step {middle} before last) =
      Step-IsValid last (Steps-valid id v middle before)
