-- ===== src/State/Lineage.antt =====
-- graph/state.rs: the generation and the episode number along the executions of a source state.
use ffhn.Base.{
  ℕ, ◌+◌, ◌^◌, ◌≤◌, ◌<◌, ◌≡◌, ◌⊎◌, inl, inr, refl, sym, ◌∙◌, subst, Bool, true, false, not, none,
  some, same, option_eq, arith, Bool-cases, when_true, when_false, if◌then◌else◌,
}
use ffhn.Base.Errors.{
  Text, CoreResult, contract, ok, err, ◌>>◌, ok_or, check_each, >>=-eq-ok, found-ok,
}
use ffhn.Stamps.{TimeLib}
use ffhn.Identity.{UuidLib, next_u64}
use ffhn.Health.Failure.{SourceFetchFailure, kind_eq}
use ffhn.Health.Source.{observe_source}
use ffhn.Health.Fault.{
  GraphIntegrationFaultCode, secret_unavailable, htmlcut_internal_error,
  ffhn_boundary_invariant_violation, ffhn_policy_invariant_violation, fault_code_eq,
  GraphIntegrationFaultCode-discrete, new_episode,
}
use ffhn.State.Facts.{UrlLib, validate_overflow, check_digest, validate_sha256}
use ffhn.State.Document.{SourceState, validate_state, require_timestamp}
use ffhn.State.Operations.{
  set_outbox_overflow, next_generation, with_representation_facts, settle, acquisition_failure,
  apply_acquisition_failure, begin_fault, has_code, next_seq, apply_source_integration_fault,
  clear_transient_episodes, with_cycle_schedule,
}
use ffhn.State.Reach.{
  Step, Steps, overflow_set, generation_next, represented, acquisition_failed, integration_failed,
  cleared, scheduled, stay, then_step, next_u64-suc,
}

module _ (time : TimeLib) (uuids : UuidLib) (urls : UrlLib) where
  abbrev State : Type 0
  State = SourceState uuids urls

  -- The later state has the lineage of the earlier one: the same source instance, and a generation and
  -- an episode number that have not gone back and that a `u64` holds if it held them before.
  pub record Later (s s' : State) : Type 0 where
    pub same_instance : s'.source_instance_id ≡ s.source_instance_id
    pub generation_grows : s.generation ≤ s'.generation
    pub generation_fits : s.generation < 2 ^ 64 → s'.generation < 2 ^ 64
    pub seq_grows : s.source_episode_seq ≤ s'.source_episode_seq
    pub seq_fits : s.source_episode_seq < 2 ^ 64 → s'.source_episode_seq < 2 ^ 64

  kept :
      (s s' : State)
      → s'.source_instance_id ≡ s.source_instance_id
      → s'.generation ≡ s.generation
      → s'.source_episode_seq ≡ s.source_episode_seq
      → Later s s'
  kept s s' i g q = record {
    same_instance = i;
    generation_grows = omega (arith, g);
    generation_fits = λ h. omega (arith, g, h);
    seq_grows = omega (arith, q);
    seq_fits = λ h. omega (arith, q, h);
  }

  -- The episode number stays, or a new episode takes the next one.
  SeqStep : State → State → Type 0
  SeqStep s s' =
      (s'.source_instance_id ≡ s.source_instance_id)
      × (s'.generation ≡ s.generation)
      × ((s'.source_episode_seq ≡ s.source_episode_seq)
          ⊎ ((s'.source_episode_seq ≡ s.source_episode_seq + 1) × (s'.source_episode_seq < 2 ^ 64)))

  SeqStep-Later : (s s' : State) → SeqStep s s' → Later s s'
  unfolding SeqStep
  SeqStep-Later s s' (i, g, inl q) = kept s s' i g q
  SeqStep-Later s s' (i, g, inr (q, b)) = record {
    same_instance = i;
    generation_grows = omega (arith, g);
    generation_fits = λ h. omega (arith, g, h);
    seq_grows = omega (arith, q);
    seq_fits = λ h. b;
  }

  unchanged : (s : State) → SeqStep s s
  unfolding SeqStep
  unchanged s = (refl, refl, inl refl)

  settle-SeqStep :
      (s : State) (prepared : CoreResult (State × Bool))
      → ((next : State) (answer : Bool) → prepared ≡ ok (next, answer) → SeqStep s next)
      → SeqStep s (settle time uuids urls s prepared).0
  settle-SeqStep s (err e) steps = unchanged s
  settle-SeqStep s (ok (next, answer)) steps = steps next answer refl

  seq-cases :
      (s : State) (began : Bool) {seq : ℕ}
      → (if began then next_seq time uuids urls s else ok s.source_episode_seq) ≡ ok seq
      → (seq ≡ s.source_episode_seq) ⊎ ((seq ≡ s.source_episode_seq + 1) × (seq < 2 ^ 64))
  seq-cases s true h = inr (next_u64-suc time uuids urls s.source_episode_seq (found-ok _ _ h))
  seq-cases s false h = inl (cc (h))

  acquisition-SeqStep :
      (s : State) (failure : SourceFetchFailure) (now : Text) (limit : ℕ) (next : State)
      (answer : Bool)
      → acquisition_failure time uuids urls s failure now limit ≡ ok (next, answer)
      → SeqStep s next
  unfolding SeqStep acquisition_failure
  acquisition-SeqStep s failure now limit next answer e =
      let began = not (same s.source_health.failure_kind (some failure.kind)) in
      let (observed, e₁, k₁) =
        >>=-eq-ok (observe_source time s.source_health failure now limit) _ e in
      let (seq, e₂, k₂) =
        >>=-eq-ok (if began then next_seq time uuids urls s else ok s.source_episode_seq) _ k₁ in
      let changed : State = record s {
        source_health = observed.0;
        source_episode_seq = seq;
        integration_fault_episode = none;
      } in
      let same_state : changed ≡ next = cc (k₂) in
      subst (λ x. SeqStep s x) same_state (refl, refl, seq-cases s began e₂)

  fault-SeqStep :
      (s : State) (code : GraphIntegrationFaultCode) (now : Text) (next : State) (answer : Bool)
      → begin_fault time uuids urls s code now ≡ ok (next, answer)
      → SeqStep s next
  unfolding SeqStep
  fault-SeqStep s code now next answer e =
      let (seq, e₁, k₁) = >>=-eq-ok (next_seq time uuids urls s) _ e in
      let (episode, e₂, k₂) = >>=-eq-ok (new_episode time code now) _ k₁ in
      let changed : State = record s {
        source_episode_seq = seq;
        integration_fault_episode = some episode;
      } in
      let same_state : changed ≡ next = cc (k₂) in
      subst (λ x. SeqStep s x) same_state (refl, refl, seq-cases s true e₁)

  integration-SeqStep :
      (s : State) (code : GraphIntegrationFaultCode) (now : Text)
      → SeqStep s (apply_source_integration_fault time uuids urls s code now).0
  unfolding apply_source_integration_fault GraphIntegrationFaultCode-discrete
  integration-SeqStep s secret_unavailable now =
      elim (Bool-cases (has_code time uuids urls s.integration_fault_episode secret_unavailable)) [
        | inl same_code ↦
            subst (λ (x : State × CoreResult Bool). SeqStep s x.0) (sym (when_true _ _ same_code))
              (unchanged s)
        | inr new_code ↦
            subst (λ (x : State × CoreResult Bool). SeqStep s x.0) (sym (when_false _ _ new_code))
              (settle-SeqStep s (begin_fault time uuids urls s secret_unavailable now)
                (fault-SeqStep s secret_unavailable now))
      ]
  integration-SeqStep s htmlcut_internal_error now = unchanged s
  integration-SeqStep s ffhn_boundary_invariant_violation now = unchanged s
  integration-SeqStep s ffhn_policy_invariant_violation now = unchanged s

  checked-Later :
      (s x : State) {s' : State}
      → Later s x
      → (validate_state time uuids urls x >> ok x) ≡ ok s'
      → Later s s'
  checked-Later s x l e =
      let (u, e₁, k₁) = >>=-eq-ok (validate_state time uuids urls x) _ e in
      subst (λ y. Later s y) (cc (k₁)) l

  Step-Later : {s s' : State} → Step time uuids urls s s' → Later s s'
  unfolding set_outbox_overflow next_generation with_representation_facts with_cycle_schedule
      clear_transient_episodes apply_acquisition_failure
  Step-Later {s} {s'} (overflow_set facts e) =
      let (u, e₁, k₁) = >>=-eq-ok (check_each validate_overflow facts) _ e in
      let same_state : record s { outbox_overflow = facts } ≡ s' = cc (k₁) in
      subst (λ x. Later s x) same_state (kept s _ refl refl refl)
  Step-Later {s} {s'} (generation_next e) =
      let (next, e₁, k₁) =
        >>=-eq-ok (ok_or (next_u64 s.generation) (contract "source generation overflowed")) _ e in
      let same_state : record s { generation = next } ≡ s' = cc (k₁) in
      let (successor, bound) = next_u64-suc time uuids urls s.generation (found-ok _ _ e₁) in
      subst (λ x. Later s x) same_state
        (record {
          same_instance = refl;
          generation_grows = omega (arith, successor);
          generation_fits = λ h. bound;
          seq_grows = omega arith;
          seq_fits = λ h. h;
        })
  Step-Later {s} {s'} (represented validators source_url base file digest e) =
      let (u₁, e₁, k₁) = >>=-eq-ok (validate_sha256 digest) _ e in
      let (u₂, e₂, k₂) = >>=-eq-ok (check_digest file) _ k₁ in
      checked-Later s _ (kept s _ refl refl refl) k₂
  Step-Later {s} (acquisition_failed failure now limit) = SeqStep-Later s _ (
      settle-SeqStep s (acquisition_failure time uuids urls s failure now limit)
        (acquisition-SeqStep s failure now limit))
  Step-Later {s} (integration_failed code now) = SeqStep-Later s _ (integration-SeqStep s code now)
  Step-Later {s} cleared = kept s _ refl refl refl
  Step-Later {s} {s'} (scheduled completed due e) =
      let (u₁, e₁, k₁) = >>=-eq-ok (require_timestamp time uuids urls completed) _ e in
      let (u₂, e₂, k₂) = >>=-eq-ok (require_timestamp time uuids urls due) _ k₁ in
      checked-Later s _ (kept s _ refl refl refl) k₂

  -- Along every sequence of operations, failed ones included, the source instance stays the same, and
  -- the generation and the episode number do not go back and stay below 2 ^ 64 if they were.
  pub Steps-Later : {s s' : State} → Steps time uuids urls s s' → Later s s'
  Steps-Later {s} stay = kept s s refl refl refl
  Steps-Later {s} {s'} (then_step {middle} before last) =
      let a : Later s middle = Steps-Later before in
      let b : Later middle s' = Step-Later last in
      record {
        same_instance = b.same_instance ∙ a.same_instance;
        generation_grows = omega (arith, a.generation_grows, b.generation_grows);
        generation_fits = λ h. b.generation_fits (a.generation_fits h);
        seq_grows = omega (arith, a.seq_grows, b.seq_grows);
        seq_fits = λ h. b.seq_fits (a.seq_fits h);
      }
