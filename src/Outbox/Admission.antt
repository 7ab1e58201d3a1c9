-- ===== src/Outbox/Admission.antt =====
-- graph/outbox.rs: `OutboxAdmission::admit`, which queues events on routes up to the policy's bound.
pub mod Bounds
pub mod Keys
use ffhn.Base.{
  ℕ, ◌+◌, Bool, true, false, ◌&&◌, ◌||◌, not, Option, none, some, List, [], ◌∷◌, ◌++◌, map, length,
  any, same, list_eq, nat_eq, leb, if◌then◌else◌,
}
use ffhn.Base.Errors.{Text, CoreResult, contract, ok, err, ◌>>=◌, ◌>>◌, refuse_if, check_each}
use ffhn.Stamps.{TimeLib, require_canonical_utc_rfc3339}
use ffhn.Delivery.Record.{
  OutboxLib, EventKind, route_family_of, GraphRouteFamily, family_eq, DeliveryPolicy,
  DeliveryRecord, delivery_record_schema_name,
}
use ffhn.Outbox.{validate_policy, validate_record}

pub record GraphRoute (lib : OutboxLib) : Type 0 where
  pub route_id : Text
  pub route_family : GraphRouteFamily
  pub adapter : lib.Adapter

pub record OutboxOverflowFact : Type 0 where
  pub event_id : Text
  pub event_kind : EventKind
  pub condition_id : Option Text
  pub route_id : Text
  pub route_family : GraphRouteFamily

pub record OutboxAdmission (lib : OutboxLib) : Type 0 where
  pub records : List (DeliveryRecord lib)
  pub overflow : List OutboxOverflowFact

-- The variables of the loop: the keys in use, and what is admitted and refused so far.
pub record Progress (lib : OutboxLib) : Type 0 where
  pub occupied : List (Text × Text)
  pub admission : OutboxAdmission lib

abbrev pub same_key : Text × Text → Text × Text → Bool
same_key (event, route) (event', route') = same event event' && same route route'

module _ (time : TimeLib) (lib : OutboxLib) where
  abbrev pub record_for : lib.Envelope → GraphRoute lib → DeliveryPolicy → Text → DeliveryRecord lib
  record_for envelope route policy commit_time_utc = record {
    schema_name = delivery_record_schema_name;
    schema_version = 1;
    envelope = envelope;
    route_id = route.route_id;
    route_family = route.route_family;
    adapter = route.adapter;
    delivery_policy = policy;
    attempts = [];
    next_retry_at_utc = commit_time_utc;
  }

  -- `DeliveryRecord::new`.
  unfoldable pub new_record :
      lib.Envelope → GraphRoute lib → DeliveryPolicy → Text → CoreResult (DeliveryRecord lib)
  new_record envelope route policy commit_time_utc = do
    require_canonical_utc_rfc3339 time "delivery admission time" commit_time_utc
    refuse_if (not (same route.route_family (route_family_of (lib.event_kind envelope))))
        (contract "delivery record route family does not accept its event kind")
    validate_record time lib (record_for envelope route policy commit_time_utc)
    ok (record_for envelope route policy commit_time_utc)

  abbrev pub overflowed : lib.Envelope → GraphRoute lib → OutboxAdmission lib → OutboxAdmission lib
  overflowed envelope route a = record a {
    overflow =
        a.overflow
        ++ (record {
          event_id = lib.event_id envelope;
          event_kind = lib.event_kind envelope;
          condition_id = lib.condition_id envelope;
          route_id = route.route_id;
          route_family = route.route_family;
        }
            ∷ []);
  }

  abbrev pub queued : OutboxAdmission lib → DeliveryRecord lib → OutboxAdmission lib
  queued a r = record a { records = a.records ++ (r ∷ []) }

  module _ (existing : List (DeliveryRecord lib)) (policy : DeliveryPolicy)
      (commit_time_utc : Text) where
    -- A key that is not yet in use: its record is queued, or its overflow noted.
    unfoldable pub admit_key :
        lib.Envelope → GraphRoute lib → OutboxAdmission lib → CoreResult (OutboxAdmission lib)
    admit_key envelope route a =
        if leb policy.max_pending (length existing + length a.records)
        then ok (overflowed envelope route a)
        else (new_record envelope route policy commit_time_utc >>= λ r. ok (queued a r))

    -- One turn of the inner loop.
    unfoldable pub admit_route :
        lib.Envelope → GraphRoute lib → Progress lib → CoreResult (Progress lib)
    admit_route envelope route p =
        let key : Text × Text = (lib.event_id envelope, route.route_id) in
        if not (same route.route_family (route_family_of (lib.event_kind envelope)))
          || any (same_key key) p.occupied
        then ok p
        else (admit_key envelope route p.admission >>= λ a.
            ok (record { occupied = key ∷ p.occupied; admission = a }))

    abbrev pub admit_routes :
        lib.Envelope → List (GraphRoute lib) → Progress lib → CoreResult (Progress lib)
    admit_routes envelope [] p = ok p
    admit_routes envelope (route ∷ routes) p = do
      p' ← admit_route envelope route p
      admit_routes envelope routes p'

    abbrev pub admit_envelopes :
        List lib.Envelope → List (GraphRoute lib) → Progress lib → CoreResult (Progress lib)
    admit_envelopes [] routes p = ok p
    admit_envelopes (envelope ∷ envelopes) routes p = do
      lib.validate_envelope envelope
      p' ← admit_routes envelope routes p
      admit_envelopes envelopes routes p'

  abbrev pub key_of : DeliveryRecord lib → Text × Text
  key_of r = (lib.event_id r.envelope, r.route_id)

  abbrev pub nothing : OutboxAdmission lib
  nothing = record { records = []; overflow = [] }

  unfoldable pub admit :
      List (DeliveryRecord lib)
      → List lib.Envelope
      → List (GraphRoute lib)
      → Option DeliveryPolicy
      → Text
      → CoreResult (OutboxAdmission lib)
  admit existing envelopes routes none commit_time_utc = do
    require_canonical_utc_rfc3339 time "delivery admission time" commit_time_utc
    refuse_if (leb 1 (length routes))
        (contract "routes cannot admit records without a delivery policy")
    ok nothing
  admit existing envelopes routes (some policy) commit_time_utc = do
    require_canonical_utc_rfc3339 time "delivery admission time" commit_time_utc
    validate_policy time lib policy
    check_each (validate_record time lib) existing
    p ←
        admit_envelopes existing policy commit_time_utc envelopes routes
          (record { occupied = map key_of existing; admission = nothing })
    ok p.admission
