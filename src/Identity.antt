-- ===== src/Identity.antt =====
-- graph/identity.rs: node identifiers, and the identities of a graph, a source and its measurements.
pub mod Names
use ffhn.Base.{
  ℕ, suc, ◌+◌, ◌^◌, Bool, true, false, ◌&&◌, ◌||◌, not, Option, none, some, List, [], ◌∷◌, map,
  length, same, Eq, list_eq, nat_eq, discrete_eq, ltb, leb, ◌==◌, if◌then◌else◌,
}
use ffhn.Base.Dict.{Dict, get, insert, contains_key}
use ffhn.Base.Errors.{
  Text, CoreResult, contract, ok, err, ◌>>=◌, ◌>>◌, refuse_if, ok_or, check_each,
}
use ffhn.Stamps.{TimeLib, require_canonical_utc_rfc3339}

abbrev is_ascii_lowercase : ℕ → Bool
is_ascii_lowercase byte = leb b'a' byte && leb byte b'z'

abbrev is_ascii_digit : ℕ → Bool
is_ascii_digit byte = leb b'0' byte && leb byte b'9'

unfoldable pub is_alphanumeric : ℕ → Bool
is_alphanumeric byte = is_ascii_lowercase byte || is_ascii_digit byte

unfoldable pub is_separator : ℕ → Bool
is_separator byte = byte == b'-' || byte == b'_'

-- The loop over the bytes, with the variable `previous_was_separator`.
unfoldable pub node_id_loop : Bool → Text → Bool
node_id_loop previous_was_separator [] = not previous_was_separator
node_id_loop previous_was_separator (byte ∷ rest) =
    let next = node_id_loop (is_separator byte) rest in
    if not (is_alphanumeric byte) && not (is_separator byte)
    then false
    else if is_separator byte && previous_was_separator
    then false
    else next

unfoldable pub is_valid_node_id : Text → Bool
unfolding node_id_loop
is_valid_node_id value =
    if length value == 0 || ltb 64 (length value) then false else node_id_loop true value

-- `SourceId::new` and `MeasurementId::new`.
unfoldable pub new_node_id : Text → CoreResult Text
new_node_id value =
    if is_valid_node_id value
    then ok value
    else err (
        contract
          "{} must use lowercase letters or digits separated only by one internal '-' or '_' and be at most 64 bytes")

-- The crate `uuid`.
pub record UuidLib : Type 1 where
  pub Uuid : Type 0
  pub uuid_eq : Eq Uuid
  pub version_num : Uuid → ℕ
  pub is_rfc4122 : Uuid → Bool

-- `checked_add(1)` of `u64`.
abbrev pub next_u64 : ℕ → Option ℕ
next_u64 n = if ltb (n + 1) (2 ^ 64) then some (n + 1) else none

-- "ffhn.graph_identity" and "ffhn.source_identity"; both have version 1.
abbrev pub graph_identity_schema_name : Text
graph_identity_schema_name =
    b'f' ∷ b'f' ∷ b'h' ∷ b'n' ∷ b'.' ∷ b'g' ∷ b'r' ∷ b'a' ∷ b'p' ∷ b'h' ∷ b'_' ∷ b'i' ∷ b'd' ∷ b'e'
    ∷ b'n' ∷ b't' ∷ b'i' ∷ b't' ∷ b'y' ∷ []

abbrev pub source_identity_schema_name : Text
source_identity_schema_name =
    b'f' ∷ b'f' ∷ b'h' ∷ b'n' ∷ b'.' ∷ b's' ∷ b'o' ∷ b'u' ∷ b'r' ∷ b'c' ∷ b'e' ∷ b'_' ∷ b'i' ∷ b'd'
    ∷ b'e' ∷ b'n' ∷ b't' ∷ b'i' ∷ b't' ∷ b'y' ∷ []

pub record GraphIdentity (lib : UuidLib) : Type 0 where
  pub schema_name : Text
  pub schema_version : ℕ
  pub graph_id : lib.Uuid
  pub created_at_utc : Text

pub record MeasurementIdentity (lib : UuidLib) : Type 0 where
  pub measurement_instance_id : lib.Uuid
  pub reset_count : ℕ

pub record SourceIdentity (lib : UuidLib) : Type 0 where
  pub schema_name : Text
  pub schema_version : ℕ
  pub source_instance_id : lib.Uuid
  pub measurements : Dict (MeasurementIdentity lib)

module _ (lib : UuidLib) where
  open lib use {Uuid, uuid_eq, version_num, is_rfc4122}

  -- The `validate` of `instance_id!`.
  unfoldable pub validate_instance_id : Uuid → CoreResult (Unit {0})
  validate_instance_id id =
      if version_num id == 4 && is_rfc4122 id then ok tt else err (contract "{} must be a UUIDv4")

  unfoldable pub validate_graph_identity : TimeLib → GraphIdentity lib → CoreResult (Unit {0})
  validate_graph_identity time g = do
    refuse_if (not (same g.schema_name graph_identity_schema_name) || not (g.schema_version == 1))
        (contract "graph identity is not a current FFHN graph identity")
    validate_instance_id g.graph_id
    require_canonical_utc_rfc3339 time "graph identity created_at_utc" g.created_at_utc

  -- A newly minted identifier is an argument, also below.
  unfoldable pub new_graph_identity : TimeLib → Uuid → Text → CoreResult (GraphIdentity lib)
  new_graph_identity time minted created_at_utc = do
    let identity : GraphIdentity lib = record {
      schema_name = graph_identity_schema_name;
      schema_version = 1;
      graph_id = minted;
      created_at_utc = created_at_utc;
    }
    validate_graph_identity time identity
    ok identity

  -- `MeasurementIdentity::validate`.
  unfoldable pub validate_measurement_identity : MeasurementIdentity lib → CoreResult (Unit {0})
  validate_measurement_identity m = validate_instance_id m.measurement_instance_id

  unfoldable pub from_first_instance : Uuid → CoreResult (MeasurementIdentity lib)
  from_first_instance id = do
    validate_instance_id id
    ok (record { measurement_instance_id = id; reset_count = 0 })

  abbrev pub next_reset_count : Option (MeasurementIdentity lib) → CoreResult ℕ
  next_reset_count none = ok 1
  next_reset_count (some previous) =
      ok_or (next_u64 previous.reset_count) (contract "measurement reset_count overflowed")

  unfoldable pub reset_from :
      Uuid → Option (MeasurementIdentity lib) → CoreResult (MeasurementIdentity lib)
  reset_from minted previous = do
    reset_count ← next_reset_count previous
    ok (record { measurement_instance_id = minted; reset_count = reset_count })

  -- `SourceIdentity::fresh`.
  abbrev pub fresh_source_identity : Uuid → SourceIdentity lib
  fresh_source_identity minted = record {
    schema_name = source_identity_schema_name;
    schema_version = 1;
    source_instance_id = minted;
    measurements = [];
  }

  unfoldable pub register_measurement :
      SourceIdentity lib → Text → MeasurementIdentity lib → CoreResult (SourceIdentity lib)
  register_measurement identity id m = do
    validate_measurement_identity m
    refuse_if (contains_key id identity.measurements)
        (contract "measurement identity already exists and cannot be registered again")
    ok (record identity { measurements = insert id m identity.measurements })

  unfoldable pub register_measurement_instance :
      SourceIdentity lib → Text → Uuid → CoreResult (SourceIdentity lib)
  register_measurement_instance identity id instance_id = do
    m ← from_first_instance instance_id
    register_measurement identity id m

  unfoldable pub reset_measurement :
      SourceIdentity lib → Text → Uuid → CoreResult (SourceIdentity lib × MeasurementIdentity lib)
  reset_measurement identity id minted = do
    replacement ← reset_from minted (get id identity.measurements)
    ok (record identity { measurements = insert id replacement identity.measurements }, replacement)

  unfoldable pub validate_source_identity : SourceIdentity lib → CoreResult (Unit {0})
  validate_source_identity s = do
    refuse_if (not (same s.schema_name source_identity_schema_name) || not (s.schema_version == 1))
        (contract "source identity is not a current FFHN source identity")
    validate_instance_id s.source_instance_id
    check_each (λ entry. validate_measurement_identity entry.1) s.measurements
