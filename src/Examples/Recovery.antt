-- ===== src/Examples/Recovery.antt =====
-- Identifiers and a commit at concrete inputs.
use ffhn.Base.{
  ℕ, ◌+◌, ◌≡◌, ◌≤◌, refl, true, none, some, [], ◌∷◌, ◌++◌, All, nat_eq, length, replicate, ltb,
  if◌then◌else◌,
}
use ffhn.Base.Errors.{Text, CoreResult, ok, err}
use ffhn.Base.Dict.{insert, insert_at, cmp_text}
use ffhn.Identity.{
  UuidLib, validate_instance_id, new_node_id, register_measurement_instance, register_measurement,
  from_first_instance, validate_measurement_identity, validate_source_identity, is_alphanumeric,
  is_separator, node_id_loop, is_valid_node_id, fresh_source_identity,
}
use ffhn.Identity.Names.{StartsGroup, is_valid_node_id-grammar}
use ffhn.Delivery.RouteId.{valid_id, valid_id-is_valid_node_id}
use ffhn.Commit.Path.{
  validate_final_path, valid_layout, is_staged, source_state_json, staged_prefix,
}
use ffhn.Commit.Operation.{validate_operation, require_sha256, CommitOperation, install}
use ffhn.Commit.Manifest.{
  check_paths, recover_against, lineage_matches, CommitManifest, acquisition,
  commit_manifest_schema_name, measurement_state_path, validate_manifest,
}
use ffhn.Commit.Store.{
  open_manifest_parent, open_components, open_or_create_child, open_existing_child,
  read_regular_bytes, Storage, directory, regular, put, key_of,
}
use ffhn.Commit.Replay.{
  replay_operation, replay_install, install_over, install_staged, replay_commit_operations,
  stage_bytes, existing_file_sha256,
}
use ffhn.Commit.Recovery.{
  read_source_state, apply_identity_additions, authorise, require_installed, require_commit_source,
  StateHead, SourceDir, recover_with, recover_normal_commit,
}
use ffhn.Commit.Crash.{Done}
use ffhn.Commit.Crash.Begun.{inside}
use ffhn.Commit.Path.{measurements_text}
use ffhn.Commit.Crash.Atomic.{interrupted, recover-interrupted}
use ffhn.Commit.Crash.Outcome.{replay-Done-All, stage_bytes-existing_file_sha256}

-- "ab-1".
abbrev ab_1 : Text
ab_1 = b'a' ∷ b'b' ∷ b'-' ∷ b'1' ∷ []

accepted : is_valid_node_id ab_1 ≡ true
unfolding is_valid_node_id node_id_loop is_alphanumeric is_separator
accepted = refl

is_valid_node_id-grammar_example : (length ab_1 ≤ 64) × StartsGroup ab_1
is_valid_node_id-grammar_example = (is_valid_node_id-grammar ab_1).0 accepted

valid_id-is_valid_node_id_example : valid_id ab_1 ≡ is_valid_node_id ab_1
valid_id-is_valid_node_id_example = valid_id-is_valid_node_id ab_1

-- Identifiers that are numbers, all of them valid; a digest that tells texts of different lengths, and
-- a source state of instance 7 whose generation is its length.
abbrev numbers : UuidLib
numbers = record { Uuid = ℕ; uuid_eq = nat_eq; version_num = λ u. 4; is_rfc4122 = λ u. true }

abbrev digest : Text → Text
digest bytes = replicate 64 (if ltb (length bytes) 9 then length bytes + 48 else 48)

abbrev decode : Text → CoreResult (StateHead numbers)
decode bytes = ok (record { generation = length bytes; source_instance_id = 7 })

abbrev staged_a : Text
staged_a = staged_prefix ++ (b'a' ∷ [])

abbrev staged_b : Text
staged_b = staged_prefix ++ (b'b' ∷ [])

abbrev one : Text
one = 1 ∷ []

abbrev two : Text
two = 1 ∷ 2 ∷ []

abbrev three : Text
three = 1 ∷ 2 ∷ 3 ∷ []

abbrev empty : Storage
empty key = none

-- The source state of generation 1, its successor, and the first state of the measurement "m".
abbrev before : Storage
before = put (key_of source_state_json) (some (regular one)) (
    put ((b's' ∷ b't' ∷ b'a' ∷ b'g' ∷ b'e' ∷ b'd' ∷ []) ∷ []) (some directory) (
      put (key_of staged_a) (some (regular two))
        (put (key_of staged_b) (some (regular three)) empty)))

abbrev measurement_m : Text
measurement_m = b'm' ∷ []

abbrev first_operation : CommitOperation
first_operation = install source_state_json staged_a (some (digest one)) (digest two)

abbrev second_operation : CommitOperation
second_operation = install (measurement_state_path measurement_m) staged_b none (digest three)

abbrev successor : CommitManifest numbers
successor = record {
  schema_name = commit_manifest_schema_name;
  schema_version = 1;
  source_id = ab_1;
  source_instance_id = 7;
  generation = 2;
  touched_measurement_instances = [];
  identity_measurement_additions = (measurement_m, 9) ∷ [];
  cause = acquisition;
  entries = first_operation ∷ second_operation ∷ [];
}

abbrev dir : SourceDir numbers
dir = record {
  identity = some (fresh_source_identity numbers 7);
  manifest = some successor;
  storage = before;
}

abbrev value_or : {A : Type 0} → A → CoreResult A → A
value_or a (ok b) = b
value_or a (err e) = a

abbrev committed : SourceDir numbers
committed = value_or dir (recover_with numbers digest decode ab_1 dir successor)

recovered : recover_with numbers digest decode ab_1 dir successor ≡ ok committed
unfolding recover_with validate_manifest validate_instance_id check_paths validate_operation
    validate_final_path valid_layout is_staged require_sha256 new_node_id is_valid_node_id
    node_id_loop is_alphanumeric is_separator require_commit_source authorise read_source_state
    read_regular_bytes recover_against lineage_matches apply_identity_additions
    register_measurement_instance register_measurement from_first_instance
    validate_measurement_identity insert insert_at cmp_text validate_source_identity
    replay_commit_operations replay_operation replay_install install_over install_staged
    open_manifest_parent open_components open_or_create_child open_existing_child require_installed
recovered = refl

abbrev Resumed : Type 0
Resumed =
    (left : SourceDir numbers) × (interrupted numbers digest decode dir successor
        (first_operation ∷ []) (measurements_text ∷ [])
      ≡ ok left)
    × (recover_normal_commit numbers digest decode ab_1 left ≡ ok committed)

recover-interrupted_example : Resumed
recover-interrupted_example =
    recover-interrupted numbers digest decode ab_1 dir successor (first_operation ∷ [])
      (second_operation ∷ []) (measurements_text ∷ []) refl (inside (measurement_m ∷ []) refl)
      recovered

abbrev installed : Storage
installed = committed.storage

replayed : replay_commit_operations digest before successor.entries ≡ ok installed
unfolding recover_with validate_manifest validate_instance_id check_paths validate_operation
    validate_final_path valid_layout is_staged require_sha256 new_node_id is_valid_node_id
    node_id_loop is_alphanumeric is_separator require_commit_source authorise read_source_state
    read_regular_bytes recover_against lineage_matches apply_identity_additions
    register_measurement_instance register_measurement from_first_instance
    validate_measurement_identity insert insert_at cmp_text validate_source_identity
    replay_commit_operations replay_operation replay_install install_over install_staged
    open_manifest_parent open_components open_or_create_child open_existing_child require_installed
replayed = refl

valid_successor : validate_manifest numbers successor ≡ ok tt
unfolding validate_manifest validate_instance_id check_paths validate_operation validate_final_path
    valid_layout is_staged require_sha256 new_node_id is_valid_node_id node_id_loop is_alphanumeric
    is_separator
valid_successor = refl

replay-Done-All_example : All (Done digest installed) successor.entries
replay-Done-All_example = replay-Done-All digest numbers successor before valid_successor replayed

-- The storage with the file "staged/a" added.
abbrev staged : Storage × Text
staged = value_or (empty, []) (stage_bytes digest empty staged_a two)

staged_now : stage_bytes digest empty staged_a two ≡ ok (staged.0, digest two)
unfolding stage_bytes is_staged open_manifest_parent open_components open_or_create_child
    open_existing_child
staged_now = refl

stage_bytes-existing_file_sha256_example :
    existing_file_sha256 digest staged.0 staged_a ≡ ok (some (digest two))
stage_bytes-existing_file_sha256_example =
    stage_bytes-existing_file_sha256 digest empty staged_a two staged_now
