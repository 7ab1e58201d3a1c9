-- ===== src/Commit/Path.antt =====
-- graph/manifest.rs and graph/manifest/path_validation.rs: the storage-relative paths of a commit.
use ffhn.Base.{
  ℕ, Bool, false, ◌&&◌, ◌||◌, not, Option, none, some, List, [], ◌∷◌, any, all, length, same,
  list_eq, nat_eq, ◌==◌, if◌then◌else◌,
}
use ffhn.Base.Errors.{Text, CoreResult, contract, ok, err, is_ok}
use ffhn.Base.Texts.{starts_with, strip_suffix, split_once, contains, split}
use ffhn.Identity.{new_node_id}
use ffhn.Stamps.{is_lower_hex}
use ffhn.Delivery.RouteId.{new_route_id}

abbrev pub slash : ℕ
slash = b'/'

-- The fixed names of the layout: "staged", "measurements", "state.json", "source-state.json",
-- "source-outbox", "outbox", "dead-letters".
abbrev pub staged_text : Text
staged_text = b's' ∷ b't' ∷ b'a' ∷ b'g' ∷ b'e' ∷ b'd' ∷ []

abbrev pub measurements_text : Text
measurements_text =
    b'm' ∷ b'e' ∷ b'a' ∷ b's' ∷ b'u' ∷ b'r' ∷ b'e' ∷ b'm' ∷ b'e' ∷ b'n' ∷ b't' ∷ b's' ∷ []

abbrev pub state_json : Text
state_json = b's' ∷ b't' ∷ b'a' ∷ b't' ∷ b'e' ∷ b'.' ∷ b'j' ∷ b's' ∷ b'o' ∷ b'n' ∷ []

abbrev pub source_state_json : Text
source_state_json =
    b's' ∷ b'o' ∷ b'u' ∷ b'r' ∷ b'c' ∷ b'e' ∷ b'-' ∷ b's' ∷ b't' ∷ b'a' ∷ b't' ∷ b'e' ∷ b'.' ∷ b'j'
    ∷ b's' ∷ b'o' ∷ b'n' ∷ []

abbrev pub source_outbox_text : Text
source_outbox_text =
    b's' ∷ b'o' ∷ b'u' ∷ b'r' ∷ b'c' ∷ b'e' ∷ b'-' ∷ b'o' ∷ b'u' ∷ b't' ∷ b'b' ∷ b'o' ∷ b'x' ∷ []

abbrev pub outbox_text : Text
outbox_text = b'o' ∷ b'u' ∷ b't' ∷ b'b' ∷ b'o' ∷ b'x' ∷ []

abbrev pub dead_letters_text : Text
dead_letters_text =
    b'd' ∷ b'e' ∷ b'a' ∷ b'd' ∷ b'-' ∷ b'l' ∷ b'e' ∷ b't' ∷ b't' ∷ b'e' ∷ b'r' ∷ b's' ∷ []

abbrev dot : Text
dot = b'.' ∷ []

abbrev dot_dot : Text
dot_dot = b'.' ∷ b'.' ∷ []

abbrev is_dot_segment : Text → Bool
is_dot_segment part = (length part == 0) || same part dot || same part dot_dot

-- `ManifestPath::new`; a `ManifestPath` is its text.
unfoldable pub new_manifest_path : Text → CoreResult Text
new_manifest_path value =
    if (length value == 0)
      || starts_with (slash ∷ []) value
      || contains (b'\\' ∷ []) value
      || any is_dot_segment (split slash value)
    then err (
        contract
          "commit manifest paths must be nonempty relative slash-delimited paths without dot segments")
    else ok value

abbrev pub staged_prefix : Text
staged_prefix = b's' ∷ b't' ∷ b'a' ∷ b'g' ∷ b'e' ∷ b'd' ∷ b'/' ∷ []

-- `ManifestPath::is_staged`.
unfoldable pub is_staged : Text → Bool
is_staged path = starts_with staged_prefix path

abbrev double_dash : Text
double_dash = b'-' ∷ b'-' ∷ []

abbrev valid_stem : Option (Text × Text) → Bool
valid_stem none = false
valid_stem (some (event_id, route_id)) =
    not (contains double_dash route_id)
    && (length event_id == 64)
    && all is_lower_hex event_id
    && is_ok (new_route_id route_id)

abbrev valid_without_suffix : Option Text → Bool
valid_without_suffix none = false
valid_without_suffix (some stem) = valid_stem (split_once double_dash stem)

unfoldable pub valid_delivery_file_name : Text → Bool
valid_delivery_file_name value =
    valid_without_suffix (strip_suffix (b'.' ∷ b'j' ∷ b's' ∷ b'o' ∷ b'n' ∷ []) value)

-- The alternatives of the `match` on the parts of the path.
unfoldable pub valid_layout : List Text → Bool
valid_layout (a ∷ []) = same a source_state_json
valid_layout (a ∷ b ∷ []) =
    (same a source_outbox_text || same a dead_letters_text) && valid_delivery_file_name b
valid_layout (a ∷ b ∷ c ∷ []) =
    same a measurements_text && same c state_json && is_ok (new_node_id b)
valid_layout (a ∷ b ∷ c ∷ d ∷ []) =
    same a measurements_text
    && (same c outbox_text || same c dead_letters_text)
    && is_ok (new_node_id b)
    && valid_delivery_file_name d
valid_layout _ = false

unfoldable pub validate_final_path : Text → CoreResult (Unit {0})
validate_final_path path =
    if valid_layout (split slash path)
    then ok tt
    else err (
        contract "commit manifest final path is outside the closed state/outbox/dead-letter layout")
