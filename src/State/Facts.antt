-- ===== src/State/Facts.antt =====
-- graph/state.rs, graph/acquire.rs and graph/outbox.rs: the facts that a source state holds.
use ffhn.Base.{
  Bool, true, false, ◌&&◌, ◌||◌, not, Option, none, some, all, length, same, list_eq, nat_eq,
  option_eq, Eq, ◌==◌, if◌then◌else◌,
}
use ffhn.Base.Errors.{Text, CoreResult, contract, ok, err, ◌>>◌, refuse_if}
use ffhn.Base.Texts.{is_some}
use ffhn.Stamps.{is_lower_hex}
use ffhn.Health.Failure.{kind_eq}
use ffhn.Health.Fault.{fault_code_eq}
use ffhn.Delivery.Record.{
  EventKind, condition_satisfied, condition_evaluation_issue, route_family_of, family_eq,
}
use ffhn.Outbox.Admission.{OutboxOverflowFact}

-- The crate `url`.
pub record UrlLib : Type 1 where
  pub Url : Type 0
  pub url_eq : Eq Url
  pub is_http : Url → Bool
  pub username : Url → Text
  pub password : Url → Option Text

pub record HttpValidators (urls : UrlLib) : Type 0 where
  pub issued_url : urls.Url
  pub etag : Option Text
  pub last_modified : Option Text

unfoldable pub validate_sha256 : Text → CoreResult (Unit {0})
validate_sha256 value =
    if (length value == 64) && all is_lower_hex value
    then ok tt
    else err (contract "{field} must be lowercase SHA-256")

abbrev pub check_digest : Option Text → CoreResult (Unit {0})
check_digest none = ok tt
check_digest (some digest) = validate_sha256 digest

abbrev is_condition_kind : EventKind → Bool
is_condition_kind condition_satisfied = true
is_condition_kind condition_evaluation_issue = true
is_condition_kind _ = false

-- `OutboxOverflowFact::validate`.
unfoldable pub validate_overflow : OutboxOverflowFact → CoreResult (Unit {0})
validate_overflow f =
    if (length f.event_id == 64)
      && all is_lower_hex f.event_id
      && same f.route_family (route_family_of f.event_kind)
      && (if is_condition_kind f.event_kind
          then is_some f.condition_id
          else not (is_some f.condition_id))
    then ok tt
    else err (contract "outbox overflow event, condition, and route-family facts disagree")

-- `is_none_or(str::is_empty)` and `is_some_and(str::is_empty)`.
abbrev empty_or_absent : Option Text → Bool
empty_or_absent none = true
empty_or_absent (some value) = length value == 0

abbrev empty_and_present : Option Text → Bool
empty_and_present none = false
empty_and_present (some value) = length value == 0

-- `valid_http_url`; the scheme is `http` or `https` where `is_http` holds.
unfoldable pub valid_http_url : (urls : UrlLib) → urls.Url → Bool
valid_http_url urls url =
    urls.is_http url && (length (urls.username url) == 0) && not (is_some (urls.password url))

-- `HttpValidators::validate`.
unfoldable pub validate_http_validators :
    (urls : UrlLib) → HttpValidators urls → CoreResult (Unit {0})
validate_http_validators urls v = do
  refuse_if
      (not (urls.is_http v.issued_url)
        || not (length (urls.username v.issued_url) == 0)
        || is_some (urls.password v.issued_url))
      (contract "HTTP validator provenance must be an HTTP(S) URL without userinfo")
  refuse_if (empty_or_absent v.etag && empty_or_absent v.last_modified)
      (contract "HTTP validator provenance must retain at least one nonempty validator")
  refuse_if (empty_and_present v.etag || empty_and_present v.last_modified)
      (contract "HTTP validator values must not be empty")
