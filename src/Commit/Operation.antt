-- ===== src/Commit/Operation.antt =====
-- graph/manifest.rs and graph/manifest/operation_validation.rs: the file operations of a commit.
use Prim.Native.String.{String}
use ffhn.Base.{
  ◌&&◌, ◌||◌, not, Option, none, some, all, length, same, list_eq, nat_eq, ◌==◌, if◌then◌else◌,
}
use ffhn.Base.Errors.{Text, CoreResult, contract, ok, err, ◌>>◌, refuse_if}
use ffhn.Commit.Path.{is_staged, validate_final_path}
use ffhn.Stamps.{is_lower_hex}

-- The arguments of `install` are `final_path`, `staged_path`, `expected_prior_sha256` and
-- `result_sha256`; those of `remove` are `final_path` and `expected_prior_sha256`.
pub data CommitOperation : Type 0 where
  install : Text → Text → Option Text → Text → CommitOperation
  remove : Text → Text → CommitOperation

abbrev pub final_path : CommitOperation → Text
final_path (install final staged prior result) = final
final_path (remove final prior) = final

unfoldable pub require_sha256 : String → Text → CoreResult (Unit {0})
require_sha256 field value =
    if (length value == 64) && all is_lower_hex value then ok tt else err (contract field)

abbrev pub require_prior_sha256 : Option Text → CoreResult (Unit {0})
require_prior_sha256 none = ok tt
require_prior_sha256 (some hash) =
    require_sha256 "commit install expected_prior_sha256 must be lowercase SHA-256" hash

-- `CommitOperation::validate`.
unfoldable pub validate_operation : CommitOperation → CoreResult (Unit {0})
validate_operation (install final staged prior result) = do
  refuse_if (same final staged) (contract "commit install final_path and staged_path must differ")
  refuse_if (is_staged final || not (is_staged staged)) (
      contract
        "commit install paths must keep final files outside and staged files inside the reserved staged directory")
  validate_final_path final
  require_prior_sha256 prior
  require_sha256 "commit install result_sha256 must be lowercase SHA-256" result
validate_operation (remove final prior) = do
  validate_final_path final
  require_sha256 "commit remove expected_prior_sha256 must be lowercase SHA-256" prior
