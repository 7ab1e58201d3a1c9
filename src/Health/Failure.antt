-- ===== src/Health/Failure.antt =====
-- graph/acquire/failure.rs: the taxonomy of acquisition failures and their evidence.
use ffhn.Base.{
  ℕ, Bool, true, false, ◌&&◌, ◌||◌, not, Option, none, some, [], ltb, leb, ◌==◌, Eq, discrete_eq,
}
use ffhn.Base.Errors.{Text, CoreResult, contract, ◌>>◌, refuse_if}

pub data SourceFetchFailureKind : Type 0 where
  dns_error connect_failed connect_timeout read_timeout connection_reset total_timeout tls_error
        incomplete_body too_many_redirects redirect_loop redirect_downgrade content_length_exceeded
        body_bytes_exceeded invalid_utf8 http_status http_success_not_representation file_not_found
        file_permission_denied file_not_regular file_read_error io_unclassified :
      SourceFetchFailureKind

unfoldable pub SourceFetchFailureKind-discrete : Discrete SourceFetchFailureKind
SourceFetchFailureKind-discrete = hlevel

instance abbrev pub kind_eq : Eq SourceFetchFailureKind
kind_eq = discrete_eq SourceFetchFailureKind-discrete

pub record SourceFetchFailure : Type 0 where
  pub kind : SourceFetchFailureKind
  pub status : Option ℕ
  pub raw_platform_error : Option Text

pub data SourceFetchFailureReasonClass : Type 0 where
  network timeout tls truncation redirect limit decode http_status_class filesystem :
      SourceFetchFailureReasonClass

-- `SourceFetchFailure::reason_class`.
unfoldable pub reason_class : SourceFetchFailureKind → SourceFetchFailureReasonClass
reason_class dns_error = network
reason_class connect_failed = network
reason_class connection_reset = network
reason_class io_unclassified = network
reason_class connect_timeout = timeout
reason_class read_timeout = timeout
reason_class total_timeout = timeout
reason_class tls_error = tls
reason_class incomplete_body = truncation
reason_class too_many_redirects = redirect
reason_class redirect_loop = redirect
reason_class redirect_downgrade = redirect
reason_class content_length_exceeded = limit
reason_class body_bytes_exceeded = limit
reason_class invalid_utf8 = decode
reason_class http_status = http_status_class
reason_class http_success_not_representation = http_status_class
reason_class file_not_found = filesystem
reason_class file_permission_denied = filesystem
reason_class file_not_regular = filesystem
reason_class file_read_error = filesystem

-- `!=` on two Booleans.
abbrev differs : Bool → Bool → Bool
differs true b = not b
differs false b = b

abbrev pub is_status_kind : SourceFetchFailureKind → Bool
is_status_kind http_status = true
is_status_kind http_success_not_representation = true
is_status_kind _ = false

-- `(200..300).contains(&status)`.
abbrev pub is_success : ℕ → Bool
is_success status = leb 200 status && ltb status 300

abbrev is_some {ℓ} : {A : Type ℓ} → Option A → Bool
is_some (some a) = true
is_some none = false

abbrev is_zero_status : Option ℕ → Bool
is_zero_status (some status) = status == 0
is_zero_status none = false

abbrev is_io_unclassified : SourceFetchFailureKind → Bool
is_io_unclassified io_unclassified = true
is_io_unclassified _ = false

abbrev is_empty_text : Option Text → Bool
is_empty_text (some []) = true
is_empty_text _ = false

-- Whether a kind and a status fall into the refused arm of the match on both.
abbrev pub status_mismatch : SourceFetchFailureKind → Option ℕ → Bool
status_mismatch http_status (some status) = is_success status
status_mismatch http_success_not_representation (some status) =
    not (is_success status && not (status == 200 || status == 203))
status_mismatch _ _ = false

-- `SourceFetchFailure::validate`.
unfoldable pub validate_failure : SourceFetchFailure → CoreResult (Unit {0})
validate_failure failure = do
  refuse_if (differs (is_status_kind failure.kind) (is_some failure.status))
      (contract "source HTTP failure status presence does not match its kind")
  refuse_if (is_zero_status failure.status)
      (contract "source HTTP failure status must be a valid nonzero status")
  refuse_if (status_mismatch failure.kind failure.status)
      (contract "source HTTP failure kind does not match its status complement")
  refuse_if (differs (is_io_unclassified failure.kind) (is_some failure.raw_platform_error))
      (contract "only io_unclassified source failures retain a raw platform error")
  refuse_if (is_empty_text failure.raw_platform_error)
      (contract "raw platform error must not be empty")
