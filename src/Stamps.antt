-- ===== src/Stamps.antt =====
-- model/validate.rs: SHA-256 digests and the canonical timestamps of the durable documents.
use Prim.Native.String.{String}
use ffhn.Base.{ℕ, Bool, ◌&&◌, ◌||◌, not, Option, all, length, leb, ◌==◌, same, list_eq, nat_eq}
use ffhn.Base.Errors.{
  Text, CoreResult, contract_about, internal, time_parse, ok, ◌>>=◌, refuse_if, ok_or,
}

-- The crate `time`: a parsed timestamp, its offset, its canonical spelling, and its place on the time
-- line in nanoseconds since the smallest instant.
pub record TimeLib : Type 1 where
  pub Stamp : Type 0
  pub parse : Text → Option Stamp
  pub format : Stamp → Option Text
  pub is_utc : Stamp → Bool
  pub instant : Stamp → ℕ

-- `is_ascii_digit() || (b'a'..=b'f').contains(&byte)`.
abbrev pub is_lower_hex : ℕ → Bool
is_lower_hex byte = leb b'0' byte && leb byte b'9' || leb b'a' byte && leb byte b'f'

unfoldable pub is_sha256 : Text → Bool
is_sha256 value = length value == 64 && all is_lower_hex value

module _ (time : TimeLib) where
  open time use {Stamp, parse, format, is_utc, instant}

  unfoldable pub require_canonical_utc_rfc3339 : String → Text → CoreResult (Unit {0})
  require_canonical_utc_rfc3339 field value = do
    timestamp ← ok_or (parse value) (contract_about "{} must be RFC 3339" value)
    canonical ← ok_or (format timestamp) (internal "could not format timestamp")
    refuse_if (not (is_utc timestamp) || not (same value canonical))
        (contract_about "{} must be canonical UTC RFC 3339" value)

  -- `OffsetDateTime::parse(value, &Rfc3339)?`, and its place on the time line.
  unfoldable pub parse_instant : Text → CoreResult ℕ
  parse_instant value = do timestamp ← ok_or (parse value) time_parse; ok (instant timestamp)
