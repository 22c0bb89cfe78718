-- ===== src/Store/Codec.antt =====
-- What crates/satunera-store takes from the crates `ulid` and `time`: identifiers and instants,
-- each with its text, as crates/satunera-store/src/id.rs and sqlite.rs call them.
use satunera.Prelude.{◌≡◌, Option, some, Text}

pub record Codec (Ulid Time : Type 0) : Type 0 where
  -- `Ulid`'s `Display` and `FromStr`
  pub ulid_text : Ulid → Text
  pub parse_ulid : Text → Option Ulid
  -- what is printed is read back
  pub ulid_printed : (u : Ulid) → parse_ulid (ulid_text u) ≡ some u
  -- `OffsetDateTime::format(&Rfc3339)`, which fails outside the years 0 to 9999, and `parse`
  pub format : Time → Option Text
  pub parse_time : Text → Option Time
  -- what is formatted is read back
  pub time_printed : (t : Time) (s : Text) → format t ≡ some s → parse_time s ≡ some t
