-- ===== src/Crates.antt =====
-- What the code takes from other crates and does not reach the network for: permissions and error
-- texts (remotefs), a regular expression (lazy-regex), dates (chrono).
use remotefs_rs_ssh.Prelude.{ℕ, Option, List}
use remotefs_rs_ssh.Text.{Text}
use remotefs_rs_ssh.Remotefs.{RemoteError, SystemTime}

-- `i64` of a time stamp: `negative n` is -(n + 1).
pub data Timestamp : Type 0 where
  positive negative : ℕ → Timestamp

pub record Crates : Type 1 where
  pub UnixPex : Type 0
  pub UnixPexClass : Type 0
  -- `UnixPexClass::from(u8)`
  pub class_from : ℕ → UnixPexClass
  -- `UnixPex::new`
  pub pex_new : UnixPexClass → UnixPexClass → UnixPexClass → UnixPex
  -- `UnixPex::from(u32)`
  pub pex_from : ℕ → UnixPex
  -- `u32::from(UnixPex)`
  pub pex_bits : UnixPex → ℕ
  -- `impl Display for RemoteError`
  pub display_error : RemoteError → Text
  -- `Regex::captures` of a pattern on a line; group 0 is the whole match
  pub captures : Text → Text → Option (List (Option Text))
  pub NaiveDate : Type 0
  pub NaiveDateTime : Type 0
  -- `NaiveDate::parse_from_str(text, format).ok()`
  pub parse_date : Text → Text → Option NaiveDate
  -- `NaiveDateTime::parse_from_str(text, format).ok()`
  pub parse_date_time : Text → Text → Option NaiveDateTime
  -- `date.and_hms_opt`
  pub and_hms_opt : NaiveDate → ℕ → ℕ → ℕ → Option NaiveDateTime
  -- `datetime.and_utc().timestamp()`
  pub timestamp : NaiveDateTime → Timestamp
  -- `DateTime::<Utc>::from(time).format(format)`
  pub format_time : SystemTime → Text → Text
