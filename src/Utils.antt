-- ===== src/Utils.antt =====
-- src/utils/: paths, the times of `ls`, the formatting of times.
pub mod Paths
pub mod Times
use remotefs_rs_ssh.Prelude.{
  ℕ, ◌+◌, ◌-◌, ◌^◌, Option, none, some, ◌++◌, leb, option_map, if◌then◌else◌,
}
use remotefs_rs_ssh.Text.{Text, codes}
use remotefs_rs_ssh.Text.Number.{decimal}
use remotefs_rs_ssh.FilePath.{is_absolute, push}
use remotefs_rs_ssh.Remotefs.{SystemTime, since, unix_epoch}
use remotefs_rs_ssh.Crates.{Crates, Timestamp, positive, negative}

-- On Unix a path is left as it is.
unfoldable pub resolve : Text → Text
resolve p = p

-- Absolutize target path if relative.
unfoldable pub absolutize : Text → Text → Text
unfolding is_absolute push resolve
absolutize wrkdir target = if is_absolute target then target else resolve (push wrkdir target)

-- `i64 as u64`
abbrev pub as_u64 : Timestamp → ℕ
as_u64 (positive n) = n
as_u64 (negative n) = 2 ^ 64 - (n + 1)

-- `UNIX_EPOCH.checked_add(Duration::from_secs(s)).unwrap_or(UNIX_EPOCH)`: seconds are an `i64`.
abbrev pub epoch_plus : ℕ → SystemTime
epoch_plus s = if leb s (2 ^ 63 - 1) then since s 0 else unix_epoch

module _ (C : Crates) where
  open C use {NaiveDate, NaiveDateTime, parse_date, parse_date_time, and_hms_opt, timestamp}

  -- What `ls` prints of a recent file lacks the year, which is put in. `none` is the parse error.
  abbrev pub ls_date_time : Text → Text → ℕ → Option NaiveDate → Option (Option NaiveDateTime)
  ls_date_time tm fmt_hours year (some date) = some (and_hms_opt date 0 0 0)
  ls_date_time tm fmt_hours year none =
      option_map some
        (parse_date_time (tm ++ (codes " " ++ decimal year)) (fmt_hours ++ codes " %Y"))

  -- The inner `none` is the panic of `unwrap` on the midnight of a date.
  unfoldable pub parse_lstime : Text → Text → Text → ℕ → Option (Option SystemTime)
  parse_lstime tm fmt_year fmt_hours year =
      option_map (option_map (λ d. epoch_plus (as_u64 (timestamp d))))
        (ls_date_time tm fmt_hours year (parse_date tm fmt_year))

  -- Format time using fmt string in utc time
  unfoldable pub fmt_time_utc : SystemTime → Text → Text
  fmt_time_utc time fmt = C.format_time time fmt
