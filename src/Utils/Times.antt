-- ===== src/Utils/Times.antt =====
-- src/utils/parser.rs: the times that `parse_lstime` gives.
use remotefs_rs_ssh.Prelude.{ℕ, ◌^◌, ◌<◌, ◌≡◌, none, some, Option, arith, option_map, ◌++◌}
use remotefs_rs_ssh.Text.{Text, codes}
use remotefs_rs_ssh.Text.Number.{decimal}
use remotefs_rs_ssh.Remotefs.{SystemTime, since, unix_epoch}
use remotefs_rs_ssh.Crates.{Crates, Timestamp, positive, negative}
use remotefs_rs_ssh.Utils.{parse_lstime, as_u64, epoch_plus}

-- The time of a stamp, and the epoch for a stamp before it.
abbrev pub time_of : Timestamp → SystemTime
time_of (positive n) = since n 0
time_of (negative n) = unix_epoch

-- A stamp of 64 bits with a sign.
abbrev pub FitsI64 : Timestamp → Type 0
FitsI64 (positive n) = n < 2 ^ 63
FitsI64 (negative n) = n < 2 ^ 63

epoch_plus-as_u64 : (t : Timestamp) → FitsI64 t → epoch_plus (as_u64 t) ≡ time_of t
epoch_plus-as_u64 (positive n) h = ground arith
epoch_plus-as_u64 (negative n) h = ground arith

-- What the text is parsed to: midnight of a date with a year, else a date and time of the given year.
abbrev pub parsed : (C : Crates) → Text → Text → Text → ℕ → Option C.NaiveDateTime
parsed C tm fmt_year fmt_hours year = elim (C.parse_date tm fmt_year) [
  | some date ↦ C.and_hms_opt date 0 0 0
  | none ↦ C.parse_date_time (tm ++ (codes " " ++ decimal year)) (fmt_hours ++ codes " %Y")
]

-- Where a text parses to a date and time whose stamp fits in 64 bits, `parse_lstime` gives the
-- time of the stamp, or the epoch for a stamp before the epoch.
pub parse_lstime-time_of :
    (C : Crates) (tm fmt_year fmt_hours : Text) (year : ℕ) (d : C.NaiveDateTime)
    → parsed C tm fmt_year fmt_hours year ≡ some d
    → FitsI64 (C.timestamp d)
    → parse_lstime C tm fmt_year fmt_hours year ≡ some (some (time_of (C.timestamp d)))
unfolding parse_lstime
parse_lstime-time_of C tm fmt_year fmt_hours year d h fits =
    go (C.parse_date tm fmt_year)
      (C.parse_date_time (tm ++ (codes " " ++ decimal year)) (fmt_hours ++ codes " %Y")) h
  where
    go :
        (date : Option C.NaiveDate) (time : Option C.NaiveDateTime)
        → (elim date [ some date ↦ C.and_hms_opt date 0 0 0 | none ↦ time ]) ≡ some d
        → option_map (option_map (λ d. epoch_plus (as_u64 (C.timestamp d)))) (elim date [
          | some date ↦ some (C.and_hms_opt date 0 0 0)
          | none ↦ option_map some time
        ])
          ≡ some (some (time_of (C.timestamp d)))
    go (some date) time e = rw (e, epoch_plus-as_u64 (C.timestamp d) fits)
    go none time e = rw (e, epoch_plus-as_u64 (C.timestamp d) fits)
