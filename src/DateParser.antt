-- ===== src/DateParser.antt =====
-- app/services/date_parser.py: `parse_bill_due_date`. A moment is in microseconds since the year 1,
-- without a time zone, and `now` is one moment for a whole call. What `datetime.strptime`,
-- `datetime.fromisoformat` and `datetime.replace` give are parameters.
pub mod Relative
pub mod Present
use autopay.Base.{
  ℕ, ◌+◌, ◌*◌, Bool, true, false, ◌||◌, Option, none, some, List, [], ◌∷◌, String, ◌++◌, str_eq,
  strip, ltb, leb, if◌then◌else◌,
}
use autopay.Session.{Exn, Result, ok, err}
use Relative.{try_relative}

-- A `datetime` as it is read: its wall clock, and whether it has a time zone. `_clamp_to_present`
-- drops the time zone and keeps the wall clock.
pub record Stamp : Type 0 where
  pub wall : ℕ
  pub has_zone : Bool

-- Each answers nothing where it raises a `ValueError`; `in_year_of now` is `replace(year=now.year)`.
pub record Calendar : Type 0 where
  pub strptime : String → String → Option Stamp
  pub fromisoformat : String → Option Stamp
  pub in_year_of : ℕ → Stamp → Option Stamp

pub data Raw : Type 0 where
  missing : Raw
  written : String → Raw
  dated : Stamp → Raw

-- `_clamp_to_present`
abbrev pub clamp_to_present : ℕ → Stamp → ℕ
clamp_to_present now dt = if ltb dt.wall now then now else dt.wall

abbrev pub iso_formats : List String
iso_formats =
    "%Y-%m-%dT%H:%M:%S.%f%z" ∷ "%Y-%m-%dT%H:%M:%S%z" ∷ "%Y-%m-%dT%H:%M:%S.%f" ∷ "%Y-%m-%dT%H:%M:%S"
    ∷ "%Y-%m-%d %H:%M:%S" ∷ "%Y-%m-%d" ∷ []

abbrev pub common_formats : List String
common_formats =
    "%Y-%m-%d %H:%M:%S" ∷ "%Y-%m-%dT%H:%M:%S" ∷ "%d/%m/%Y" ∷ "%d-%m-%Y" ∷ "%d/%m/%y" ∷ "%d-%m-%y"
    ∷ "%m/%d/%Y" ∷ "%m-%d-%Y" ∷ "%d %B %Y" ∷ "%d %b %Y" ∷ "%B %d, %Y" ∷ "%b %d, %Y" ∷ "%d %B %y"
    ∷ "%d %b %y" ∷ []

abbrev pub yearless_formats : List String
yearless_formats = "%d %b" ∷ "%d %B" ∷ []

-- `raw.strip().replace("Z", "+00:00")`
abbrev replace_z : String → String
replace_z String.[] = ""
replace_z (String.◌∷◌ c s) =
    let rest = replace_z s in
    if str_eq (String.◌∷◌ c "") "Z" then "+00:00" ++ rest else String.◌∷◌ c rest

-- `a` or, where it has none, `b`.
abbrev or_else : Option Stamp → Option Stamp → Option Stamp
or_else none b = b
or_else (some a) b = some a

-- Step 4 and the fallback.
unfoldable pub from_yearless : ℕ → Option Stamp → ℕ
from_yearless now none = now
from_yearless now (some parsed) = clamp_to_present now parsed

abbrev pub text_of : String → String
text_of raw = replace_z (strip raw)

module _ (calendar : Calendar) where
  -- The first of the formats that reads `s`.
  unfoldable pub try_formats : List String → String → Option Stamp
  try_formats [] s = none
  try_formats (fmt ∷ formats) s = or_else (calendar.strptime s fmt) (try_formats formats s)

  -- `_try_iso`
  unfoldable pub try_iso : String → Option Stamp
  unfolding try_formats
  try_iso s = or_else (try_formats iso_formats s) (calendar.fromisoformat s)

  -- Step 4: the first of the formats without a year that reads `s`, in the current year.
  unfoldable pub try_yearless : ℕ → List String → String → Option Stamp
  try_yearless now [] s = none
  try_yearless now (fmt ∷ formats) s =
      let rest = try_yearless now formats s in
      elim (calendar.strptime s fmt) [
        | none ↦ rest
        | some parsed ↦ or_else (calendar.in_year_of now parsed) rest
      ]

  -- Step 3: a relative phrase gives a moment without a time zone.
  unfoldable pub from_relative : ℕ → String → Result (Option ℕ) → Result ℕ
  unfolding try_yearless from_yearless
  from_relative now s (err e) = err e
  from_relative now s (ok (some dt)) =
      ok (clamp_to_present now (record { wall = dt; has_zone = false }))
  from_relative now s (ok none) = ok (from_yearless now (try_yearless now yearless_formats s))

  -- Steps 1 and 2.
  unfoldable pub from_formats : ℕ → String → Option Stamp → Result ℕ
  unfolding from_relative
  from_formats now s (some parsed) = ok (clamp_to_present now parsed)
  from_formats now s none = from_relative now s (try_relative now s)

  -- `parse_bill_due_date`
  unfoldable pub parse_bill_due_date : ℕ → Raw → Result ℕ
  unfolding try_iso try_formats from_formats
  parse_bill_due_date now missing = ok now
  parse_bill_due_date now (dated dt) = ok (clamp_to_present now dt)
  parse_bill_due_date now (written raw) =
      let s = text_of raw in
      if str_eq (strip raw) ""
      then ok now
      else from_formats now s (or_else (try_iso s) (try_formats common_formats s))
