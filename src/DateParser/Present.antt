-- ===== src/DateParser/Present.antt =====
-- `parse_bill_due_date` never answers a moment that has passed, and when it raises.
use autopay.Base.{
  ℕ, ◌+◌, ◌*◌, ◌≤◌, ◌<◌, ◌≡◌, refl, Bool, true, false, Option, none, some, String, arith,
  if◌then◌else◌,
}
use autopay.Session.{Result, ok, err}
use autopay.DateParser.Relative.{
  try_relative, days_or_none, phrase_days, datetime_max, microseconds_of_day,
}
use autopay.DateParser.{
  Stamp, Calendar, Raw, missing, written, dated, from_formats, from_relative, from_yearless,
  text_of, parse_bill_due_date,
}

-- The answer is now or later; or the text is a phrase of so many days that no moment is so late.
abbrev pub Parsed : ℕ → Raw → Result ℕ → Type 0
Parsed now raw (ok due_date) = now ≤ due_date
Parsed now raw (err e) =
    (s : String) × (n : ℕ) × (raw ≡ written s)
    × (phrase_days (text_of s) ≡ some n)
    × (datetime_max < now + n * microseconds_of_day)

module _ (calendar : Calendar) (now : ℕ) where
  from_yearless-le : (parsed : Option Stamp) → now ≤ from_yearless now parsed
  unfolding from_yearless
  from_yearless-le none = omega arith
  from_yearless-le (some dt) = ground arith

  -- Of a relative phrase: the moment after its days, or an overflow.
  Phrased : String → Result (Option ℕ) → Type 0
  Phrased s (ok d) = Unit
  Phrased s (err e) =
      (n : ℕ) × (phrase_days s ≡ some n) × (datetime_max < now + n * microseconds_of_day)

  days-Phrased : (s : String) (n : Option ℕ) → phrase_days s ≡ n → Phrased s (days_or_none now n)
  unfolding Phrased days_or_none
  days-Phrased s none e = tt
  days-Phrased s (some n) e = ground arith

  module _ (raw : String) where
    relative-Parsed :
        (x : Result (Option ℕ))
        → Phrased (text_of raw) x
        → Parsed now (written raw) (from_relative calendar now (text_of raw) x)
    unfolding Phrased from_relative
    relative-Parsed (ok none) h = from_yearless-le _
    relative-Parsed (ok (some dt)) h = ground arith
    relative-Parsed (err e) (n, said, late) = (raw, n, refl, said, late)

    formats-Parsed :
        (parsed : Option Stamp)
        → Parsed now (written raw) (from_formats calendar now (text_of raw) parsed)
    unfolding from_formats try_relative
    formats-Parsed none = relative-Parsed _ (days-Phrased (text_of raw) _ refl)
    formats-Parsed (some dt) = ground arith

    written-Parsed :
        (is_empty : Bool) (parsed : Option Stamp)
        → Parsed now
            (written raw)
            (if is_empty then ok now else from_formats calendar now (text_of raw) parsed)
    written-Parsed true parsed = omega arith
    written-Parsed false parsed = formats-Parsed parsed

  -- A due date that is read is never before now. The parser raises only for a relative phrase, of so
  -- many days that the moment is past the year 9999; nothing else that it is given makes it raise.
  pub parse_bill_due_date-Parsed :
      (raw : Raw) → Parsed now raw (parse_bill_due_date calendar now raw)
  unfolding parse_bill_due_date
  parse_bill_due_date-Parsed missing = omega arith
  parse_bill_due_date-Parsed (dated dt) = ground arith
  parse_bill_due_date-Parsed (written raw) = written-Parsed raw _ _
