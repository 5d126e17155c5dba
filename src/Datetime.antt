-- ===== src/Datetime.antt =====
-- Timestamps in the forms (frontend/src/helpers/datetime.js). A timestamp is the seconds since 1970
-- that it names, a date text is the number of its day, a time text its hours and minutes. `Date`
-- computes in the time zone of the browser, here with an offset that does not change.
pub mod Laws
use wg_portal.Prelude.{ℕ, ◌+◌, ◌-◌, ◌*◌, ◌/◌, ◌%◌, Option, none, some, or_else}

-- The clock of the browser is so many minutes before or behind UTC; one of the two is 0.
pub record Zone : Type 0 where
  pub ahead : ℕ
  pub behind : ℕ

-- The argument or the result: empty (or null), a text that is no timestamp, or an instant.
pub data Timestamp : Type 0 where
  missing : Timestamp
  invalid : Timestamp
  instant : ℕ → Timestamp

pub data TimeText : Type 0 where
  empty : TimeText
  clock : (hours minutes : ℕ) → TimeText
  -- The first five characters of "Invalid Date".
  inval : TimeText

abbrev pub local : Zone → ℕ → ℕ
local z t = t + z.ahead * 60 - z.behind * 60

-- `date.toISOString().split('T')[0]`: the day in UTC.
abbrev iso_day : ℕ → ℕ
iso_day t = t / 86400

-- `date.toTimeString().substring(0, 5)`: the time on the clock of the browser.
abbrev clock_of : Zone → ℕ → TimeText
clock_of z t = clock (local z t % 86400 / 3600) (local z t % 3600 / 60)

-- An empty date text is `none`. An invalid date throws at toISOString, which is caught.
unfoldable format_rfc3339_to_date : Timestamp → Option ℕ
format_rfc3339_to_date missing = none
format_rfc3339_to_date invalid = none
format_rfc3339_to_date (instant t) = some (iso_day t)

-- toTimeString does not throw at an invalid date.
unfoldable format_rfc3339_to_time : Zone → Timestamp → TimeText
format_rfc3339_to_time z missing = empty
format_rfc3339_to_time z invalid = inval
format_rfc3339_to_time z (instant t) = clock_of z t

pub record Datetime : Type 0 where
  pub date : Option ℕ
  pub time : TimeText

unfoldable pub format_rfc3339_to_datetime : Zone → Timestamp → Datetime
format_rfc3339_to_datetime z missing = record { date = none; time = empty }
format_rfc3339_to_datetime z invalid = record { date = none; time = empty }
format_rfc3339_to_datetime z (instant t) = record { date = some (iso_day t); time = clock_of z t }

-- `new Date(`${dateStr}T${time}:00`)`: without a zone the text means the clock of the browser.
abbrev from_local : Zone → ℕ → ℕ → ℕ → Timestamp
from_local z day hours minutes =
    instant (day * 86400 + hours * 3600 + minutes * 60 + z.behind * 60 - z.ahead * 60)

-- No time is 00:00; a time that cannot be parsed gives an error, and so an empty text.
unfoldable pub format_date_time_to_rfc3339 : Zone → Option ℕ → TimeText → Timestamp
format_date_time_to_rfc3339 z none time = missing
format_date_time_to_rfc3339 z (some day) empty = from_local z day 0 0
format_date_time_to_rfc3339 z (some day) (clock h m) = from_local z day h m
format_date_time_to_rfc3339 z (some day) inval = missing

unfoldable format_date_to_rfc3339 : Zone → Option ℕ → Timestamp
unfolding format_date_time_to_rfc3339
format_date_to_rfc3339 z day = format_date_time_to_rfc3339 z day (clock 0 0)
