-- ===== src/Datetime/Laws.antt =====
-- A timestamp that goes into a form and out again: what the dialogs for peers do with ExpiresAt.
use wg_portal.Prelude.{ℕ, ◌+◌, ◌-◌, ◌*◌, ◌/◌, ◌%◌, ◌≤◌, ◌≡◌, ap, arith}
use wg_portal.Datetime.{
  Zone, Timestamp, instant, local, format_rfc3339_to_datetime, format_date_time_to_rfc3339,
}

-- The form is filled from the timestamp, and a timestamp is made of the form.
abbrev pub through_form : Zone → Timestamp → Timestamp
through_form z t =
    let d = format_rfc3339_to_datetime z t in format_date_time_to_rfc3339 z d.date d.time

-- Seconds of a day from hours and minutes.
minutes_of : (s : ℕ) → s % 86400 / 3600 * 3600 + s % 3600 / 60 * 60 ≡ s % 86400 - s % 60
minutes_of s = omega arith

local-seconds : (z : Zone) (t : ℕ) → z.behind * 60 ≤ t → local z t % 60 ≡ t % 60
local-seconds z t h = omega arith

-- The day in UTC with the time on the clock.
joined_lem :
    (t l : ℕ)
    → l % 60 ≡ t % 60
    → t / 86400 * 86400 + l % 86400 / 3600 * 3600 + l % 3600 / 60 * 60
      ≡ t / 86400 * 86400 + l % 86400 - t % 60
joined_lem t l h = omega (arith, minutes_of l)

-- Where the browser's day is the day in UTC, and its clock does not show a time before 1970, the
-- timestamp comes back, down to the minute.
pub through_form-same_day :
    (z : Zone) (t : ℕ)
    → z.behind * 60 ≤ t
    → local z t / 86400 ≡ t / 86400
    → through_form z (instant t) ≡ instant (t - t % 60)
unfolding format_rfc3339_to_datetime format_date_time_to_rfc3339
through_form-same_day z t h d =
    let l = local z t in
    let joined = joined_lem t l (local-seconds z t h) in
    let seconds : l % 86400 ≡ l - t / 86400 * 86400 = omega (arith, d) in
    ap instant (rw (joined, seconds) (omega (arith, d)))

-- In a time zone ahead of UTC, where the browser's day is already the next one, the timestamp
-- comes back a day too early.
through_form-next_day :
    (z : Zone) (t : ℕ)
    → z.behind ≡ 0
    → local z t / 86400 ≡ t / 86400 + 1
    → through_form z (instant t) ≡ instant (t - t % 60 - 86400)
unfolding format_rfc3339_to_datetime format_date_time_to_rfc3339
through_form-next_day z t h d =
    let l = local z t in
    let joined = joined_lem t l (local-seconds z t (omega arith)) in
    let seconds : l % 86400 ≡ l - (t / 86400 + 1) * 86400 = omega (arith, d) in
    ap instant (rw (joined, seconds) (omega (arith, d)))
