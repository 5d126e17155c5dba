-- ===== src/Views/Expiry.antt =====
-- The tooltip of a peer that expires (`formatExpiryTooltip` of frontend/src/views/InterfaceView.vue
-- and ProfileView.vue). A date and a time are as in the forms; `c` is the clock of the browser.
pub mod Laws
use wg_portal.Prelude.{ℕ, String, Option, some, none, is_empty, if◌then◌else◌}
use wg_portal.Datetime.{Datetime, TimeText, empty, clock, inval, format_rfc3339_to_datetime}
use wg_portal.Dialogs.PeerForm.{Clock}
use wg_portal.Dialogs.PeerForm.Fill.{timestamp}

-- Nothing, a date and a time, or the text itself; the view of an interface puts the translation of
-- "interfaces.peer-expiring" in front of the last two.
pub data Tooltip : Type 0 where
  nothing : Tooltip
  moment : ℕ → TimeText → Tooltip
  verbatim : String → Tooltip

-- `datetime.date && datetime.time`
abbrev of_datetime : String → Option ℕ → TimeText → Tooltip
of_datetime expires_at (some day) (clock h m) = moment day (clock h m)
of_datetime expires_at (some day) inval = moment day inval
of_datetime expires_at _ _ = verbatim expires_at

unfoldable pub format_expiry_tooltip : Clock → Option String → Tooltip
unfolding format_rfc3339_to_datetime
format_expiry_tooltip c none = nothing
format_expiry_tooltip c (some expires_at) =
    if is_empty expires_at
    then nothing
    else let d = format_rfc3339_to_datetime c.zone (timestamp c (some expires_at)) in
      of_datetime expires_at d.date d.time
