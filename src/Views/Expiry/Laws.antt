-- ===== src/Views/Expiry/Laws.antt =====
-- What the tooltip of an expiry shows (frontend/src/views/InterfaceView.vue, ProfileView.vue).
use wg_portal.Prelude.{ℕ, ◌/◌, ◌%◌, String, none, some, is_empty, false, ◌≡◌, refl}
use wg_portal.Datetime.{format_rfc3339_to_datetime, local, clock}
use wg_portal.Dialogs.PeerForm.{Clock}
use wg_portal.Views.Expiry.{moment, verbatim, format_expiry_tooltip}

module _ (c : Clock) (t : String) (h : is_empty t ≡ false) where
  -- The day in UTC, and the time on the clock of the browser.
  format_expiry_tooltip-moment :
      (n : ℕ)
      → c.parse t ≡ some n
      → format_expiry_tooltip c (some t)
        ≡ moment (n / 86400) (clock (local c.zone n % 86400 / 3600) (local c.zone n % 3600 / 60))
  unfolding format_expiry_tooltip format_rfc3339_to_datetime
  format_expiry_tooltip-moment n e = rw (h, e) refl

  -- A text that is no timestamp is shown as it is.
  format_expiry_tooltip-verbatim : c.parse t ≡ none → format_expiry_tooltip c (some t) ≡ verbatim t
  unfolding format_expiry_tooltip format_rfc3339_to_datetime
  format_expiry_tooltip-verbatim e = rw (h, e) refl
