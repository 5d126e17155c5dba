-- ===== src/Tests/Passkeys.antt =====
-- The section of the passkeys in a session of clicks and answers (frontend/src/views/SettingsView.vue).
use wg_portal.Prelude.{List, [], ◌∷◌, some, none, ◌≡◌, refl, true, false}
use wg_portal.Auth.{load_store}
use wg_portal.Encoding.{base64_url_encode, url_safe, replace_first}
use wg_portal.Encoding.Base64.{btoa}
use wg_portal.Js.{fulfilled, rejected, error}
use wg_portal.Views.Passkeys.{Row}
use wg_portal.Views.Passkeys.Section.{
  load_begins, Section, Event, idle, register_clicked, save_clicked, delete_clicked,
  delete_confirmed, started, signed, replied, handle_all, fetching,
}
use wg_portal.Views.Passkeys.Section.Laws.{IsGuarded, HasCode, handle_all-IsGuarded}
use wg_portal.Views.Passkeys.Section.Phases.{answers}

abbrev phone : Row
phone = record { id = "wg0"; name = some "phone"; rename_mode = true; temp_name = some "tablet" }

abbrev table : Section
table = record {
  page = record {
    store = record { auth = load_store (record { user = none; return_url = none }); row = phone };
    log = [];
  };
  phase = idle;
  asked = none;
}

phone-HasCode : HasCode "wg0"
unfolding base64_url_encode url_safe replace_first btoa
phone-HasCode = (_, refl)

-- A click during the load, a registration, with a click on the button that saves in between, and a deletion that is refused.
abbrev events : List Event
events =
    register_clicked true
    ∷ replied (fulfilled [])
    ∷ register_clicked true
    ∷ started (fulfilled tt)
    ∷ save_clicked phone
    ∷ signed (fulfilled tt)
    ∷ replied (fulfilled (record { id = "wg0"; name = "phone" } ∷ []))
    ∷ delete_clicked "wg0"
    ∷ delete_confirmed
    ∷ replied (rejected (error "500"))
    ∷ register_clicked true
    ∷ []

handle_all-IsGuarded_example :
    IsGuarded (handle_all events (load_begins table))
    × (fetching (
          handle_all
            (answers (fulfilled tt) (rejected (error "cancelled")) (fulfilled []))
            (handle_all events (load_begins table)))
        ≡ false)
handle_all-IsGuarded_example =
    handle_all-IsGuarded events table
      (tt, (tt, (tt, (tt, (phone-HasCode, (tt, (tt, (phone-HasCode, (tt, (tt, (tt, tt)))))))))))
      refl tt (fulfilled tt) (rejected (error "cancelled")) (fulfilled [])
