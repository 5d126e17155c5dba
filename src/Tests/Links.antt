-- ===== src/Tests/Links.antt =====
-- The bar of pages, the links of the menu, the languages, and the address of an external login
-- (frontend/src/views, App.vue, lang/index.js).
use wg_portal.Prelude.{
  ℕ, String, List, [], ◌∷◌, ◌++◌, some, none, ◌≡◌, refl, true, false, units, map_option, concat_map,
  inl, arith, pos, All,
}
use wg_portal.Audit
use wg_portal.Audit.{AuditStore, AuditEntry}
use wg_portal.Auth.{UserInfo, AuthStore, load_store}
use wg_portal.Encoding.Uri.{points, utf8, parse_query, query_of}
use wg_portal.Js.{World, rejected, error}
use wg_portal.Js.Keeping.{Kept}
use wg_portal.Login.{redirect_url}
use wg_portal.Login.External.{redirect_url-parse_query}
use wg_portal.Views.Bar.{Gesture, search, size, forth, back, number, hundred, gesture_all}
use wg_portal.Views.Bar.Laws.{TableIsShown, gesture_all-Keeps}
use wg_portal.Views.Bar.Tables.{audit_table}
use wg_portal.Views.Menu.{bar_links, user_links, home_links}
use wg_portal.Views.Menu.Laws.{Reaches, links-Reaches}
use wg_portal.Views.Start.{App, switch_language}
use wg_portal.Views.Texts.{initial_locale}
use wg_portal.Views.Texts.Laws.{IsRemembered, switch_all, switch_all-IsRemembered}

redirect_url-parse_query_example :
    map_option
      (λ url. parse_query (query_of url))
      (redirect_url (units "/a") (units "/b") (units "h") (units "/é"))
    ≡ map_option
        (λ ps.
          (some (units "redirect"), some (units "true"))
          ∷ (some (units "return"), some (concat_map utf8 ps))
          ∷ [])
        (points (units "h/#/é"))
redirect_url-parse_query_example =
    redirect_url-parse_query (units "/a") (units "/b") (units "h") (units "/é")
      (refl, (refl, (refl, (refl, tt)))) (refl, (refl, (refl, (refl, tt))))
      (omega arith, (omega arith, (omega arith, (omega arith, (omega arith, tt)))))

abbrev entry : String → AuditEntry
entry t = record { timestamp = t; severity = "low"; origin = "auth"; message = "login" }

abbrev log : World AuditStore
log = record {
  store = record {
    entries = entry "1" ∷ entry "2" ∷ entry "3" ∷ [];
    view = record { filter = ""; page_size = 2; page_offset = pos 0; pages = 1 ∷ 2 ∷ [] };
    fetching = false;
  };
  log = [];
}

abbrev gestures : List Gesture
gestures = forth ∷ forth ∷ back ∷ number 2 ∷ search "2" ∷ size hundred ∷ []

log_IsShown : TableIsShown audit_table log.store
unfolding Audit.filtered_count Audit.filtered
log_IsShown = record {
  size_pos = omega arith;
  before = 0;
  offset = refl;
  inside = inl refl;
  numbers = refl;
}

gesture_all-Keeps_example : Kept (TableIsShown audit_table) (gesture_all audit_table gestures log)
gesture_all-Keeps_example = gesture_all-Keeps audit_table gestures log log_IsShown

abbrev alice : UserInfo
alice = record {
  identifier = "alice";
  firstname = "Alice";
  lastname = "";
  email = "";
  is_admin = true;
}

abbrev session : World AuthStore
session = record { store = load_store (record { user = some alice; return_url = none }); log = [] }

links-Reaches_example :
    All
      (Reaches (rejected (error "401")) session)
      (bar_links session.store ++ user_links true false session.store ++ home_links session.store)
links-Reaches_example = links-Reaches true false (rejected (error "401")) session

abbrev page_in_english : App ℕ
page_in_english = record {
  auth = session.store;
  security = record { csrf_token = "" };
  settings = record { settings = [] };
  theme = "light";
  stored_theme = none;
  locale = "en";
  stored_language = none;
}

english : IsRemembered [] (units "en-GB") page_in_english
unfolding initial_locale
english = refl

switch_all-IsRemembered_example :
    ((switch_language "fr" (switch_all ("de" ∷ "en" ∷ []) page_in_english)).locale ≡ "fr")
    × (initial_locale
          (map_option units
            (switch_language "fr" (switch_all ("de" ∷ "en" ∷ []) page_in_english)).stored_language)
          []
          (units "en-GB")
        ≡ units "fr")
switch_all-IsRemembered_example =
    switch_all-IsRemembered [] (units "en-GB") ("de" ∷ "en" ∷ []) "fr" page_in_english
      (refl, (refl, tt)) refl english
