-- ===== src/Tests/Session.antt =====
-- Signing in and the navigation guards (frontend/src/stores/auth.js, router/index.js).
use wg_portal.Prelude.{List, [], ◌∷◌, some, none, true, false, ◌≡◌, refl}
use wg_portal.Js.{World, world_after, fulfilled, rejected, error}
use wg_portal.Models.{User, fresh_user}
use wg_portal.Auth.{AuthStore, Session, LocalStorage, load_store, is_authenticated, return_url}
use wg_portal.Auth.Events.{Event, set_return_url, login, logged_in, delete_credential, run}
use wg_portal.Auth.Storage.{LooksAlike, reload-run}
use wg_portal.Router.{Location, guard}
use wg_portal.Router.Laws.{Admits, guard-Admits, target, after_oauth, after_oauth-page}

abbrev bob : User
bob = record fresh_user { identifier = "bob"; is_admin = true }

abbrev session : Session
session = record {
  logged_in = true;
  is_admin = false;
  user_identifier = "bob";
  user_firstname = "";
  user_lastname = "";
  user_email = "";
}

abbrev empty_storage : LocalStorage
empty_storage = record { user = none; return_url = none }

abbrev visitor : World AuthStore
visitor = record { store = load_store empty_storage; log = [] }

-- A visitor is sent to the login page, mistypes, signs in, and deletes a passkey.
abbrev events : List Event
events =
    set_return_url "/user/profile"
    ∷ login
    ∷ logged_in (rejected (error "401"))
    ∷ login
    ∷ logged_in (fulfilled bob)
    ∷ delete_credential "key"
    ∷ []

reload-run_example :
    (v : World AuthStore) × (run events visitor ≡ some v)
    × LooksAlike (load_store v.store.storage) v.store
reload-run_example = reload-run empty_storage events

abbrev profile_page : Location
profile_page = record {
  path = "/user/profile";
  full_path = "/user/profile?tab=1";
  login_state = none;
}

abbrev callback : Location
callback = record {
  path = "/login";
  full_path = "/login?wgLoginState=success";
  login_state = some "success";
}

after_oauth-page_example :
    (target (guard profile_page (rejected (error "")) visitor) ≡ some (some "/login"))
    × (target (after_oauth profile_page (rejected (error "")) callback session visitor)
        ≡ some (some "/user/profile?tab=1"))
    × (is_authenticated
          (world_after visitor
            (after_oauth profile_page (rejected (error "")) callback session visitor)).store
        ≡ true)
    × (return_url
          (world_after visitor
            (after_oauth profile_page (rejected (error "")) callback session visitor)).store
        ≡ "/")
after_oauth-page_example =
    after_oauth-page profile_page callback (rejected (error "")) session visitor refl refl refl refl
      refl refl refl

guard-Admits_example : Admits callback (guard callback (rejected (error "expired")) visitor)
guard-Admits_example = guard-Admits callback (rejected (error "expired")) visitor
