-- ===== src/Views/ApiCard.antt =====
-- The card of the API token and the rows of the passkeys in the template of
-- frontend/src/views/SettingsView.vue.
use wg_portal.Prelude.{
  String, Option, some, none, Bool, true, false, not, ◌||◌, if◌then◌else◌, or_else, is_empty,
}
use wg_portal.Auth.{UserInfo}
use wg_portal.Js.{M, pass}
use wg_portal.Models.{User}
use wg_portal.Profile.{ProfileStore}
use wg_portal.Profile.Requests

-- By whether the signed-in user is an administrator, and by the setting ApiAdminOnly.
unfoldable shows_api : Bool → Bool → Bool
shows_api is_admin api_admin_only = is_admin || not api_admin_only

-- The card with the token, or the one that offers to activate the API.
data Card : Type 0 where
  active inactive : Card

-- The user `{}` has no token; the token is a field of the backend's reply only.
unfoldable card : (User → Option String) → Option User → Card
card token none = inactive
card token (some u) = if is_empty (or_else (token u) "") then inactive else active

-- The button of the card.
unfoldable press : Card → Bool → Option UserInfo → M ProfileStore (Unit {0})
unfolding Requests.enable_api Requests.disable_api
press c true user = pass
press active false user = Requests.disable_api user
press inactive false user = Requests.enable_api user
