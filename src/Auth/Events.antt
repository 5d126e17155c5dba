-- ===== src/Auth/Events.antt =====
-- A session with the auth store: its calls, and the replies in any order.
use wg_portal.Prelude.{String, Bool, List, [], ◌∷◌, Option, some, none}
use wg_portal.Js.{M, World, Reply, pass, ◌>>◌}
use wg_portal.Js.Keeping.{settled}
use wg_portal.Models.{User}
use wg_portal.Auth
use wg_portal.Auth.{AuthStore, Session, Provider, Credential}
use wg_portal.Auth.Requests

pub data Event : Type 0 where
  set_return_url : String → Event
  reset_return_url : Event
  load_providers : Event
  providers_loaded : Reply (List Provider) → Event
  load_session : Event
  session_loaded : Reply Session → Event
  load_credentials : Event
  credentials_loaded : Reply (List Credential) → Event
  login : Event
  logged_in : Reply User → Event
  logout : Event
  logged_out : Reply (Unit {0}) → Event
  register : Bool → Event
  registration_started : Reply (Unit {0}) → Event
  registration_answered : Reply (Unit {0}) → Event
  registered : Reply (List Credential) → Event
  delete_credential : String → Event
  credential_deleted : Reply (List Credential) → Event
  rename_credential : Credential → Event
  credential_renamed : Reply (List Credential) → Event
  login_passkey : Bool → Event
  authentication_started : Reply (Unit {0}) → Event
  authentication_answered : Reply (Unit {0}) → Event
  authenticated : Reply User → Event

unfoldable pub step : Event → M AuthStore (Unit {0})
step (set_return_url link) = Auth.set_return_url link
step reset_return_url = Auth.reset_return_url
step load_providers = Requests.load_providers
step (providers_loaded r) = Requests.load_providers_reply r
step load_session = Requests.load_session
step (session_loaded r) = Requests.load_session_reply r >> pass
step load_credentials = Requests.load_web_authn_credentials
step (credentials_loaded r) = Requests.load_web_authn_credentials_reply r
step login = Requests.login
step (logged_in r) = Requests.login_reply r >> pass
step logout = Requests.logout
step (logged_out r) = Requests.logout_reply r
step (register supported) = Requests.register_web_authn supported
step (registration_started r) = Requests.registration_options r
step (registration_answered r) = Requests.registration_response r
step (registered r) = Requests.registration_finished r
step (delete_credential id) = Requests.delete_web_authn_credential id
step (credential_deleted r) = Requests.delete_web_authn_credential_reply r
step (rename_credential c) = Requests.rename_web_authn_credential c
step (credential_renamed r) = Requests.rename_web_authn_credential_reply r
step (login_passkey supported) = Requests.login_web_authn supported
step (authentication_started r) = Requests.authentication_options r
step (authentication_answered r) = Requests.authentication_response r
step (authenticated r) = Requests.authentication_finished r

-- A rejected promise ends nothing but itself: the session goes on.
unfoldable pub run : List Event → World AuthStore → Option (World AuthStore)
run [] w = some w
run (e ∷ es) w = elim (settled (step e w)) [ none ↦ none | some v ↦ run es v ]
