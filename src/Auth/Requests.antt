-- ===== src/Auth/Requests.antt =====
-- The actions of the auth store that call the backend or the browser's WebAuthn API. Each is what
-- runs up to the call, and what runs on its reply.
use wg_portal.Prelude.{String, List, [], ◌∷◌, Bool, true, false}
use wg_portal.Js.{
  M, get, post, put, delete, request, notify, navigate, browser, lit, coded, emit, update, encoded,
  reject, return, settle, catch, when, pass, Reply, Thrown, error, text_of, ◌>>◌, ◌>>=◌,
}
use wg_portal.Models.{User}
use wg_portal.Auth.{
  AuthStore, Session, Provider, Credential, session, user, nobody, reset_return_url, set_user_info,
  set_web_authn_credentials, set_fetching,
}

unfoldable pub load_providers : M AuthStore (Unit {0})
load_providers = emit (request get (lit "/auth/providers" ∷ []))

unfoldable pub load_providers_reply : Reply (List Provider) → M AuthStore (Unit {0})
load_providers_reply r =
    settle r (λ providers. update (λ s. record s { providers = providers }))
      (λ e. do
        update (λ s. record s { providers = [] })
        emit (
            notify "Backend Connection Failure"
              "Failed to load external authentication providers!"))

unfoldable pub load_session : M AuthStore (Unit {0})
load_session = emit (request get (lit "/auth/session" ∷ []))

-- A session that is signed in gives its user's identifier.
unfoldable accept_session : Session → M AuthStore String
accept_session s = elim s.logged_in [
  | true ↦ do reset_return_url; set_user_info (session s); return s.user_identifier
  | false ↦ do set_user_info nobody; reject (error "session not authenticated")
]

unfoldable pub load_session_reply : Reply Session → M AuthStore String
unfolding accept_session
load_session_reply r = settle r accept_session (λ err. do set_user_info nobody; reject err)

unfoldable pub load_web_authn_credentials : M AuthStore (Unit {0})
load_web_authn_credentials = do
  set_fetching true
  emit (request get (lit "/auth/webauthn/credentials" ∷ []))

unfoldable pub load_web_authn_credentials_reply : Reply (List Credential) → M AuthStore (Unit {0})
load_web_authn_credentials_reply r =
    settle r set_web_authn_credentials
      (λ e. do set_web_authn_credentials []; emit (notify "Backend Connection Failure" (text_of e)))

unfoldable pub login : M AuthStore (Unit {0})
login = emit (request post (lit "/auth/login" ∷ []))

unfoldable accept_user : User → M AuthStore String
accept_user u = do reset_return_url; set_user_info (user u); return u.identifier

-- The handler of a failed sign-in.
unfoldable refuse_login {ℓ} : {A : Type ℓ} → Thrown → M AuthStore A
refuse_login err = do set_user_info nobody; reject (error "login failed")

unfoldable pub login_reply : Reply User → M AuthStore String
unfolding accept_user refuse_login
login_reply r = settle r accept_user refuse_login

unfoldable pub logout : M AuthStore (Unit {0})
logout = do set_user_info nobody; reset_return_url; emit (request post (lit "/auth/logout" ∷ []))

-- The request may fail.
unfoldable pub logout_reply : Reply (Unit {0}) → M AuthStore (Unit {0})
logout_reply r = do
  settle r (λ _. pass) (λ e. pass)
  emit (notify "Logged Out" "Logout successful!")
  emit (navigate "/login")

unfoldable pub web_authn_unsupported : M AuthStore (Unit {0})
web_authn_unsupported = do
  emit (notify "WebAuthn not supported" "This browser does not support WebAuthn.")
  reject (error "WebAuthn not supported")

-- `supported` is the browser's answer.
unfoldable pub register_web_authn : Bool → M AuthStore (Unit {0})
unfolding web_authn_unsupported
register_web_authn supported =
    when supported
      (do set_fetching true; emit (request post (lit "/auth/webauthn/register/start" ∷ [])))
      web_authn_unsupported

abbrev registration_failed : String → Thrown → M AuthStore (Unit {0})
registration_failed title err = do set_fetching false; emit (notify title (text_of err))

-- The reply of the start of a registration.
unfoldable pub registration_options : Reply (Unit {0}) → M AuthStore (Unit {0})
registration_options r =
    settle r
      (λ _. do
        emit (
            notify "Passkey registration"
              "Starting passkey registration, follow the instructions in the browser.")
        emit (browser "startRegistration"))
      (registration_failed "Failed to start WebAuthn registration")

-- The browser's answer.
unfoldable pub registration_response : Reply (Unit {0}) → M AuthStore (Unit {0})
registration_response r =
    settle r (λ _. emit (request post (lit "/auth/webauthn/register/finish" ∷ [])))
      (registration_failed "Failed to start Passkey registration")

-- The reply of the end of a registration.
unfoldable pub registration_finished : Reply (List Credential) → M AuthStore (Unit {0})
registration_finished r =
    settle r
      (λ credentials. do
        set_web_authn_credentials credentials
        emit (notify "Passkey registration" "A new passkey has been registered successfully!"))
      (registration_failed "Passkey registration failed")

unfoldable pub delete_web_authn_credential : String → M AuthStore (Unit {0})
delete_web_authn_credential id = do
  set_fetching true
  p ← encoded id
  emit (request delete (lit "/auth/webauthn/credential/" ∷ coded p ∷ []))

unfoldable pub delete_web_authn_credential_reply : Reply (List Credential) → M AuthStore (Unit {0})
delete_web_authn_credential_reply r =
    settle r
      (λ credentials. do
        set_web_authn_credentials credentials
        emit (notify "Success" "Passkey deleted successfully!"))
      (registration_failed "Backend Connection Failure")

unfoldable pub rename_web_authn_credential : Credential → M AuthStore (Unit {0})
rename_web_authn_credential credential = do
  set_fetching true
  p ← encoded credential.id
  emit (request put (lit "/auth/webauthn/credential/" ∷ coded p ∷ []))

unfoldable pub rename_web_authn_credential_reply : Reply (List Credential) → M AuthStore (Unit {0})
rename_web_authn_credential_reply r =
    settle r
      (λ credentials. do
        set_web_authn_credentials credentials
        emit (notify "Success" "Passkey renamed successfully!"))
      (registration_failed "Backend Connection Failure")

unfoldable pub login_web_authn : Bool → M AuthStore (Unit {0})
unfolding web_authn_unsupported
login_web_authn supported =
    when supported
      (do set_fetching true; emit (request post (lit "/auth/webauthn/login/start" ∷ [])))
      web_authn_unsupported

-- The reply of the start of a sign-in by passkey.
unfoldable pub authentication_options : Reply (Unit {0}) → M AuthStore (Unit {0})
unfolding refuse_login
authentication_options r = settle r (λ _. emit (browser "startAuthentication")) refuse_login

-- The browser's answer: what its handler throws goes to the handler of the start too.
unfoldable pub authentication_response : Reply (Unit {0}) → M AuthStore (Unit {0})
unfolding refuse_login
authentication_response r =
    catch
      (settle r (λ _. emit (request post (lit "/auth/webauthn/login/finish" ∷ []))) refuse_login)
      refuse_login

-- The reply of the end of a sign-in by passkey, with the three nested handlers. The identifier that
-- the innermost code returns is not returned by the method.
unfoldable pub authentication_finished : Reply User → M AuthStore (Unit {0})
unfolding accept_user refuse_login
authentication_finished r =
    catch (catch (settle r (λ u. accept_user u >> pass) refuse_login) refuse_login) refuse_login
