-- ===== src/Login.antt =====
-- The login page (frontend/src/views/LoginView.vue): the form, what happens after the auth store has
-- answered, and the address of an external login. `Sessions` has the page over time.
pub mod Laws
pub mod External
pub mod Sessions
use wg_portal.Prelude.{
  ℕ, String, List, [], ◌∷◌, ◌++◌, Option, some, none, Bool, true, false, ◌||◌, is_empty, map_option,
  units,
}
use wg_portal.Encoding.Uri.{encode_uri_component}
use wg_portal.Js.{
  M, World, Out, error, leave, reject, ok, throw, hang, Reply, Thrown, emit, notify, navigate,
  request, get, lit, state, update, catch, ◌>>◌, ◌>>=◌,
}
use wg_portal.Models.{User}
use wg_portal.Auth.{AuthStore, return_url}
use wg_portal.Auth.Requests

-- `delayed` says that the timer runs that ends the login after a refusal.
pub record LoginView : Type 0 where
  pub auth : AuthStore
  pub logging_in : Bool
  pub username : String
  pub password : String
  pub delayed : Bool

-- A method of the auth store that the page calls.
abbrev in_auth : {A : Type 0} → M AuthStore A → M LoginView A
in_auth m w = elim (m (record { store = w.store.auth; log = w.log })) [
  | ok a v ↦ ok a (record { store = record w.store { auth = v.store }; log = v.log })
  | throw e v ↦ throw e (record { store = record w.store { auth = v.store }; log = v.log })
  | hang ↦ hang
]

unfoldable disable_login_btn : LoginView → Bool
disable_login_btn s = is_empty s.username || is_empty s.password || s.logging_in

-- After a login the settings are loaded again, and the page is left for the return URL.
unfoldable welcome : M LoginView (Unit {0})
welcome = do
  emit (notify "Logged in" "Authentication succeeded!")
  update (λ s. record s { logging_in = false })
  emit (request get (lit "/config/settings" ∷ []))
  s ← state
  emit (navigate (return_url s.auth))

unfoldable refuse : M LoginView (Unit {0})
refuse = do
  emit (notify "Login failed!" "Authentication failed!")
  update (λ s. record s { delayed = true })

-- The timer of a refusal runs out.
unfoldable pub expire : M LoginView (Unit {0})
expire = update (λ s. record s { logging_in = false; delayed = false })

unfoldable pub login : M LoginView (Unit {0})
login = do update (λ s. record s { logging_in = true }); in_auth Requests.login

unfoldable pub login_reply : Reply User → M LoginView (Unit {0})
unfolding welcome refuse
login_reply r = catch (in_auth (Requests.login_reply r) >> welcome) (λ e. refuse)

-- The login by passkey, cut where the auth store waits.
unfoldable pub login_web_authn : Bool → M LoginView (Unit {0})
unfolding refuse
login_web_authn supported = do
  update (λ s. record s { logging_in = true })
  catch (in_auth (Requests.login_web_authn supported)) (λ e. refuse)

unfoldable pub authentication_options : Reply (Unit {0}) → M LoginView (Unit {0})
unfolding refuse
authentication_options r = catch (in_auth (Requests.authentication_options r)) (λ e. refuse)

unfoldable pub authentication_response : Reply (Unit {0}) → M LoginView (Unit {0})
unfolding refuse
authentication_response r = catch (in_auth (Requests.authentication_response r)) (λ e. refuse)

unfoldable pub authentication_finished : Reply User → M LoginView (Unit {0})
unfolding welcome refuse
authentication_finished r =
    catch (in_auth (Requests.authentication_finished r) >> welcome) (λ e. refuse)

unfoldable username_invalid : LoginView → Bool
username_invalid s = is_empty s.username

unfoldable password_invalid : LoginView → Bool
password_invalid s = is_empty s.password

-- `showLoginForm`, by the setting LoginFormVisible and whether the query of the page has `all`.
unfoldable show_login_form : Bool → Bool → Bool
show_login_form visible all = visible || all

-- The address of an external login, by the base URL, the URL of the provider, the origin of the page
-- and its path; `none` is an error.
unfoldable pub redirect_url : List ℕ → List ℕ → List ℕ → List ℕ → Option (List ℕ)
unfolding encode_uri_component
redirect_url base provider_url origin full_path =
    map_option (λ t. base ++ provider_url ++ units "?redirect=true" ++ units "&return=" ++ t)
      (encode_uri_component (origin ++ units "/#" ++ full_path))

abbrev leave_for : Option (List ℕ) → M LoginView (Unit {0})
leave_for none = reject (error "URIError")
leave_for (some url) = emit (leave url)

unfoldable external_login : List ℕ → List ℕ → List ℕ → List ℕ → M LoginView (Unit {0})
unfolding redirect_url
external_login base provider_url origin full_path = do
  update (λ s. record s { logging_in = true })
  leave_for (redirect_url base provider_url origin full_path)
