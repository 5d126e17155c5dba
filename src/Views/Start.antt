-- ===== src/Views/Start.antt =====
-- The start of the application and its menu (the script of frontend/src/App.vue). The document and
-- the local storage keep the theme and the language; `none` is a missing item.
pub mod Laws
use wg_portal.Prelude.{
  ℕ, ◌-◌, String, List, [], ◌∷◌, ◌++◌, Option, some, none, Bool, true, false, not, ◌&&◌, ltb,
  if◌then◌else◌, ◌===◌, is_empty, or_else, length, replicate, includes, units,
}
use wg_portal.Auth.{AuthStore, UserInfo, Session, Provider, is_authenticated}
use wg_portal.Auth.Requests
use wg_portal.Dialogs.{within}
use wg_portal.FetchWrapper.Received.{Received, arrives}
use wg_portal.Js.{M, Reply, update, state, catch, pass, ◌>>=◌, ◌>>◌}
use wg_portal.Security.{SecurityStore}
use wg_portal.Security
use wg_portal.Settings.{SettingsStore}
use wg_portal.Settings

pub record App (V : Type 0) : Type 0 where
  pub auth : AuthStore
  pub security : SecurityStore
  pub settings : SettingsStore V
  pub theme : String
  pub stored_theme : Option String
  pub locale : String
  pub stored_language : Option String

module _ {V : Type 0} where
  abbrev pub in_auth {ℓ} : {A : Type ℓ} → M AuthStore A → M (App V) A
  in_auth = within (λ s. s.auth) (λ a s. record s { auth = a })

  abbrev pub in_security {ℓ} : {A : Type ℓ} → M SecurityStore A → M (App V) A
  in_security = within (λ s. s.security) (λ x s. record s { security = x })

  abbrev pub in_settings {ℓ} : {A : Type ℓ} → M (SettingsStore V) A → M (App V) A
  in_settings = within (λ s. s.settings) (λ x s. record s { settings = x })

  -- The theme, the token with its reply, and the request of the providers.
  unfoldable pub prepare : Received String → M (App V) (Unit {0})
  unfolding Security.load_security_properties Security.load_security_properties_reply
      Requests.load_providers arrives
  prepare token = do
    update (λ s. record s { theme = or_else s.stored_theme "light" })
    in_security Security.load_security_properties
    in_auth (arrives token)
    in_security (Security.load_security_properties_reply token.reply)
    in_auth Requests.load_providers

  -- The reply with the providers, which nothing waits for, if it comes at this moment.
  unfoldable pub providers_come : Bool → Received (List Provider) → M (App V) (Unit {0})
  unfolding Requests.load_providers_reply arrives
  providers_come true r = in_auth (arrives r) >> in_auth (Requests.load_providers_reply r.reply)
  providers_come false r = pass

  -- The `try` block: the session is loaded, and then the settings.
  unfoldable pub load_session :
      Received Session → Received (List (String × V)) → M (App V) (Unit {0})
  unfolding arrives Requests.load_session Requests.load_session_reply Settings.load_settings
      Settings.load_settings_reply
  load_session session settings =
      (in_auth Requests.load_session
        >> (in_auth (arrives session) >> in_auth (Requests.load_session_reply session.reply)))
      >>= λ _.
          in_settings Settings.load_settings
          >> (in_auth (arrives settings)
              >> in_settings (Settings.load_settings_reply settings.reply))

  -- The `catch` block: a user who was signed in is signed out.
  unfoldable pub sign_out : Reply (Unit {0}) → Bool → M (App V) (Unit {0})
  unfolding Requests.logout Requests.logout_reply
  sign_out logout true = in_auth Requests.logout >> in_auth (Requests.logout_reply logout)
  sign_out logout false = pass

  unfoldable pub resume :
      Received Session → Received (List (String × V)) → Reply (Unit {0}) → M (App V) (Unit {0})
  unfolding is_authenticated load_session sign_out
  resume session settings logout = state >>= λ s.
      catch (load_session session settings) (λ e. sign_out logout (is_authenticated s.auth))

  -- `onMounted`, with the replies; that to the logout only if the user is signed out by the `catch`
  -- block. The providers come `late`, at the end of all, or else before the session is asked for.
  unfoldable pub start :
      Bool
      → Received String
      → Received (List Provider)
      → Received Session
      → Received (List (String × V))
      → Reply (Unit {0})
      → M (App V) (Unit {0})
  unfolding prepare providers_come resume
  start late token providers session settings logout =
      (prepare token >> providers_come (not late) providers)
      >> (resume session settings logout >> providers_come late providers)

  unfoldable pub switch_language : String → App V → App V
  switch_language lang s =
      if not (s.locale === lang) then record s { locale = lang; stored_language = some lang } else s

  unfoldable switch_theme : String → App V → App V
  switch_theme theme s =
      if not (s.theme === theme) then record s { theme = theme; stored_theme = some theme } else s

-- `langMap[lang] || lang`
unfoldable flag_of : String → String
flag_of lang =
    if lang === "en"
    then "us"
    else if lang === "pt"
    then "pt"
    else if lang === "uk"
    then "ua"
    else if lang === "zh"
    then "cn"
    else if lang === "ko"
    then "kr"
    else lang

-- `languageFlag` without its prefix `fi-`, at a locale in small letters.
unfoldable language_flag : List String → String → String → String
unfolding flag_of
language_flag available fallback lang = flag_of (if includes available lang then lang else fallback)

-- The name before the padding, as code units.
unfoldable pub display_name : Option UserInfo → List ℕ
display_name none = units "Unknown"
display_name (some u) =
    if is_empty u.firstname
    then if is_empty u.lastname then units u.identifier else units u.lastname
    else if is_empty u.lastname
    then units u.firstname
    else units u.firstname ++ b' ' ∷ units u.lastname

-- `userDisplayName`: on a wide window the name is padded to 20 characters by no-break spaces.
unfoldable pub user_display_name : Option UserInfo → Bool → List ℕ
unfolding display_name
user_display_name user wide =
    let name = display_name user in
    if ltb (length name) 20 && wide then replicate (20 - length name) 0xA0 ++ name else name
