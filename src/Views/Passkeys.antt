-- ===== src/Views/Passkeys.antt =====
-- The loads at the start, and renaming a passkey (the script of frontend/src/views/SettingsView.vue).
-- The row of the table is the object that
-- the auth store listed; a reply puts other objects into the store. The body of the request, the new
-- name, is not part of the model's requests. `Section` has the section of the page over time.
pub mod Laws
pub mod Section
use wg_portal.Prelude.{String, List, Option, some, none, Bool, true, false, or_else}
use wg_portal.Auth.{AuthStore, Credential}
use wg_portal.Auth.Requests
use wg_portal.FetchWrapper.Received.{Received, arrives}
use wg_portal.Models.{User}
use wg_portal.Profile.{ProfileStore}
use wg_portal.Profile.Requests as ProfileRequests
use wg_portal.Dialogs.{within}
use wg_portal.Js.{M, Reply, update, state, catch, pass, ◌>>=◌, ◌>>◌}

-- A credential with the fields that the view adds; `null` is `none`.
pub record Row : Type 0 where
  pub id : String
  pub name : Option String
  pub rename_mode : Bool
  pub temp_name : Option String

pub record Passkeys : Type 0 where
  pub auth : AuthStore
  pub row : Row

unfoldable enable_rename : Row → Row
enable_rename c = record c { rename_mode = true; temp_name = c.name }

unfoldable cancel_rename : Row → Row
cancel_rename c = record c { rename_mode = false; temp_name = none }

abbrev pub in_auth {ℓ} : {A : Type ℓ} → M AuthStore A → M Passkeys A
in_auth = within (λ s. s.auth) (λ a s. record s { auth = a })

-- The credential that is sent: the one of the row with the name of the input.
abbrev renamed : Row → Credential
renamed c = record { id = c.id; name = or_else c.temp_name "" }

-- `saveRename(credential)` up to the request; an error is only logged.
unfoldable pub save_rename : M Passkeys (Unit {0})
unfolding Requests.rename_web_authn_credential
save_rename w =
    catch (in_auth (Requests.rename_web_authn_credential (renamed w.store.row))) (λ e. pass) w

-- The assignments behind the request.
abbrev take_name : Row → Row
take_name c = record c { name = c.temp_name; rename_mode = false }

unfoldable pub save_rename_reply : Reply (List Credential) → M Passkeys (Unit {0})
unfolding Requests.rename_web_authn_credential_reply
save_rename_reply r =
    catch
      (in_auth (Requests.rename_web_authn_credential_reply r)
        >> update (λ s. record s { row = take_name s.row }))
      (λ e. pass)

-- The stores that the view loads.
record Loads : Type 0 where
  pub profile : ProfileStore
  pub auth : AuthStore

-- `onMounted`, with the replies that come; an error ends it. A reply of the status 401 or 403 signs
-- the user out before its store gets it.
unfoldable mounted : Received User → Received (List Credential) → M Loads (Unit {0})
unfolding ProfileRequests.load_user ProfileRequests.load_user_reply arrives
    Requests.load_web_authn_credentials Requests.load_web_authn_credentials_reply
mounted user credentials = do
  s ← state
  within (λ s. s.profile) (λ p s. record s { profile = p }) (ProfileRequests.load_user s.auth.user)
  within (λ s. s.auth) (λ a s. record s { auth = a }) (arrives user)
  within (λ s. s.profile) (λ p s. record s { profile = p })
      (ProfileRequests.load_user_reply user.reply)
  within (λ s. s.auth) (λ a s. record s { auth = a })
      (Requests.load_web_authn_credentials
        >> (arrives credentials >> Requests.load_web_authn_credentials_reply credentials.reply))
