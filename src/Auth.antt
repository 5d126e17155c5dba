-- ===== src/Auth.antt =====
-- The store of the signed-in user (frontend/src/stores/auth.js): its state with the part of the
-- local storage that it owns, its getters and its synchronous actions. A stored JSON text is
-- modelled by the object that it serialises. `Requests` has the actions that call the backend,
-- `Events` a session of them all, `Storage` and `SignIn` what holds.
pub mod Requests
pub mod Events
pub mod Storage
pub mod SignIn
use wg_portal.Prelude.{
  ℕ, ◌<◌, String, List, [], Option, some, none, Bool, true, false, if◌then◌else◌, is_empty, or_else,
  length, ltb,
}
use wg_portal.Js.{M, update, ◌>>◌, ◌>>=◌}
use wg_portal.Models.{User}

pub record UserInfo : Type 0 where
  pub identifier : String
  pub firstname : String
  pub lastname : String
  pub email : String
  pub is_admin : Bool

-- The reply of `/auth/session`.
pub record Session : Type 0 where
  pub logged_in : Bool
  pub is_admin : Bool
  pub user_identifier : String
  pub user_firstname : String
  pub user_lastname : String
  pub user_email : String

pub record Provider : Type 0 where
  pub identifier : String
  pub name : String
  pub provider_url : String

pub record Credential : Type 0 where
  pub id : String
  pub name : String

-- The items 'user' and 'returnUrl' of the local storage; a missing item is `none`.
pub record LocalStorage : Type 0 where
  pub user : Option UserInfo
  pub return_url : Option String

pub record AuthStore : Type 0 where
  pub user : Option UserInfo
  pub providers : List Provider
  pub return_url : Option String
  pub web_authn_credentials : List Credential
  pub fetching : Bool
  pub storage : LocalStorage

-- The state of a page that is loaded: what the local storage holds.
abbrev pub load_store : LocalStorage → AuthStore
load_store st = record {
  user = st.user;
  providers = [];
  return_url = st.return_url;
  web_authn_credentials = [];
  fetching = false;
  storage = st;
}

-- `state.user?.Identifier || 'unknown'`
unfoldable pub user_identifier : AuthStore → String
user_identifier s = elim s.user [
  | none ↦ "unknown"
  | some u ↦ if is_empty u.identifier then "unknown" else u.identifier
]

unfoldable pub is_authenticated : AuthStore → Bool
is_authenticated s = elim s.user [ none ↦ false | some _ ↦ true ]

unfoldable pub is_admin : AuthStore → Bool
is_admin s = elim s.user [ none ↦ false | some u ↦ u.is_admin ]

-- `state.returnUrl || '/'`
unfoldable pub return_url : AuthStore → String
return_url s = elim s.return_url [ none ↦ "/" | some link ↦ if is_empty link then "/" else link ]

unfoldable is_web_authn_enabled : AuthStore → Bool
is_web_authn_enabled s = ltb 0 (length s.web_authn_credentials)

unfoldable pub set_return_url : String → M AuthStore (Unit {0})
set_return_url link = update (λ s. record s {
  return_url = some link;
  storage = record s.storage { return_url = some link };
})

unfoldable pub reset_return_url : M AuthStore (Unit {0})
reset_return_url =
    update (λ s. record s { return_url = none; storage = record s.storage { return_url = none } })

-- What `setUserInfo` is given: a session object, a user object, or null.
pub data Given : Type 0 where
  session : Session → Given
  user : User → Given
  nobody : Given

info_of : Given → Option UserInfo
info_of (session s) = some (record {
  identifier = s.user_identifier;
  firstname = s.user_firstname;
  lastname = s.user_lastname;
  email = s.user_email;
  is_admin = s.is_admin;
})
info_of (user u) = some (record {
  identifier = u.identifier;
  firstname = u.firstname;
  lastname = u.lastname;
  email = u.email;
  is_admin = u.is_admin;
})
info_of nobody = none

unfoldable pub set_user_info : Given → M AuthStore (Unit {0})
unfolding info_of
set_user_info given =
    let info = info_of given in
    update (λ s. record s { user = info; storage = record s.storage { user = info } })

unfoldable pub set_web_authn_credentials : List Credential → M AuthStore (Unit {0})
set_web_authn_credentials credentials =
    update (λ s. record s { fetching = false; web_authn_credentials = credentials })

abbrev pub set_fetching : Bool → M AuthStore (Unit {0})
set_fetching b = update (λ s. record s { fetching = b })
