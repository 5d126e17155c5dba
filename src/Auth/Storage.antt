-- ===== src/Auth/Storage.antt =====
-- The local storage holds the signed-in user and the return URL, whatever happens: a reload of the
-- page finds them again.
use wg_portal.Prelude.{List, [], ◌∷◌, some, ◌≡◌, refl, arith}
use wg_portal.Js.{World}
use wg_portal.Js.Keeping.{Keeps, Kept-settled, coded_request-Keeps}
use wg_portal.Auth
use wg_portal.Auth.{
  AuthStore, LocalStorage, load_store, is_authenticated, user_identifier, is_admin, return_url,
}
use wg_portal.Auth.Requests
use wg_portal.Auth.Events.{Event, delete_credential, rename_credential, step, run}

-- What the storage holds is what the store holds.
record IsSaved (s : AuthStore) : Type 0 where
  pub user : s.storage.user ≡ s.user
  pub return_url : s.storage.return_url ≡ s.return_url

step-Keeps : (e : Event) → Keeps IsSaved (step e)
unfolding step Auth.set_return_url Auth.reset_return_url Auth.set_user_info
    Auth.set_web_authn_credentials Requests.load_providers Requests.load_providers_reply
    Requests.load_session Requests.load_session_reply Requests.load_web_authn_credentials
    Requests.load_web_authn_credentials_reply Requests.login Requests.login_reply Requests.logout
    Requests.logout_reply Requests.register_web_authn Requests.registration_options
    Requests.registration_response Requests.registration_finished
    Requests.delete_web_authn_credential Requests.delete_web_authn_credential_reply
    Requests.rename_web_authn_credential Requests.rename_web_authn_credential_reply
    Requests.login_web_authn Requests.authentication_options Requests.authentication_response
    Requests.authentication_finished
step-Keeps (delete_credential id) w p =
    coded_request-Keeps IsSaved id _ _ (record { user = p.user; return_url = p.return_url })
step-Keeps (rename_credential c) w p =
    coded_request-Keeps IsSaved c.id _ _ (record { user = p.user; return_url = p.return_url })
step-Keeps _ w p = ground arith

run-IsSaved :
    (es : List Event) (w : World AuthStore)
    → IsSaved w.store
    → (v : World AuthStore) × (run es w ≡ some v) × IsSaved v.store
unfolding run
run-IsSaved [] w p = (w, refl, p)
run-IsSaved (e ∷ es) w p =
    let (v, done, q) = Kept-settled IsSaved (step e w) (step-Keeps e w p) in
    let (u, rest, s) = run-IsSaved es v q in (u, rw (done, run) rest, s)

-- Two stores have the same user, with the names and all, and the getters that a view reads agree.
pub record LooksAlike (a b : AuthStore) : Type 0 where
  pub user : a.user ≡ b.user
  pub authenticated : is_authenticated a ≡ is_authenticated b
  pub identifier : user_identifier a ≡ user_identifier b
  pub admin : is_admin a ≡ is_admin b
  pub url : return_url a ≡ return_url b

LooksAlike-of_IsSaved : (s : AuthStore) → IsSaved s → LooksAlike (load_store s.storage) s
unfolding is_authenticated user_identifier is_admin return_url
LooksAlike-of_IsSaved s p = record {
  user = p.user;
  authenticated = rw p.user;
  identifier = rw p.user;
  admin = rw p.user;
  url = rw p.return_url;
}

-- A page that was loaded from the local storage, and then ran any session, does not loop; loading
-- the page again from the storage that it left finds the same user, with every field, or nobody as
-- before, and the same return URL.
pub reload-run :
    (st : LocalStorage) (es : List Event)
    → (v : World AuthStore) × (run es (record { store = load_store st; log = [] }) ≡ some v)
      × LooksAlike (load_store v.store.storage) v.store
reload-run st es =
    let (v, done, p) = run-IsSaved es _ (record { user = refl; return_url = refl }) in
    (v, done, LooksAlike-of_IsSaved v.store p)
