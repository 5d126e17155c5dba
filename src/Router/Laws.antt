-- ===== src/Router/Laws.antt =====
-- What the guards promise: a restricted page is entered with a user only, the login page is always
-- reached, and an OAuth login leads back to the page that was asked for.
use wg_portal.Prelude.{
  String, [], Option, some, none, true, false, ◌≡◌, refl, ◌⊎◌, includes, is_empty, arith,
}
use wg_portal.Js.{World, world_after, Out, ok, throw, hang, Reply, fulfilled}
use wg_portal.Auth.{
  AuthStore, Session, is_authenticated, return_url, set_return_url, reset_return_url, set_user_info,
  load_store,
}
use wg_portal.Auth.Requests.{load_session, load_session_reply}
use wg_portal.Router.{Location, public_pages, guard}

-- The navigation goes on only to a public page or with a signed-in user; the guard itself neither
-- fails nor loops.
abbrev pub Admits : Location → Out AuthStore (Option String) → Type 0
Admits to (ok none v) = (includes public_pages to.path ≡ true) ⊎ (is_authenticated v.store ≡ true)
Admits to (ok (some _) v) = Unit
Admits to (throw _ v) = ⊥
Admits to hang = ⊥

-- The guard ends with a decision for every target and every reply, and lets a navigation go on
-- only to a public page or with a signed-in user.
pub guard-Admits :
    (to : Location) (r : Reply Session) (w : World AuthStore) → Admits to (guard to r w)
unfolding guard load_session load_session_reply is_authenticated set_user_info reset_return_url
    set_return_url return_url
guard-Admits to r w = ground arith

-- A public page, the login page among them, is entered as it is: no redirection can go round in a
-- circle.
pub guard-public :
    (to : Location) (r : Reply Session) (w : World AuthStore)
    → to.login_state ≡ none
    → includes public_pages to.path ≡ true
    → guard to r w ≡ ok none w
unfolding guard
guard-public to r w h k = ground arith

abbrev pub remembered : String → World AuthStore → World AuthStore
remembered link w = record w {
  store = record w.store {
    return_url = some link;
    storage = record w.store.storage { return_url = some link };
  };
}

-- A visitor who asks for a page that is not public, not by an OAuth callback, is sent to the login
-- page, and the full path is remembered in the store and in the storage.
pub guard-restricted :
    (to : Location) (r : Reply Session) (w : World AuthStore)
    → to.login_state ≡ none
    → includes public_pages to.path ≡ false
    → w.store.user ≡ none
    → guard to r w ≡ ok (some "/login") (remembered to.full_path w)
unfolding guard is_authenticated set_return_url
guard-restricted to r w h k u = ground arith

-- Where the guard sends the navigation: `some none` lets it go on.
abbrev pub target : Out AuthStore (Option String) → Option (Option String)
target (ok t _) = some t
target _ = none

-- The page is loaded again, from the local storage.
abbrev reloaded : World AuthStore → World AuthStore
reloaded w = record { store = load_store w.store.storage; log = [] }

-- The identity provider sends the browser back to the callback, which loads the page again.
abbrev pub after_oauth :
    Location → Reply Session → Location → Session → World AuthStore → Out AuthStore (Option String)
after_oauth page r callback s w =
    guard callback (fulfilled s) (reloaded (world_after w (guard page r w)))

-- The callback of an OAuth login, for a visitor with a return URL.
guard-callback :
    (to : Location) (s : Session) (w d : World AuthStore) (link : String)
    → to.login_state ≡ some "success"
    → s.logged_in ≡ true
    → w.store.user ≡ none
    → w.store.return_url ≡ some link
    → is_empty link ≡ false
    → (target (guard to (fulfilled s) w) ≡ some (some link))
      × (is_authenticated (world_after d (guard to (fulfilled s) w)).store ≡ true)
      × (return_url (world_after d (guard to (fulfilled s) w)).store ≡ "/")
unfolding guard load_session load_session_reply is_authenticated set_user_info reset_return_url
    return_url
guard-callback to s w d link f g u l c = (ground arith, ground arith, ground arith)

-- A visitor with no stored user who asks for a restricted page is sent to the login page; if an
-- OAuth login succeeds after that, the browser ends up on the page that was asked for, signed in,
-- with no return URL left.
pub after_oauth-page :
    (page callback : Location) (r : Reply Session) (s : Session) (w : World AuthStore)
    → page.login_state ≡ none
    → includes public_pages page.path ≡ false
    → is_empty page.full_path ≡ false
    → w.store.user ≡ none
    → w.store.storage.user ≡ none
    → callback.login_state ≡ some "success"
    → s.logged_in ≡ true
    → (target (guard page r w) ≡ some (some "/login"))
      × (target (after_oauth page r callback s w) ≡ some (some page.full_path))
      × (is_authenticated (world_after w (after_oauth page r callback s w)).store ≡ true)
      × (return_url (world_after w (after_oauth page r callback s w)).store ≡ "/")
after_oauth-page page callback r s w a b c d e f g =
    let refused = guard-restricted page r w a b d in
    let (t, i, u) =
      guard-callback callback s (reloaded (remembered page.full_path w)) w page.full_path f g e refl
        c in
    rw refused (refl, t, i, u)
