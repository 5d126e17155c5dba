-- ===== src/Router.antt =====
-- The navigation guards (frontend/src/router/index.js). The guard before a navigation either ends
-- at once, or waits for the session of an OAuth login; it gives the path to go to instead, or
-- `none` to go on. `Routes` has the route table, `Laws` what holds.
pub mod Laws
pub mod Routes
use wg_portal.Prelude.{
  String, List, [], ◌∷◌, Option, some, none, Bool, true, false, ◌&&◌, not, if◌then◌else◌, ◌===◌,
  includes, is_some,
}
use wg_portal.Js.{
  M, Out, ok, throw, hang, Reply, Thrown, emit, notify, return, state, catch, when, pass, ◌>>◌,
  ◌>>=◌,
}
use wg_portal.Auth.{
  AuthStore, Session, is_authenticated, return_url, set_return_url, reset_return_url,
}
use wg_portal.Auth.Requests.{load_session, load_session_reply}
use wg_portal.Security.{SecurityStore, load_security_properties}

-- A target of a navigation; `login_state` is the query's `wgLoginState`, if it is there.
pub record Location : Type 0 where
  pub path : String
  pub full_path : String
  pub login_state : Option String

pub data Guard : Type 0 where
  decided : Option String → Guard
  waiting : String → Guard

abbrev pub public_pages : List String
public_pages = "/" ∷ "/login" ∷ "/key-generator" ∷ []

-- The last part of the guard: restricted pages want a user.
unfoldable restrict : Location → M AuthStore Guard
restrict to = do
  s ← state
  if not (includes public_pages to.path) && not (is_authenticated s)
      then (set_return_url to.full_path >> return (decided (some "/login")))
      else return (decided none)

-- The callback of an OAuth login, up to the request for the session.
unfoldable oauth : String → M AuthStore Guard
oauth login_state = do
  s ← state
  if login_state === "success"
      then (load_session >> return (waiting (return_url s)))
      else (emit (notify "Login failed!" "Authentication via Oauth failed!")
          >> return (decided (some "/login")))

unfoldable before_each : Location → M AuthStore Guard
unfolding restrict oauth
before_each to = do
  s ← state
  elim to.login_state [
    | none ↦ restrict to
    | some login_state ↦ if is_authenticated s then restrict to else oauth login_state
  ]

-- The rest of the guard, on the reply to the request for the session.
unfoldable session_reply : String → Reply Session → M AuthStore (Option String)
session_reply url r =
    catch
      (do
        uid ← load_session_reply r
        emit (notify "Logged in" "Authentication suceeded!")
        reset_return_url
        return (some url))
      (λ e. do emit (notify "Login failed!" "Oauth session is invalid!"); return (some "/login"))

-- The whole guard, with the reply that it may wait for.
abbrev resume : Reply Session → Guard → M AuthStore (Option String)
resume r (decided target) = return target
resume r (waiting url) = session_reply url r

unfoldable pub guard : Location → Reply Session → M AuthStore (Option String)
unfolding before_each session_reply
guard to r = before_each to >>= resume r

abbrev csrf_pages : List String
csrf_pages = "/" ∷ "/login" ∷ []

-- After a navigation the CSRF token is renewed on the pages where one can sign in.
unfoldable after_each : Location → M SecurityStore (Unit {0})
after_each to = when (includes csrf_pages to.path) load_security_properties pass
