-- ===== src/FetchWrapper/Received.antt =====
-- What a store receives from apiWrapper, and what the wrapper has done to the session before
-- (handleResponse in frontend/src/helpers/fetch-wrapper.js).
use wg_portal.Prelude.{Bool, false, ◌&&◌}
use wg_portal.Auth.{AuthStore, is_authenticated}
use wg_portal.Auth.Requests
use wg_portal.Js.{M, Reply, fulfilled, rejected, state, when, pass, ◌>>=◌}

-- How the promise ends; `forbidden` says of a rejection that the response has the status 401 or 403.
pub record Received (A : Type 0) : Type 0 where
  pub reply : Reply A
  pub forbidden : Bool

-- The response ends the session of a user who is signed in.
abbrev pub ends_session : {A : Type 0} → Received A → Bool
ends_session r = elim r.reply [ fulfilled _ ↦ false | rejected _ ↦ r.forbidden ]

-- The sign-out before the promise is rejected: it runs up to its own request, and what comes of that
-- request is no part of it.
unfoldable pub arrives : {A : Type 0} → Received A → M AuthStore (Unit {0})
unfolding is_authenticated Requests.logout
arrives r = state >>= λ s. when (ends_session r && is_authenticated s) Requests.logout pass
