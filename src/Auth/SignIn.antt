-- ===== src/Auth/SignIn.antt =====
-- Signing in and out, on every branch.
use wg_portal.Prelude.{[], ◌∷◌, ◌++◌, none, Bool, true, false, ◌≡◌, refl, arith}
use wg_portal.Js.{
  World, Out, ok, throw, Reply, fulfilled, rejected, notify, navigate, request, post, lit, ◌>>◌,
}
use wg_portal.Models.{User}
use wg_portal.Auth.{AuthStore, Session, is_authenticated, set_user_info, reset_return_url}
use wg_portal.Auth.Requests.{
  load_session_reply, login_reply, logout, logout_reply, login_web_authn, authentication_options,
  authentication_response, authentication_finished,
}

-- Whether a promise was fulfilled.
abbrev pub is_fulfilled : {A : Type 0} → Out AuthStore A → Bool
is_fulfilled (ok _ _) = true
is_fulfilled _ = false

-- Whether the user is signed in at the end of a computation.
abbrev pub signed_in : {A : Type 0} → Out AuthStore A → Bool
signed_in (ok _ w) = is_authenticated w.store
signed_in (throw _ w) = is_authenticated w.store
signed_in _ = false

-- Whatever the replies, the promises of LoadSession, of Login and of the last step of LoginWebAuthn
-- are fulfilled exactly when the user is then signed in.
sign_in-fulfilled :
    (rs : Reply Session) (ru : Reply User) (w : World AuthStore)
    → (is_fulfilled (load_session_reply rs w) ≡ signed_in (load_session_reply rs w))
      × (is_fulfilled (login_reply ru w) ≡ signed_in (login_reply ru w))
      × (is_fulfilled (authentication_finished ru w) ≡ signed_in (authentication_finished ru w))
unfolding load_session_reply login_reply authentication_finished is_authenticated set_user_info
    reset_return_url
sign_in-fulfilled rs ru w = (ground arith, ground arith, ground arith)

-- Logout ends the session in the store and in the storage before the request is sent, and whatever
-- the reply it ends at the login page.
logout_lem :
    (r : Reply (Unit {0})) (w : World AuthStore)
    → (logout >> logout_reply r) w
      ≡ ok tt (record {
        store = record w.store {
          user = none;
          return_url = none;
          storage = record { user = none; return_url = none };
        };
        log =
            ((w.log ++ request post (lit "/auth/logout" ∷ []) ∷ [])
              ++ notify "Logged Out" "Logout successful!" ∷ [])
            ++ navigate "/login" ∷ [];
      })
unfolding logout logout_reply set_user_info reset_return_url
logout_lem (fulfilled _) w = refl
logout_lem (rejected _) w = refl

abbrev fetching_of : {A : Type 0} → Out AuthStore A → Bool
fetching_of (ok _ w) = w.store.fetching
fetching_of (throw _ w) = w.store.fetching
fetching_of _ = false

-- A sign-in by passkey that the browser supports leaves the store fetching, whatever the replies.
login_web_authn-fetching :
    (a b : Reply (Unit {0})) (c : Reply User) (w : World AuthStore)
    → fetching_of (
        (login_web_authn true
            >> authentication_options a
            >> authentication_response b
            >> authentication_finished c)
          w)
      ≡ true
unfolding login_web_authn authentication_options authentication_response authentication_finished
    set_user_info reset_return_url
login_web_authn-fetching (fulfilled _) (fulfilled _) (fulfilled _) w = refl
login_web_authn-fetching (fulfilled _) (fulfilled _) (rejected _) w = refl
login_web_authn-fetching (fulfilled _) (rejected _) c w = refl
login_web_authn-fetching (rejected _) b c w = refl
