-- ===== src/Login/Laws.antt =====
-- The login page on every reply to a login.
use wg_portal.Prelude.{List, [], ◌∷◌, ◌++◌, true, false, ◌≡◌, refl, append_assoc, ◌∙◌}
use wg_portal.Js.{
  World, Out, ok, fulfilled, rejected, Thrown, notify, navigate, request, get, lit, Effect,
}
use wg_portal.Models.{User}
use wg_portal.Auth.{is_authenticated, set_user_info, reset_return_url, return_url}
use wg_portal.Auth.Requests
use wg_portal.Login.{
  LoginView, login_reply, authentication_options, authentication_response, authentication_finished,
  expire,
}

-- What the page shows after a login, and where it goes.
abbrev welcomed : List Effect
welcomed =
    notify "Logged in" "Authentication succeeded!"
    ∷ request get (lit "/config/settings" ∷ [])
    ∷ navigate "/"
    ∷ []

abbrev pub refused : List Effect
refused = notify "Login failed!" "Authentication failed!" ∷ []

emitted :
    (log : List Effect) (a b c : Effect)
    → ((log ++ a ∷ []) ++ b ∷ []) ++ c ∷ [] ≡ log ++ a ∷ b ∷ c ∷ []
emitted log a b c =
    append_assoc (log ++ a ∷ []) (b ∷ []) (c ∷ []) ∙ append_assoc log (a ∷ []) (b ∷ c ∷ [])

-- The page is left, with the user signed in and the button free.
abbrev pub Welcomes : Out LoginView (Unit {0}) → World LoginView → Type 0
Welcomes out w =
    (v : World LoginView) × (out ≡ ok tt v)
    × (is_authenticated v.store.auth ≡ true)
    × (v.store.logging_in ≡ false)
    × (v.log ≡ w.log ++ welcomed)

-- The page stays, with nobody signed in; the button is free when the timer has run out.
abbrev Refuses : Out LoginView (Unit {0}) → World LoginView → Type 0
Refuses out w =
    (v : World LoginView) × (out ≡ ok tt v)
    × (is_authenticated v.store.auth ≡ false)
    × (v.store.logging_in ≡ w.store.logging_in)
    × (v.store.delayed ≡ true)
    × (v.log ≡ w.log ++ refused)

-- A login by password or by passkey that succeeds leaves the page for '/', whatever page was asked
-- for before, with the user signed in and the button free.
pub login_reply-Welcomes :
    (u : User) (w : World LoginView)
    → Welcomes (login_reply (fulfilled u) w) w
      × Welcomes (authentication_finished (fulfilled u) w) w
unfolding login_reply authentication_finished Requests.login_reply Requests.authentication_finished
    set_user_info reset_return_url is_authenticated return_url
login_reply-Welcomes u w =
    let log = emitted w.log _ _ _ in ((_, refl, refl, refl, log), (_, refl, refl, refl, log))

-- A login that is refused, at whatever step, signs nobody in, and the page stays as it is until the
-- timer has run out, which frees the button.
login_reply-Refuses :
    (e : Thrown) (w : World LoginView)
    → Refuses (login_reply (rejected e) w) w
      × Refuses (authentication_options (rejected e) w) w
      × Refuses (authentication_response (rejected e) w) w
      × Refuses (authentication_finished (rejected e) w) w
      × (free : World LoginView) × (expire w ≡ ok tt free)
      × (free.store.logging_in ≡ false)
unfolding login_reply authentication_options authentication_response authentication_finished expire
    Requests.login_reply Requests.authentication_options Requests.authentication_response
    Requests.authentication_finished set_user_info is_authenticated
login_reply-Refuses e w = (
  (_, refl, refl, refl, refl, refl),
  (_, refl, refl, refl, refl, refl),
  (_, refl, refl, refl, refl, refl),
  (_, refl, refl, refl, refl, refl),
  _,
  refl,
  refl,
)
