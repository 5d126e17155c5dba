-- ===== src/Users/Requests.antt =====
-- The actions of the user store that call the backend. Each is what runs up to the request, and
-- what runs on its reply.
use wg_portal.Prelude.{String, List, [], ◌∷◌, true, false}
use wg_portal.Js.{
  M, get, post, put, delete, request, notify, lit, coded, emit, update, encoded, reject, settle,
  Reply, Thrown, error, text_of, ◌>>◌, ◌>>=◌,
}
use wg_portal.Js.Array.{assign, push}
use wg_portal.Js.Keyed.{index_key, remove_key}
use wg_portal.Models.{User, Peer}
use wg_portal.Users.{UserStore, user_key, set_fetching, set_users, set_user_peers}

-- `fetching` is reset, and a new error is thrown.
abbrev pub give_up : Thrown → M UserStore (Unit {0})
give_up e = do set_fetching false; reject (error (text_of e))

unfoldable pub load_users : M UserStore (Unit {0})
load_users = do set_fetching true; emit (request get (lit "/user/all" ∷ []))

unfoldable pub load_users_reply : Reply (List User) → M UserStore (Unit {0})
load_users_reply r =
    settle r set_users
      (λ e. do set_users []; emit (notify "Backend Connection Failure" "Failed to load users!"))

unfoldable pub delete_user : String → M UserStore (Unit {0})
delete_user id = do
  set_fetching true
  p ← encoded id
  emit (request delete (lit "/user/" ∷ coded p ∷ []))

unfoldable pub delete_user_reply : String → Reply (Unit {0}) → M UserStore (Unit {0})
delete_user_reply id r =
    settle r
      (λ _. update (λ s. record s { users = remove_key user_key id s.users; fetching = false }))
      give_up

unfoldable pub update_user : String → M UserStore (Unit {0})
update_user id = do
  set_fetching true
  p ← encoded id
  emit (request put (lit "/user/" ∷ coded p ∷ []))

unfoldable pub update_user_reply : String → Reply User → M UserStore (Unit {0})
update_user_reply id r =
    settle r
      (λ user. update (λ s. record s {
        users = assign s.users (index_key user_key id s.users) user;
        fetching = false;
      }))
      give_up

unfoldable pub create_user : M UserStore (Unit {0})
create_user = do set_fetching true; emit (request post (lit "/user/new" ∷ []))

unfoldable pub create_user_reply : Reply User → M UserStore (Unit {0})
create_user_reply r =
    settle r (λ user. update (λ s. record s { users = push s.users user; fetching = false }))
      give_up

unfoldable pub load_user_peers : String → M UserStore (Unit {0})
load_user_peers id = do
  set_fetching true
  p ← encoded id
  emit (request get (lit "/user/" ∷ coded p ∷ lit "/peers" ∷ []))

unfoldable pub load_user_peers_reply : Reply (List Peer) → M UserStore (Unit {0})
load_user_peers_reply r = settle r set_user_peers (λ e. do
  set_user_peers []
  emit (notify "Backend Connection Failure" "Failed to load user peers!"))
