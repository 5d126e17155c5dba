-- ===== src/Profile/Requests.antt =====
-- The actions of the profile store that call the backend. Each is what runs up to the request, and
-- what runs on its reply. The user whose data is asked for is the one of the auth store.
use wg_portal.Prelude.{String, List, [], ◌∷◌, Option, some, none, true, false}
use wg_portal.Js.{
  M, Method, Piece, get, post, request, notify, lit, coded, emit, encoded, reject, settle, Reply,
  Thrown, type_error, ◌>>◌, ◌>>=◌,
}
use wg_portal.Models.{Interface, Peer, User}
use wg_portal.Auth.{UserInfo}
use wg_portal.Peers.{StatsResponse}
use wg_portal.Profile.{ProfileStore, set_fetching, set_peers, set_user, set_stats, set_interfaces}

-- A notification that the backend failed.
abbrev pub report : String → M ProfileStore (Unit {0})
report t = emit (notify "Backend Connection Failure" t)

-- `authStore().user.Identifier`: a TypeError if nobody is signed in.
identifier_of : Option UserInfo → M ProfileStore String
identifier_of none w = reject type_error w
identifier_of (some u) w = wg_portal.Js.ok u.identifier w

-- A request for the user's data.
unfoldable ask : Method → List Piece → Option UserInfo → M ProfileStore (Unit {0})
unfolding identifier_of
ask method path user = do
  set_fetching true
  current_user ← identifier_of user
  p ← encoded current_user
  emit (request method (lit "/user/" ∷ coded p ∷ path))

unfoldable pub enable_api : Option UserInfo → M ProfileStore (Unit {0})
unfolding ask
enable_api = ask post (lit "/api/enable" ∷ [])

unfoldable pub enable_api_reply : Reply User → M ProfileStore (Unit {0})
enable_api_reply r =
    settle r (λ u. set_user (some u)) (λ e. do set_fetching false; report "Failed to activate API!")

unfoldable pub disable_api : Option UserInfo → M ProfileStore (Unit {0})
unfolding ask
disable_api = ask post (lit "/api/disable" ∷ [])

unfoldable pub disable_api_reply : Reply User → M ProfileStore (Unit {0})
disable_api_reply r =
    settle r (λ u. set_user (some u))
      (λ e. do set_fetching false; report "Failed to deactivate API!")

unfoldable pub load_peers : Option UserInfo → M ProfileStore (Unit {0})
unfolding ask
load_peers = ask get (lit "/peers" ∷ [])

unfoldable pub load_peers_reply : Reply (List Peer) → M ProfileStore (Unit {0})
load_peers_reply r = settle r set_peers (λ e. do set_peers []; report "Failed to load user peers!")

unfoldable pub load_stats : Option UserInfo → M ProfileStore (Unit {0})
unfolding ask
load_stats = ask get (lit "/stats" ∷ [])

unfoldable pub load_stats_reply : Reply (Option StatsResponse) → M ProfileStore (Unit {0})
load_stats_reply r =
    settle r set_stats (λ e. do set_stats none; report "Failed to load peer stats!")

unfoldable pub load_user : Option UserInfo → M ProfileStore (Unit {0})
unfolding ask
load_user = ask get []

unfoldable pub load_user_reply : Reply User → M ProfileStore (Unit {0})
load_user_reply r =
    settle r (λ u. set_user (some u)) (λ e. do set_user none; report "Failed to load user!")

unfoldable pub load_interfaces : Option UserInfo → M ProfileStore (Unit {0})
unfolding ask
load_interfaces = ask get (lit "/interfaces" ∷ [])

unfoldable pub load_interfaces_reply : Reply (List Interface) → M ProfileStore (Unit {0})
load_interfaces_reply r =
    settle r set_interfaces (λ e. do set_interfaces []; report "Failed to load interfaces!")
