-- ===== src/Profile/Laws.antt =====
-- The actions of the profile store on every reply, and without a signed-in user.
use wg_portal.Prelude.{
  ℕ, units, arith, String, List, [], Option, some, none, true, false, ◌≡◌, refl,
}
use wg_portal.Js.{M, World, Out, ok, throw, hang, Reply, fulfilled, rejected, ◌>>◌}
use wg_portal.Encoding.{base64_url_encode}
use wg_portal.Models.{Interface, Peer, User}
use wg_portal.Auth.{UserInfo}
use wg_portal.Peers.{StatsResponse}
use wg_portal.Profile.{
  ProfileStore, set_user, set_peers, set_stats, set_interfaces, first_identifier,
}
use wg_portal.Profile.Requests.{
  enable_api_reply, disable_api_reply, load_peers_reply, load_stats, load_stats_reply,
  load_user_reply, load_interfaces_reply,
}

-- Replies to the actions other than a load of the statistics.
pub data Answer : Type 0 where
  enabled disabled user_loaded : Reply User → Answer
  peers_loaded : Reply (List Peer) → Answer
  interfaces_loaded : Reply (List Interface) → Answer

abbrev pub receive : Answer → M ProfileStore (Unit {0})
receive (enabled r) = enable_api_reply r
receive (disabled r) = disable_api_reply r
receive (user_loaded r) = load_user_reply r
receive (peers_loaded r) = load_peers_reply r
receive (interfaces_loaded r) = load_interfaces_reply r

-- The data of the store.
pub record Data : Type 0 where
  pub peers : List Peer
  pub interfaces : List Interface
  pub selected : String
  pub user : Option User

abbrev pub data_of : ProfileStore → Data
data_of s = record {
  peers = s.peers;
  interfaces = s.interfaces;
  selected = s.selected_interface_id;
  user = s.user;
}

-- What becomes of the data: a failed load empties what it loads, and a failed switch of the API
-- keeps the user.
abbrev pub answered : Answer → Data → Data
answered (enabled (fulfilled u)) d = record d { user = some u }
answered (enabled (rejected _)) d = d
answered (disabled (fulfilled u)) d = record d { user = some u }
answered (disabled (rejected _)) d = d
answered (user_loaded (fulfilled u)) d = record d { user = some u }
answered (user_loaded (rejected _)) d = record d { user = none }
answered (peers_loaded (fulfilled ps)) d = record d { peers = ps }
answered (peers_loaded (rejected _)) d = record d { peers = [] }
answered (interfaces_loaded (fulfilled xs)) d = record d {
  interfaces = xs;
  selected = first_identifier xs;
}
answered (interfaces_loaded (rejected _)) d = record d { interfaces = []; selected = "" }

-- Whatever the reply, the promise is fulfilled, the fetching is over, the page numbers and the
-- statistics stay as they were, and the data is that of the reply.
receive-answered :
    (a : Answer) (w : World ProfileStore)
    → (v : World ProfileStore) × (receive a w ≡ ok tt v)
      × (v.store.fetching ≡ false)
      × (v.store.view ≡ w.store.view)
      × (v.store.stats ≡ w.store.stats)
      × (data_of v.store ≡ answered a (data_of w.store))
unfolding enable_api_reply disable_api_reply load_peers_reply load_user_reply load_interfaces_reply
    set_user set_peers set_interfaces first_identifier
receive-answered (enabled (fulfilled u)) w = (_, refl, refl, refl, refl, refl)
receive-answered (enabled (rejected e)) w = (_, refl, refl, refl, refl, refl)
receive-answered (disabled (fulfilled u)) w = (_, refl, refl, refl, refl, refl)
receive-answered (disabled (rejected e)) w = (_, refl, refl, refl, refl, refl)
receive-answered (user_loaded (fulfilled u)) w = (_, refl, refl, refl, refl, refl)
receive-answered (user_loaded (rejected e)) w = (_, refl, refl, refl, refl, refl)
receive-answered (peers_loaded (fulfilled ps)) w = (_, refl, refl, refl, refl, refl)
receive-answered (peers_loaded (rejected e)) w = (_, refl, refl, refl, refl, refl)
receive-answered (interfaces_loaded (fulfilled xs)) w = (_, refl, refl, refl, refl, refl)
receive-answered (interfaces_loaded (rejected e)) w = (_, refl, refl, refl, refl, refl)

-- The store is fetching at the end of a computation that ends.
abbrev IsFetching : Out ProfileStore (Unit {0}) → Type 0
IsFetching (ok _ v) = v.store.fetching ≡ true
IsFetching (throw _ v) = v.store.fetching ≡ true
IsFetching hang = ⊥

-- A load of the statistics leaves the store fetching, for every signed-in user whose identifier
-- can be encoded and every reply.
load_stats-IsFetching :
    (u : UserInfo) (r : Reply (Option StatsResponse)) (t : List ℕ) (w : World ProfileStore)
    → base64_url_encode (units u.identifier) ≡ some t
    → IsFetching ((load_stats (some u) >> load_stats_reply r) w)
unfolding load_stats load_stats_reply set_stats
load_stats-IsFetching u r t w h = ground arith
