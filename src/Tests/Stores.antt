-- ===== src/Tests/Stores.antt =====
-- The stores on replies of the backend (frontend/src/stores/users.js, peers.js, interfaces.js and
-- profile.js).
use wg_portal.Prelude.{ℕ, String, List, [], ◌∷◌, some, none, true, false, ◌≡◌, refl, arith, units}
use wg_portal.Encoding.{base64_url_encode, url_safe, replace_first}
use wg_portal.Encoding.Base64.{btoa}
use wg_portal.Js.{World, fulfilled, rejected, error, ◌>>◌}
use wg_portal.Models.{User, fresh_user, Peer, fresh_peer, Interface, fresh_interface}
use wg_portal.Users
use wg_portal.Users.{UserStore}
use wg_portal.Users.Laws.{receive-users}
use wg_portal.Peers
use wg_portal.Peers.{PeerStore}
use wg_portal.Peers.Laws.{receive-peers}
use wg_portal.Peers.Session.{HasSteadyPeerPages, run-fresh_peers}
use wg_portal.Peers.Statistics.{asked, loaded, load_stats-loaded}
use wg_portal.Interfaces
use wg_portal.Interfaces.{InterfaceStore, get_selected}
use wg_portal.Interfaces.Laws.{receive-interfaces}
use wg_portal.Profile
use wg_portal.Profile.{ProfileStore}

abbrev bob : User
bob = record fresh_user { identifier = "bob" }

abbrev users : World UserStore
users = record { store = record Users.fresh_store { users = bob ∷ [] }; log = [] }

abbrev user_update : Users.Laws.Change
user_update = Users.Laws.updated "bob" (fulfilled (record bob { email = "b@x" })) refl

receive-users_example :
    (v : World UserStore) × (Users.Laws.receive user_update users
      ≡ Users.Laws.outcome user_update v)
    × (v.store.fetching ≡ false)
    × ((j : String)
        → Users.find v.store j ≡ Users.Laws.change user_update (Users.find users.store) j)
receive-users_example = receive-users user_update users

abbrev laptop : Peer
laptop = record fresh_peer { identifier = "k1" }

abbrev peers : World PeerStore
peers = record {
  store = record Peers.fresh_store { peers = laptop ∷ []; fetching = true };
  log = [];
}

abbrev many_created : Peers.Laws.Change
many_created =
    Peers.Laws.created_many (fulfilled (record laptop { identifier = "k2" } ∷ laptop ∷ []))

receive-peers_example :
    (v : World PeerStore) × (Peers.Laws.receive many_created peers
      ≡ Peers.Laws.outcome many_created v)
    × (v.store.fetching ≡ false)
    × ((j : String)
        → Peers.find v.store j ≡ Peers.Laws.change many_created (Peers.find peers.store) j)
receive-peers_example = receive-peers many_created peers

abbrev wg0 : Interface
wg0 = record fresh_interface { identifier = "wg0" }

-- Loads for the selected interface, with none and with one selected, and a reply that comes late.
abbrev peer_events : List Peers.Events.Event
peer_events =
    Peers.Events.load "" none
    ∷ Peers.Events.load "" (some wg0)
    ∷ Peers.Events.set_page_size 1
    ∷ Peers.Events.loaded (fulfilled (laptop ∷ []))
    ∷ Peers.Events.next
    ∷ Peers.Events.stats_loaded (rejected (error "500"))
    ∷ []

run-fresh_peers_example :
    (v : World PeerStore) × (Peers.Events.run peer_events
        (record { store = Peers.fresh_store; log = [] })
      ≡ some v)
    × HasSteadyPeerPages v.store
run-fresh_peers_example =
    run-fresh_peers peer_events (tt, (tt, (omega arith, (tt, (tt, (tt, tt))))))

abbrev wg1 : Interface
wg1 = record fresh_interface { identifier = "wg1" }

abbrev interfaces : World InterfaceStore
interfaces = record {
  store = record Interfaces.fresh_store { interfaces = wg0 ∷ wg1 ∷ []; selected = "wg1" };
  log = [];
}

abbrev refused_deletion : Interfaces.Laws.Change
refused_deletion = Interfaces.Laws.deleted "wg0" (rejected (error "has peers"))

receive-interfaces_example :
    (v : World InterfaceStore) × (Interfaces.Laws.receive refused_deletion interfaces
      ≡ Interfaces.Laws.outcome refused_deletion v)
    × (v.store.fetching ≡ false)
    × ((j : String)
        → Interfaces.find v.store j
          ≡ Interfaces.Laws.change refused_deletion (Interfaces.find interfaces.store) j)
receive-interfaces_example = receive-interfaces refused_deletion interfaces

-- The encoded identifier `wg0`.
abbrev coded_wg0 : List ℕ
coded_wg0 = b'd' ∷ b'2' ∷ b'c' ∷ b'w' ∷ []

encode-wg0 : base64_url_encode (units "wg0") ≡ some coded_wg0
unfolding base64_url_encode url_safe replace_first btoa
encode-wg0 = refl

load_stats-loaded_example :
    (Peers.Requests.load_stats "wg0" none
        >> Peers.Requests.load_stats_reply (rejected (error "500")))
      peers
    ≡ loaded (rejected (error "500")) (asked coded_wg0 peers)
load_stats-loaded_example =
    load_stats-loaded "wg0" none (rejected (error "500")) coded_wg0 peers refl encode-wg0

abbrev profile : World ProfileStore
profile = record { store = record Profile.fresh_store { peers = laptop ∷ [] }; log = [] }
