-- ===== src/Peers/Events.antt =====
-- A session with the peer store: calls, replies in any order, and what the page does to the filter,
-- the page size and the order (frontend/src/views/InterfaceView.vue). A load for the selected
-- interface is given the one that the interface store has selected then, if it has one.
use wg_portal.Prelude.{ℕ, String, List, [], ◌∷◌, Option, some, none, Bool}
use wg_portal.Js.{M, World, Reply, update as write}
use wg_portal.Js.Keeping.{settled}
use wg_portal.Models.{Interface, Peer}
use wg_portal.Peers
use wg_portal.Peers.{PeerStore, SortKey, StatsResponse}
use wg_portal.Peers.Requests

pub data Event : Type 0 where
  prepare : String → Event
  prepared_loaded : Reply Peer → Event
  mail : String → Event
  mailed : Reply (Unit {0}) → Event
  load_config : String → String → Event
  config_loaded : Reply String → Event
  load_peer : String → Event
  peer_loaded : Reply Peer → Event
  load_stats : String → Option Interface → Event
  stats_loaded : Reply (Option StatsResponse) → Event
  delete : String → Event
  deleted : String → Reply (Unit {0}) → Event
  update : String → Event
  updated : String → Reply Peer → Event
  create : String → Event
  created : Reply Peer → Event
  create_many : String → Event
  many_created : Reply (List Peer) → Event
  load : String → Option Interface → Event
  loaded : Reply (List Peer) → Event
  set_filter : String → Event
  set_page_size : ℕ → Event
  set_order : SortKey → Bool → Event
  size_changed : Event
  goto : ℕ → Event
  next : Event
  previous : Event

unfoldable pub step : Event → M PeerStore (Unit {0})
step (prepare iface) = Requests.prepare_peer iface
step (prepared_loaded r) = Requests.prepare_peer_reply r
step (mail style) = Requests.mail_peer_config style
step (mailed r) = Requests.mail_peer_config_reply r
step (load_config id style) = Requests.load_peer_config id style
step (config_loaded r) = Requests.load_peer_config_reply r
step (load_peer id) = Requests.load_peer id
step (peer_loaded r) = Requests.load_peer_reply r
step (load_stats id selected) = Requests.load_stats id selected
step (stats_loaded r) = Requests.load_stats_reply r
step (delete id) = Requests.delete_peer id
step (deleted id r) = Requests.delete_peer_reply id r
step (update id) = Requests.update_peer id
step (updated id r) = Requests.update_peer_reply id r
step (create iface) = Requests.create_peer iface
step (created r) = Requests.create_peer_reply r
step (create_many iface) = Requests.create_multiple_peers iface
step (many_created r) = Requests.create_multiple_peers_reply r
step (load id selected) = Requests.load_peers id selected
step (loaded r) = Requests.load_peers_reply r
step (set_filter f) = write (λ s. record s { view = record s.view { filter = f } })
step (set_page_size n) = write (λ s. record s { view = record s.view { page_size = n } })
step (set_order key up) = write (λ s. record s { sort_key = key; ascending = up })
step size_changed = Peers.after_page_size_change
step (goto k) = Peers.goto_page k
step next = Peers.next_page
step previous = Peers.previous_page

-- A rejected promise ends nothing but itself: the session goes on. `none` is a loop without end.
unfoldable pub run : List Event → World PeerStore → Option (World PeerStore)
run [] w = some w
run (e ∷ es) w = elim (settled (step e w)) [ none ↦ none | some v ↦ run es v ]
