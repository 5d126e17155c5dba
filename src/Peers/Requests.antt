-- ===== src/Peers/Requests.antt =====
-- The actions of the peer store that call the backend. Each is what runs up to the request, and
-- what runs on its reply.
use wg_portal.Prelude.{String, List, [], ◌∷◌, ◌++◌, Option, none, some, true, false, is_empty}
use wg_portal.Js.{
  M, get, post, put, delete, request, notify, lit, coded, emit, update, encoded, reject, settle,
  Reply, Thrown, error, type_error, text_of, pass, when, ◌>>◌, ◌>>=◌,
}
use wg_portal.Js.Array.{assign, push}
use wg_portal.Js.Keyed.{index_key, remove_key}
use wg_portal.Models.{Interface, Peer, fresh_peer}
use wg_portal.Peers.{
  PeerStore, StatsResponse, peer_key, set_fetching, set_peers, set_peer, set_prepared_peer,
  set_peer_config, set_stats,
}

-- `fetching` is reset, and a new error is thrown.
abbrev pub give_up : Thrown → M PeerStore (Unit {0})
give_up e = do set_fetching false; reject (error (text_of e))

-- A notification that the backend failed.
abbrev pub report : String → M PeerStore (Unit {0})
report t = emit (notify "Backend Connection Failure" t)

unfoldable pub prepare_peer : String → M PeerStore (Unit {0})
prepare_peer iface = do
  p ← encoded iface
  emit (request get (lit "/peer/iface/" ∷ coded p ∷ lit "/prepare" ∷ []))

unfoldable pub prepare_peer_reply : Reply Peer → M PeerStore (Unit {0})
prepare_peer_reply r = settle r set_prepared_peer (λ e. do
  update (λ s. record s { prepared = fresh_peer })
  report "Failed to load prepared peer!")

unfoldable pub mail_peer_config : String → M PeerStore (Unit {0})
mail_peer_config style = emit (request post (lit "/peer/config-mail?style=" ∷ lit style ∷ []))

unfoldable pub mail_peer_config_reply : Reply (Unit {0}) → M PeerStore (Unit {0})
mail_peer_config_reply r =
    settle r (λ _. emit (notify "Peer Configuration sent" "Email sent to linked user!"))
      (λ e. reject (error (text_of e)))

unfoldable pub load_peer_config : String → String → M PeerStore (Unit {0})
load_peer_config id style = do
  p ← encoded id
  emit (request get (lit "/peer/config/" ∷ coded p ∷ lit "?style=" ∷ lit style ∷ []))

unfoldable pub load_peer_config_reply : Reply String → M PeerStore (Unit {0})
load_peer_config_reply r = settle r set_peer_config (λ e. do
  update (λ s. record s { configuration = "" })
  report "Failed to load peer configuration!")

unfoldable pub load_peer : String → M PeerStore (Unit {0})
load_peer id = do
  set_fetching true
  p ← encoded id
  emit (request get (lit "/peer/" ∷ coded p ∷ []))

unfoldable pub load_peer_reply : Reply Peer → M PeerStore (Unit {0})
load_peer_reply r = settle r set_peer (λ e. do set_peers []; report "Failed to load peer!")

-- The interface of a load: the given one, or else the selected one, whose identifier is read even
-- if there is none. An empty identifier ends the load.
of_selected : Option Interface → (String → M PeerStore (Unit {0})) → M PeerStore (Unit {0})
of_selected none load = reject type_error
of_selected (some i) load = when (is_empty i.identifier) pass (load i.identifier)

unfoldable pub with_interface :
    String → Option Interface → (String → M PeerStore (Unit {0})) → M PeerStore (Unit {0})
unfolding of_selected
with_interface id selected load = when (is_empty id) (of_selected selected load) (load id)

unfoldable pub load_stats : String → Option Interface → M PeerStore (Unit {0})
unfolding with_interface
load_stats id selected = with_interface id selected (λ iface. do
  set_fetching true
  p ← encoded iface
  emit (request get (lit "/peer/iface/" ∷ coded p ∷ lit "/stats" ∷ [])))

unfoldable pub load_stats_reply : Reply (Option StatsResponse) → M PeerStore (Unit {0})
load_stats_reply r =
    settle r set_stats (λ e. do set_stats none; report "Failed to load peer stats!")

unfoldable pub delete_peer : String → M PeerStore (Unit {0})
delete_peer id = do
  set_fetching true
  p ← encoded id
  emit (request delete (lit "/peer/" ∷ coded p ∷ []))

unfoldable pub delete_peer_reply : String → Reply (Unit {0}) → M PeerStore (Unit {0})
delete_peer_reply id r =
    settle r
      (λ _. update (λ s. record s { peers = remove_key peer_key id s.peers; fetching = false }))
      give_up

unfoldable pub update_peer : String → M PeerStore (Unit {0})
update_peer id = do
  set_fetching true
  p ← encoded id
  emit (request put (lit "/peer/" ∷ coded p ∷ []))

unfoldable pub update_peer_reply : String → Reply Peer → M PeerStore (Unit {0})
update_peer_reply id r =
    settle r
      (λ peer. update (λ s. record s {
        peers = assign s.peers (index_key peer_key id s.peers) peer;
        fetching = false;
      }))
      give_up

unfoldable pub create_peer : String → M PeerStore (Unit {0})
create_peer iface = do
  set_fetching true
  p ← encoded iface
  emit (request post (lit "/peer/iface/" ∷ coded p ∷ lit "/new" ∷ []))

unfoldable pub create_peer_reply : Reply Peer → M PeerStore (Unit {0})
create_peer_reply r =
    settle r (λ peer. update (λ s. record s { peers = push s.peers peer; fetching = false }))
      give_up

unfoldable pub create_multiple_peers : String → M PeerStore (Unit {0})
create_multiple_peers iface = do
  set_fetching true
  p ← encoded iface
  emit (request post (lit "/peer/iface/" ∷ coded p ∷ lit "/multiplenew" ∷ []))

unfoldable pub create_multiple_peers_reply : Reply (List Peer) → M PeerStore (Unit {0})
create_multiple_peers_reply r =
    settle r (λ peers. update (λ s. record s { peers = s.peers ++ peers; fetching = false }))
      give_up

unfoldable pub load_peers : String → Option Interface → M PeerStore (Unit {0})
unfolding with_interface
load_peers id selected = with_interface id selected (λ iface. do
  set_fetching true
  p ← encoded iface
  emit (request get (lit "/peer/iface/" ∷ coded p ∷ lit "/all" ∷ [])))

unfoldable pub load_peers_reply : Reply (List Peer) → M PeerStore (Unit {0})
load_peers_reply r = settle r set_peers (λ e. do set_peers []; report "Failed to load peers!")
