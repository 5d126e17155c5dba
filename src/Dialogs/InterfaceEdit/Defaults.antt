-- ===== src/Dialogs/InterfaceEdit/Defaults.antt =====
-- Applying the defaults of an interface to its peers (applyPeerDefaults in
-- frontend/src/components/InterfaceEditModal.vue): two requests in a row.
use wg_portal.Prelude.{List, Bool, false, ◌===◌, if◌then◌else◌}
use wg_portal.Dialogs.{once, sent, answered}
use wg_portal.Interfaces
use wg_portal.Interfaces.{InterfaceStore}
use wg_portal.Interfaces.Requests
use wg_portal.Js.{M, Reply, state, return, emit, notify, ◌>>=◌, ◌>>◌}
use wg_portal.Models.{Peer}
use wg_portal.Peers.Requests as PeerRequests
use wg_portal.Dialogs.InterfaceEdit.{
  InterfaceForm, in_interfaces, in_peers, of_selected, set_applying,
}

-- `applyPeerDefaults()` up to its first request; nothing for a new interface.
unfoldable pub apply_peer_defaults : M InterfaceForm Bool
unfolding Requests.apply_peer_defaults
apply_peer_defaults = state >>= λ s.
    if s.interface_id === "#NEW#"
    then return false
    else once (λ s. s.is_applying_defaults) set_applying "Failed to apply peer defaults!"
        (of_selected (λ id. in_interfaces (Requests.apply_peer_defaults id)))

-- After the success of the first request the peers of the interface are loaded.
unfoldable pub reload_peers : M InterfaceForm (Unit {0})
unfolding PeerRequests.load_peers Interfaces.get_selected
reload_peers =
    (emit (notify "Peer Defaults Applied" "Applied current peer defaults to all available peers.")
      >> state)
    >>= λ s.
        of_selected
          (λ id. in_peers (PeerRequests.load_peers id (Interfaces.get_selected s.interfaces)))

-- On the first reply; `true`: the code waits for the peers.
unfoldable pub apply_peer_defaults_reply : Reply (Unit {0}) → M InterfaceForm Bool
unfolding Requests.apply_peer_defaults_reply reload_peers
apply_peer_defaults_reply r w =
    sent (λ s. s.is_applying_defaults) set_applying "Failed to apply peer defaults!"
      ((in_interfaces (Requests.apply_peer_defaults_reply r) >> reload_peers) w)

unfoldable pub peers_reply : Reply (List Peer) → M InterfaceForm (Unit {0})
unfolding PeerRequests.load_peers_reply
peers_reply r =
    answered (λ s. s.is_applying_defaults) set_applying "Failed to apply peer defaults!"
      (in_peers (PeerRequests.load_peers_reply r))
