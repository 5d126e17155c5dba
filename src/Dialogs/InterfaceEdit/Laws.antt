-- ===== src/Dialogs/InterfaceEdit/Laws.antt =====
-- The button that applies the defaults of an interface to its peers
-- (frontend/src/components/InterfaceEditModal.vue), together with the paging of the peer store.
use wg_portal.Prelude.{
  ℕ, String, List, [], ◌∷◌, ◌++◌, Option, some, Bool, true, false, ◌≡◌, refl, is_empty, units,
  append_assoc,
}
use wg_portal.Encoding.{base64_url_encode}
use wg_portal.Interfaces.Requests
use wg_portal.Js.{
  World, Reply, fulfilled, rejected, ok, Effect, notify, request, get, lit, coded, encoded, when,
  text_of,
}
use wg_portal.Js.Keeping.{Keeps}
use wg_portal.Models.{Interface, Peer}
use wg_portal.Interfaces
use wg_portal.Interfaces.{InterfaceStore, interface_key}
use wg_portal.Peers.Requests as PeerRequests
use wg_portal.Peers.Events.{step, loaded, load}
use wg_portal.Peers.Session.{HasSteadyPeerPages, step-Keeps}
use wg_portal.Dialogs.Buttons.{with_selected-Keeps, answered-free, within-Keeps}
use wg_portal.Dialogs.InterfaceEdit.{InterfaceForm, selected_interface, set_applying}
use wg_portal.Dialogs.InterfaceEdit.Defaults.{reload_peers, apply_peer_defaults_reply, peers_reply}

abbrev HasPages : InterfaceForm → Type 0
HasPages s = HasSteadyPeerPages s.peers

loaded-Keeps : (r : Reply (List Peer)) → Keeps HasSteadyPeerPages (PeerRequests.load_peers_reply r)
unfolding step
loaded-Keeps r = step-Keeps (loaded r) tt

-- The reply with the peers.
peers_reply-free :
    (r : Reply (List Peer)) (w : World InterfaceForm)
    → HasPages w.store
    → (v : World InterfaceForm) × (peers_reply r w ≡ ok tt v)
      × (v.store.is_applying_defaults ≡ false)
      × HasPages v.store
unfolding peers_reply
peers_reply-free r w p =
    answered-free (λ s. s.is_applying_defaults) set_applying (λ b s. refl) HasPages (λ b s q. q)
      "Failed to apply peer defaults!" _
      (within-Keeps (λ s. s.peers) (λ q s. record s { peers = q }) HasSteadyPeerPages HasPages _
        (λ s h. h) (λ t s r h. r) (loaded-Keeps r))
      w p

-- While the defaults are applied.
abbrev IsApplying : InterfaceForm → Type 0
IsApplying s = (s.is_applying_defaults ≡ true) × HasPages s

load-Keeps :
    (id : String) (selected : Option Interface)
    → Keeps HasSteadyPeerPages (PeerRequests.load_peers id selected)
unfolding step
load-Keeps id selected = step-Keeps (load id selected) tt

reload-Keeps : Keeps IsApplying reload_peers
unfolding reload_peers
reload-Keeps w h =
    let told : World InterfaceForm = record w {
      log =
          w.log
          ++ notify "Peer Defaults Applied" "Applied current peer defaults to all available peers."
            ∷ [];
    } in
    with_selected-Keeps IsApplying interface_key _
      (λ id.
        within-Keeps (λ s. s.peers) (λ q s. record s { peers = q }) HasSteadyPeerPages IsApplying _
          (λ s k. k.1) (λ t s r k. (k.0, r))
          (load-Keeps id (Interfaces.get_selected w.store.interfaces)))
      (selected_interface w.store) told h

-- The effects of the first reply: a refusal is told; else the success is, and the peers of the
-- interface with this code are asked for.
abbrev pub effects : List ℕ → Reply (Unit {0}) → List Effect
effects t (rejected e) = notify "Failed to apply peer defaults!" (text_of e) ∷ []
effects t (fulfilled _) =
    notify "Peer Defaults Applied" "Applied current peer defaults to all available peers."
    ∷ request get (lit "/peer/iface/" ∷ coded t ∷ lit "/all" ∷ [])
    ∷ []

abbrev pub succeeds : Reply (Unit {0}) → Bool
succeeds (fulfilled _) = true
succeeds (rejected _) = false

first_reply :
    (r : Reply (Unit {0})) (i : Interface) (t : List ℕ) (w : World InterfaceForm)
    → w.store.is_applying_defaults ≡ true
    → selected_interface w.store ≡ some i
    → is_empty i.identifier ≡ false
    → base64_url_encode (units i.identifier) ≡ some t
    → HasPages w.store
    → (v : World InterfaceForm) × (apply_peer_defaults_reply r w ≡ ok (succeeds r) v)
      × (v.store.is_applying_defaults ≡ succeeds r)
      × (v.log ≡ w.log ++ effects t r)
      × HasPages v.store
unfolding apply_peer_defaults_reply Requests.apply_peer_defaults_reply reload_peers
    PeerRequests.load_peers PeerRequests.with_interface
first_reply (rejected e) i t w b s n c p = (_, refl, refl, refl, p)
first_reply (fulfilled _) i t w b s n c p = (
  record {
    store = record w.store {
      interfaces = record w.store.interfaces { fetching = false };
      peers = record w.store.peers { fetching = true };
    };
    log =
        (w.log
          ++ notify "Peer Defaults Applied" "Applied current peer defaults to all available peers."
            ∷ [])
        ++ request get (lit "/peer/iface/" ∷ coded t ∷ lit "/all" ∷ []) ∷ [];
  },
  rw (s, n, when, c, encoded) refl,
  b,
  append_assoc w.log _ _,
  p,
)

-- Once the button that applies the peer defaults waits, it gets free again, whatever the two
-- replies are. After a refusal it is free at once, and the user is told of it. Else the user is told
-- of the success, the peers of the interface are asked for, and the button gets free on their reply.
-- It is given that the interface of the dialog is in the store, with an identifier that is not empty
-- and can be encoded, and that the store of the peers has a positive page size and its page numbers.
pub apply_peer_defaults-free :
    (r : Reply (Unit {0})) (peers : Reply (List Peer)) (i : Interface) (t : List ℕ)
    (w : World InterfaceForm)
    → w.store.is_applying_defaults ≡ true
    → selected_interface w.store ≡ some i
    → is_empty i.identifier ≡ false
    → base64_url_encode (units i.identifier) ≡ some t
    → HasPages w.store
    → (v : World InterfaceForm) × (apply_peer_defaults_reply r w ≡ ok (succeeds r) v)
      × (v.store.is_applying_defaults ≡ succeeds r)
      × (v.log ≡ w.log ++ effects t r)
      × (u : World InterfaceForm) × (peers_reply peers v ≡ ok tt u)
      × (u.store.is_applying_defaults ≡ false)
apply_peer_defaults-free r peers i t w b s n c p =
    let (v, done, busy, log, q) = first_reply r i t w b s n c p in
    let (u, ended, free, _) = peers_reply-free peers v q in (v, done, busy, log, u, ended, free)
