-- ===== src/Dialogs/InterfaceEdit/Applying.antt =====
-- The button that applies the defaults of an interface leaves the other two buttons alone
-- (frontend/src/components/InterfaceEditModal.vue).
use wg_portal.Prelude.{
  String, is_empty, List, Option, some, none, Bool, true, false, ◌===◌, ◌≡◌, subst, Bool-cases, inl,
  inr,
}
use wg_portal.Js.{M, World, Out, ok, throw, hang, when, Reply, fulfilled, rejected}
use wg_portal.Js.Keeping.{Kept, Keeps, settled, settled-Kept, >>=-Keeps, coded_request-Keeps}
use wg_portal.Models.{Peer, Interface}
use wg_portal.Peers.{PeerStore}
use wg_portal.Peers.Requests as PeerRequests
use wg_portal.Interfaces
use wg_portal.Interfaces.{interface_key}
use wg_portal.Interfaces.Requests
use wg_portal.Dialogs.{returned, ended, sent, once}
use wg_portal.Dialogs.Sessions.Parts.{called-Keeps, called_for-Keeps}
use wg_portal.Dialogs.InterfaceEdit.{InterfaceForm, selected_interface, set_applying}
use wg_portal.Dialogs.InterfaceEdit.Defaults.{
  reload_peers, apply_peer_defaults, apply_peer_defaults_reply, peers_reply,
}

apply_peer_defaults-ends : (id : String) → Keeps (λ _. Unit {0}) (Requests.apply_peer_defaults id)
unfolding Requests.apply_peer_defaults
apply_peer_defaults-ends id w h = coded_request-Keeps (λ _. Unit {0}) id _ _ tt

abbrev Ended : Option (World InterfaceForm) → Type 0
Ended none = Unit
Ended (some _) = ⊥

pub applied-ends :
    (r : Reply (Unit {0})) → Keeps (λ _. Unit {0}) (Requests.apply_peer_defaults_reply r)
unfolding Requests.apply_peer_defaults_reply
applied-ends (fulfilled _) w h = tt
applied-ends (rejected e) w h = tt

when-ends :
    (t : Bool) (m k : M PeerStore (Unit {0}))
    → Keeps (λ _. Unit {0}) m
    → Keeps (λ _. Unit {0}) k
    → Keeps (λ _. Unit {0}) (when t m k)
when-ends true m k p q = p
when-ends false m k p q = q

load_peers-ends :
    (id : String) (selected : Option Interface)
    → Keeps (λ _. Unit {0}) (PeerRequests.load_peers id selected)
unfolding PeerRequests.load_peers PeerRequests.with_interface
load_peers-ends id none =
    when-ends (is_empty id) _ _ (λ w h. tt) (λ w h. coded_request-Keeps (λ _. Unit {0}) id _ _ tt)
load_peers-ends id (some i) =
    when-ends (is_empty id) _ _
      (when-ends (is_empty i.identifier) _ _ (λ w h. tt)
        (λ w h. coded_request-Keeps (λ _. Unit {0}) i.identifier _ _ tt))
      (λ w h. coded_request-Keeps (λ _. Unit {0}) id _ _ tt)

module _ (a b : Bool) where
  abbrev pub Flags : InterfaceForm → Type 0
  Flags s = (s.is_saving ≡ a) × (s.is_deleting ≡ b)

  sent-Kept :
      (title : String) (out : Out InterfaceForm (Unit {0}))
      → Kept Flags out
      → Kept Flags (sent (λ s. s.is_applying_defaults) set_applying title out)
  sent-Kept title (ok _ v) h = h
  sent-Kept title (throw e v) h = h
  sent-Kept title hang h = absurd h

  once-Keeps :
      (title : String) (m : M InterfaceForm (Unit {0}))
      → Keeps Flags m
      → Keeps Flags (once (λ s. s.is_applying_defaults) set_applying title m)
  once-Keeps title m keeps w h = elim (Bool-cases w.store.is_applying_defaults) [
    | inl busy ↦ rw busy h
    | inr free ↦ rw free (
        sent-Kept title (m (record w { store = set_applying true w.store }))
          (keeps (record w { store = set_applying true w.store }) h))
  ]

  pub apply-Keeps : Keeps Flags apply_peer_defaults
  unfolding apply_peer_defaults
  apply-Keeps w h = elim (Bool-cases (w.store.interface_id === "#NEW#")) [
    | inl new ↦ rw new h
    | inr old ↦ rw old (
        once-Keeps "Failed to apply peer defaults!" _
          (λ v k.
            called_for-Keeps (λ s. s.interfaces) (λ i s. record s { interfaces = i }) Flags
              (λ t s q. q) interface_key Requests.apply_peer_defaults apply_peer_defaults-ends
              (selected_interface v.store) v k)
          w h)
  ]

  -- How the load of the peers ends in the dialog.
  abbrev loaded : World InterfaceForm → Out PeerStore (Unit {0}) → Out InterfaceForm (Unit {0})
  loaded w out =
      ended (λ s. s.is_applying_defaults) set_applying "Failed to apply peer defaults!"
        (returned (λ q s. record s { peers = q }) w out)

  -- The peers may be loaded for ever; where their load ends, the flags are the old ones.
  loaded-Flags :
      (w : World InterfaceForm) (out : Out PeerStore (Unit {0})) (v : World InterfaceForm)
      → Flags w.store
      → settled (loaded w out) ≡ some v
      → Flags v.store
  loaded-Flags w (ok x u) v h e = settled-Kept Flags (loaded w (ok x u)) v h e
  loaded-Flags w (throw err u) v h e = settled-Kept Flags (loaded w (throw err u)) v h e
  loaded-Flags w hang v h e = absurd (subst Ended e tt)

  pub peers_reply-Flags :
      (r : Reply (List Peer)) (w v : World InterfaceForm)
      → Flags w.store
      → settled (peers_reply r w) ≡ some v
      → Flags v.store
  unfolding peers_reply
  peers_reply-Flags r w v h e =
      loaded-Flags w
        (PeerRequests.load_peers_reply r (record { store = w.store.peers; log = w.log })) v h e

  reload-Keeps : Keeps Flags reload_peers
  unfolding reload_peers
  reload-Keeps w h =
      called_for-Keeps (λ s. s.peers) (λ q s. record s { peers = q }) Flags (λ t s k. k)
        interface_key
        (λ id. PeerRequests.load_peers id (Interfaces.get_selected w.store.interfaces))
        (λ id. load_peers-ends id (Interfaces.get_selected w.store.interfaces))
        (selected_interface w.store) _ h

  pub applied-Keeps : (r : Reply (Unit {0})) → Keeps Flags (apply_peer_defaults_reply r)
  unfolding apply_peer_defaults_reply
  applied-Keeps r w h = sent-Kept "Failed to apply peer defaults!" _ (
      >>=-Keeps Flags _ (λ _. reload_peers)
        (called-Keeps (λ s. s.interfaces) (λ i s. record s { interfaces = i }) Flags (λ t s k. k)
          (Requests.apply_peer_defaults_reply r) (applied-ends r))
        (λ _. reload-Keeps) w h)
