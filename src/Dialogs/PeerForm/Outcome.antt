-- ===== src/Dialogs/PeerForm/Outcome.antt =====
-- How saving a peer ends, in the store and in the dialog together
-- (frontend/src/components/PeerEditModal.vue and UserPeerEditModal.vue, stores/peers.js).
use wg_portal.Prelude.{
  String, [], ◌∷◌, ◌++◌, Option, some, none, false, ◌≡◌, refl, ap, ◌∙◌, arith, ===_refl,
}
use wg_portal.Js.{World, ok, fulfilled, rejected, Thrown, text_of, notify}
use wg_portal.Js.Array.{assign}
use wg_portal.Js.Keyed.{replaced, index_key, find_key, find-assign}
use wg_portal.Models.{Peer}
use wg_portal.Peers.{peer_key}
use wg_portal.Peers.Requests
use wg_portal.Dialogs.PeerForm.{PeerForm, Kind, watch_ignore, watch_disabled, write_through}
use wg_portal.Dialogs.PeerForm.Sharing.{stored, close-peers}
use wg_portal.Dialogs.PeerForm.Submit.{close, save_reply, store_reply}

-- What closing sets whatever the watchers do.
close-peer_id : (k : Kind) (s : PeerForm) → (close k s).peer_id ≡ ""
unfolding close watch_ignore watch_disabled write_through
close-peer_id k s = ground arith

-- A peer that was updated, where the reply has the identifier that the update was sent for: the dialog
-- is closed with no notification, the button is free, and the store finds the peer of the reply in the
-- old one's place.
pub save_reply-updated :
    (k : Kind) (id : String) (p : Peer) (w : World PeerForm)
    → p.identifier ≡ id
    → (v : World PeerForm) × (save_reply k (some id) (fulfilled p) w ≡ ok tt v)
      × (v.log ≡ w.log)
      × (v.store.peer_id ≡ "")
      × (v.store.is_saving ≡ false)
      × (stored id v.store ≡ replaced (stored id w.store) p)
unfolding save_reply store_reply Requests.update_peer_reply
save_reply-updated k id p w h =
    let received : PeerForm = record w.store {
      peers = record w.store.peers {
        peers = assign w.store.peers.peers (index_key peer_key id w.store.peers.peers) p;
        fetching = false;
      };
    } in
    (
      record w { store = record (close k received) { is_saving = false } },
      refl,
      refl,
      close-peer_id k received,
      refl,
      ap (λ ps. find_key peer_key id ps.peers) (close-peers k received)
          ∙ find-assign peer_key w.store.peers.peers id id p h
          ∙ rw (===_refl id) refl,
    )

-- A refused save, of an existing or of a new peer: the form stays as it is and the dialog open, the
-- list of peers is the old one, and the user is told.
save_reply-refused :
    (k : Kind) (target : Option String) (e : Thrown) (w : World PeerForm)
    → save_reply k target (rejected e) w
      ≡ ok tt (record {
        store = record w.store {
          peers = record w.store.peers { fetching = false };
          is_saving = false;
        };
        log = w.log ++ notify "Failed to save peer!" (text_of e) ∷ [];
      })
unfolding save_reply store_reply Requests.update_peer_reply Requests.create_peer_reply
save_reply-refused k (some id) e w = refl
save_reply-refused k none e w = refl
