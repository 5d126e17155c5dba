-- ===== src/Dialogs/PeerForm/Submit.antt =====
-- Closing, saving and deleting (close, save and del in frontend/src/components/PeerEditModal.vue and
-- UserPeerEditModal.vue), each button up to its request and on its reply.
use wg_portal.Prelude.{String, Option, some, none, Bool, true, false, not, ◌===◌}
use wg_portal.Datetime.{empty, format_date_time_to_rfc3339}
use wg_portal.Dialogs.{once, answered}
use wg_portal.Js.{M, Reply, update, state, ◌>>=◌, ◌>>◌}
use wg_portal.Models.{Peer, fresh_peer}
use wg_portal.Peers.{PeerStore}
use wg_portal.Peers.Requests
use wg_portal.Dialogs.PeerForm.{
  own, PeerForm, Kind, selected_peer, watch_ignore, watch_disabled, watched, in_peers, with_iface,
  with_peer,
}
use wg_portal.Dialogs.PeerForm.Fill.{expiry_text}

-- The assignments of `close()`; the parent component then hides the dialog.
abbrev pub emptied : PeerForm → PeerForm
emptied s = record s {
  form = fresh_peer;
  origin = own;
  expiry_date = none;
  expiry_time = empty;
  peer_id = "";
}

-- `close()`, and the watchers.
unfoldable pub close : Kind → PeerForm → PeerForm
unfolding watch_ignore watch_disabled
close k s = watched k s.form (emptied s)

abbrev pub set_saving : Bool → PeerForm → PeerForm
set_saving b s = record s { is_saving = b }

abbrev pub set_deleting : Bool → PeerForm → PeerForm
set_deleting b s = record s { is_deleting = b }

-- `formData.value.ExpiresAt = …`
abbrev pub put_expiry : Kind → PeerForm → PeerForm
put_expiry k s = record s {
  form = record s.form {
    expires_at = some (
        expiry_text k.clock (format_date_time_to_rfc3339 k.clock.zone s.expiry_date s.expiry_time));
  };
}

-- The call of the store, by whether the dialog is for an existing peer.
unfoldable pub ask_store : Kind → Bool → M PeerForm (Unit {0})
unfolding selected_peer Requests.update_peer Requests.create_peer
ask_store k true =
    state >>= λ s. with_peer (λ id. in_peers (Requests.update_peer id)) (selected_peer s)
ask_store k false = state >>= λ s. with_iface (λ id. in_peers (Requests.create_peer id)) (k.iface s)

-- The body of the try block of save: the form gets its expiry, and the store is asked.
unfoldable pub submit : Kind → M PeerForm (Unit {0})
unfolding ask_store
submit k = do update (put_expiry k); s ← state; ask_store k (not (s.peer_id === "#NEW#"))

unfoldable pub save : Kind → M PeerForm Bool
unfolding submit
save k = once (λ s. s.is_saving) set_saving "Failed to save peer!" (submit k)

-- The reply to UpdatePeer of an identifier, or to CreatePeer, in the store.
unfoldable pub store_reply : Option String → Reply Peer → M PeerStore (Unit {0})
unfolding Requests.update_peer_reply Requests.create_peer_reply
store_reply (some id) r = Requests.update_peer_reply id r
store_reply none r = Requests.create_peer_reply r

unfoldable pub save_reply : Kind → Option String → Reply Peer → M PeerForm (Unit {0})
unfolding close store_reply
save_reply k target r =
    answered (λ s. s.is_saving) set_saving "Failed to save peer!"
      (in_peers (store_reply target r) >> update (close k))

-- The body of the try block of del.
unfoldable pub remove : M PeerForm (Unit {0})
unfolding selected_peer Requests.delete_peer
remove = state >>= λ s. with_peer (λ id. in_peers (Requests.delete_peer id)) (selected_peer s)

unfoldable pub del : Kind → M PeerForm Bool
unfolding remove
del k = once (λ s. s.is_deleting) set_deleting "Failed to delete peer!" remove

unfoldable pub del_reply : Kind → String → Reply (Unit {0}) → M PeerForm (Unit {0})
unfolding close Requests.delete_peer_reply
del_reply k id r =
    answered (λ s. s.is_deleting) set_deleting "Failed to delete peer!"
      (in_peers (Requests.delete_peer_reply id r) >> update (close k))
