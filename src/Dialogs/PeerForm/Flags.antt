-- ===== src/Dialogs/PeerForm/Flags.antt =====
-- What each part of a peer's dialog leaves alone: the flags of the two buttons
-- (frontend/src/components/PeerEditModal.vue, UserPeerEditModal.vue).
use wg_portal.Prelude.{
  String, Option, some, none, Bool, true, false, ◌≡◌, Bool-cases, inl, inr, ◌===◌, not, ◌&&◌,
}
use wg_portal.Js.{M, Reply, fulfilled, rejected, update, ◌>>◌}
use wg_portal.Js.Keeping.{Keeps, >>=-Keeps, coded_request-Keeps}
use wg_portal.Models.{Interface, Peer}
use wg_portal.Peers.{PeerStore, set_prepared_peer}
use wg_portal.Peers.Requests
use wg_portal.Dialogs.Buttons.{within-Keeps}
use wg_portal.Dialogs.PeerForm.{
  PeerForm, Kind, edit, in_peers, with_iface, with_peer, selected_peer, Origin, own, prepared,
  listed, profiled, write_through, watched, watch_ignore, watch_disabled, differ, set_overridable,
}
use wg_portal.Dialogs.PeerForm.Fill.{
  fill, mark_ignoring, fill_existing, fill_prepared, present, has_closed, show, show_reply,
}
use wg_portal.Dialogs.PeerForm.Submit.{
  emptied, close, put_expiry, ask_store, submit, remove, store_reply,
}

-- The replies end in the store, whatever they are.
prepare_peer_reply-ends : (r : Reply Peer) → Keeps (λ _. Unit {0}) (Requests.prepare_peer_reply r)
unfolding Requests.prepare_peer_reply set_prepared_peer
prepare_peer_reply-ends (fulfilled p) w h = tt
prepare_peer_reply-ends (rejected e) w h = tt

store_reply-ends :
    (target : Option String) (r : Reply Peer) → Keeps (λ _. Unit {0}) (store_reply target r)
unfolding store_reply Requests.update_peer_reply Requests.create_peer_reply
store_reply-ends (some id) (fulfilled p) w h = tt
store_reply-ends (some id) (rejected e) w h = tt
store_reply-ends none (fulfilled p) w h = tt
store_reply-ends none (rejected e) w h = tt

delete_peer_reply-ends :
    (id : String) (r : Reply (Unit {0})) → Keeps (λ _. Unit {0}) (Requests.delete_peer_reply id r)
unfolding Requests.delete_peer_reply
delete_peer_reply-ends id (fulfilled _) w h = tt
delete_peer_reply-ends id (rejected e) w h = tt

-- So do the calls, up to the request.
prepare_peer-ends : (id : String) → Keeps (λ _. Unit {0}) (Requests.prepare_peer id)
unfolding Requests.prepare_peer
prepare_peer-ends id w h = coded_request-Keeps (λ _. Unit {0}) id _ _ tt

update_peer-ends : (id : String) → Keeps (λ _. Unit {0}) (Requests.update_peer id)
unfolding Requests.update_peer
update_peer-ends id w h = coded_request-Keeps (λ _. Unit {0}) id _ _ tt

create_peer-ends : (id : String) → Keeps (λ _. Unit {0}) (Requests.create_peer id)
unfolding Requests.create_peer
create_peer-ends id w h = coded_request-Keeps (λ _. Unit {0}) id _ _ tt

delete_peer-ends : (id : String) → Keeps (λ _. Unit {0}) (Requests.delete_peer id)
unfolding Requests.delete_peer
delete_peer-ends id w h = coded_request-Keeps (λ _. Unit {0}) id _ _ tt

module _ (a b : Bool) where
  abbrev pub Flags : PeerForm → Type 0
  Flags s = (s.is_saving ≡ a) × (s.is_deleting ≡ b)

  write_through-Flags : (o : Origin) (s : PeerForm) → Flags s → Flags (write_through o s)
  unfolding write_through
  write_through-Flags own s h = h
  write_through-Flags prepared s h = h
  write_through-Flags (listed id) s h = h
  write_through-Flags (profiled id) s h = h

  watch_ignore-Flags :
      (k : Kind) (old : Bool) (s : PeerForm) → Flags s → Flags (watch_ignore k old s)
  unfolding watch_ignore
  watch_ignore-Flags k old s h =
      elim (Bool-cases (k.watches_ignore && differ old s.form.ignore_global_settings)) [
        | inl on ↦ rw on (
            write_through-Flags s.origin
              (record s { form = set_overridable (not s.form.ignore_global_settings) s.form }) h)
        | inr off ↦ rw off h
      ]

  watched-Flags : (k : Kind) (old : Peer) (s : PeerForm) → Flags s → Flags (watched k old s)
  unfolding watch_disabled
  watched-Flags k old s h =
      let t = watch_ignore k old.ignore_global_settings s in
      elim (Bool-cases (old.disabled && not t.form.disabled)) [
        | inl on ↦ rw on (watch_ignore-Flags k old.ignore_global_settings s h)
        | inr off ↦ rw off (watch_ignore-Flags k old.ignore_global_settings s h)
      ]

  pub edit-Flags : (k : Kind) (f : Peer → Peer) (s : PeerForm) → Flags s → Flags (edit k f s)
  unfolding edit
  edit-Flags k f s h =
      watched-Flags k s.form _ (write_through-Flags s.origin (record s { form = f s.form }) h)

  pub close-Flags : (k : Kind) (s : PeerForm) → Flags s → Flags (close k s)
  unfolding close
  close-Flags k s h = watched-Flags k s.form (emptied s) h

  mark_ignoring-Flags : (s : PeerForm) → Flags s → Flags (mark_ignoring s)
  unfolding mark_ignoring
  mark_ignoring-Flags s h = elim (Bool-cases (has_closed s.form)) [
    | inl on ↦ rw on h
    | inr off ↦ rw off h
  ]

  fill_existing-Flags :
      (k : Kind) (o : Origin) (p : Peer) (s : PeerForm) → Flags s → Flags (fill_existing k o p s)
  unfolding fill_existing fill
  fill_existing-Flags k o p s h =
      watched-Flags k s.form (mark_ignoring (fill k o p s)) (mark_ignoring-Flags (fill k o p s) h)

  fill_prepared-Flags : (k : Kind) (s : PeerForm) → Flags s → Flags (fill_prepared k s)
  unfolding fill_prepared fill
  fill_prepared-Flags k s h = watched-Flags k s.form (fill k prepared s.peers.prepared s) h

  in_peers-Keeps : (m : M PeerStore (Unit {0})) → Keeps (λ _. Unit {0}) m → Keeps Flags (in_peers m)
  in_peers-Keeps m ends =
      within-Keeps (λ s. s.peers) (λ p s. record s { peers = p }) (λ _. Unit {0}) Flags m
        (λ s h. tt) (λ t s r h. h) ends

  with_iface-Keeps :
      (m : String → M PeerForm (Unit {0}))
      → ((id : String) → Keeps Flags (m id))
      → (i : Option Interface) → Keeps Flags (with_iface m i)
  with_iface-Keeps m keeps none w h = h
  with_iface-Keeps m keeps (some i) w h = keeps i.identifier w h

  with_peer-Keeps :
      (m : String → M PeerForm (Unit {0}))
      → ((id : String) → Keeps Flags (m id))
      → (o : Option (Origin × Peer)) → Keeps Flags (with_peer m o)
  with_peer-Keeps m keeps none w h = h
  with_peer-Keeps m keeps (some (_, p)) w h = keeps p.identifier w h

  present-Keeps : (k : Kind) (o : Option (Origin × Peer)) → Keeps Flags (present k o)
  unfolding present
  present-Keeps k (some (o, p)) w h = fill_existing-Flags k o p w.store h
  present-Keeps k none w h =
      with_iface-Keeps _ (λ id. in_peers-Keeps (Requests.prepare_peer id) (prepare_peer-ends id))
        (k.iface w.store) w h

  pub show-Keeps : (k : Kind) (id : String) → Keeps Flags (show k id)
  unfolding show
  show-Keeps k id w h =
      present-Keeps k (selected_peer (record w.store { peer_id = id }))
        (record w { store = record w.store { peer_id = id } }) h

  pub show_reply-Keeps : (k : Kind) (r : Reply Peer) → Keeps Flags (show_reply k r)
  unfolding show_reply
  show_reply-Keeps k r =
      >>=-Keeps Flags (in_peers (Requests.prepare_peer_reply r)) (λ _. update (fill_prepared k))
        (in_peers-Keeps (Requests.prepare_peer_reply r) (prepare_peer_reply-ends r))
        (λ _ v h. fill_prepared-Flags k v.store h)

  ask_store-Keeps : (k : Kind) (existing : Bool) → Keeps Flags (ask_store k existing)
  unfolding ask_store
  ask_store-Keeps k true w h =
      with_peer-Keeps _ (λ id. in_peers-Keeps (Requests.update_peer id) (update_peer-ends id))
        (selected_peer w.store) w h
  ask_store-Keeps k false w h =
      with_iface-Keeps _ (λ id. in_peers-Keeps (Requests.create_peer id) (create_peer-ends id))
        (k.iface w.store) w h

  pub submit-Keeps : (k : Kind) → Keeps Flags (submit k)
  unfolding submit
  submit-Keeps k w h =
      ask_store-Keeps k (not (w.store.peer_id === "#NEW#"))
        (record w { store = put_expiry k w.store }) h

  pub remove-Keeps : Keeps Flags remove
  unfolding remove
  remove-Keeps w h =
      with_peer-Keeps _ (λ id. in_peers-Keeps (Requests.delete_peer id) (delete_peer-ends id))
        (selected_peer w.store) w h

  then_close :
      (k : Kind) (m : M PeerStore (Unit {0}))
      → Keeps (λ _. Unit {0}) m
      → Keeps Flags (in_peers m >> update (close k))
  then_close k m ends =
      >>=-Keeps Flags (in_peers m) (λ _. update (close k)) (in_peers-Keeps m ends)
        (λ _ v h. close-Flags k v.store h)

  pub saved-Keeps :
      (k : Kind) (target : Option String) (r : Reply Peer)
      → Keeps Flags (in_peers (store_reply target r) >> update (close k))
  saved-Keeps k target r = then_close k (store_reply target r) (store_reply-ends target r)

  pub deleted-Keeps :
      (k : Kind) (id : String) (r : Reply (Unit {0}))
      → Keeps Flags (in_peers (Requests.delete_peer_reply id r) >> update (close k))
  deleted-Keeps k id r =
      then_close k (Requests.delete_peer_reply id r) (delete_peer_reply-ends id r)
