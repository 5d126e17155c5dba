-- ===== src/Dialogs/InterfaceEdit/Progress.antt =====
-- The buttons of the dialog for an interface over whole sessions
-- (frontend/src/components/InterfaceEditModal.vue).
use wg_portal.Prelude.{
  String, Option, some, none, Bool, true, false, not, ◌===◌, ◌≤◌, ltb, ◌≡◌, refl,
}
use wg_portal.Js.{World, pass, ◌>>◌, Reply, fulfilled, rejected, update}
use wg_portal.Js.Keeping.{settled, Keeps, >>=-Keeps, coded_request-Keeps}
use wg_portal.Models.{Interface}
use wg_portal.Interfaces.{InterfaceStore, interface_key, set_prepared_interface}
use wg_portal.Interfaces.Requests
use wg_portal.Dialogs.Sessions.{IsSound, Session, Reach, IsIdle, Rests}
use wg_portal.Dialogs.Sessions.Laws.{Reach-IsExact, Reach-Rests}
use wg_portal.Dialogs.Sessions.Parts.{
  Keeps-quiet, once-Clicks, answered-Frees, called-Keeps, called_for-Keeps, closed-Keeps,
}
use wg_portal.Dialogs.InterfaceEdit.{
  InterfaceForm, selected_interface, set_saving, set_deleting, submit, show, show_reply, present,
  put_form, fill_prepared, close, store_reply, save, save_reply, del, del_reply,
}
use wg_portal.Dialogs.InterfaceEdit.Applying.{Flags, apply-Keeps, applied-Keeps, peers_reply-Flags}
use wg_portal.Dialogs.InterfaceEdit.Defaults.{apply_peer_defaults, apply_peer_defaults_reply}
use wg_portal.Dialogs.InterfaceEdit.Session.{
  Input, shown_for, prepared_reply, edited, closed, apply_clicked, applied, peers_loaded, Saved,
  Deleted, input, interface_dialog,
}

-- What the store is asked, and what it is answered, ends.
update_interface-ends : (id : String) → Keeps (λ _. Unit {0}) (Requests.update_interface id)
unfolding Requests.update_interface
update_interface-ends id w h = coded_request-Keeps (λ _. Unit {0}) id _ _ tt

delete_interface-ends : (id : String) → Keeps (λ _. Unit {0}) (Requests.delete_interface id)
unfolding Requests.delete_interface
delete_interface-ends id w h = coded_request-Keeps (λ _. Unit {0}) id _ _ tt

store_reply-ends :
    (target : Option String) (r : Reply Interface) → Keeps (λ _. Unit {0}) (store_reply target r)
unfolding store_reply Requests.update_interface_reply Requests.create_interface_reply
store_reply-ends (some id) (fulfilled p) w h = tt
store_reply-ends (some id) (rejected e) w h = tt
store_reply-ends none (fulfilled p) w h = tt
store_reply-ends none (rejected e) w h = tt

delete_interface_reply-ends :
    (id : String) (r : Reply (Unit {0}))
    → Keeps (λ _. Unit {0}) (Requests.delete_interface_reply id r)
unfolding Requests.delete_interface_reply
delete_interface_reply-ends id (fulfilled _) w h = tt
delete_interface_reply-ends id (rejected e) w h = tt

submit-Keeps :
    (P : InterfaceForm → Type 0)
    (free : (t : InterfaceStore) (s : InterfaceForm) → P s → P (record s { interfaces = t }))
    (existing : Bool)
    → Keeps P (submit existing)
unfolding submit Requests.create_interface
submit-Keeps P free true w h =
    called_for-Keeps (λ s. s.interfaces) (λ u s. record s { interfaces = u }) P free interface_key
      Requests.update_interface update_interface-ends (selected_interface w.store) w h
submit-Keeps P free false w h = free _ w.store h

prepare_interface_reply-ends :
    (r : Reply Interface) → Keeps (λ _. Unit {0}) (Requests.prepare_interface_reply r)
unfolding Requests.prepare_interface_reply set_prepared_interface
prepare_interface_reply-ends (fulfilled p) w h = tt
prepare_interface_reply-ends (rejected e) w h = tt

-- An input changes neither flag.
module _ (P : InterfaceForm → Type 0)
    (free : (t : InterfaceStore) (s : InterfaceForm) → P s → P (record s { interfaces = t }))
    (other : (f : Interface) (id : String) (s : InterfaceForm)
      → P s
      → P (record s { form = f; interface_id = id })) where
  present-Keeps : (o : Option Interface) → Keeps P (present o)
  unfolding present Requests.prepare_interface
  present-Keeps (some i) w h = other _ w.store.interface_id w.store h
  present-Keeps none w h = free _ w.store h

  shown-Keeps : (id : String) → Keeps P (show id)
  unfolding show
  shown-Keeps id w h =
      present-Keeps (selected_interface (record w.store { interface_id = id }))
        (record w { store = record w.store { interface_id = id } })
        (other w.store.form id w.store h)

  prepared-Keeps : (r : Reply Interface) → Keeps P (show_reply r)
  unfolding show_reply
  prepared-Keeps r w h =
      >>=-Keeps P _ (λ _. update (λ s. put_form (fill_prepared s.interfaces.prepared) s))
        (called-Keeps (λ s. s.interfaces) (λ i s. record s { interfaces = i }) P free _
          (prepare_interface_reply-ends r))
        (λ _ v k. other _ v.store.interface_id v.store k) w h

quiet :
    (i : Input) (w v : World InterfaceForm)
    → settled (input i w) ≡ some v
    → Flags w.store.is_saving w.store.is_deleting v.store
unfolding close
quiet (shown_for id) =
    Keeps-quiet interface_dialog (show id)
      (λ a b. shown-Keeps (Flags a b) (λ t s h. h) (λ f id s h. h) id)
quiet (prepared_reply r) =
    Keeps-quiet interface_dialog (show_reply r)
      (λ a b. prepared-Keeps (Flags a b) (λ t s h. h) (λ f id s h. h) r)
quiet (edited f) = Keeps-quiet interface_dialog (update (put_form f)) (λ a b w h. h)
quiet closed = Keeps-quiet interface_dialog (update close) (λ a b w h. h)
quiet apply_clicked =
    Keeps-quiet interface_dialog (apply_peer_defaults >> pass)
      (λ a b. >>=-Keeps (Flags a b) apply_peer_defaults (λ _. pass) (apply-Keeps a b) (λ _ v h. h))
quiet (applied r) = Keeps-quiet interface_dialog (apply_peer_defaults_reply r >> pass) (λ a b.
    >>=-Keeps (Flags a b) (apply_peer_defaults_reply r) (λ _. pass) (applied-Keeps a b r)
      (λ _ v h. h))
quiet (peers_loaded r) =
    λ w v. peers_reply-Flags w.store.is_saving w.store.is_deleting r w v (refl, refl)

interface_dialog-IsSound : IsSound interface_dialog
unfolding show close save save_reply del del_reply
interface_dialog-IsSound = record {
  quiet = quiet;
  saves = λ b w v e.
      once-Clicks (λ s. s.is_saving) (λ s. s.is_deleting) set_saving (λ b s. refl) (λ b s. refl)
        "Failed to save interface!" (submit (not (w.store.interface_id === "#NEW#")))
        (λ a b. submit-Keeps _ (λ t s h. h) (not (w.store.interface_id === "#NEW#"))) b w v e;
  saved = λ r.
      answered-Frees (λ s. s.is_saving) (λ s. s.is_deleting) set_saving (λ b s. refl) (λ b s. refl)
        "Failed to save interface!" _
        (λ a b.
          closed-Keeps (λ s. s.interfaces) (λ u s. record s { interfaces = u }) _ (λ t s h. h) close
            (λ s h. h) _ (store_reply-ends r.target r.reply));
  deletes =
      once-Clicks (λ s. s.is_deleting) (λ s. s.is_saving) set_deleting (λ b s. refl) (λ b s. refl)
        "Failed to delete interface!" _
        (λ a b w h.
          called_for-Keeps (λ s. s.interfaces) (λ u s. record s { interfaces = u }) _ (λ t s h. h)
            interface_key Requests.delete_interface delete_interface-ends
            (selected_interface w.store) w h);
  deleted = λ r.
      answered-Frees (λ s. s.is_deleting) (λ s. s.is_saving) set_deleting (λ b s. refl)
        (λ b s. refl) "Failed to delete interface!" _
        (λ a b.
          closed-Keeps (λ s. s.interfaces) (λ u s. record s { interfaces = u }) _ (λ t s h. h) close
            (λ s h. h) _ (delete_interface_reply-ends r.id r.reply));
}

-- The dialog for an interface, the button that applies the defaults among its inputs: wherever a
-- session has got to from a dialog that neither saves nor deletes, each of these two buttons is busy
-- exactly while one request of it is in flight. Let then the reply to a save and the one to a deletion
-- come, each if it is awaited, in either order and whatever they are: each handler ends without an
-- error, with its button free, and the dialog neither saves nor deletes.
interface_dialog-IsIdle :
    (s t : Session interface_dialog) (saved : Saved) (deleted : Deleted)
    → IsIdle interface_dialog s
    → Reach interface_dialog s t
    → (t.saves ≤ 1)
      × (t.deletes ≤ 1)
      × (t.world.store.is_saving ≡ ltb 0 t.saves)
      × (t.world.store.is_deleting ≡ ltb 0 t.deletes)
      × Rests interface_dialog saved deleted t
interface_dialog-IsIdle s t saved deleted idle r =
    let (a, b, c, e) = Reach-IsExact interface_dialog interface_dialog-IsSound s t idle r in
    (a, b, c, e, Reach-Rests interface_dialog interface_dialog-IsSound s t saved deleted idle r)
