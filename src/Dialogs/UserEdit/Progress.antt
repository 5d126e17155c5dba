-- ===== src/Dialogs/UserEdit/Progress.antt =====
-- The buttons of the dialog for a user over whole sessions
-- (frontend/src/components/UserEditModal.vue).
use wg_portal.Prelude.{
  String, Option, some, none, Bool, true, false, not, ◌===◌, ◌≤◌, ltb, ◌≡◌, refl,
}
use wg_portal.Js.{Reply, fulfilled, rejected}
use wg_portal.Js.Keeping.{Keeps, coded_request-Keeps}
use wg_portal.Models.{User}
use wg_portal.Users.{UserStore, user_key}
use wg_portal.Users.Requests
use wg_portal.Dialogs.Sessions.{IsSound, Session, Reach, IsIdle, Rests}
use wg_portal.Dialogs.Sessions.Laws.{Reach-IsExact, Reach-Rests}
use wg_portal.Dialogs.Sessions.Parts.{
  Keeps-quiet, once-Clicks, answered-Frees, called_for-Keeps, closed-Keeps,
}
use wg_portal.Dialogs.UserEdit.{
  UserForm, selected_user, set_saving, set_deleting, submit, show, close, store_reply, save,
  save_reply, del, del_reply,
}
use wg_portal.Dialogs.UserEdit.Session.{
  Input, shown_for, edited, closed, Saved, Deleted, input, user_dialog,
}

-- What the store is asked, and what it is answered, ends.
update_user-ends : (id : String) → Keeps (λ _. Unit {0}) (Requests.update_user id)
unfolding Requests.update_user
update_user-ends id w h = coded_request-Keeps (λ _. Unit {0}) id _ _ tt

delete_user-ends : (id : String) → Keeps (λ _. Unit {0}) (Requests.delete_user id)
unfolding Requests.delete_user
delete_user-ends id w h = coded_request-Keeps (λ _. Unit {0}) id _ _ tt

store_reply-ends :
    (target : Option String) (r : Reply User) → Keeps (λ _. Unit {0}) (store_reply target r)
unfolding store_reply Requests.update_user_reply Requests.create_user_reply
store_reply-ends (some id) (fulfilled p) w h = tt
store_reply-ends (some id) (rejected e) w h = tt
store_reply-ends none (fulfilled p) w h = tt
store_reply-ends none (rejected e) w h = tt

delete_user_reply-ends :
    (id : String) (r : Reply (Unit {0})) → Keeps (λ _. Unit {0}) (Requests.delete_user_reply id r)
unfolding Requests.delete_user_reply
delete_user_reply-ends id (fulfilled _) w h = tt
delete_user_reply-ends id (rejected e) w h = tt

submit-Keeps :
    (P : UserForm → Type 0)
    (free : (t : UserStore) (s : UserForm) → P s → P (record s { users = t })) (existing : Bool)
    → Keeps P (submit existing)
unfolding submit Requests.create_user
submit-Keeps P free true w h =
    called_for-Keeps (λ s. s.users) (λ u s. record s { users = u }) P free user_key
      Requests.update_user update_user-ends (selected_user w.store) w h
submit-Keeps P free false w h = free _ w.store h

quiet :
    (i : Input) (P : UserForm → Type 0)
    → ((f : User) (id : String) (s : UserForm) → P s → P (record s { form = f; user_id = id }))
    → Keeps P (input i)
unfolding show close
quiet (shown_for id) P free w h = free _ id w.store h
quiet (edited f) P free w h = free (f w.store.form) w.store.user_id w.store h
quiet closed P free w h = free _ "" w.store h

user_dialog-IsSound : IsSound user_dialog
unfolding show close save save_reply del del_reply
user_dialog-IsSound = record {
  quiet = λ i. Keeps-quiet user_dialog (input i) (λ a b. quiet i _ (λ f id s h. h));
  saves = λ b w v e.
      once-Clicks (λ s. s.is_saving) (λ s. s.is_deleting) set_saving (λ b s. refl) (λ b s. refl)
        "Failed to save user!" (submit (not (w.store.user_id === "#NEW#")))
        (λ a b. submit-Keeps _ (λ t s h. h) (not (w.store.user_id === "#NEW#"))) b w v e;
  saved = λ r.
      answered-Frees (λ s. s.is_saving) (λ s. s.is_deleting) set_saving (λ b s. refl) (λ b s. refl)
        "Failed to save user!" _
        (λ a b.
          closed-Keeps (λ s. s.users) (λ u s. record s { users = u }) _ (λ t s h. h) close
            (λ s h. h) _ (store_reply-ends r.target r.reply));
  deletes =
      once-Clicks (λ s. s.is_deleting) (λ s. s.is_saving) set_deleting (λ b s. refl) (λ b s. refl)
        "Failed to delete user!" _
        (λ a b w h.
          called_for-Keeps (λ s. s.users) (λ u s. record s { users = u }) _ (λ t s h. h) user_key
            Requests.delete_user delete_user-ends (selected_user w.store) w h);
  deleted = λ r.
      answered-Frees (λ s. s.is_deleting) (λ s. s.is_saving) set_deleting (λ b s. refl)
        (λ b s. refl) "Failed to delete user!" _
        (λ a b.
          closed-Keeps (λ s. s.users) (λ u s. record s { users = u }) _ (λ t s h. h) close
            (λ s h. h) _ (delete_user_reply-ends r.id r.reply));
}

-- The dialog for a user: wherever a session has got to from an idle dialog, each button is busy
-- exactly while one request of it is in flight. Let then the reply to a save and the one to a deletion
-- come, each if it is awaited, in either order and whatever they are: each handler ends without an
-- error, with its button free, and the dialog is idle.
pub user_dialog-IsIdle :
    (s t : Session user_dialog) (saved : Saved) (deleted : Deleted)
    → IsIdle user_dialog s
    → Reach user_dialog s t
    → (t.saves ≤ 1)
      × (t.deletes ≤ 1)
      × (t.world.store.is_saving ≡ ltb 0 t.saves)
      × (t.world.store.is_deleting ≡ ltb 0 t.deletes)
      × Rests user_dialog saved deleted t
user_dialog-IsIdle s t saved deleted idle r =
    let (a, b, c, e) = Reach-IsExact user_dialog user_dialog-IsSound s t idle r in
    (a, b, c, e, Reach-Rests user_dialog user_dialog-IsSound s t saved deleted idle r)
