-- ===== src/Dialogs/UserEdit/Session.antt =====
-- The dialog for a user (frontend/src/components/UserEditModal.vue) as the sessions see it: the user
-- of the page shows, edits or closes it, and its two buttons.
use wg_portal.Prelude.{String, Option}
use wg_portal.Js.{M, Reply, update}
use wg_portal.Models.{User}
use wg_portal.Dialogs.Sessions.{Dialog}
use wg_portal.Dialogs.UserEdit.{UserForm, show, close, save, save_reply, del, del_reply}

pub data Input : Type 0 where
  shown_for : String → Input
  edited : (User → User) → Input
  closed : Input

-- The reply to UpdateUser of an identifier, or to CreateUser, and the one to DeleteUser.
pub record Saved : Type 0 where
  pub target : Option String
  pub reply : Reply User

pub record Deleted : Type 0 where
  pub id : String
  pub reply : Reply (Unit {0})

abbrev pub input : Input → M UserForm (Unit {0})
input (shown_for id) = update (show id)
input (edited f) = update (λ s. record s { form = f s.form })
input closed = update close

abbrev pub user_dialog : Dialog UserForm
user_dialog = record {
  is_saving = λ s. s.is_saving;
  is_deleting = λ s. s.is_deleting;
  Input = Input;
  Saved = Saved;
  Deleted = Deleted;
  input = input;
  save = save;
  save_reply = λ r. save_reply r.target r.reply;
  del = del;
  del_reply = λ r. del_reply r.id r.reply;
}
