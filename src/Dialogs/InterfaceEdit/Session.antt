-- ===== src/Dialogs/InterfaceEdit/Session.antt =====
-- The dialog for an interface (frontend/src/components/InterfaceEditModal.vue) as the sessions see it:
-- the user shows, edits or closes it, or clicks the button that applies the defaults; a prepared
-- interface or a reply to that button comes; and the buttons that save and delete.
use wg_portal.Prelude.{String, List, Option}
use wg_portal.Js.{M, Reply, update, pass, ◌>>◌}
use wg_portal.Models.{Interface, Peer}
use wg_portal.Dialogs.Sessions.{Dialog}
use wg_portal.Dialogs.InterfaceEdit.Defaults.{
  apply_peer_defaults, apply_peer_defaults_reply, peers_reply,
}
use wg_portal.Dialogs.InterfaceEdit.{
  InterfaceForm, put_form, show, show_reply, close, save, save_reply, del, del_reply,
}

pub data Input : Type 0 where
  shown_for : String → Input
  prepared_reply : Reply Interface → Input
  edited : (Interface → Interface) → Input
  closed : Input
  apply_clicked : Input
  applied : Reply (Unit {0}) → Input
  peers_loaded : Reply (List Peer) → Input

-- The reply to UpdateInterface of an identifier, or to CreateInterface, and the one to
-- DeleteInterface.
pub record Saved : Type 0 where
  pub target : Option String
  pub reply : Reply Interface

pub record Deleted : Type 0 where
  pub id : String
  pub reply : Reply (Unit {0})

abbrev pub input : Input → M InterfaceForm (Unit {0})
input (shown_for id) = show id
input (prepared_reply r) = show_reply r
input (edited f) = update (put_form f)
input closed = update close
input apply_clicked = apply_peer_defaults >> pass
input (applied r) = apply_peer_defaults_reply r >> pass
input (peers_loaded r) = peers_reply r

abbrev pub interface_dialog : Dialog InterfaceForm
interface_dialog = record {
  is_saving = λ s. s.is_saving;
  is_deleting = λ s. s.is_deleting;
  Input = Input;
  Saved = Saved;
  Deleted = Deleted;
  input = input;
  save = save;
  save_reply = λ r. save_reply r.target r.reply;
  del = del;
  del_reply = λ r. del_reply r.id r.reply;
}
