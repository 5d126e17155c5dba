-- ===== src/Dialogs/PeerForm/Session.antt =====
-- A dialog for a peer (frontend/src/components/PeerEditModal.vue, UserPeerEditModal.vue) as the
-- sessions see it: the user shows, edits or closes it, a prepared peer comes, and its two buttons.
use wg_portal.Prelude.{String, Option}
use wg_portal.Js.{M, Reply, update}
use wg_portal.Models.{Peer}
use wg_portal.Dialogs.Sessions.{Dialog}
use wg_portal.Dialogs.PeerForm.{PeerForm, Kind, edit}
use wg_portal.Dialogs.PeerForm.Fill.{show, show_reply}
use wg_portal.Dialogs.PeerForm.Submit.{close, save, save_reply, del, del_reply}

pub data Input : Type 0 where
  shown_for : String → Input
  prepared_reply : Reply Peer → Input
  edited : (Peer → Peer) → Input
  closed : Input

-- The reply to UpdatePeer of an identifier, or to CreatePeer, and the one to DeletePeer.
pub record Saved : Type 0 where
  pub target : Option String
  pub reply : Reply Peer

pub record Deleted : Type 0 where
  pub id : String
  pub reply : Reply (Unit {0})

abbrev pub input : Kind → Input → M PeerForm (Unit {0})
input k (shown_for id) = show k id
input k (prepared_reply r) = show_reply k r
input k (edited f) = update (edit k f)
input k closed = update (close k)

abbrev pub dialog : Kind → Dialog PeerForm
dialog k = record {
  is_saving = λ s. s.is_saving;
  is_deleting = λ s. s.is_deleting;
  Input = Input;
  Saved = Saved;
  Deleted = Deleted;
  input = input k;
  save = save k;
  save_reply = λ r. save_reply k r.target r.reply;
  del = del k;
  del_reply = λ r. del_reply k r.id r.reply;
}
