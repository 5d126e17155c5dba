-- ===== src/Dialogs/UserPeerEdit.antt =====
-- The dialog for a peer of the signed-in user (frontend/src/components/UserPeerEditModal.vue): the
-- common form with the interface of the profile, and without the watcher of IgnoreGlobalSettings.
pub mod Inputs
pub mod Identity
use wg_portal.Prelude.{String, Option, Bool}
use wg_portal.Dialogs.PeerForm.{Clock, PeerForm, user_peer_edit}
use wg_portal.Dialogs.PeerForm.Fill
use wg_portal.Dialogs.PeerForm.Submit
use wg_portal.Js.{M, Reply}
use wg_portal.Models.{Peer}

unfoldable show : Clock → String → M PeerForm (Unit {0})
unfolding Fill.show
show clock = Fill.show (user_peer_edit clock)

unfoldable show_reply : Clock → Reply Peer → M PeerForm (Unit {0})
unfolding Fill.show_reply
show_reply clock = Fill.show_reply (user_peer_edit clock)

unfoldable close : Clock → PeerForm → PeerForm
unfolding Submit.close
close clock = Submit.close (user_peer_edit clock)

unfoldable save : Clock → M PeerForm Bool
unfolding Submit.save
save clock = Submit.save (user_peer_edit clock)

unfoldable save_reply : Clock → Option String → Reply Peer → M PeerForm (Unit {0})
unfolding Submit.save_reply
save_reply clock = Submit.save_reply (user_peer_edit clock)

unfoldable del : Clock → M PeerForm Bool
unfolding Submit.del
del clock = Submit.del (user_peer_edit clock)

unfoldable del_reply : Clock → String → Reply (Unit {0}) → M PeerForm (Unit {0})
unfolding Submit.del_reply
del_reply clock = Submit.del_reply (user_peer_edit clock)
