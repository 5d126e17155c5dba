-- ===== src/Views/Opened.antt =====
-- The dialogs that the views open, by the identifiers they hand to them (the templates of
-- frontend/src/views/InterfaceView.vue, ProfileView.vue and UserView.vue): a dialog is visible while
-- its identifier is not empty.
use wg_portal.Prelude.{String, Bool, Option, not, is_empty}
use wg_portal.Auth.{UserInfo}
use wg_portal.Dialogs.{within}
use wg_portal.Js.{M, update, ◌>>◌}
use wg_portal.Profile.Requests
use wg_portal.Views.ProfileView.{ProfileView, in_profile}

pub record Opened : Type 0 where
  pub viewed_peer_id : String
  pub edit_peer_id : String
  pub multi_create_peer_id : String
  pub edit_interface_id : String
  pub viewed_interface_id : String

-- The links of the view; `#NEW#` stands for a new record.
data Link : Type 0 where
  show_peer edit_peer show_interface edit_interface : String → Link
  add_peer add_peers add_interface : Link

unfoldable follow : Link → Opened → Opened
follow (show_peer id) s = record s { viewed_peer_id = id }
follow (edit_peer id) s = record s { edit_peer_id = id }
follow (show_interface id) s = record s { viewed_interface_id = id }
follow (edit_interface id) s = record s { edit_interface_id = id }
follow add_peer s = record s { edit_peer_id = "#NEW#" }
follow add_peers s = record s { multi_create_peer_id = "#NEW#" }
follow add_interface s = record s { edit_interface_id = "#NEW#" }

pub data Dialog : Type 0 where
  peer_view peer_edit peer_multi_create interface_edit interface_view : Dialog

abbrev visible_id : Dialog → Opened → String
visible_id peer_view s = s.viewed_peer_id
visible_id peer_edit s = s.edit_peer_id
visible_id peer_multi_create s = s.multi_create_peer_id
visible_id interface_edit s = s.edit_interface_id
visible_id interface_view s = s.viewed_interface_id

unfoldable visible : Dialog → Opened → Bool
visible d s = not (is_empty (visible_id d s))

-- `@close`
unfoldable closed : Dialog → Opened → Opened
closed peer_view s = record s { viewed_peer_id = "" }
closed peer_edit s = record s { edit_peer_id = "" }
closed peer_multi_create s = record s { multi_create_peer_id = "" }
closed interface_edit s = record s { edit_interface_id = "" }
closed interface_view s = record s { viewed_interface_id = "" }

-- A view with a dialog that shows a record and one that edits it: those of the user's own peers and
-- of the users.
record Pair : Type 0 where
  pub viewed : String
  pub edited : String

data PairLink : Type 0 where
  show edit : String → PairLink
  add : PairLink

unfoldable follow_pair : PairLink → Pair → Pair
follow_pair (show id) s = record s { viewed = id }
follow_pair (edit id) s = record s { edited = id }
follow_pair add s = record s { edited = "#NEW#" }

-- `@close` of the dialogs for users, and of the one that shows a peer.
unfoldable viewed_closed : Pair → Pair
viewed_closed s = record s { viewed = "" }

unfoldable edited_closed : Pair → Pair
edited_closed s = record s { edited = "" }

-- The view of the user's own peers with its dialogs. When the one that edits a peer is closed, the
-- peers are loaded again.
record OwnView : Type 0 where
  pub view : ProfileView
  pub dialogs : Pair

unfoldable own_edited_closed : Option UserInfo → M OwnView (Unit {0})
unfolding edited_closed Requests.load_peers
own_edited_closed me =
    update (λ s. record s { dialogs = edited_closed s.dialogs })
    >> within (λ s. s.view) (λ v s. record s { view = v }) (in_profile (Requests.load_peers me))
