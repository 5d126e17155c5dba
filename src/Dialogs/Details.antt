-- ===== src/Dialogs/Details.antt =====
-- The dialogs that show an interface and a user (the scripts of
-- frontend/src/components/InterfaceViewModal.vue and UserViewModal.vue). Titles are left out.
use wg_portal.Prelude.{String, List, Option, some, none, or_else, map_option}
use wg_portal.Dialogs.{within}
use wg_portal.Interfaces
use wg_portal.Interfaces.{InterfaceStore}
use wg_portal.Interfaces.Requests as InterfaceRequests
use wg_portal.Js.{M, Reply, reject, type_error, update, ◌>>◌}
use wg_portal.Models.{Interface, Peer}
use wg_portal.Users
use wg_portal.Users.{UserStore}
use wg_portal.Users.Requests

record InterfaceDetails : Type 0 where
  pub interfaces : InterfaceStore
  pub interface_id : String
  pub config_string : String

abbrev in_interfaces {ℓ} : {A : Type ℓ} → M InterfaceStore A → M InterfaceDetails A
in_interfaces = within (λ s. s.interfaces) (λ i s. record s { interfaces = i })

abbrev with_iface :
    (String → M InterfaceDetails (Unit {0})) → Option Interface → M InterfaceDetails (Unit {0})
with_iface m none = reject type_error
with_iface m (some i) = m i.identifier

-- The dialog is shown: the configuration is loaded.
unfoldable show_interface : M InterfaceDetails (Unit {0})
unfolding InterfaceRequests.load_interface_config
show_interface w =
    with_iface (λ id. in_interfaces (InterfaceRequests.load_interface_config id))
      (Interfaces.find w.store.interfaces w.store.interface_id) w

unfoldable show_interface_reply : Reply String → M InterfaceDetails (Unit {0})
unfolding InterfaceRequests.load_interface_config_reply
show_interface_reply r = do
  in_interfaces (InterfaceRequests.load_interface_config_reply r)
  update (λ s. record s { config_string = s.interfaces.configuration })

record UserDetails : Type 0 where
  pub users : UserStore
  pub user_id : String

abbrev in_users {ℓ} : {A : Type ℓ} → M UserStore A → M UserDetails A
in_users = within (λ s. s.users) (λ u s. record s { users = u })

-- The identifier of `selectedUser`; of the empty object it is undefined, which btoa reads as a text.
unfoldable user_identifier : UserDetails → String
user_identifier s =
    or_else (map_option (λ u. u.identifier) (Users.find s.users s.user_id)) "undefined"

-- The dialog is shown: the peers of the user are loaded.
unfoldable show_user : M UserDetails (Unit {0})
unfolding user_identifier Requests.load_user_peers
show_user w = in_users (Requests.load_user_peers (user_identifier w.store)) w

unfoldable show_user_reply : Reply (List Peer) → M UserDetails (Unit {0})
unfolding Requests.load_user_peers_reply
show_user_reply r = in_users (Requests.load_user_peers_reply r)

-- `userPeers`
abbrev user_peers : UserDetails → List Peer
user_peers s = s.users.user_peers
