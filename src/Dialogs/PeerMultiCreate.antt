-- ===== src/Dialogs/PeerMultiCreate.antt =====
-- The dialog that creates several peers at once (the script of
-- frontend/src/components/PeerMultiCreateModal.vue). Titles are left out.
use wg_portal.Prelude.{String, List, [], ◌∷◌, Bool, false, or_else, if◌then◌else◌}
use wg_portal.Dialogs.{within, once, answered}
use wg_portal.Interfaces
use wg_portal.Interfaces.{InterfaceStore}
use wg_portal.Js.{M, Reply, update, emit, notify, state, return, ◌>>=◌, ◌>>◌}
use wg_portal.Models.{Interface, fresh_interface, Peer}
use wg_portal.Peers.{PeerStore}
use wg_portal.Peers.Requests

record MultiForm : Type 0 where
  pub identifiers : List String
  pub prefix : String

abbrev fresh_form : MultiForm
fresh_form = record { identifiers = []; prefix = "" }

record MultiCreate : Type 0 where
  pub interfaces : InterfaceStore
  pub peers : PeerStore
  pub visible : Bool
  pub form : MultiForm
  pub is_saving : Bool

unfoldable selected_interface : MultiCreate → Interface
selected_interface s = or_else (Interfaces.get_selected s.interfaces) fresh_interface

unfoldable close : MultiCreate → MultiCreate
close s = record s { form = fresh_form; visible = false }

unfoldable handle_change_user_identifiers : List String → MultiCreate → MultiCreate
handle_change_user_identifiers tags s = record s { form = record s.form { identifiers = tags } }

-- The input of the prefix.
unfoldable enter_prefix : String → MultiCreate → MultiCreate
enter_prefix t s = record s { form = record s.form { prefix = t } }

abbrev set_saving : Bool → MultiCreate → MultiCreate
set_saving b s = record s { is_saving = b }

abbrev in_peers {ℓ} : {A : Type ℓ} → M PeerStore A → M MultiCreate A
in_peers = within (λ s. s.peers) (λ p s. record s { peers = p })

-- The body of the try block.
unfoldable submit : M MultiCreate (Unit {0})
unfolding selected_interface Requests.create_multiple_peers
submit = state >>= λ s. in_peers (Requests.create_multiple_peers (selected_interface s).identifier)

-- The test between the flag and the try block: with no identifiers the flag is reset at once.
unfoldable missing : M MultiCreate Bool
missing =
    emit (notify "Missing Identifiers" "At least one identifier is required to create a new peer.")
    >> return false

unfoldable save : M MultiCreate Bool
unfolding submit missing
save = state >>= λ s. if s.is_saving then return false else elim s.form.identifiers [
  | [] ↦ missing
  | _ ∷ _ ↦ once (λ s. s.is_saving) set_saving "Failed to create peers!" submit
]

unfoldable save_reply : Reply (List Peer) → M MultiCreate (Unit {0})
unfolding close Requests.create_multiple_peers_reply
save_reply r =
    answered (λ s. s.is_saving) set_saving "Failed to create peers!"
      (in_peers (Requests.create_multiple_peers_reply r) >> update close)
