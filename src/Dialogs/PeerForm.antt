-- ===== src/Dialogs/PeerForm.antt =====
-- The dialogs for a peer (the scripts of frontend/src/components/PeerEditModal.vue and
-- UserPeerEditModal.vue): how the form is filled, watched, closed, saved and deleted. The settings of
-- the form are the objects of the peer that it was filled from, not copies, so the state says whose
-- they are and each change of one reaches the store. Titles are left out.
pub mod Fill
pub mod Submit
pub mod Flags
pub mod Sharing
pub mod Session
pub mod Outcome
pub mod Progress
pub mod Editing
use wg_portal.Prelude.{
  ℕ, String, List, [], ◌∷◌, Option, some, none, Bool, true, false, not, ◌||◌, ◌&&◌, ◌===◌, is_empty,
  if◌then◌else◌, or_else, map_option,
}
use wg_portal.Datetime.{
  Zone, Timestamp, missing, invalid, instant, TimeText, empty, Datetime, format_rfc3339_to_datetime,
  format_date_time_to_rfc3339,
}
use wg_portal.Dialogs.{within, once, answered}
use wg_portal.Interfaces
use wg_portal.Interfaces.{InterfaceStore, interface_key}
use wg_portal.Js.{M, Reply, reject, type_error, update, state, return, pass, ◌>>=◌, ◌>>◌}
use wg_portal.Js.Keyed.{find_key, first_some}
use wg_portal.Models.{Interface, fresh_interface, Peer, fresh_peer}
use wg_portal.Peers
use wg_portal.Peers.{PeerStore}
use wg_portal.Peers.Requests
use wg_portal.Profile
use wg_portal.Profile.{ProfileStore}

-- How Date reads and writes the text of a timestamp.
pub record Clock : Type 0 where
  pub zone : Zone
  pub parse : String → Option ℕ
  pub print : ℕ → String

-- Whose the settings of the form are: its own, those of the prepared peer, or those of the first
-- peer with an identifier, in the peer store or in the profile.
pub data Origin : Type 0 where
  own : Origin
  prepared : Origin
  listed : String → Origin
  profiled : String → Origin

-- The dialog is visible while it has the identifier of a peer; `#NEW#` stands for a new one.
pub record PeerForm : Type 0 where
  pub peers : PeerStore
  pub interfaces : InterfaceStore
  pub profile : ProfileStore
  pub peer_id : String
  pub form : Peer
  pub origin : Origin
  pub expiry_date : Option ℕ
  pub expiry_time : TimeText
  pub is_saving : Bool
  pub is_deleting : Bool

-- The two dialogs: where the interface of a new peer comes from, and whether
-- IgnoreGlobalSettings is watched.
pub record Kind : Type 0 where
  pub clock : Clock
  pub iface : PeerForm → Option Interface
  pub watches_ignore : Bool

-- `selectedInterface` of PeerEditModal and of UserPeerEditModal; `none` is undefined.
unfoldable pub selected_interface : PeerForm → Option Interface
selected_interface s = some (or_else (Interfaces.get_selected s.interfaces) fresh_interface)

unfoldable pub profile_interface : PeerForm → Option Interface
profile_interface s =
    if is_empty s.profile.selected_interface_id
    then some fresh_interface
    else find_key interface_key s.profile.selected_interface_id s.profile.interfaces

abbrev pub peer_edit : Clock → Kind
peer_edit clock = record { clock = clock; iface = selected_interface; watches_ignore = true }

abbrev pub user_peer_edit : Clock → Kind
user_peer_edit clock = record { clock = clock; iface = profile_interface; watches_ignore = false }

-- `selectedPeer`, with the owner of its settings.
unfoldable pub selected_peer : PeerForm → Option (Origin × Peer)
selected_peer s =
    first_some (map_option (λ p. (listed s.peer_id, p)) (Peers.find s.peers s.peer_id)) (
      if is_empty s.peer_id
      then some (own, fresh_peer)
      else map_option (λ p. (profiled s.peer_id, p)) (Profile.find_peers s.profile s.peer_id))

-- A peer whose settings are the objects of the form.
abbrev pub share : Peer → Peer → Peer
share form p = record p {
  endpoint = form.endpoint;
  endpoint_public_key = form.endpoint_public_key;
  allowed_ips = form.allowed_ips;
  persistent_keepalive = form.persistent_keepalive;
  dns = form.dns;
  dns_search = form.dns_search;
  mtu = form.mtu;
  firewall_mark = form.firewall_mark;
  routing_table = form.routing_table;
  pre_up = form.pre_up;
  post_up = form.post_up;
  pre_down = form.pre_down;
  post_down = form.post_down;
}

-- The first peer with an identifier is changed.
abbrev pub at_key : String → (Peer → Peer) → List Peer → List Peer
at_key id f [] = []
at_key id f (p ∷ ps) = if p.identifier === id then f p ∷ ps else p ∷ at_key id f ps

-- After a change of the form: its settings as their owner sees them.
unfoldable pub write_through : Origin → PeerForm → PeerForm
write_through own s = s
write_through prepared s = record s {
  peers = record s.peers { prepared = share s.form s.peers.prepared };
}
write_through (listed id) s = record s {
  peers = record s.peers { peers = at_key id (share s.form) s.peers.peers };
}
write_through (profiled id) s = record s {
  profile = record s.profile { peers = at_key id (share s.form) s.profile.peers };
}

-- `formData.value.….Overridable = b` for the thirteen settings.
abbrev pub set_overridable : Bool → Peer → Peer
set_overridable b form = record form {
  endpoint = record form.endpoint { overridable = b };
  endpoint_public_key = record form.endpoint_public_key { overridable = b };
  allowed_ips = record form.allowed_ips { overridable = b };
  persistent_keepalive = record form.persistent_keepalive { overridable = b };
  dns = record form.dns { overridable = b };
  dns_search = record form.dns_search { overridable = b };
  mtu = record form.mtu { overridable = b };
  firewall_mark = record form.firewall_mark { overridable = b };
  routing_table = record form.routing_table { overridable = b };
  pre_up = record form.pre_up { overridable = b };
  post_up = record form.post_up { overridable = b };
  pre_down = record form.pre_down { overridable = b };
  post_down = record form.post_down { overridable = b };
}

abbrev pub differ : Bool → Bool → Bool
differ a b = if a then not b else b

-- The watcher of IgnoreGlobalSettings, given the old value.
unfoldable pub watch_ignore : Kind → Bool → PeerForm → PeerForm
unfolding write_through
watch_ignore k old s =
    if k.watches_ignore && differ old s.form.ignore_global_settings
    then write_through s.origin
        (record s { form = set_overridable (not s.form.ignore_global_settings) s.form })
    else s

-- The watcher of Disabled, given the old value: an enabled peer loses its expiry.
unfoldable pub watch_disabled : Bool → PeerForm → PeerForm
watch_disabled old s =
    if old && not s.form.disabled then record s { expiry_date = none; expiry_time = empty } else s

abbrev pub watched : Kind → Peer → PeerForm → PeerForm
watched k old s = watch_disabled old.disabled (watch_ignore k old.ignore_global_settings s)

abbrev pub in_peers {ℓ} : {A : Type ℓ} → M PeerStore A → M PeerForm A
in_peers = within (λ s. s.peers) (λ p s. record s { peers = p })

-- Code that reads the identifier of `selectedInterface` or of `selectedPeer`: a TypeError at
-- undefined.
abbrev pub with_iface : (String → M PeerForm (Unit {0})) → Option Interface → M PeerForm (Unit {0})
with_iface m none = reject type_error
with_iface m (some i) = m i.identifier

abbrev pub with_peer :
    (String → M PeerForm (Unit {0})) → Option (Origin × Peer) → M PeerForm (Unit {0})
with_peer m none = reject type_error
with_peer m (some (_, p)) = m p.identifier

-- An input of the form changes it, and the watchers run.
unfoldable pub edit : Kind → (Peer → Peer) → PeerForm → PeerForm
edit k f s = watched k s.form (write_through s.origin (record s { form = f s.form }))
