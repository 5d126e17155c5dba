-- ===== src/Views/InterfaceView.antt =====
-- The view of an interface and its peers (the script of frontend/src/views/InterfaceView.vue): the
-- order of the table, the selection of peers, the backend, and the requests. The clipboard
-- belongs to the browser and is left out.
pub mod Laws
use wg_portal.Prelude.{
  String, List, [], ◌∷◌, Option, some, none, Bool, true, false, not, ◌===◌, if◌then◌else◌, is_empty,
}
use Prim.Native.String.{◌++◌ as append}
use wg_portal.Dialogs.{within, click_download}
use wg_portal.Encoding.Uri.{encode_uri_component}
use wg_portal.Helpers.{AddressLibrary}
use wg_portal.Interfaces
use wg_portal.Interfaces.{InterfaceStore}
use wg_portal.Interfaces.Requests
use wg_portal.Js.{
  M, World, Reply, Thrown, reject, type_error, text_of, update, state, catch, emit, notify, settle,
  pass, ◌>>=◌, ◌>>◌,
}
use wg_portal.Models.{Interface, Peer}
use wg_portal.Peers
use wg_portal.Views.Bar.{Control, click}
use wg_portal.Views.Bar.Tables.{peer_table}
use wg_portal.Views.Selection.{select_each}
use wg_portal.Peers.{peer_key, PeerStore, SortKey, StatsResponse}
use wg_portal.Peers.Requests as PeerRequests

-- An entry of the setting AvailableBackends.
pub record Backend : Type 0 where
  pub id : String
  pub name : String

-- `sort_key` is `none` before the first click on a column.
pub record InterfaceView : Type 0 where
  pub interfaces : InterfaceStore
  pub peers : PeerStore
  pub backends : List Backend
  pub sort_key : Option SortKey
  pub ascending : Bool
  pub select_all : Bool

abbrev pub in_interfaces {ℓ} : {A : Type ℓ} → M InterfaceStore A → M InterfaceView A
in_interfaces = within (λ s. s.interfaces) (λ i s. record s { interfaces = i })

abbrev pub in_peers {ℓ} : {A : Type ℓ} → M PeerStore A → M InterfaceView A
in_peers = within (λ s. s.peers) (λ p s. record s { peers = p })

-- `===` on the columns.
unfoldable pub same_key : SortKey → SortKey → Bool
same_key SortKey.display_name SortKey.display_name = true
same_key SortKey.user_identifier SortKey.user_identifier = true
same_key SortKey.addresses SortKey.addresses = true
same_key SortKey.expires_at SortKey.expires_at = true
same_key SortKey.is_connected SortKey.is_connected = true
same_key SortKey.traffic SortKey.traffic = true
same_key _ _ = false

-- The order after a click on a column: the same column again turns it around.
unfoldable pub next_order : SortKey → Option SortKey → Bool → Bool
unfolding same_key
next_order key none ascending = true
next_order key (some old) ascending = if same_key old key then not ascending else true

unfoldable pub sort_by : SortKey → InterfaceView → InterfaceView
unfolding next_order
sort_by key s =
    let up = next_order key s.sort_key s.ascending in
    record s {
      sort_key = some key;
      ascending = up;
      peers = record s.peers { sort_key = key; ascending = up };
    }

unfoldable calculate_interface_name : String → String → String
calculate_interface_name id name =
    if is_empty name then id else append (append (append id " (") name) ")"

-- `availableBackends.forEach(…)`, given the translations and the name so far.
unfoldable backend_name : (String → String) → String → List Backend → String → String
backend_name t id [] name = name
backend_name t id (b ∷ bs) name =
    backend_name t id bs
      (if b.id === id then if b.id === "local" then t b.name else b.name else name)

-- `none` is a TypeError: no interface is selected.
unfoldable calculate_backend_name : (String → String) → InterfaceView → Option String
unfolding backend_name Interfaces.get_selected
calculate_backend_name t s = elim (Interfaces.get_selected s.interfaces) [
  | none ↦ none
  | some i ↦ some (backend_name t i.backend s.backends (t "interfaces.interface.unknown-backend"))
]

unfoldable has_backend : String → List Backend → Bool → Bool
has_backend id [] valid = valid
has_backend id (b ∷ bs) valid = has_backend id bs (if b.id === id then true else valid)

unfoldable is_backend_valid : InterfaceView → Option Bool
unfolding has_backend Interfaces.get_selected
is_backend_valid s = elim (Interfaces.get_selected s.interfaces) [
  | none ↦ none
  | some i ↦ some (has_backend i.backend s.backends false)
]

-- Code that reads the identifier of `GetSelected`: a TypeError at undefined.
abbrev with_iface :
    (String → M InterfaceView (Unit {0})) → Option Interface → M InterfaceView (Unit {0})
with_iface m none = reject type_error
with_iface m (some i) = m i.identifier

abbrev of_selected : (String → M InterfaceView (Unit {0})) → M InterfaceView (Unit {0})
of_selected m w = with_iface m (Interfaces.get_selected w.store.interfaces) w

unfoldable download : M InterfaceView (Unit {0})
unfolding Interfaces.get_selected Requests.load_interface_config
download = of_selected (λ id. in_interfaces (Requests.load_interface_config id))

-- The reply: the configuration of the store is downloaded under the name of the selected interface.
unfoldable download_reply : Reply String → M InterfaceView (Unit {0})
unfolding Interfaces.get_selected Requests.load_interface_config_reply encode_uri_component
download_reply r = (in_interfaces (Requests.load_interface_config_reply r) >> state) >>= λ s.
    elim (Interfaces.get_selected s.interfaces) [
      | none ↦ reject type_error
      | some i ↦ click_download s.interfaces.configuration i.filename
    ]

abbrev config_failed : Thrown → M InterfaceView (Unit {0})
config_failed e = emit (notify "Failed to persist interface configuration file!" (text_of e))

unfoldable save_config : M InterfaceView (Unit {0})
unfolding Interfaces.get_selected Requests.save_configuration
save_config =
    catch (of_selected (λ id. in_interfaces (Requests.save_configuration id))) config_failed

unfoldable save_config_reply : Reply (Unit {0}) → M InterfaceView (Unit {0})
unfolding Requests.save_configuration_reply
save_config_reply r =
    catch
      (in_interfaces (Requests.save_configuration_reply r)
        >> emit (
            notify "Interface configuration persisted to file"
              "The interface configuration has been written to the wg-quick configuration file."))
      config_failed

abbrev pub select : Bool → Peer → Peer
select b p = record p { is_selected = b }

unfoldable pub toggle_select_all : AddressLibrary → InterfaceView → InterfaceView
unfolding select_each Peers.filtered_and_paged
toggle_select_all lib s = record s {
  peers = record s.peers {
    peers =
        select_each peer_key select s.select_all (Peers.filtered_and_paged lib s.peers)
          s.peers.peers;
  };
}

-- `onMounted`, cut at its three requests.
unfoldable mounted : M InterfaceView (Unit {0})
unfolding Requests.load_interfaces
mounted = in_interfaces Requests.load_interfaces

unfoldable pub interfaces_loaded : Reply (List Interface) → M InterfaceView (Unit {0})
unfolding Requests.load_interfaces_reply Interfaces.get_selected PeerRequests.load_peers
interfaces_loaded r = (in_interfaces (Requests.load_interfaces_reply r) >> state) >>= λ s.
    in_peers (PeerRequests.load_peers "" (Interfaces.get_selected s.interfaces))

unfoldable peers_loaded : Reply (List Peer) → M InterfaceView (Unit {0})
unfolding PeerRequests.load_peers_reply Interfaces.get_selected PeerRequests.load_stats
peers_loaded r = (in_peers (PeerRequests.load_peers_reply r) >> state) >>= λ s.
    in_peers (PeerRequests.load_stats "" (Interfaces.get_selected s.interfaces))

unfoldable stats_loaded : Reply (Option StatsResponse) → M InterfaceView (Unit {0})
unfolding PeerRequests.load_stats_reply
stats_loaded r = in_peers (PeerRequests.load_stats_reply r)

-- The bar of pages; the numbers on it are those of the window.
unfoldable click_bar : Control → M InterfaceView (Unit {0})
unfolding click
click_bar c = in_peers (click peer_table c)

-- An async method that is called without `await`: what it throws rejects its own promise.
abbrev alone : M InterfaceView (Unit {0}) → M InterfaceView (Unit {0})
alone m = catch m (λ e. pass)

-- Another interface is selected: its peers and their statistics are requested, neither waiting for
-- the other.
unfoldable select_interface : String → M InterfaceView (Unit {0})
unfolding Interfaces.get_selected PeerRequests.load_peers PeerRequests.load_stats
select_interface id =
    (update (λ s. record s { interfaces = record s.interfaces { selected = id } }) >> state)
    >>= λ s.
        alone (in_peers (PeerRequests.load_peers "" (Interfaces.get_selected s.interfaces)))
        >> alone (in_peers (PeerRequests.load_stats "" (Interfaces.get_selected s.interfaces)))
