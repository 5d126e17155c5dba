-- ===== src/Dialogs/InterfaceEdit.antt =====
-- The dialog for an interface (the script of frontend/src/components/InterfaceEditModal.vue): how the
-- form is filled, closed, saved, deleted, and applied to the peers. Titles are left out.
pub mod Fields
pub mod Defaults
pub mod Laws
pub mod Session
pub mod Applying
pub mod Progress
pub mod Inputs
pub mod Identity
use wg_portal.Prelude.{
  String, List, [], ◌∷◌, Option, some, none, Bool, true, false, not, ◌===◌, if◌then◌else◌, is_some,
  is_empty,
}
use wg_portal.Dialogs.{within, with_selected, once, answered}
use wg_portal.Interfaces
use wg_portal.Interfaces.{InterfaceStore, interface_key}
use wg_portal.Interfaces.Requests
use wg_portal.Js.{
  M, Reply, reject, type_error, update, state, return, pass, emit, notify, ◌>>=◌, ◌>>◌,
}
use wg_portal.Models.{Interface, fresh_interface, Peer}
use wg_portal.Peers.{PeerStore}
use wg_portal.Peers.Requests as PeerRequests

-- The dialog is visible while it has the identifier of an interface; `#NEW#` stands for a new one.
-- `backends` are the identifiers of the setting AvailableBackends.
pub record InterfaceForm : Type 0 where
  pub interfaces : InterfaceStore
  pub peers : PeerStore
  pub backends : List String
  pub interface_id : String
  pub form : Interface
  pub is_saving : Bool
  pub is_deleting : Bool
  pub is_applying_defaults : Bool

-- `selectedInterface`
abbrev pub selected_interface : InterfaceForm → Option Interface
selected_interface s = Interfaces.find s.interfaces s.interface_id

-- `availableBackends.forEach(…)`
unfoldable pub has_backend : String → List String → Bool → Bool
has_backend id [] valid = valid
has_backend id (b ∷ bs) valid = has_backend id bs (if b === id then true else valid)

unfoldable pub is_backend_valid : InterfaceForm → Bool
unfolding has_backend
is_backend_valid s = if is_empty s.interface_id then true else elim (selected_interface s) [
  | none ↦ true
  | some i ↦ has_backend i.backend s.backends false
]

-- The assignments that fill the form with an existing interface: all but DnsStr, TotalPeers,
-- EnabledPeers and Filename.
unfoldable pub fill_existing : Interface → Interface → Interface
fill_existing i form = record i {
  dns_str = form.dns_str;
  total_peers = form.total_peers;
  enabled_peers = form.enabled_peers;
  filename = form.filename;
}

-- With a prepared interface, Disabled stays too.
unfoldable pub fill_prepared : Interface → Interface → Interface
fill_prepared i form = record i {
  disabled = form.disabled;
  dns_str = form.dns_str;
  total_peers = form.total_peers;
  enabled_peers = form.enabled_peers;
  filename = form.filename;
}

abbrev pub put_form : (Interface → Interface) → InterfaceForm → InterfaceForm
put_form f s = record s { form = f s.form }

abbrev pub in_interfaces {ℓ} : {A : Type ℓ} → M InterfaceStore A → M InterfaceForm A
in_interfaces = within (λ s. s.interfaces) (λ i s. record s { interfaces = i })

abbrev pub in_peers {ℓ} : {A : Type ℓ} → M PeerStore A → M InterfaceForm A
in_peers = within (λ s. s.peers) (λ p s. record s { peers = p })

-- By `selectedInterface`: the form is filled, or a prepared interface is requested.
unfoldable pub present : Option Interface → M InterfaceForm (Unit {0})
unfolding fill_existing Requests.prepare_interface
present (some i) = update (put_form (fill_existing i))
present none = in_interfaces Requests.prepare_interface

unfoldable pub show : String → M InterfaceForm (Unit {0})
unfolding present
show id = do update (λ s. record s { interface_id = id }); s ← state; present (selected_interface s)

unfoldable pub show_reply : Reply Interface → M InterfaceForm (Unit {0})
unfolding fill_prepared Requests.prepare_interface_reply
show_reply r = do
  in_interfaces (Requests.prepare_interface_reply r)
  update (λ s. put_form (fill_prepared s.interfaces.prepared) s)

-- `close()`: the parent component then hides the dialog.
unfoldable pub close : InterfaceForm → InterfaceForm
close s = record s { form = fresh_interface; interface_id = "" }

abbrev pub of_selected : (String → M InterfaceForm (Unit {0})) → M InterfaceForm (Unit {0})
of_selected m w = with_selected interface_key m (selected_interface w.store) w

abbrev pub set_saving : Bool → InterfaceForm → InterfaceForm
set_saving b s = record s { is_saving = b }

abbrev pub set_deleting : Bool → InterfaceForm → InterfaceForm
set_deleting b s = record s { is_deleting = b }

abbrev pub set_applying : Bool → InterfaceForm → InterfaceForm
set_applying b s = record s { is_applying_defaults = b }

-- The body of the try block of save, by whether the dialog is for an existing interface.
unfoldable pub submit : Bool → M InterfaceForm (Unit {0})
unfolding Requests.update_interface Requests.create_interface
submit true = of_selected (λ id. in_interfaces (Requests.update_interface id))
submit false = in_interfaces Requests.create_interface

unfoldable pub save : M InterfaceForm Bool
unfolding submit
save = state >>= λ s.
    once (λ s. s.is_saving) set_saving "Failed to save interface!"
      (submit (not (s.interface_id === "#NEW#")))

-- The reply to UpdateInterface of an identifier, or to CreateInterface, in the store.
unfoldable pub store_reply : Option String → Reply Interface → M InterfaceStore (Unit {0})
unfolding Requests.update_interface_reply Requests.create_interface_reply
store_reply (some id) r = Requests.update_interface_reply id r
store_reply none r = Requests.create_interface_reply r

unfoldable pub save_reply : Option String → Reply Interface → M InterfaceForm (Unit {0})
unfolding close store_reply
save_reply target r =
    answered (λ s. s.is_saving) set_saving "Failed to save interface!"
      (in_interfaces (store_reply target r) >> update close)

unfoldable pub del : M InterfaceForm Bool
unfolding Requests.delete_interface
del =
    once (λ s. s.is_deleting) set_deleting "Failed to delete interface!"
      (of_selected (λ id. in_interfaces (Requests.delete_interface id)))

unfoldable pub del_reply : String → Reply (Unit {0}) → M InterfaceForm (Unit {0})
unfolding close Requests.delete_interface_reply
del_reply id r =
    answered (λ s. s.is_deleting) set_deleting "Failed to delete interface!"
      (in_interfaces (Requests.delete_interface_reply id r) >> update close)
