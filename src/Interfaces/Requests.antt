-- ===== src/Interfaces/Requests.antt =====
-- The actions of the interface store that call the backend. Each is what runs up to the request,
-- and what runs on its reply.
use wg_portal.Prelude.{String, List, [], ◌∷◌, true, false}
use wg_portal.Js.{
  M, get, post, put, delete, request, notify, lit, coded, emit, update, encoded, reject, settle,
  Reply, Thrown, error, text_of, ◌>>◌, ◌>>=◌,
}
use wg_portal.Js.Array.{assign, push}
use wg_portal.Js.Keyed.{index_key, remove_key}
use wg_portal.Models.{Interface, fresh_interface}
use wg_portal.Interfaces.{
  InterfaceStore, interface_key, first_identifier, set_fetching, set_interfaces,
  set_prepared_interface, set_interface_config,
}

-- `fetching` is reset, and a new error is thrown.
abbrev pub give_up : Thrown → M InterfaceStore (Unit {0})
give_up e = do set_fetching false; reject (error (text_of e))

-- A notification that the backend failed.
abbrev pub report : String → M InterfaceStore (Unit {0})
report t = emit (notify "Backend Connection Failure" t)

unfoldable pub load_interfaces : M InterfaceStore (Unit {0})
load_interfaces = do set_fetching true; emit (request get (lit "/interface/all" ∷ []))

unfoldable pub load_interfaces_reply : Reply (List Interface) → M InterfaceStore (Unit {0})
load_interfaces_reply r =
    settle r set_interfaces (λ e. do set_interfaces []; report "Failed to load interfaces!")

unfoldable pub prepare_interface : M InterfaceStore (Unit {0})
prepare_interface = emit (request get (lit "/interface/prepare" ∷ []))

unfoldable pub prepare_interface_reply : Reply Interface → M InterfaceStore (Unit {0})
prepare_interface_reply r = settle r set_prepared_interface (λ e. do
  update (λ s. record s { prepared = fresh_interface })
  report "Failed to load prepared interface!")

unfoldable pub load_interface_config : String → M InterfaceStore (Unit {0})
load_interface_config id = do
  p ← encoded id
  emit (request get (lit "/interface/config/" ∷ coded p ∷ []))

unfoldable pub load_interface_config_reply : Reply String → M InterfaceStore (Unit {0})
load_interface_config_reply r = settle r set_interface_config (λ e. do
  update (λ s. record s { configuration = "" })
  report "Failed to load interface configuration!")

unfoldable pub delete_interface : String → M InterfaceStore (Unit {0})
delete_interface id = do
  set_fetching true
  p ← encoded id
  emit (request delete (lit "/interface/" ∷ coded p ∷ []))

-- The deleted interface is removed, and the first of the others is selected.
unfoldable pub delete_interface_reply : String → Reply (Unit {0}) → M InterfaceStore (Unit {0})
delete_interface_reply id r =
    settle r
      (λ _. do
        update (λ s. record s { interfaces = remove_key interface_key id s.interfaces })
        update (λ s. record s { selected = first_identifier s.interfaces; fetching = false }))
      give_up

unfoldable pub update_interface : String → M InterfaceStore (Unit {0})
update_interface id = do
  set_fetching true
  p ← encoded id
  emit (request put (lit "/interface/" ∷ coded p ∷ []))

unfoldable pub update_interface_reply : String → Reply Interface → M InterfaceStore (Unit {0})
update_interface_reply id r =
    settle r
      (λ iface. update (λ s. record s {
        interfaces = assign s.interfaces (index_key interface_key id s.interfaces) iface;
        fetching = false;
      }))
      give_up

unfoldable pub create_interface : M InterfaceStore (Unit {0})
create_interface = do set_fetching true; emit (request post (lit "/interface/new" ∷ []))

unfoldable pub create_interface_reply : Reply Interface → M InterfaceStore (Unit {0})
create_interface_reply r =
    settle r
      (λ iface. update (λ s. record s { interfaces = push s.interfaces iface; fetching = false }))
      give_up

unfoldable pub apply_peer_defaults : String → M InterfaceStore (Unit {0})
apply_peer_defaults id = do
  set_fetching true
  p ← encoded id
  emit (request post (lit "/interface/" ∷ coded p ∷ lit "/apply-peer-defaults" ∷ []))

unfoldable pub apply_peer_defaults_reply : Reply (Unit {0}) → M InterfaceStore (Unit {0})
apply_peer_defaults_reply r = settle r (λ _. set_fetching false) give_up

unfoldable pub save_configuration : String → M InterfaceStore (Unit {0})
save_configuration id = do
  set_fetching true
  p ← encoded id
  emit (request post (lit "/interface/" ∷ coded p ∷ lit "/save-config" ∷ []))

unfoldable pub save_configuration_reply : Reply (Unit {0}) → M InterfaceStore (Unit {0})
save_configuration_reply r = settle r (λ _. set_fetching false) give_up
