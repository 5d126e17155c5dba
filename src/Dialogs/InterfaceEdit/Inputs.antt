-- ===== src/Dialogs/InterfaceEdit/Inputs.antt =====
-- The inputs of the dialog for an interface (the template of
-- frontend/src/components/InterfaceEditModal.vue): the tab of the interface and that of the defaults
-- of its peers.
pub mod Defaults
use wg_portal.Prelude.{ℕ, String, List, Bool, true, false, not, ◌&&◌, ◌===◌, includes}
use wg_portal.Dialogs.InterfaceEdit.{InterfaceForm, put_form}
use wg_portal.Dialogs.InterfaceEdit.Fields.{
  handle_change_addresses, handle_change_dns, handle_change_dns_search,
}
use wg_portal.Js.{M, update}
use wg_portal.Models.{Interface}
use wg_portal.Validators.{NetworkLibrary}

pub data Mode : Type 0 where
  server client any : Mode

abbrev mode_text : Mode → String
mode_text server = "server"
mode_text client = "client"
mode_text any = "any"

-- An input with what the user enters.
pub data Field : Type 0 where
  identifier : String → Field
  mode : Mode → Field
  backend : String → Field
  display_name : String → Field
  private_key : String → Field
  public_key : String → Field
  addresses : List String → Field
  listen_port : ℕ → Field
  dns : List String → Field
  dns_search : List String → Field
  mtu : ℕ → Field
  firewall_mark : ℕ → Field
  routing_table : String → Field
  pre_up : String → Field
  post_up : String → Field
  pre_down : String → Field
  post_down : String → Field
  disabled : Bool → Field
  save_config : Bool → Field

-- The dialog is for a new interface.
abbrev pub is_new : InterfaceForm → Bool
is_new s = s.interface_id === "#NEW#"

abbrev is_server : InterfaceForm → Bool
is_server s = s.form.mode === "server"

abbrev is_local : InterfaceForm → Bool
is_local s = s.form.backend === "local"

-- The `v-if` of each input; a backend is one of those on offer.
unfoldable pub shows : Field → InterfaceForm → Bool
shows (identifier _) s = is_new s
shows (backend id) s = includes s.backends id
shows (listen_port _) s = is_server s
shows (dns _) s = not (is_server s)
shows (dns_search _) s = not (is_server s)
shows (firewall_mark _) s = is_local s
shows (routing_table _) s = is_local s
shows _ s = true

-- `v-model` of each input.
unfoldable pub write : Field → Interface → Interface
write (identifier t) f = record f { identifier = t }
write (mode m) f = record f { mode = mode_text m }
write (backend id) f = record f { backend = id }
write (display_name t) f = record f { display_name = t }
write (private_key t) f = record f { private_key = t }
write (public_key t) f = record f { public_key = t }
write (listen_port n) f = record f { listen_port = n }
write (mtu n) f = record f { mtu = n }
write (firewall_mark n) f = record f { firewall_mark = n }
write (routing_table t) f = record f { routing_table = t }
write (pre_up t) f = record f { pre_up = t }
write (post_up t) f = record f { post_up = t }
write (pre_down t) f = record f { pre_down = t }
write (post_down t) f = record f { post_down = t }
write (disabled b) f = record f { disabled = b }
write (save_config b) f = record f { save_config = b }
write _ f = f

-- The inputs of tags have handlers; the others write the form.
unfoldable pub enters : NetworkLibrary → Field → M InterfaceForm (Unit {0})
unfolding write handle_change_addresses handle_change_dns handle_change_dns_search
enters lib (addresses tags) = handle_change_addresses lib tags
enters lib (dns tags) = handle_change_dns lib tags
enters lib (dns_search tags) = handle_change_dns_search tags
enters lib i = update (put_form (write i))

-- The buttons: `v-if` and `:disabled`.
unfoldable pub offers_delete : InterfaceForm → Bool
offers_delete s = not (is_new s) && not s.is_deleting

unfoldable offers_apply : InterfaceForm → Bool
offers_apply s = not (is_new s) && not s.is_applying_defaults

unfoldable pub offers_save : InterfaceForm → Bool
offers_save s = not s.is_saving
