-- ===== src/Dialogs/InterfaceEdit/Inputs/Defaults.antt =====
-- The inputs of the tab with the defaults for the peers of an interface
-- (the template of frontend/src/components/InterfaceEditModal.vue).
use wg_portal.Prelude.{ℕ, String, List, Bool, ◌===◌}
use wg_portal.Dialogs.InterfaceEdit.{InterfaceForm, put_form}
use wg_portal.Dialogs.InterfaceEdit.Fields.{
  handle_change_peer_def_network, handle_change_peer_def_allowed_ips, handle_change_peer_def_dns,
  handle_change_peer_def_dns_search,
}
use wg_portal.Js.{M, update}
use wg_portal.Models.{Interface}
use wg_portal.Validators.{NetworkLibrary}

-- The input of the routing table gives a number; here it is the text of it.
pub data DefaultField : Type 0 where
  endpoint : String → DefaultField
  network : List String → DefaultField
  allowed_ips : List String → DefaultField
  dns : List String → DefaultField
  dns_search : List String → DefaultField
  mtu : ℕ → DefaultField
  firewall_mark : ℕ → DefaultField
  routing_table : String → DefaultField
  persistent_keepalive : ℕ → DefaultField
  pre_up : String → DefaultField
  post_up : String → DefaultField
  pre_down : String → DefaultField
  post_down : String → DefaultField

-- The tab can be opened while the mode is `server`.
unfoldable pub shows_defaults : InterfaceForm → Bool
shows_defaults s = s.form.mode === "server"

-- `v-model` of each input.
unfoldable pub write_default : DefaultField → Interface → Interface
write_default (endpoint t) f = record f { peer_def_endpoint = t }
write_default (mtu n) f = record f { peer_def_mtu = n }
write_default (firewall_mark n) f = record f { peer_def_firewall_mark = n }
write_default (routing_table t) f = record f { peer_def_routing_table = t }
write_default (persistent_keepalive n) f = record f { peer_def_persistent_keepalive = n }
write_default (pre_up t) f = record f { peer_def_pre_up = t }
write_default (post_up t) f = record f { peer_def_post_up = t }
write_default (pre_down t) f = record f { peer_def_pre_down = t }
write_default (post_down t) f = record f { peer_def_post_down = t }
write_default _ f = f

-- The inputs of tags have handlers; the others write the form.
unfoldable pub enters_default : NetworkLibrary → DefaultField → M InterfaceForm (Unit {0})
unfolding write_default handle_change_peer_def_network handle_change_peer_def_allowed_ips
    handle_change_peer_def_dns handle_change_peer_def_dns_search
enters_default lib (network tags) = handle_change_peer_def_network lib tags
enters_default lib (allowed_ips tags) = handle_change_peer_def_allowed_ips lib tags
enters_default lib (dns tags) = handle_change_peer_def_dns lib tags
enters_default lib (dns_search tags) = handle_change_peer_def_dns_search tags
enters_default lib i = update (put_form (write_default i))
