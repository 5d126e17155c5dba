-- ===== src/Dialogs/PeerEdit/Inputs.antt =====
-- The inputs of the dialog for a peer of an interface (the template of
-- frontend/src/components/PeerEditModal.vue).
use wg_portal.Prelude.{ℕ, String, List, Option, some, none, Bool, true, false, not, ◌&&◌, ◌===◌}
use wg_portal.Datetime.{TimeText}
use wg_portal.Dialogs.PeerEdit.{
  handle_change_addresses, handle_change_allowed_ips, handle_change_extra_allowed_ips,
  handle_change_dns, handle_change_dns_search,
}
use wg_portal.Dialogs.PeerForm.{PeerForm, Kind, edit}
use wg_portal.Js.{M, update}
use wg_portal.Models.{Interface, Peer}
use wg_portal.Validators.{NetworkLibrary}

-- An input with what the user enters; an emptied date is `none`.
pub data Field : Type 0 where
  display_name : String → Field
  user_identifier : String → Field
  private_key : String → Field
  public_key : String → Field
  preshared_key : String → Field
  endpoint_public_key : String → Field
  endpoint : String → Field
  addresses : List String → Field
  allowed_ips : List String → Field
  extra_allowed_ips : List String → Field
  dns : List String → Field
  dns_search : List String → Field
  persistent_keepalive : ℕ → Field
  mtu : ℕ → Field
  pre_up : String → Field
  post_up : String → Field
  pre_down : String → Field
  post_down : String → Field
  disabled : Bool → Field
  ignore_global_settings : Bool → Field
  expiry_date : Option ℕ → Field
  expiry_time : TimeText → Field

-- The mode of `selectedInterface`; the template fails where there is none.
abbrev has_mode : String → Option Interface → Bool
has_mode mode none = false
has_mode mode (some i) = i.mode === mode

-- The `v-if` of each input.
unfoldable pub shows : Kind → Field → PeerForm → Bool
shows k (private_key _) s = has_mode "server" (k.iface s)
shows k (endpoint_public_key _) s = s.form.mode === "client"
shows k (endpoint _) s = has_mode "client" (k.iface s)
shows k _ s = true

-- `v-model` of the inputs of the form.
unfoldable pub write : Field → Peer → Peer
write (display_name t) f = record f { display_name = t }
write (user_identifier t) f = record f { user_identifier = t }
write (private_key t) f = record f { private_key = t }
write (public_key t) f = record f { public_key = t }
write (preshared_key t) f = record f { preshared_key = t }
write (endpoint_public_key t) f = record f {
  endpoint_public_key = record f.endpoint_public_key { value = t };
}
write (endpoint t) f = record f { endpoint = record f.endpoint { value = t } }
write (persistent_keepalive n) f = record f {
  persistent_keepalive = record f.persistent_keepalive { value = n };
}
write (mtu n) f = record f { mtu = record f.mtu { value = n } }
write (pre_up t) f = record f { pre_up = record f.pre_up { value = t } }
write (post_up t) f = record f { post_up = record f.post_up { value = t } }
write (pre_down t) f = record f { pre_down = record f.pre_down { value = t } }
write (post_down t) f = record f { post_down = record f.post_down { value = t } }
write (disabled b) f = record f { disabled = b }
write (ignore_global_settings b) f = record f { ignore_global_settings = b }
write _ f = f

-- The inputs of tags have handlers, the date and the time of the expiry are beside the form, and
-- the others write the form, which is watched.
unfoldable pub enters : Kind → NetworkLibrary → Field → M PeerForm (Unit {0})
unfolding write edit handle_change_addresses handle_change_allowed_ips
    handle_change_extra_allowed_ips handle_change_dns handle_change_dns_search
enters k lib (addresses tags) = handle_change_addresses k lib tags
enters k lib (allowed_ips tags) = handle_change_allowed_ips k lib tags
enters k lib (extra_allowed_ips tags) = handle_change_extra_allowed_ips k lib tags
enters k lib (dns tags) = handle_change_dns k lib tags
enters k lib (dns_search tags) = handle_change_dns_search k tags
enters k lib (expiry_date d) = update (λ s. record s { expiry_date = d })
enters k lib (expiry_time t) = update (λ s. record s { expiry_time = t })
enters k lib i = update (edit k (write i))

-- The buttons: `v-if` and `:disabled`.
unfoldable pub offers_delete : PeerForm → Bool
offers_delete s = not (s.peer_id === "#NEW#") && not s.is_deleting

unfoldable pub offers_save : PeerForm → Bool
offers_save s = not s.is_saving
