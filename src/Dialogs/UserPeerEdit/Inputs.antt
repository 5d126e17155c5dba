-- ===== src/Dialogs/UserPeerEdit/Inputs.antt =====
-- The inputs of the dialog for a peer of the signed-in user (the template of
-- frontend/src/components/UserPeerEditModal.vue).
use wg_portal.Prelude.{ℕ, String, Option, Bool, not, ◌&&◌, ◌===◌}
use wg_portal.Datetime.{TimeText}
use wg_portal.Dialogs.PeerForm.{PeerForm, Kind, edit}
use wg_portal.Js.{M, update}
use wg_portal.Models.{Peer}

-- An input with what the user enters; an emptied date is `none`.
pub data Field : Type 0 where
  display_name : String → Field
  private_key : String → Field
  public_key : String → Field
  preshared_key : String → Field
  persistent_keepalive : ℕ → Field
  mtu : ℕ → Field
  pre_up : String → Field
  post_up : String → Field
  pre_down : String → Field
  post_down : String → Field
  disabled : Bool → Field
  expiry_date : Option ℕ → Field
  expiry_time : TimeText → Field

-- `v-model` of the inputs of the form.
unfoldable pub write : Field → Peer → Peer
write (display_name t) f = record f { display_name = t }
write (private_key t) f = record f { private_key = t }
write (public_key t) f = record f { public_key = t }
write (preshared_key t) f = record f { preshared_key = t }
write (persistent_keepalive n) f = record f {
  persistent_keepalive = record f.persistent_keepalive { value = n };
}
write (mtu n) f = record f { mtu = record f.mtu { value = n } }
write (pre_up t) f = record f { pre_up = record f.pre_up { value = t } }
write (post_up t) f = record f { post_up = record f.post_up { value = t } }
write (pre_down t) f = record f { pre_down = record f.pre_down { value = t } }
write (post_down t) f = record f { post_down = record f.post_down { value = t } }
write (disabled b) f = record f { disabled = b }
write _ f = f

unfoldable pub enters : Kind → Field → M PeerForm (Unit {0})
unfolding write edit
enters k (expiry_date d) = update (λ s. record s { expiry_date = d })
enters k (expiry_time t) = update (λ s. record s { expiry_time = t })
enters k i = update (edit k (write i))

-- The buttons: `v-if` and `:disabled`.
unfoldable pub offers_delete : PeerForm → Bool
offers_delete s = not (s.peer_id === "#NEW#") && not s.is_deleting

unfoldable pub offers_save : PeerForm → Bool
offers_save s = not s.is_saving
