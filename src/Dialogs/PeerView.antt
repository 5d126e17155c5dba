-- ===== src/Dialogs/PeerView.antt =====
-- The dialog that shows a peer (the script of frontend/src/components/PeerViewModal.vue). Titles are
-- left out.
pub mod Laws
use wg_portal.Prelude.{
  ℕ, String, List, [], ◌∷◌, Option, some, none, Bool, true, false, map_option, if◌then◌else◌,
  is_empty, units,
}
use wg_portal.Datetime.{
  Zone, Timestamp, missing, invalid, instant, TimeText, empty, Datetime, format_rfc3339_to_datetime,
}
use wg_portal.Dialogs.{within, click_download}
use wg_portal.Encoding.Uri.{encode_uri_component}
use wg_portal.Encoding.{base64_url_encode}
use wg_portal.Js.{
  M, Reply, reject, type_error, update, state, catch, emit, notify, text_of, ◌>>=◌, ◌>>◌,
}
use wg_portal.Js.Keyed.{first_some}
use wg_portal.Models.{Peer, fresh_peer, Stats}
use wg_portal.Peers
use wg_portal.Peers.{PeerStore}
use wg_portal.Peers.Requests
use wg_portal.Profile
use wg_portal.Profile.{ProfileStore}

pub record PeerView : Type 0 where
  pub peers : PeerStore
  pub profile : ProfileStore
  pub peer_id : String
  pub config_string : String
  pub config_style : String

abbrev pub in_peers {ℓ} : {A : Type ℓ} → M PeerStore A → M PeerView A
in_peers = within (λ s. s.peers) (λ p s. record s { peers = p })

-- `selectedPeer`
unfoldable pub selected_peer : PeerView → Option Peer
selected_peer s =
    first_some (Peers.find s.peers s.peer_id)
      (if is_empty s.peer_id then some fresh_peer else Profile.find_peers s.profile s.peer_id)

-- What is shown for ExpiresAt: nothing, a date and a time, or the text itself.
pub data ExpiryText : Type 0 where
  nothing : ExpiryText
  date_and_time : ℕ → TimeText → ExpiryText
  itself : ExpiryText

-- A time text of a date is not empty, since a timestamp gives both.
abbrev expiry_text : Datetime → ExpiryText
expiry_text d = elim d.date [ none ↦ itself | some day ↦ date_and_time day d.time ]

-- `formattedExpiryDate`, by what `new Date(expiresAt)` makes of the text.
unfoldable formatted_expiry_date : Zone → Timestamp → ExpiryText
formatted_expiry_date z missing = nothing
formatted_expiry_date z t = expiry_text (format_rfc3339_to_datetime z t)

-- `selectedStats`: the getter of the peer store always answers, so the code behind `if (!s)` is
-- never reached.
unfoldable pub selected_stats : PeerView → Stats
selected_stats s = Peers.statistics s.peers s.peer_id

abbrev with_peer : (String → M PeerView (Unit {0})) → Option Peer → M PeerView (Unit {0})
with_peer m none = reject type_error
with_peer m (some p) = m p.identifier

-- The call of LoadPeerConfig in both watchers.
unfoldable load_config : M PeerView (Unit {0})
unfolding selected_peer Requests.load_peer_config
load_config w =
    with_peer (λ id. in_peers (Requests.load_peer_config id w.store.config_style))
      (selected_peer w.store) w

unfoldable pub show : String → M PeerView (Unit {0})
unfolding load_config
show id = update (λ s. record s { peer_id = id }) >> load_config

unfoldable set_config_style : String → M PeerView (Unit {0})
unfolding load_config
set_config_style style = update (λ s. record s { config_style = style }) >> load_config

-- The reply to either.
unfoldable pub config_reply : Reply String → M PeerView (Unit {0})
unfolding Requests.load_peer_config_reply
config_reply r = do
  in_peers (Requests.load_peer_config_reply r)
  update (λ s. record s { config_string = s.peers.configuration })

-- `download()`: a TypeError where there is no peer.
unfoldable pub download : M PeerView (Unit {0})
unfolding selected_peer encode_uri_component
download w = elim (selected_peer w.store) [
  | none ↦ reject type_error w
  | some p ↦ click_download w.store.config_string p.filename w
]

-- `email()`: the call throws synchronously where there is no peer.
unfoldable email : M PeerView (Unit {0})
unfolding selected_peer Requests.mail_peer_config
email w =
    with_peer (λ _. in_peers (Requests.mail_peer_config w.store.config_style))
      (selected_peer w.store) w

unfoldable email_reply : Reply (Unit {0}) → M PeerView (Unit {0})
unfolding Requests.mail_peer_config_reply
email_reply r =
    catch (in_peers (Requests.mail_peer_config_reply r))
      (λ e. emit (notify "Failed to send mail with peer configuration!" (text_of e)))

-- The path of `ConfigQrUrl()` behind `/peer/config-qr/` and its style; `some none` is the empty URL,
-- `none` the error of an identifier that cannot be encoded.
unfoldable config_qr_url : PeerView → Option (Option (List ℕ × String))
config_qr_url s =
    if is_empty s.peer_id
    then some none
    else map_option (λ t. some (t, s.config_style)) (base64_url_encode (units s.peer_id))
