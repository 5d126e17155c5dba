-- ===== src/Views/Rows.antt =====
-- The rows of the tables of peers and users (the templates of frontend/src/views/InterfaceView.vue,
-- ProfileView.vue and UserView.vue). Sizes of traffic are left as numbers of bytes.
use wg_portal.Prelude.{
  ℕ, String, List, [], ◌∷◌, Option, none, some, Bool, true, false, not, ◌&&◌, if◌then◌else◌,
  is_empty, map, units, ◌===◌,
}
use wg_portal.Datetime.{Datetime, format_rfc3339_to_datetime}
use wg_portal.Dialogs.PeerForm.{Clock}
use wg_portal.Dialogs.PeerForm.Fill.{timestamp}
use wg_portal.Models.{Interface, Peer, Stats, User}
use wg_portal.Peers
use wg_portal.Peers.{PeerStore, get_total_traffic}
use wg_portal.Profile
use wg_portal.Profile.{ProfileStore}
use wg_portal.Views.Addresses.{Text, Separated, get_peer_addresses}
use wg_portal.Views.Expiry.{Tooltip, format_expiry_tooltip}
use wg_portal.Views.Texts.{truncate}

-- Is the peer connected, and since which handshake.
pub data Connection : Type 0 where
  connected : Option String → Connection
  unconnected : Connection

-- The name of a peer, or the beginning of its identifier.
unfoldable name_of : Peer → Text
unfolding truncate
name_of p =
    if is_empty p.display_name then truncate (units p.identifier) 10 [] else units p.display_name

-- The icon of a peer that expires, with its tooltip.
unfoldable expiring : Clock → Peer → Option Tooltip
unfolding format_expiry_tooltip
expiring c p = elim p.expires_at [
  | none ↦ none
  | some t ↦
      if not p.disabled && not (is_empty t)
      then some (format_expiry_tooltip c p.expires_at)
      else none
]

abbrev connection : Stats → Connection
connection s = if s.is_connected then connected s.last_handshake else unconnected

unfoldable expiry : Clock → Option String → Option Datetime
unfolding format_rfc3339_to_datetime
expiry c none = none
expiry c (some t) =
    if is_empty t then none else some (format_rfc3339_to_datetime c.zone (timestamp c (some t)))

-- A row of the view of an interface. The endpoint is shown for a client, the connection and the
-- traffic (received, transmitted) with statistics.
record PeerRow : Type 0 where
  pub selected : Bool
  pub disabled : Bool
  pub expires : Option Tooltip
  pub name : Text
  pub user : String
  pub addresses : Separated
  pub expires_at : Option Datetime
  pub endpoint : Option String
  pub connection : Option Connection
  pub traffic : Option (ℕ × ℕ)

unfoldable pub traffic : Stats → ℕ × ℕ
unfolding get_total_traffic
traffic s = (get_total_traffic (some s) true, get_total_traffic (some s) false)

unfoldable peer_row : Clock → Interface → PeerStore → Peer → PeerRow
unfolding name_of expiring traffic get_peer_addresses Peers.statistics expiry
peer_row c i s p =
    let stats = Peers.statistics s p.identifier in
    record {
      selected = p.is_selected;
      disabled = p.disabled;
      expires = expiring c p;
      name = name_of p;
      user = p.user_identifier;
      addresses = get_peer_addresses (map units p.addresses);
      expires_at = expiry c p.expires_at;
      endpoint = if i.mode === "client" then some p.endpoint.value else none;
      connection = if s.stats_enabled then some (connection stats) else none;
      traffic = if s.stats_enabled then some (traffic stats) else none;
    }

-- A row of the view of the user's own peers.
record OwnPeerRow : Type 0 where
  pub selected : Bool
  pub disabled : Bool
  pub expires : Option Tooltip
  pub name : Text
  pub addresses : List String
  pub connection : Option Connection
  pub traffic : Option (ℕ × ℕ)
  pub interface_identifier : String

unfoldable own_peer_row : Clock → ProfileStore → Peer → OwnPeerRow
unfolding name_of expiring Profile.statistics
own_peer_row c s p =
    let stats = Profile.statistics s p.identifier in
    record {
      selected = p.is_selected;
      disabled = p.disabled;
      expires = expiring c p;
      name = name_of p;
      addresses = p.addresses;
      connection = if s.stats_enabled then some (connection stats) else none;
      traffic =
          if s.stats_enabled then some (stats.bytes_received, stats.bytes_transmitted) else none;
      interface_identifier = p.interface_identifier;
    }

-- A row of the view of the users; the icons of a user who is disabled and of one who is locked come
-- with the reason.
record UserRow : Type 0 where
  pub selected : Bool
  pub disabled : Option String
  pub locked : Option String
  pub texts : List String
  pub peer_count : ℕ
  pub is_admin : Bool

abbrev icon : Bool → String → Option String
icon true reason = some reason
icon false reason = none

unfoldable user_row : User → UserRow
user_row u = record {
  selected = u.is_selected;
  disabled = icon u.disabled u.disabled_reason;
  locked = icon u.locked u.locked_reason;
  texts = u.identifier ∷ u.email ∷ u.firstname ∷ u.lastname ∷ u.source ∷ [];
  peer_count = u.peer_count;
  is_admin = u.is_admin;
}
