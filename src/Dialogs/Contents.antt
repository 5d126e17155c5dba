-- ===== src/Dialogs/Contents.antt =====
-- What the dialogs that show a peer and a user have on the page (the templates of
-- frontend/src/components/PeerViewModal.vue and UserViewModal.vue).
use wg_portal.Prelude.{
  ℕ, String, List, [], ◌∷◌, ◌++◌, Option, none, some, Bool, true, false, is_empty, not, map, units,
  ◌===◌,
}
use wg_portal.Dialogs.PeerView.{ExpiryText}
use wg_portal.Models.{Peer, Stats, User}
use wg_portal.Peers.{get_total_traffic}
use wg_portal.Views.Addresses.{Separated, get_peer_addresses}

abbrev line_if {ℓ} : {A : Type ℓ} → Bool → A → List A
line_if true x = x ∷ []
line_if false x = []

-- What stands at a label.
data Cell : Type 0 where
  text : String → Cell
  texts : List String → Cell
  flag : Bool → Cell
  number : ℕ → Cell
  moment : Option String → Cell
  expiry : ExpiryText → Cell

abbrev has_expiry : Option String → Bool
has_expiry none = false
has_expiry (some t) = not (is_empty t)

-- The list of a peer, given the text of its expiry, and the reason why it is disabled, which is a
-- field of the backend's reply only.
unfoldable peer_lines : ExpiryText → String → Peer → List (String × Cell)
peer_lines e reason p =
    ("identifier", text p.public_key)
      ∷ ("ip", texts p.addresses)
      ∷ ("user", text p.user_identifier)
      ∷ line_if (not (is_empty p.notes)) ("notes", text p.notes)
    ++ line_if (has_expiry p.expires_at) ("expiry-status", expiry e)
    ++ line_if p.disabled ("disabled-status", text reason)

unfoldable status_lines : Stats → List (String × Cell)
status_lines s =
    ("download", number (get_total_traffic (some s) true))
    ∷ ("upload", number (get_total_traffic (some s) false))
    ∷ ("pingable", flag s.is_pingable)
    ∷ ("handshake", moment s.last_handshake)
    ∷ ("connected-since", moment s.last_session_start)
    ∷ ("endpoint", text s.endpoint_address)
    ∷ []

-- The sections of the dialog; the configuration is there for an interface of a server.
data Section : Type 0 where
  info status config : Section

unfoldable sections : String → List Section
sections mode = info ∷ status ∷ line_if (mode === "server") config

-- A field of the user `{}` is undefined, which is shown as nothing.
abbrev of_user : (User → Cell) → Option User → Cell
of_user f none = text ""
of_user f (some u) = f u

abbrev is_user : (User → Bool) → Option User → Bool
is_user f none = false
is_user f (some u) = f u

unfoldable user_lines : Option User → List (String × Cell)
user_lines o =
    ("email", of_user (λ u. text u.email) o)
      ∷ ("firstname", of_user (λ u. text u.firstname) o)
      ∷ ("lastname", of_user (λ u. text u.lastname) o)
      ∷ ("phone", of_user (λ u. text u.phone) o)
      ∷ ("department", of_user (λ u. text u.department) o)
      ∷ ("api-enabled", of_user (λ u. flag u.api_enabled) o)
      ∷ line_if (is_user (λ u. u.disabled) o) ("disabled", of_user (λ u. text u.disabled_reason) o)
    ++ line_if (is_user (λ u. u.locked) o) ("locked", of_user (λ u. text u.locked_reason) o)

-- The notes are on the page where there are any.
unfoldable user_notes : Option User → List String
user_notes none = []
user_notes (some u) = line_if (not (is_empty u.notes)) u.notes

-- A row of the peers of the user.
record UserPeerRow : Type 0 where
  pub name : String
  pub interface_identifier : String
  pub addresses : Separated

unfoldable user_peer_row : Peer → UserPeerRow
unfolding get_peer_addresses
user_peer_row p = record {
  name = p.display_name;
  interface_identifier = p.interface_identifier;
  addresses = get_peer_addresses (map units p.addresses);
}
