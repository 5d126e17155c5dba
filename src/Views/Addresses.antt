-- ===== src/Views/Addresses.antt =====
-- The addresses of an interface or a peer, separated for the table
-- (frontend/src/views/InterfaceView.vue, components/UserViewModal.vue). A text is the list of its
-- code units.
pub mod Laws
use wg_portal.Prelude.{
  ℕ, List, [], ◌∷◌, ◌++◌, Option, some, none, Bool, true, false, not, ◌&&◌, ◌||◌, leb, ◌==◌,
  if◌then◌else◌, map,
}
use wg_portal.Js.Array.{filter}

abbrev pub Text : Type 0
Text = List ℕ

-- `texts.join(',')`
unfoldable pub join : List Text → Text
join [] = []
join (t ∷ []) = t
join (t ∷ u ∷ ts) = t ++ b',' ∷ join (u ∷ ts)

abbrev put_first : ℕ → List Text → List Text
put_first c [] = (c ∷ []) ∷ []
put_first c (t ∷ ts) = (c ∷ t) ∷ ts

-- `text.split(',')`
unfoldable pub split : Text → List Text
split [] = [] ∷ []
split (c ∷ s) = if c == b',' then [] ∷ split s else put_first c (split s)

-- White space of JavaScript.
abbrev is_space : ℕ → Bool
is_space c =
    leb 9 c && leb c 13
    || c == 32
    || c == 0xA0
    || c == 0x1680
    || leb 0x2000 c && leb c 0x200A
    || c == 0x2028
    || c == 0x2029
    || c == 0x202F
    || c == 0x205F
    || c == 0x3000
    || c == 0xFEFF

unfoldable pub trim_start : Text → Text
trim_start [] = []
trim_start (c ∷ s) = if is_space c then trim_start s else c ∷ s

abbrev trimmed : ℕ → Text → Text
trimmed c [] = if is_space c then [] else c ∷ []
trimmed c (d ∷ s) = c ∷ d ∷ s

unfoldable pub trim_end : Text → Text
trim_end [] = []
trim_end (c ∷ s) = trimmed c (trim_end s)

-- `text.trim()`
abbrev pub trim : Text → Text
trim s = trim_end (trim_start s)

abbrev pub non_empty : Text → Bool
non_empty [] = false
non_empty (_ ∷ _) = true

-- `addresses.join(',').split(',').map(a => a.trim()).filter(Boolean)`
unfoldable pub get_all_addresses : List Text → List Text
unfolding join split trim_start trim_end
get_all_addresses addresses = filter non_empty (map trim (split (join addresses)))

-- `/^\d/.test(addr)`
abbrev pub starts_with_digit : Text → Bool
starts_with_digit [] = false
starts_with_digit (c ∷ _) = leb b'0' c && leb c b'9'

-- `addr.includes(':')`
abbrev pub has_colon : Text → Bool
has_colon [] = false
has_colon (c ∷ s) = c == b':' || has_colon s

unfoldable pub ipv4_addresses : List Text → List Text
unfolding get_all_addresses
ipv4_addresses addresses = filter starts_with_digit (get_all_addresses addresses)

unfoldable pub ipv6_addresses : List Text → List Text
unfolding get_all_addresses
ipv6_addresses addresses = filter has_colon (get_all_addresses addresses)

pub record Separated : Type 0 where
  pub ipv4 : List Text
  pub ipv6 : List Text

unfoldable pub get_peer_addresses : List Text → Separated
unfolding get_all_addresses
get_peer_addresses addresses =
    let all = get_all_addresses addresses in
    record { ipv4 = filter starts_with_digit all; ipv6 = filter has_colon all }
