-- ===== src/Tests/Views.antt =====
-- The views (frontend/src/views/InterfaceView.vue, KeyGeneraterView.vue, SettingsView.vue, App.vue).
use wg_portal.Prelude.{
  ℕ, ◌+◌, ◌*◌, ◌/◌, ◌<◌, List, [], ◌∷◌, ◌++◌, units, some, none, true, false, length, pos, ◌≡◌,
  refl, arith, All,
}
use wg_portal.Auth.{UserInfo, load_store}
use wg_portal.Encoding.{base64_url_encode, url_safe, replace_first}
use wg_portal.Encoding.Base64.{btoa, decode_string}
use wg_portal.Helpers.{AddressLibrary}
use wg_portal.Interfaces
use wg_portal.Js.{Reply, World, fulfilled, rejected, error}
use wg_portal.Js.Array.{filter}
use wg_portal.Js.Paging.Numbers.{range_from}
use wg_portal.Models.{Peer, fresh_peer}
use wg_portal.Peers
use wg_portal.Peers.{peer_key}
use wg_portal.Views.Addresses.{
  Text, trim_start, trim_end, starts_with_digit, has_colon, get_peer_addresses,
}
use wg_portal.Views.Addresses.Laws.{IsClean, get_peer_addresses-clean}
use wg_portal.Views.InterfaceView.{InterfaceView}
use wg_portal.Views.KeyGenerator.{b64url_to_b64, array_buffer_to_base64}
use wg_portal.Views.KeyGenerator.Laws.{jwk_field, b64url_to_b64-jwk, array_buffer_to_base64-decode}
use wg_portal.Views.Passkeys.{Passkeys}
use wg_portal.Profile
use wg_portal.FetchWrapper.Received.{Received}
use wg_portal.Views.ProfileView.{ProfileView, mounted}
use wg_portal.Views.ProfileView.Laws.{first_loads, Visits, mounted-Visits}
use wg_portal.Views.Start.{App}
use wg_portal.Views.Window.{visible_pages}
use wg_portal.Views.Window.Laws.{IsWindow, visible_pages-IsWindow}

visible_pages-IsWindow_example : IsWindow 25 7 (visible_pages (range_from 1 25) (pos 7))
visible_pages-IsWindow_example = visible_pages-IsWindow 25 7 (omega arith) (omega arith)

-- `10.0.0.1` and `2001:db8::1`: the second begins with a digit too.
abbrev address4 : Text
address4 = b'1' ∷ b'0' ∷ b'.' ∷ b'0' ∷ b'.' ∷ b'0' ∷ b'.' ∷ b'1' ∷ []

abbrev address6 : Text
address6 = b'2' ∷ b'0' ∷ b'0' ∷ b'1' ∷ b':' ∷ b'd' ∷ b'b' ∷ b'8' ∷ b':' ∷ b':' ∷ b'1' ∷ []

address4-IsClean : IsClean address4
unfolding trim_start trim_end
address4-IsClean = record { no_comma = ground arith; no_space = refl; some_text = refl }

address6-IsClean : IsClean address6
unfolding trim_start trim_end
address6-IsClean = record { no_comma = ground arith; no_space = refl; some_text = refl }

get_peer_addresses-clean_example : get_peer_addresses (address4 ∷ address6 ∷ []) ≡ record {
  ipv4 = filter starts_with_digit (address4 ∷ address6 ∷ []);
  ipv6 = filter has_colon (address4 ∷ address6 ∷ []);
}
get_peer_addresses-clean_example =
    get_peer_addresses-clean (address4 ∷ address6 ∷ []) (address4-IsClean, (address6-IsClean, tt))

-- Three bytes whose base64 text has a plus and a slash, and one more.
abbrev key : List ℕ
key = 251 ∷ 255 ∷ 254 ∷ 7 ∷ []

key-bytes : All (λ c. c < 256) key
key-bytes = (omega arith, (omega arith, (omega arith, (omega arith, tt))))

b64url_to_b64-jwk_example :
    (t : List ℕ) × (b64url_to_b64 (jwk_field key) ≡ some t) × (decode_string t ≡ some key)
b64url_to_b64-jwk_example = b64url_to_b64-jwk key key-bytes

array_buffer_to_base64-decode_example :
    (t : List ℕ) × (array_buffer_to_base64 key ≡ some t)
    × (length t ≡ (length key + 2) / 3 * 4)
    × (decode_string t ≡ some key)
array_buffer_to_base64-decode_example = array_buffer_to_base64-decode key key-bytes

-- A page whose local storage names a user.
abbrev remembered : World (App ℕ)
remembered = record {
  store = record {
    auth = load_store (record {
      user = some (record {
        identifier = "bob";
        firstname = "";
        lastname = "";
        email = "";
        is_admin = false;
      });
      return_url = none;
    });
    security = record { csrf_token = "" };
    settings = record { settings = [] };
    theme = "light";
    stored_theme = some "dark";
    locale = "en";
    stored_language = none;
  };
  log = [];
}

-- A reply with the status 401 or 403, and another.
abbrev received : {A : Type 0} → Reply A → Received A
received r = record { reply = r; forbidden = false }

abbrev refused : {A : Type 0} → Received A
refused = record { reply = rejected (error "401"); forbidden = true }

abbrev laptop : Peer
laptop = record fresh_peer { identifier = "wg"; display_name = "laptop" }

abbrev phone : Peer
phone = record fresh_peer { identifier = "ph"; display_name = "phone" }

abbrev view : InterfaceView
view = record {
  interfaces = Interfaces.fresh_store;
  peers = record Peers.fresh_store { peers = laptop ∷ phone ∷ [] };
  backends = [];
  sort_key = none;
  ascending = true;
  select_all = true;
}

abbrev me : UserInfo
me = record { identifier = "wg0"; firstname = ""; lastname = ""; email = ""; is_admin = false }

-- The base64 text of `wg0`.
abbrev code : List ℕ
code = b'd' ∷ b'2' ∷ b'c' ∷ b'w' ∷ []

encode-me : base64_url_encode (units me.identifier) ≡ some code
unfolding base64_url_encode url_safe replace_first btoa
encode-me = refl

abbrev own_peers : World ProfileView
own_peers = record {
  store = record {
    profile = Profile.fresh_store;
    sort_key = none;
    ascending = true;
    select_all = false;
  };
  log = [];
}

mounted-Visits_example :
    Visits false (first_loads code (rejected (error "500")) (fulfilled (laptop ∷ [])) ++ []) (
      mounted
        (some me)
        (received (rejected (error "500")))
        (received (fulfilled (laptop ∷ [])))
        (received (rejected (error "503")))
        (received (fulfilled []))
        own_peers)
mounted-Visits_example =
    mounted-Visits me code (received (rejected (error "500"))) (received (fulfilled (laptop ∷ [])))
      (received (rejected (error "503"))) (received (fulfilled [])) own_peers refl refl refl refl
      encode-me (omega arith)

abbrev library : AddressLibrary
library = record { address4 = λ _. 0; address6 = λ _. 0 }

abbrev renaming : World Passkeys
renaming = record {
  store = record {
    auth = load_store (record { user = none; return_url = none });
    row = record { id = "k1"; name = some "old"; rename_mode = true; temp_name = some "new" };
  };
  log = [];
}
