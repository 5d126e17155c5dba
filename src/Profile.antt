-- ===== src/Profile.antt =====
-- The store of the signed-in user's own peers (frontend/src/stores/profile.js): its state, getters
-- and synchronous actions. `Requests` has the actions that call the backend, `Sorting`, `Laws` and
-- `Loads` what holds.
pub mod Requests
pub mod Sorting
pub mod Laws
pub mod Loads
use wg_portal.Prelude.{
  ℕ, ◌+◌, String, List, [], ◌∷◌, Option, some, none, Bool, true, false, ◌||◌, ◌&&◌, not,
  if◌then◌else◌, is_empty, includes_text, length, ltb, ℤ, or_else, is_some,
}
use wg_portal.Helpers.{AddressLibrary, ip_to_big_int}
use wg_portal.Js.{M, update, reject, type_error, ◌>>◌, ◌>>=◌}
use wg_portal.Js.Array
use wg_portal.Js.Keyed.{find_key}
use wg_portal.Js.Paging
use wg_portal.Js.Paging.{Pager, fresh_pager, turn, paged}
use wg_portal.Js.Sort.{Value, num, text, null, sort_by}
use wg_portal.Models.{Interface, Peer, User, Stats, fresh_stats}
use wg_portal.Peers.{StatsResponse, peer_key, stat}

-- The columns by which the view sorts (frontend/src/views/ProfileView.vue).
pub data SortKey : Type 0 where
  display_name addresses is_connected traffic : SortKey

-- The user `{}` is `none`.
pub record ProfileStore : Type 0 where
  pub peers : List Peer
  pub interfaces : List Interface
  pub selected_interface_id : String
  pub stats : List (String × Stats)
  pub stats_enabled : Bool
  pub user : Option User
  pub view : Pager
  pub open view use *
  pub fetching : Bool
  pub sort_key : SortKey
  pub ascending : Bool

abbrev pub fresh_store : ProfileStore
fresh_store = record {
  peers = [];
  interfaces = [];
  selected_interface_id = "";
  stats = [];
  stats_enabled = false;
  user = none;
  view = fresh_pager;
  fetching = false;
  sort_key = is_connected;
  ascending = false;
}

-- `FindPeers(id)`
abbrev pub find_peers : ProfileStore → String → Option Peer
find_peers s id = find_key peer_key id s.peers

abbrev count_peers : ProfileStore → ℕ
count_peers s = length s.peers

unfoldable pub filtered_peers : ProfileStore → List Peer
filtered_peers s =
    if is_empty s.filter
    then s.peers
    else Array.filter
        (λ p. includes_text p.display_name s.filter || includes_text p.identifier s.filter) s.peers

unfoldable pub filtered_peer_count : ProfileStore → ℕ
filtered_peer_count s = length (filtered_peers s)

-- `stats?.IsConnected ? 1 : 0`
abbrev connected : Option Stats → ℕ
connected none = 0
connected (some s) = if s.is_connected then 1 else 0

-- `stats.BytesReceived + stats.BytesTransmitted`: a TypeError with no statistics.
abbrev total_bytes : Option Stats → Option Value
total_bytes none = none
total_bytes (some s) = some (num (s.bytes_received + s.bytes_transmitted))

-- `aValue`, by the sort key; `none` is a TypeError.
unfoldable pub sort_value :
    AddressLibrary → SortKey → Bool → List (String × Stats) → Peer → Option Value
sort_value lib display_name enabled stats p = some (text p.display_name)
sort_value lib addresses enabled stats p = elim p.addresses [
  | [] ↦ some (num 0)
  | ip ∷ _ ↦ some (num (ip_to_big_int lib ip))
]
sort_value lib is_connected enabled stats p =
    some (num (if enabled then connected (stat stats p.identifier) else 0))
sort_value lib traffic enabled stats p =
    if enabled then total_bytes (stat stats p.identifier) else some (num 0)

unfoldable pub has_values : (Peer → Option Value) → List Peer → Bool
has_values value [] = true
has_values value (p ∷ ps) = is_some (value p) && has_values value ps

-- The comparison is called for each peer, where there are two.
unfoldable pub sorted : AddressLibrary → ProfileStore → Option (List Peer)
sorted lib s =
    let value = sort_value lib s.sort_key s.stats_enabled s.stats in
    let peers = filtered_peers s in
    if ltb 1 (length peers) && not (has_values value peers)
    then none
    else some (sort_by s.ascending (λ p. or_else (value p) null) peers)

unfoldable pub filtered_and_paged_peers : AddressLibrary → ProfileStore → Option (List Peer)
filtered_and_paged_peers lib s = elim (sorted lib s) [
  | none ↦ none
  | some peers ↦ some (paged s.view peers)
]

unfoldable pub has_next_page : ProfileStore → Bool
has_next_page s = Paging.has_next_page (filtered_peer_count s) s.view

unfoldable pub has_prev_page : ProfileStore → Bool
has_prev_page s = Paging.has_prev_page s.view

unfoldable pub current_page : ProfileStore → Option ℤ
current_page s = Paging.current_page s.view

unfoldable pub statistics : ProfileStore → String → Stats
statistics s id = if s.stats_enabled then or_else (stat s.stats id) fresh_stats else fresh_stats

abbrev count_interfaces : ProfileStore → ℕ
count_interfaces s = length s.interfaces

-- An action on the paging fields.
abbrev pub page : (ℕ → Pager → Option Pager) → M ProfileStore (Unit {0})
page = turn (λ s. s.view) (λ p s. record s { view = p }) filtered_peer_count

unfoldable pub after_page_size_change : M ProfileStore (Unit {0})
after_page_size_change = page Paging.after_page_size_change

unfoldable pub calculate_pages : M ProfileStore (Unit {0})
calculate_pages = page Paging.calculate_pages

unfoldable pub goto_page : ℕ → M ProfileStore (Unit {0})
goto_page k = page (λ count. Paging.goto_page count k)

unfoldable pub next_page : M ProfileStore (Unit {0})
next_page = page Paging.next_page

unfoldable pub previous_page : M ProfileStore (Unit {0})
previous_page = page Paging.previous_page

abbrev pub set_fetching : Bool → M ProfileStore (Unit {0})
set_fetching b = update (λ s. record s { fetching = b })

unfoldable pub set_peers : List Peer → M ProfileStore (Unit {0})
set_peers peers = update (λ s. record s { peers = peers; fetching = false })

unfoldable pub set_user : Option User → M ProfileStore (Unit {0})
set_user user = update (λ s. record s { user = user; fetching = false })

-- `setStats(statsResponse)`: at undefined or null the fields are reset, and then a field of it is read,
-- which throws; an empty text is the response with no statistics, which are not enabled.
unfoldable pub set_stats : Option StatsResponse → M ProfileStore (Unit {0})
set_stats none = do update (λ s. record s { stats = []; stats_enabled = false }); reject type_error
set_stats (some r) = update (λ s. record s { stats = r.stats; stats_enabled = r.enabled })

-- `interfaces.length > 0 ? interfaces[0].Identifier : ""`
unfoldable pub first_identifier : List Interface → String
first_identifier [] = ""
first_identifier (i ∷ _) = i.identifier

unfoldable pub set_interfaces : List Interface → M ProfileStore (Unit {0})
set_interfaces interfaces = update (λ s. record s {
  interfaces = interfaces;
  selected_interface_id = first_identifier interfaces;
  fetching = false;
})
