-- ===== src/Peers.antt =====
-- The store of an interface's peers (frontend/src/stores/peers.js): its state, getters and
-- synchronous actions. `Requests` has the actions that call the backend, `Events` a session of them
-- all, and the other children what holds.
pub mod Requests
pub mod Laws
pub mod Sorting
pub mod Statistics
pub mod Pages
pub mod Events
pub mod Session
use wg_portal.Prelude.{
  ℕ, ◌+◌, String, List, [], ◌∷◌, Option, some, none, Bool, true, false, ◌||◌, ◌&&◌, if◌then◌else◌,
  is_empty, includes_text, ◌===◌, length, ℤ, or_else, map_option, is_some,
}
use wg_portal.Encoding.{base64_url_encode}
use wg_portal.Helpers.{AddressLibrary, ip_to_big_int}
use wg_portal.Js.{M, update, reject, type_error, ◌>>◌, ◌>>=◌}
use wg_portal.Js.Array
use wg_portal.Js.Keyed.{find_key}
use wg_portal.Js.Paging
use wg_portal.Js.Paging.{Pager, fresh_pager, turn, paged}
use wg_portal.Js.Sort.{Value, num, text, null, sort_by}
use wg_portal.Models.{Peer, fresh_peer, Stats, fresh_stats}

-- The columns by which the views sort (frontend/src/views/InterfaceView.vue, ProfileView.vue).
pub data SortKey : Type 0 where
  display_name user_identifier addresses expires_at is_connected traffic : SortKey

pub record PeerStore : Type 0 where
  pub peers : List Peer
  pub stats : List (String × Stats)
  pub stats_enabled : Bool
  pub peer : Peer
  pub prepared : Peer
  pub configuration : String
  pub view : Pager
  pub open view use *
  pub fetching : Bool
  pub sort_key : SortKey
  pub ascending : Bool

-- `sortOrder: -1` is descending.
abbrev pub fresh_store : PeerStore
fresh_store = record {
  peers = [];
  stats = [];
  stats_enabled = false;
  peer = fresh_peer;
  prepared = fresh_peer;
  configuration = "";
  view = fresh_pager;
  fetching = false;
  sort_key = is_connected;
  ascending = false;
}

-- `getTotalTraffic(stat, isReceived)`; a missing `stat` is undefined.
unfoldable pub get_total_traffic : Option Stats → Bool → ℕ
get_total_traffic none received = 0
get_total_traffic (some s) received = if received then s.bytes_received else s.bytes_transmitted

-- `stats[id]`
unfoldable pub stat : List (String × Stats) → String → Option Stats
stat [] id = none
stat ((k, s) ∷ rest) id = if k === id then some s else stat rest id

abbrev pub peer_key : Peer → String
peer_key p = p.identifier

-- `Find(id)`
abbrev pub find : PeerStore → String → Option Peer
find s id = find_key peer_key id s.peers

abbrev pub count : PeerStore → ℕ
count s = length s.peers

unfoldable pub filtered : PeerStore → List Peer
filtered s =
    if is_empty s.filter
    then s.peers
    else Array.filter
        (λ p. includes_text p.display_name s.filter || includes_text p.identifier s.filter) s.peers

unfoldable pub filtered_count : PeerStore → ℕ
filtered_count s = length (filtered s)

-- `b ? 1 : 0`
abbrev flag : Bool → ℕ
flag b = if b then 1 else 0

abbrev connected : Option Stats → Bool
connected none = false
connected (some s) = s.is_connected

-- `aValue`, by the sort key.
unfoldable pub sort_value : AddressLibrary → SortKey → Bool → List (String × Stats) → Peer → Value
sort_value lib display_name enabled stats p = text p.display_name
sort_value lib user_identifier enabled stats p = text p.user_identifier
sort_value lib addresses enabled stats p = elim p.addresses [
  | [] ↦ num 0
  | ip ∷ _ ↦ num (ip_to_big_int lib ip)
]
sort_value lib expires_at enabled stats p = elim p.expires_at [ none ↦ null | some t ↦ text t ]
sort_value lib is_connected enabled stats p =
    num (flag (enabled && connected (stat stats p.identifier)))
sort_value lib traffic enabled stats p = num (
    if enabled
    then get_total_traffic (stat stats p.identifier) true
      + get_total_traffic (stat stats p.identifier) false
    else 0)

unfoldable pub sorted : AddressLibrary → PeerStore → List Peer
sorted lib s = sort_by s.ascending (sort_value lib s.sort_key s.stats_enabled s.stats) (filtered s)

unfoldable pub filtered_and_paged : AddressLibrary → PeerStore → List Peer
filtered_and_paged lib s = paged s.view (sorted lib s)

-- The path of `ConfigQrUrl(id)` behind `/peer/config-qr/`; `some none` is the empty URL, `none` the
-- error of an identifier that cannot be encoded.
unfoldable config_qr_url : PeerStore → String → Option (Option (List ℕ))
config_qr_url s id =
    if is_some (find s id)
    then map_option some (base64_url_encode (wg_portal.Prelude.units id))
    else some none

unfoldable pub statistics : PeerStore → String → Stats
statistics s id = if s.stats_enabled then or_else (stat s.stats id) fresh_stats else fresh_stats

unfoldable pub has_next_page : PeerStore → Bool
has_next_page s = Paging.has_next_page (filtered_count s) s.view

unfoldable pub has_prev_page : PeerStore → Bool
has_prev_page s = Paging.has_prev_page s.view

unfoldable pub current_page : PeerStore → Option ℤ
current_page s = Paging.current_page s.view

-- An action on the paging fields.
abbrev pub page : (ℕ → Pager → Option Pager) → M PeerStore (Unit {0})
page = turn (λ s. s.view) (λ p s. record s { view = p }) filtered_count

unfoldable pub after_page_size_change : M PeerStore (Unit {0})
after_page_size_change = page Paging.after_page_size_change

unfoldable pub calculate_pages : M PeerStore (Unit {0})
calculate_pages = page Paging.calculate_pages

unfoldable pub goto_page : ℕ → M PeerStore (Unit {0})
goto_page k = page (λ count. Paging.goto_page count k)

unfoldable pub next_page : M PeerStore (Unit {0})
next_page = page Paging.next_page

unfoldable pub previous_page : M PeerStore (Unit {0})
previous_page = page Paging.previous_page

abbrev pub set_fetching : Bool → M PeerStore (Unit {0})
set_fetching b = update (λ s. record s { fetching = b })

unfoldable pub set_peers : List Peer → M PeerStore (Unit {0})
unfolding calculate_pages
set_peers peers = do update (λ s. record s { peers = peers }); calculate_pages; set_fetching false

unfoldable pub set_peer : Peer → M PeerStore (Unit {0})
set_peer peer = update (λ s. record s { peer = peer; fetching = false })

unfoldable pub set_prepared_peer : Peer → M PeerStore (Unit {0})
set_prepared_peer peer = update (λ s. record s { prepared = peer })

unfoldable pub set_peer_config : String → M PeerStore (Unit {0})
set_peer_config config = update (λ s. record s { configuration = config })

-- The reply to a request for statistics.
pub record StatsResponse : Type 0 where
  pub stats : List (String × Stats)
  pub enabled : Bool

-- `setStats(statsResponse)`: at undefined or null the fields are reset, and then a field of it is read,
-- which throws. The empty text of a response without a body has no fields either, and nothing throws:
-- it is the response with no statistics, which are not enabled.
unfoldable pub set_stats : Option StatsResponse → M PeerStore (Unit {0})
set_stats none = do update (λ s. record s { stats = []; stats_enabled = false }); reject type_error
set_stats (some r) = update (λ s. record s { stats = r.stats; stats_enabled = r.enabled })
