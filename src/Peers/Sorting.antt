-- ===== src/Peers/Sorting.antt =====
-- The sorted list of peers: the peers that pass the filter, in the order of the sort key.
use mathlib.Core.List.{Perm}
use wg_portal.Prelude.{List, none, Bool, String, ◌≢◌, All, All-map, arith}
use wg_portal.Helpers.{AddressLibrary}
use wg_portal.Js.Sort.Order.{
  Kind, numeric, textual, HasKind, InOrder, sort_by-perm, sort_by-InOrder,
}
use wg_portal.Models.{Peer, Stats}
use wg_portal.Peers.{
  PeerStore, SortKey, display_name, user_identifier, addresses, expires_at, is_connected, traffic,
  filtered, sort_value, sorted,
}

abbrev kind_of : SortKey → Kind
kind_of display_name = textual
kind_of user_identifier = textual
kind_of addresses = numeric
kind_of expires_at = textual
kind_of is_connected = numeric
kind_of traffic = numeric

-- The peers can be compared: by the expiry only if each has one.
abbrev pub HasKey : SortKey → Peer → Type 0
HasKey expires_at p = p.expires_at ≢ none
HasKey _ p = Unit

sort_value-HasKind :
    (lib : AddressLibrary) (key : SortKey) (enabled : Bool) (stats : List (String × Stats))
    (p : Peer)
    → HasKey key p
    → HasKind (kind_of key) (sort_value lib key enabled stats p)
unfolding sort_value
sort_value-HasKind lib display_name enabled stats p h = tt
sort_value-HasKind lib user_identifier enabled stats p h = tt
sort_value-HasKind lib addresses enabled stats p h = ground arith
sort_value-HasKind lib expires_at enabled stats p h = ground arith
sort_value-HasKind lib is_connected enabled stats p h = tt
sort_value-HasKind lib traffic enabled stats p h = tt

-- The sorted list is a rearrangement of the filtered one.
sorted-perm : (lib : AddressLibrary) (s : PeerStore) → Perm (sorted lib s) (filtered s)
unfolding sorted
sorted-perm lib s = sort_by-perm s.ascending _ (filtered s)

-- The sorted list has no peer before one that belongs before it, in the direction of the sort
-- order; for the order by expiry each peer needs to have an expiry.
sorted-InOrder :
    (lib : AddressLibrary) (s : PeerStore)
    → All (HasKey s.sort_key) (filtered s)
    → InOrder s.ascending (sort_value lib s.sort_key s.stats_enabled s.stats) (sorted lib s)
unfolding sorted
sorted-InOrder lib s h =
    sort_by-InOrder s.ascending (sort_value lib s.sort_key s.stats_enabled s.stats)
      (kind_of s.sort_key) (filtered s)
      (All-map (sort_value-HasKind lib s.sort_key s.stats_enabled s.stats) (filtered s) h)

-- The view shows the peers that pass the filter, each as often as the store has it, and no peer
-- before one that belongs before it in the direction of the sort order; for the order by expiry each
-- peer needs to have an expiry.
pub sorted_lem :
    (lib : AddressLibrary) (s : PeerStore)
    → All (HasKey s.sort_key) (filtered s)
    → Perm (sorted lib s) (filtered s)
      × InOrder s.ascending (sort_value lib s.sort_key s.stats_enabled s.stats) (sorted lib s)
sorted_lem lib s h = (sorted-perm lib s, sorted-InOrder lib s h)
