-- ===== src/Profile/Sorting.antt =====
-- The sorted list of the user's peers, and where sorting throws.
use mathlib.Core.List.{Perm}
use wg_portal.Prelude.{
  List, [], ◌∷◌, Option, none, some, Option-cases, inl, inr, Bool, true, false, String, ◌≡◌, refl,
  All, All-map, is_some, or_else, length, arith, suc, lt→ltb,
}
use wg_portal.Helpers.{AddressLibrary}
use wg_portal.Js.Sort.{sort_by, Value, null}
use wg_portal.Js.Sort.Order.{
  Kind, numeric, textual, HasKind, InOrder, sort_by-perm, sort_by-InOrder,
}
use wg_portal.Models.{Peer, Stats}
use wg_portal.Peers.{stat}
use wg_portal.Profile.{
  ProfileStore, SortKey, display_name, addresses, is_connected, traffic, filtered_peers, sort_value,
  has_values, sorted,
}

abbrev kind_of : SortKey → Kind
kind_of display_name = textual
kind_of addresses = numeric
kind_of is_connected = numeric
kind_of traffic = numeric

-- What a peer is sorted by.
abbrev pub value_of : AddressLibrary → ProfileStore → Peer → Value
value_of lib s p = or_else (sort_value lib s.sort_key s.stats_enabled s.stats p) null

-- There are statistics of the peer, where the order needs them.
abbrev HasStats : ProfileStore → Peer → Type 0
HasStats s p =
    s.sort_key ≡ traffic → s.stats_enabled ≡ true → is_some (stat s.stats p.identifier) ≡ true

is_some-sort_value :
    (lib : AddressLibrary) (key : SortKey) (enabled : Bool) (stats : List (String × Stats))
    (p : Peer)
    → (key ≡ traffic → enabled ≡ true → is_some (stat stats p.identifier) ≡ true)
    → (is_some (sort_value lib key enabled stats p) ≡ true)
      × HasKind (kind_of key) (or_else (sort_value lib key enabled stats p) null)
unfolding sort_value
is_some-sort_value lib display_name enabled stats p h = (refl, tt)
is_some-sort_value lib addresses enabled stats p h = (ground arith, ground arith)
is_some-sort_value lib is_connected enabled stats p h = (refl, tt)
is_some-sort_value lib traffic true stats p h = elim (Option-cases (stat stats p.identifier)) [
  | inl missing ↦ ground (arith, h refl refl)
  | inr found ↦ ground (arith, found.1)
]
is_some-sort_value lib traffic false stats p h = (refl, tt)

has_values-All :
    (value : Peer → Option Value) (ps : List Peer)
    → All (λ p. is_some (value p) ≡ true) ps
    → has_values value ps ≡ true
unfolding has_values
has_values-All value [] h = refl
has_values-All value (p ∷ ps) (h, hs) = rw (h, has_values-All value ps hs)

-- Where each peer has the statistics that the order needs, there is a sorted list: the peers that
-- pass the filter, rearranged, none before one that belongs before it.
sorted-some :
    (lib : AddressLibrary) (s : ProfileStore)
    → All (HasStats s) (filtered_peers s)
    → (ps : List Peer) × (sorted lib s ≡ some ps)
      × Perm ps (filtered_peers s)
      × InOrder s.ascending (value_of lib s) ps
unfolding sorted
sorted-some lib s h =
    let key = s.sort_key in
    let with_value =
      All-map (is_some-sort_value lib key s.stats_enabled s.stats) (filtered_peers s) h in
    (
      sort_by s.ascending (value_of lib s) (filtered_peers s),
      ground (
        arith,
        has_values-All (sort_value lib key s.stats_enabled s.stats) (filtered_peers s)
            (All-map (λ p v. v.0) (filtered_peers s) with_value),
      ),
      sort_by-perm s.ascending (value_of lib s) (filtered_peers s),
      sort_by-InOrder s.ascending (value_of lib s) (kind_of key) (filtered_peers s)
          (All-map (λ p v. v.1) (filtered_peers s) with_value),
    )

-- With statistics enabled and sorted by the traffic, a list of at least two peers, the first of
-- which has no statistics, is a TypeError.
sorted-none :
    (lib : AddressLibrary) (s : ProfileStore) (p q : Peer) (rest : List Peer)
    → s.sort_key ≡ traffic
    → s.stats_enabled ≡ true
    → filtered_peers s ≡ p ∷ q ∷ rest
    → stat s.stats p.identifier ≡ none
    → sorted lib s ≡ none
unfolding sorted sort_value has_values
sorted-none lib s p q rest k e f n =
    rw (f, k, e, n, lt→ltb 1 (suc (suc (length rest))) (omega arith))
