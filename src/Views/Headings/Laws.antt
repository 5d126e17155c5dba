-- ===== src/Views/Headings/Laws.antt =====
-- What clicks on the headings show (frontend/src/views/InterfaceView.vue).
use mathlib.Core.List.{Perm}
use wg_portal.Prelude.{
  ℕ, zero, suc, Option, none, some, Bool, true, false, not, if◌then◌else◌, ◌≡◌, ◌≢◌, refl, All, ap,
  ◌∙◌, arith, subst, sym,
}
use wg_portal.Helpers.{AddressLibrary}
use wg_portal.Js.Sort.Order.{InOrder}
use wg_portal.Peers.{SortKey, filtered, sort_value, sorted}
use wg_portal.Peers.Sorting.{HasKey, sorted_lem}
use wg_portal.Views.InterfaceView.{InterfaceView, same_key, next_order, sort_by}
use wg_portal.Views.Headings.{arrow, arrow_of}

-- Clicks in a row on the heading of one column.
abbrev pub sort_again : ℕ → SortKey → InterfaceView → InterfaceView
sort_again zero k s = s
sort_again (suc n) k s = sort_by k (sort_again n k s)

abbrev pub even : ℕ → Bool
even zero = true
even (suc n) = not (even n)

-- The view that is sorted by a column.
abbrev sorted_by : SortKey → Bool → InterfaceView → InterfaceView
sorted_by k up s = record s {
  sort_key = some k;
  ascending = up;
  peers = record s.peers { sort_key = k; ascending = up };
}

same_key_refl : (k : SortKey) → same_key k k ≡ true
unfolding same_key
same_key_refl SortKey.display_name = refl
same_key_refl SortKey.user_identifier = refl
same_key_refl SortKey.addresses = refl
same_key_refl SortKey.expires_at = refl
same_key_refl SortKey.is_connected = refl
same_key_refl SortKey.traffic = refl

same_key_ne : (k j : SortKey) → j ≢ k → same_key k j ≡ false
unfolding same_key
same_key_ne SortKey.display_name SortKey.display_name h = absurd (h refl)
same_key_ne SortKey.display_name _ h = refl
same_key_ne SortKey.user_identifier SortKey.user_identifier h = absurd (h refl)
same_key_ne SortKey.user_identifier _ h = refl
same_key_ne SortKey.addresses SortKey.addresses h = absurd (h refl)
same_key_ne SortKey.addresses _ h = refl
same_key_ne SortKey.expires_at SortKey.expires_at h = absurd (h refl)
same_key_ne SortKey.expires_at _ h = refl
same_key_ne SortKey.is_connected SortKey.is_connected h = absurd (h refl)
same_key_ne SortKey.is_connected _ h = refl
same_key_ne SortKey.traffic SortKey.traffic h = absurd (h refl)
same_key_ne SortKey.traffic _ h = refl

turned : (a b : Bool) → (if b then some a else none) ≡ none → (if b then not a else true) ≡ true
turned a true h = absurd (ground (arith, h))
turned a false h = refl

next_order_first :
    (k : SortKey) (old : Option SortKey) (a : Bool)
    → arrow_of same_key old a k ≡ none
    → next_order k old a ≡ true
unfolding next_order
next_order_first k none a h = refl
next_order_first k (some old) a h = turned a (same_key old k) h

sort_by_first :
    (k : SortKey) (s : InterfaceView) → arrow s k ≡ none → sort_by k s ≡ sorted_by k true s
unfolding sort_by arrow
sort_by_first k s h = ap (λ up. sorted_by k up s) (next_order_first k s.sort_key s.ascending h)

sort_by_again :
    (k : SortKey) (b : Bool) (s : InterfaceView)
    → sort_by k (sorted_by k b s) ≡ sorted_by k (not b) s
unfolding sort_by next_order
sort_by_again k b s = rw (same_key_refl k) refl

sort_again_lem :
    (n : ℕ) (k : SortKey) (s : InterfaceView)
    → arrow s k ≡ none
    → sort_again (suc n) k s ≡ sorted_by k (even n) s
sort_again_lem zero k s h = sort_by_first k s h
sort_again_lem (suc n) k s h = ap (sort_by k) (sort_again_lem n k s h) ∙ sort_by_again k (even n) s

-- The arrow of the table, and the order of its rows.
abbrev pub IsSortedBy : AddressLibrary → SortKey → Bool → InterfaceView → InterfaceView → Type 0
IsSortedBy lib k up s t =
    (arrow t k ≡ some up)
    × ((j : SortKey) → j ≢ k → arrow t j ≡ none)
    × Perm (sorted lib t.peers) (filtered s.peers)
    × InOrder up (sort_value lib k s.peers.stats_enabled s.peers.stats) (sorted lib t.peers)

sorted_by-IsSortedBy :
    (lib : AddressLibrary) (k : SortKey) (up : Bool) (s : InterfaceView)
    → All (HasKey k) (filtered s.peers)
    → IsSortedBy lib k up s (sorted_by k up s)
unfolding arrow filtered
sorted_by-IsSortedBy lib k up s h =
    let (perm, order) = sorted_lem lib (sorted_by k up s).peers h in
    (rw (same_key_refl k) refl, λ j ne. rw (same_key_ne k j ne) refl, perm, order)

-- After n + 1 clicks in a row on the heading of a column that has no arrow, its arrow is the only one,
-- up for an even n and down for an odd one, and the table has the peers that pass the filter, none
-- before one that belongs before it in this order; for the order by expiry each of them needs to have
-- an expiry.
pub sort_again-IsSortedBy :
    (lib : AddressLibrary) (n : ℕ) (k : SortKey) (s : InterfaceView)
    → arrow s k ≡ none
    → All (HasKey k) (filtered s.peers)
    → IsSortedBy lib k (even n) s (sort_again (suc n) k s)
sort_again-IsSortedBy lib n k s none_yet h =
    subst (IsSortedBy lib k (even n) s) (sym (sort_again_lem n k s none_yet))
      (sorted_by-IsSortedBy lib k (even n) s h)
