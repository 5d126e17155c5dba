-- ===== src/Peers/Pages.antt =====
-- The pages of the peer list.
use wg_portal.Prelude.{ℕ, ◌<◌, List, [], ◌≡◌, refl, ap, ◌∙◌, length, concat_map}
use wg_portal.Helpers.{AddressLibrary}
use wg_portal.Js.{World, Out, ok}
use wg_portal.Js.Paging
use wg_portal.Js.Paging.{Pager, paged}
use wg_portal.Js.Paging.Numbers.{calculate_pages_lem, range_from, ceil_div}
use wg_portal.Js.Paging.Slices.{goto_page_lem, page_items, paged-page_items, pages-partition}
use wg_portal.Js.Paging.Steady.{turn_lem}
use wg_portal.Js.Sort.Order.{length-sort_by}
use wg_portal.Models.{Peer}
use wg_portal.Peers.{
  PeerStore, filtered, filtered_count, sorted, filtered_and_paged, calculate_pages, goto_page,
}

abbrev shown_at : AddressLibrary → Out PeerStore (Unit {0}) → List Peer
shown_at lib (ok _ v) = filtered_and_paged lib v.store
shown_at lib _ = []

-- What the view shows after `gotoPage(k)`.
abbrev pub page_shown : AddressLibrary → World PeerStore → ℕ → List Peer
page_shown lib w k = shown_at lib (goto_page k w)

length-sorted : (lib : AddressLibrary) (s : PeerStore) → length (sorted lib s) ≡ filtered_count s
unfolding filtered_count sorted
length-sorted lib s = length-sort_by s.ascending _ (filtered s)

page_shown-page_items :
    (lib : AddressLibrary) (w : World PeerStore)
    → 0 < w.store.page_size
    → (k : ℕ) → 0 < k
    → page_shown lib w k ≡ page_items w.store.page_size (sorted lib w.store) k
unfolding goto_page filtered_and_paged sorted filtered
page_shown-page_items lib w h k hk =
    ap (shown_at lib) (
      turn_lem (λ s. s.view) (λ p s. record s { view = p }) filtered_count
        (λ count. Paging.goto_page count k) w
        (goto_page_lem (filtered_count w.store) k w.store.view h hk))
    ∙ paged-page_items _ (sorted lib w.store) k refl

numbered-partition :
    (lib : AddressLibrary) (w : World PeerStore)
    → 0 < w.store.page_size
    → concat_map
        (page_shown lib w)
        (range_from 1 (ceil_div (filtered_count w.store) w.store.page_size))
      ≡ sorted lib w.store
numbered-partition lib w h = rw (← length-sorted lib w.store) (
    pages-partition (sorted lib w.store) w.store.page_size (page_shown lib w) h
      (page_shown-page_items lib w h))

-- With a positive page size calculatePages ends, and on the pages that it numbers the view shows
-- the sorted peers in order, each on one page.
pub calculate_pages-partition :
    (lib : AddressLibrary) (w : World PeerStore)
    → 0 < w.store.page_size
    → (v : World PeerStore) × (calculate_pages w ≡ ok tt v)
      × (concat_map (page_shown lib v) v.store.pages ≡ sorted lib w.store)
unfolding calculate_pages sorted filtered filtered_count
calculate_pages-partition lib w h =
    let pages = range_from 1 (ceil_div (filtered_count w.store) w.store.page_size) in
    let v : World PeerStore = record w {
      store = record w.store { view = record w.store.view { pages = pages } };
    } in
    (
      v,
      turn_lem (λ s. s.view) (λ p s. record s { view = p }) filtered_count Paging.calculate_pages w
          (calculate_pages_lem (filtered_count w.store) w.store.view h),
      numbered-partition lib v h,
    )
