-- ===== src/Audit/Laws.antt =====
-- The audit log after a load, and its pages.
use wg_portal.Prelude.{ℕ, ◌<◌, List, [], ◌∷◌, ◌++◌, false, ◌≡◌, refl, ap, ◌∙◌, concat_map}
use wg_portal.Js.{World, Out, ok, Reply, fulfilled, rejected, notify, catch, emit, ◌>>◌}
use wg_portal.Js.Paging
use wg_portal.Js.Paging.Numbers.{calculate_pages_lem, range_from, ceil_div}
use wg_portal.Js.Paging.Slices.{goto_page_lem, page_items, paged-page_items, pages-partition}
use wg_portal.Js.Paging.Steady.{turn_lem}
use wg_portal.Audit.{
  AuditEntry, AuditStore, filtered, filtered_count, filtered_and_paged, goto_page, calculate_pages,
  set_entries, set_fetching, load_entries_reply,
}

abbrev shown_at : Out AuditStore (Unit {0}) → List AuditEntry
shown_at (ok _ v) = filtered_and_paged v.store
shown_at _ = []

-- What the view shows after `gotoPage(k)`.
abbrev pub page_shown : World AuditStore → ℕ → List AuditEntry
page_shown w k = shown_at (goto_page k w)

page_shown-page_items :
    (w : World AuditStore)
    → 0 < w.store.page_size
    → (k : ℕ) → 0 < k
    → page_shown w k ≡ page_items w.store.page_size (filtered w.store) k
unfolding goto_page filtered_and_paged filtered
page_shown-page_items w h k hk =
    ap shown_at (
      turn_lem (λ s. s.view) (λ p s. record s { view = p }) filtered_count
        (λ count. Paging.goto_page count k) w
        (goto_page_lem (filtered_count w.store) k w.store.view h hk))
    ∙ paged-page_items _ (filtered w.store) k refl

numbered-partition :
    (w : World AuditStore)
    → 0 < w.store.page_size
    → concat_map (page_shown w) (range_from 1 (ceil_div (filtered_count w.store) w.store.page_size))
      ≡ filtered w.store
unfolding filtered_count
numbered-partition w h =
    pages-partition (filtered w.store) w.store.page_size (page_shown w) h
      (page_shown-page_items w h)

-- The entries of a reply; a failed load gives none.
abbrev entries_of : Reply (List AuditEntry) → List AuditEntry
entries_of (fulfilled entries) = entries
entries_of (rejected e) = []

-- The store with the given entries and their page numbers.
abbrev loaded : List AuditEntry → World AuditStore → World AuditStore
loaded entries w =
    let s = record w.store { entries = entries } in
    record w {
      store = record s {
        view = record s.view { pages = range_from 1 (ceil_div (filtered_count s) s.page_size) };
        fetching = false;
      };
    }

set_entries_lem :
    (entries : List AuditEntry) (w : World AuditStore)
    → 0 < w.store.page_size
    → set_entries entries w ≡ ok tt (loaded entries w)
unfolding set_entries calculate_pages
set_entries_lem entries w h =
    let s : AuditStore = record w.store { entries = entries } in
    ap (λ out. ((λ (_ : World AuditStore). out) >> set_fetching false) w)
      (turn_lem (λ s. s.view) (λ p s. record s { view = p }) filtered_count Paging.calculate_pages
        (record w { store = s }) (calculate_pages_lem (filtered_count s) s.view h))

-- With a positive page size, whatever the reply to a load: the promise is fulfilled, the entries
-- are those of the reply, none after a failure, the fetching is over, and on the numbered pages
-- the view shows the entries that pass the filter in order, each on one page.
load_entries-partition :
    (r : Reply (List AuditEntry)) (w : World AuditStore)
    → 0 < w.store.page_size
    → (v : World AuditStore) × (load_entries_reply r w ≡ ok tt v)
      × (v.store.entries ≡ entries_of r)
      × (v.store.fetching ≡ false)
      × (concat_map (page_shown v) v.store.pages ≡ filtered v.store)
unfolding load_entries_reply filtered filtered_count
load_entries-partition (fulfilled entries) w h = (
  loaded entries w,
  rw (set_entries_lem entries w h, catch),
  refl,
  refl,
  numbered-partition (loaded entries w) h,
)
load_entries-partition (rejected e) w h =
    let report = notify "Backend Connection Failure" "Failed to load audit entries!" in
    let v : World AuditStore = record (loaded [] w) { log = w.log ++ report ∷ [] } in
    (
      v,
      ap (λ out. ((λ (_ : World AuditStore). out) >> emit report) w) (set_entries_lem [] w h),
      refl,
      refl,
      numbered-partition v h,
    )
