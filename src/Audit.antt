-- ===== src/Audit.antt =====
-- The store of the audit log (frontend/src/stores/audit.js), whole. `Laws` has what holds.
pub mod Laws
use wg_portal.Prelude.{
  ℕ, String, List, [], ◌∷◌, Bool, true, false, ◌||◌, if◌then◌else◌, is_empty, includes_text, length,
  Option, ℤ,
}
use wg_portal.Js.{M, Reply, update, emit, request, get, notify, lit, settle, ◌>>◌, ◌>>=◌}
use wg_portal.Js.Array
use wg_portal.Js.Paging
use wg_portal.Js.Paging.{Pager, fresh_pager, turn, paged}

-- An entry, as the view shows it.
pub record AuditEntry : Type 0 where
  pub timestamp : String
  pub severity : String
  pub origin : String
  pub message : String

pub record AuditStore : Type 0 where
  pub entries : List AuditEntry
  pub view : Pager
  pub open view use *
  pub fetching : Bool

abbrev pub fresh_store : AuditStore
fresh_store = record { entries = []; view = fresh_pager; fetching = false }

abbrev pub count : AuditStore → ℕ
count s = length s.entries

matches : String → AuditEntry → Bool
matches filter e =
    includes_text e.timestamp filter
    || includes_text e.message filter
    || includes_text e.severity filter
    || includes_text e.origin filter

unfoldable pub filtered : AuditStore → List AuditEntry
unfolding matches
filtered s = if is_empty s.filter then s.entries else Array.filter (matches s.filter) s.entries

unfoldable pub filtered_count : AuditStore → ℕ
filtered_count s = length (filtered s)

unfoldable pub filtered_and_paged : AuditStore → List AuditEntry
filtered_and_paged s = paged s.view (filtered s)

unfoldable pub has_next_page : AuditStore → Bool
has_next_page s = Paging.has_next_page (filtered_count s) s.view

unfoldable pub has_prev_page : AuditStore → Bool
has_prev_page s = Paging.has_prev_page s.view

unfoldable pub current_page : AuditStore → Option ℤ
current_page s = Paging.current_page s.view

-- An action on the paging fields.
abbrev pub page : (ℕ → Pager → Option Pager) → M AuditStore (Unit {0})
page = turn (λ s. s.view) (λ p s. record s { view = p }) filtered_count

unfoldable pub after_page_size_change : M AuditStore (Unit {0})
after_page_size_change = page Paging.after_page_size_change

unfoldable pub calculate_pages : M AuditStore (Unit {0})
calculate_pages = page Paging.calculate_pages

unfoldable pub goto_page : ℕ → M AuditStore (Unit {0})
goto_page k = page (λ count. Paging.goto_page count k)

unfoldable pub next_page : M AuditStore (Unit {0})
next_page = page Paging.next_page

unfoldable pub previous_page : M AuditStore (Unit {0})
previous_page = page Paging.previous_page

abbrev pub set_fetching : Bool → M AuditStore (Unit {0})
set_fetching b = update (λ s. record s { fetching = b })

unfoldable pub set_entries : List AuditEntry → M AuditStore (Unit {0})
unfolding calculate_pages
set_entries entries = do
  update (λ s. record s { entries = entries })
  calculate_pages
  set_fetching false

unfoldable pub load_entries : M AuditStore (Unit {0})
load_entries = do set_fetching true; emit (request get (lit "/audit/entries" ∷ []))

unfoldable pub load_entries_reply : Reply (List AuditEntry) → M AuditStore (Unit {0})
load_entries_reply r = settle r set_entries (λ e. do
  set_entries []
  emit (notify "Backend Connection Failure" "Failed to load audit entries!"))
