-- ===== src/Users.antt =====
-- The store of the users and of one user's peers (frontend/src/stores/users.js): its state, getters
-- and synchronous actions. `Requests` has the actions that call the backend, `Events` a session of
-- them all, `Laws` and `Session` what holds.
pub mod Requests
pub mod Events
pub mod Laws
pub mod Session
use wg_portal.Prelude.{
  ℕ, ◌+◌, String, List, [], Option, some, none, Bool, true, false, ◌||◌, not, if◌then◌else◌,
  is_empty, includes_text, ◌===◌, length, ℤ,
}
use wg_portal.Js.{M, update, ◌>>◌, ◌>>=◌}
use wg_portal.Js.Array
use wg_portal.Js.Keyed.{find_key}
use wg_portal.Js.Paging
use wg_portal.Js.Paging.{Pager, fresh_pager, turn, paged}
use wg_portal.Models.{User, Peer}

pub record UserStore : Type 0 where
  pub user_peers : List Peer
  pub users : List User
  pub view : Pager
  pub open view use *
  pub fetching : Bool

abbrev pub fresh_store : UserStore
fresh_store = record { user_peers = []; users = []; view = fresh_pager; fetching = false }

abbrev pub user_key : User → String
user_key u = u.identifier

-- `Find(id)`
abbrev pub find : UserStore → String → Option User
find s id = find_key user_key id s.users

abbrev pub count : UserStore → ℕ
count s = length s.users

matches : String → User → Bool
matches filter u =
    includes_text u.firstname filter
    || includes_text u.lastname filter
    || includes_text u.email filter
    || includes_text u.identifier filter

unfoldable pub filtered : UserStore → List User
unfolding matches
filtered s = if is_empty s.filter then s.users else Array.filter (matches s.filter) s.users

unfoldable pub filtered_count : UserStore → ℕ
filtered_count s = length (filtered s)

unfoldable pub filtered_and_paged : UserStore → List User
filtered_and_paged s = paged s.view (filtered s)

unfoldable pub has_next_page : UserStore → Bool
has_next_page s = Paging.has_next_page (filtered_count s) s.view

unfoldable pub has_prev_page : UserStore → Bool
has_prev_page s = Paging.has_prev_page s.view

unfoldable pub current_page : UserStore → Option ℤ
current_page s = Paging.current_page s.view

-- An action on the paging fields.
abbrev pub page : (ℕ → Pager → Option Pager) → M UserStore (Unit {0})
page = turn (λ s. s.view) (λ p s. record s { view = p }) filtered_count

unfoldable pub after_page_size_change : M UserStore (Unit {0})
after_page_size_change = page Paging.after_page_size_change

unfoldable pub calculate_pages : M UserStore (Unit {0})
calculate_pages = page Paging.calculate_pages

unfoldable pub goto_page : ℕ → M UserStore (Unit {0})
goto_page k = page (λ count. Paging.goto_page count k)

unfoldable pub next_page : M UserStore (Unit {0})
next_page = page Paging.next_page

unfoldable pub previous_page : M UserStore (Unit {0})
previous_page = page Paging.previous_page

abbrev pub set_fetching : Bool → M UserStore (Unit {0})
set_fetching b = update (λ s. record s { fetching = b })

unfoldable pub set_users : List User → M UserStore (Unit {0})
unfolding calculate_pages
set_users users = do update (λ s. record s { users = users }); calculate_pages; set_fetching false

unfoldable pub set_user_peers : List Peer → M UserStore (Unit {0})
set_user_peers peers = update (λ s. record s { user_peers = peers; fetching = false })
