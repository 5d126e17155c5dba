-- ===== src/Users/Session.antt =====
-- A session never loops, in whatever order calls and replies come, and the page list stays
-- numbered from 1.
use wg_portal.Prelude.{ℕ, ◌<◌, List, [], ◌∷◌, Option, some, false, ◌≡◌, refl, All, arith}
use wg_portal.Js.{M, World, fulfilled, rejected, Thrown, emit, notify, ◌>>◌}
use wg_portal.Js.Keeping.{Keeps, Kept-settled, >>=-Keeps, catch-Keeps, coded_request-Keeps}
use wg_portal.Js.Paging
use wg_portal.Js.Paging.{Pager}
use wg_portal.Js.Paging.Steady.{
  IsSteady, Ends, calculate_pages-Ends, after_page_size_change-Ends, goto_page-Ends, next_page-Ends,
  previous_page-Ends, turn-Keeps,
}
use wg_portal.Models.{User}
use wg_portal.Users
use wg_portal.Users.{
  UserStore, page, filtered_count, set_users, set_user_peers, set_fetching, fresh_store,
}
use wg_portal.Users.Requests
use wg_portal.Users.Events.{
  Event, load, loaded, delete, deleted, update, updated, create, created, load_peers, peers_loaded,
  set_filter, set_page_size, size_changed, goto, next, previous, step, run,
}

-- The page sizes that the view offers are positive.
abbrev IsFair : Event → Type 0
IsFair (set_page_size n) = 0 < n
IsFair _ = Unit

abbrev HasSteadyPages : UserStore → Type 0
HasSteadyPages s = IsSteady s.view

page-Keeps :
    (op : ℕ → Pager → Option Pager)
    → ((count : ℕ) (p : Pager) → IsSteady p → Ends (op count p))
    → Keeps HasSteadyPages (page op)
page-Keeps op ends =
    turn-Keeps (λ s. s.view) (λ p s. record s { view = p }) filtered_count op (λ q s. refl)
      (λ s. ends (filtered_count s) s.view)

set_users-Keeps : (users : List User) → Keeps HasSteadyPages (set_users users)
unfolding set_users
set_users-Keeps users w p =
    >>=-Keeps HasSteadyPages (page Paging.calculate_pages) (λ _. set_fetching false)
      (page-Keeps Paging.calculate_pages (λ count p s. calculate_pages-Ends count p s.size_pos))
      (λ _ v q. q) (record w { store = record w.store { users = users } }) p

-- The handler of a failed load.
abbrev failed : Thrown → M UserStore (Unit {0})
failed e = set_users [] >> emit (notify "Backend Connection Failure" "Failed to load users!")

failed-Keeps : (e : Thrown) → Keeps HasSteadyPages (failed e)
failed-Keeps e =
    >>=-Keeps HasSteadyPages (set_users [])
      (λ _. emit (notify "Backend Connection Failure" "Failed to load users!")) (set_users-Keeps [])
      (λ _ v q. q)

step-Keeps : (e : Event) → IsFair e → Keeps HasSteadyPages (step e)
unfolding step Requests.load_users Requests.load_users_reply Requests.delete_user
    Requests.delete_user_reply Requests.update_user Requests.update_user_reply Requests.create_user
    Requests.create_user_reply Requests.load_user_peers Requests.load_user_peers_reply
    Users.after_page_size_change Users.goto_page Users.next_page Users.previous_page set_user_peers
step-Keeps load f w p = p
step-Keeps (loaded (fulfilled users)) f w p =
    catch-Keeps HasSteadyPages (set_users users) failed (set_users-Keeps users) failed-Keeps w p
step-Keeps (loaded (rejected e)) f w p = failed-Keeps e w p
step-Keeps (delete id) f w p = coded_request-Keeps HasSteadyPages id _ _ p
step-Keeps (deleted id (fulfilled _)) f w p = p
step-Keeps (deleted id (rejected _)) f w p = p
step-Keeps (update id) f w p = coded_request-Keeps HasSteadyPages id _ _ p
step-Keeps (updated id (fulfilled _)) f w p = p
step-Keeps (updated id (rejected _)) f w p = p
step-Keeps create f w p = p
step-Keeps (created (fulfilled _)) f w p = p
step-Keeps (created (rejected _)) f w p = p
step-Keeps (load_peers id) f w p = coded_request-Keeps HasSteadyPages id _ _ p
step-Keeps (peers_loaded (fulfilled _)) f w p = p
step-Keeps (peers_loaded (rejected _)) f w p = p
step-Keeps (set_filter t) f w p = record { size_pos = p.size_pos; numbered = p.numbered }
step-Keeps (set_page_size n) f w p = record { size_pos = f; numbered = p.numbered }
step-Keeps size_changed f w p =
    page-Keeps Paging.after_page_size_change after_page_size_change-Ends w p
step-Keeps (goto k) f w p =
    page-Keeps (λ count. Paging.goto_page count k) (λ count q s. goto_page-Ends count q s k) w p
step-Keeps next f w p = page-Keeps Paging.next_page next_page-Ends w p
step-Keeps previous f w p = page-Keeps Paging.previous_page previous_page-Ends w p

run-HasSteadyPages :
    (es : List Event) (w : World UserStore)
    → All IsFair es
    → HasSteadyPages w.store
    → (v : World UserStore) × (run es w ≡ some v) × HasSteadyPages v.store
unfolding run
run-HasSteadyPages [] w f p = (w, refl, p)
run-HasSteadyPages (e ∷ es) w (f, fs) p =
    let (v, done, q) = Kept-settled HasSteadyPages (step e w) (step-Keeps e f w p) in
    let (u, rest, s) = run-HasSteadyPages es v fs q in (u, rw (done, run) rest, s)

-- From the initial store, no session with positive page sizes loops, in whatever order calls,
-- replies and page turns come, and the pages are then numbered 1, 2, … without a gap.
run-fresh_store :
    (es : List Event)
    → All IsFair es
    → (v : World UserStore) × (run es (record { store = fresh_store; log = [] }) ≡ some v)
      × HasSteadyPages v.store
run-fresh_store es f =
    run-HasSteadyPages es _ f (record { size_pos = omega arith; numbered = (0, refl) })
