-- ===== src/Users/Events.antt =====
-- A session with the user store: calls, replies in any order, and what the page does to the filter
-- and the page size (frontend/src/views/UserView.vue binds both).
use wg_portal.Prelude.{ℕ, String, List, [], ◌∷◌, Option, some, none}
use wg_portal.Js.{M, World, Reply, update as write}
use wg_portal.Js.Keeping.{settled}
use wg_portal.Models.{User, Peer}
use wg_portal.Users
use wg_portal.Users.{UserStore}
use wg_portal.Users.Requests

pub data Event : Type 0 where
  load : Event
  loaded : Reply (List User) → Event
  delete : String → Event
  deleted : String → Reply (Unit {0}) → Event
  update : String → Event
  updated : String → Reply User → Event
  create : Event
  created : Reply User → Event
  load_peers : String → Event
  peers_loaded : Reply (List Peer) → Event
  set_filter : String → Event
  set_page_size : ℕ → Event
  size_changed : Event
  goto : ℕ → Event
  next : Event
  previous : Event

unfoldable pub step : Event → M UserStore (Unit {0})
step load = Requests.load_users
step (loaded r) = Requests.load_users_reply r
step (delete id) = Requests.delete_user id
step (deleted id r) = Requests.delete_user_reply id r
step (update id) = Requests.update_user id
step (updated id r) = Requests.update_user_reply id r
step create = Requests.create_user
step (created r) = Requests.create_user_reply r
step (load_peers id) = Requests.load_user_peers id
step (peers_loaded r) = Requests.load_user_peers_reply r
step (set_filter f) = write (λ s. record s { view = record s.view { filter = f } })
step (set_page_size n) = write (λ s. record s { view = record s.view { page_size = n } })
step size_changed = Users.after_page_size_change
step (goto k) = Users.goto_page k
step next = Users.next_page
step previous = Users.previous_page

-- A rejected promise ends nothing but itself: the session goes on. `none` is a loop without end.
unfoldable pub run : List Event → World UserStore → Option (World UserStore)
run [] w = some w
run (e ∷ es) w = elim (settled (step e w)) [ none ↦ none | some v ↦ run es v ]
