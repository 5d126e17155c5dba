-- ===== src/Views/Users/Laws.antt =====
-- Which users are selected after a click on the box in the head of the table
-- (frontend/src/views/UserView.vue).
use wg_portal.Prelude.{String, if◌then◌else◌, includes, map, map_option, ◌≡◌, refl}
use wg_portal.Users
use wg_portal.Users.{user_key}
use wg_portal.Views.Selection.Laws.{find-select_each}
use wg_portal.Views.Users.{UserView, select_user, toggle_select_all}

-- Exactly the users of the page that is shown are selected, or no more selected; of all other users
-- the store keeps what it had.
toggle_select_all-users :
    (s : UserView) (j : String)
    → Users.find (toggle_select_all s).users j ≡ (
        if includes (map user_key (Users.filtered_and_paged s.users)) j
        then map_option (select_user s.select_all) (Users.find s.users j)
        else Users.find s.users j)
unfolding toggle_select_all
toggle_select_all-users s j =
    find-select_each user_key select_user (λ b u. refl) (λ b u. refl) s.select_all
      (Users.filtered_and_paged s.users) s.users.users j
