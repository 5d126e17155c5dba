-- ===== src/Views/Users.antt =====
-- The view of the users (the script of frontend/src/views/UserView.vue): the selection, and the load
-- at the start.
pub mod Laws
use wg_portal.Prelude.{Bool, List}
use wg_portal.Dialogs.{within}
use wg_portal.Js.{M, Reply}
use wg_portal.Models.{User}
use wg_portal.Users
use wg_portal.Users.{UserStore, user_key}
use wg_portal.Users.Requests
use wg_portal.Views.Bar.{Control, click}
use wg_portal.Views.Bar.Tables.{user_table}
use wg_portal.Views.Selection.{select_each}

pub record UserView : Type 0 where
  pub users : UserStore
  pub select_all : Bool

abbrev pub select_user : Bool → User → User
select_user b u = record u { is_selected = b }

unfoldable pub toggle_select_all : UserView → UserView
unfolding select_each Users.filtered_and_paged
toggle_select_all s = record s {
  users = record s.users {
    users =
        select_each user_key select_user s.select_all (Users.filtered_and_paged s.users)
          s.users.users;
  };
}

abbrev in_users : M UserStore (Unit {0}) → M UserView (Unit {0})
in_users = within (λ s. s.users) (λ u s. record s { users = u })

-- `onMounted`, up to the request, and its reply.
unfoldable mounted : M UserView (Unit {0})
unfolding Requests.load_users
mounted = in_users Requests.load_users

unfoldable users_loaded : Reply (List User) → M UserView (Unit {0})
unfolding Requests.load_users_reply
users_loaded r = in_users (Requests.load_users_reply r)

-- The search field and the bar of pages.
unfoldable click_bar : Control → M UserView (Unit {0})
unfolding click
click_bar c = in_users (click user_table c)
