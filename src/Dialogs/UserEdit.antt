-- ===== src/Dialogs/UserEdit.antt =====
-- The dialog for a user (the script of frontend/src/components/UserEditModal.vue): how the form is
-- filled, checked, closed, saved and deleted. Titles are left out.
pub mod Validity
pub mod Session
pub mod Progress
pub mod Inputs
pub mod Identity
use wg_portal.Prelude.{
  ℕ, String, Option, some, none, Bool, true, false, not, ◌&&◌, ◌===◌, if◌then◌else◌, is_empty, ltb,
  length, units,
}
use wg_portal.Dialogs.{within, with_selected, once, answered}
use wg_portal.Js.{M, Reply, reject, type_error, update, state, ◌>>=◌, ◌>>◌}
use wg_portal.Models.{User, fresh_user}
use wg_portal.Users
use wg_portal.Users.{UserStore, user_key}
use wg_portal.Users.Requests

-- The dialog is visible while it has the identifier of a user; `#NEW#` stands for a new one.
-- `min_password_length` is the setting of that name, `none` before the settings are loaded.
pub record UserForm : Type 0 where
  pub users : UserStore
  pub min_password_length : Option ℕ
  pub user_id : String
  pub form : User
  pub is_saving : Bool
  pub is_deleting : Bool

-- `selectedUser`
abbrev pub selected_user : UserForm → Option User
selected_user s = Users.find s.users s.user_id

-- `password.length < undefined` is false.
abbrev pub shorter : ℕ → Option ℕ → Bool
shorter n none = false
shorter n (some min) = ltb n min

unfoldable pub password_weak : UserForm → Bool
password_weak s =
    let n = length (units s.form.password) in
    not (is_empty s.form.password) && ltb 0 n && shorter n s.min_password_length

-- `!text || text.length < 1`
abbrev pub blank : String → Bool
blank text = if is_empty text then true else ltb (length (units text)) 1

unfoldable pub form_valid : UserForm → Bool
unfolding password_weak
form_valid s =
    if not (s.form.source === "db")
    then true
    else if not (s.user_id === "#NEW#") && password_weak s
    then false
    else if s.user_id === "#NEW#" && blank s.form.password
    then false
    else if s.user_id === "#NEW#" && password_weak s
    then false
    else if blank s.form.identifier
    then false
    else true

-- The assignments that fill the form: all but DisabledReason, LockedReason, ApiEnabled, PeerCount
-- and IsSelected, and with an empty password.
unfoldable pub fill : User → User → User
fill u form = record u {
  password = "";
  disabled_reason = form.disabled_reason;
  locked_reason = form.locked_reason;
  api_enabled = form.api_enabled;
  peer_count = form.peer_count;
  is_selected = form.is_selected;
}

abbrev pub filled : Option User → User → User
filled none form = fresh_user
filled (some u) form = fill u form

unfoldable pub show : String → UserForm → UserForm
unfolding fill
show id s = record s { user_id = id; form = filled (Users.find s.users id) s.form }

-- `close()`: the parent component then hides the dialog.
unfoldable pub close : UserForm → UserForm
close s = record s { form = fresh_user; user_id = "" }

abbrev pub in_users {ℓ} : {A : Type ℓ} → M UserStore A → M UserForm A
in_users = within (λ s. s.users) (λ u s. record s { users = u })

abbrev pub of_selected : (String → M UserForm (Unit {0})) → M UserForm (Unit {0})
of_selected m w = with_selected user_key m (selected_user w.store) w

abbrev pub set_saving : Bool → UserForm → UserForm
set_saving b s = record s { is_saving = b }

abbrev pub set_deleting : Bool → UserForm → UserForm
set_deleting b s = record s { is_deleting = b }

-- The body of the try block of save, by whether the dialog is for an existing user.
unfoldable pub submit : Bool → M UserForm (Unit {0})
unfolding Requests.update_user Requests.create_user
submit true = of_selected (λ id. in_users (Requests.update_user id))
submit false = in_users Requests.create_user

unfoldable pub save : M UserForm Bool
unfolding submit
save = state >>= λ s.
    once (λ s. s.is_saving) set_saving "Failed to save user!" (submit (not (s.user_id === "#NEW#")))

-- The reply to UpdateUser of an identifier, or to CreateUser, in the store.
unfoldable pub store_reply : Option String → Reply User → M UserStore (Unit {0})
unfolding Requests.update_user_reply Requests.create_user_reply
store_reply (some id) r = Requests.update_user_reply id r
store_reply none r = Requests.create_user_reply r

unfoldable pub save_reply : Option String → Reply User → M UserForm (Unit {0})
unfolding close store_reply
save_reply target r =
    answered (λ s. s.is_saving) set_saving "Failed to save user!"
      (in_users (store_reply target r) >> update close)

unfoldable pub del : M UserForm Bool
unfolding Requests.delete_user
del =
    once (λ s. s.is_deleting) set_deleting "Failed to delete user!"
      (of_selected (λ id. in_users (Requests.delete_user id)))

unfoldable pub del_reply : String → Reply (Unit {0}) → M UserForm (Unit {0})
unfolding close Requests.delete_user_reply
del_reply id r =
    answered (λ s. s.is_deleting) set_deleting "Failed to delete user!"
      (in_users (Requests.delete_user_reply id r) >> update close)
