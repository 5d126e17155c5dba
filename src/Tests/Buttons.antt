-- ===== src/Tests/Buttons.antt =====
-- Sessions of the dialog for a user (frontend/src/components/UserEditModal.vue): a new record is saved.
use wg_portal.Prelude.{◌≤◌, ltb, [], ◌∷◌, none, some, true, false, ◌≡◌, refl}
use wg_portal.Dialogs.Sessions.{Rests, Session, Reach, here, next, save_clicked}
use wg_portal.Dialogs.UserEdit
use wg_portal.Dialogs.UserEdit.{UserForm}
use wg_portal.Dialogs.UserEdit.Progress.{user_dialog-IsIdle}
use wg_portal.Dialogs.UserEdit.Session.{user_dialog}
use wg_portal.Js.{World, ok, fulfilled, rejected, error, request, post, lit}
use wg_portal.Models.{fresh_user}
use wg_portal.Users

abbrev new_user : UserForm
new_user = record {
  users = Users.fresh_store;
  min_password_length = some 16;
  user_id = "#NEW#";
  form = record fresh_user { identifier = "bob" };
  is_saving = false;
  is_deleting = false;
}

abbrev at_rest : Session user_dialog
at_rest = record { world = record { store = new_user; log = [] }; saves = 0; deletes = 0 }

abbrev user_sent : World UserForm
user_sent = record {
  store = record new_user {
    users = record Users.fresh_store { fetching = true };
    is_saving = true;
  };
  log = request post (lit "/user/new" ∷ []) ∷ [];
}

save-user : UserEdit.save at_rest.world ≡ ok true user_sent
unfolding UserEdit.save
save-user = refl

abbrev user_awaited : Session user_dialog
user_awaited = record { world = user_sent; saves = 1; deletes = 0 }

user_reached : Reach user_dialog at_rest user_awaited
user_reached = next here (save_clicked true user_sent save-user refl)

user_dialog-IsIdle_example :
    (user_awaited.saves ≤ 1)
    × (user_awaited.deletes ≤ 1)
    × (user_awaited.world.store.is_saving ≡ ltb 0 user_awaited.saves)
    × (user_awaited.world.store.is_deleting ≡ ltb 0 user_awaited.deletes)
    × Rests user_dialog
        (record { target = none; reply = rejected (error "409") })
        (record { id = "bob"; reply = fulfilled tt })
        user_awaited
user_dialog-IsIdle_example =
    user_dialog-IsIdle at_rest user_awaited
      (record { target = none; reply = rejected (error "409") })
      (record { id = "bob"; reply = fulfilled tt }) (refl, refl, refl, refl) user_reached
