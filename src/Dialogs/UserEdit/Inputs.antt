-- ===== src/Dialogs/UserEdit/Inputs.antt =====
-- The inputs of the dialog for a user (the template of frontend/src/components/UserEditModal.vue).
use wg_portal.Prelude.{String, Bool, true, not, ◌&&◌, ◌===◌}
use wg_portal.Dialogs.UserEdit.{UserForm, form_valid}
use wg_portal.Js.{M, update}
use wg_portal.Models.{User}

-- An input with what the user enters; the input of the source is disabled.
pub data Field : Type 0 where
  identifier : String → Field
  password : String → Field
  email : String → Field
  firstname : String → Field
  lastname : String → Field
  phone : String → Field
  department : String → Field
  notes : String → Field
  disabled : Bool → Field
  locked : Bool → Field
  is_admin : Bool → Field

abbrev pub is_new : UserForm → Bool
is_new s = s.user_id === "#NEW#"

abbrev pub is_local : UserForm → Bool
is_local s = s.form.source === "db"

-- The `v-if` of each input, with those of the fieldsets around it.
unfoldable pub shows : Field → UserForm → Bool
shows (identifier _) s = is_local s && is_new s
shows (password _) s = is_local s
shows (email _) s = is_local s
shows (firstname _) s = is_local s
shows (lastname _) s = is_local s
shows (phone _) s = is_local s
shows (department _) s = is_local s
shows (notes _) s = true
shows (disabled _) s = true
shows (locked _) s = true
shows (is_admin _) s = is_local s

-- `v-model` of each input.
unfoldable pub write : Field → User → User
write (identifier t) f = record f { identifier = t }
write (password t) f = record f { password = t }
write (email t) f = record f { email = t }
write (firstname t) f = record f { firstname = t }
write (lastname t) f = record f { lastname = t }
write (phone t) f = record f { phone = t }
write (department t) f = record f { department = t }
write (notes t) f = record f { notes = t }
write (disabled b) f = record f { disabled = b }
write (locked b) f = record f { locked = b }
write (is_admin b) f = record f { is_admin = b }

unfoldable pub enters : Field → M UserForm (Unit {0})
unfolding write
enters i = update (λ s. record s { form = write i s.form })

-- The buttons: `v-if` and `:disabled`.
unfoldable pub offers_delete : UserForm → Bool
offers_delete s = not (is_new s) && not s.is_deleting

unfoldable pub offers_save : UserForm → Bool
unfolding form_valid
offers_save s = form_valid s && not s.is_saving
