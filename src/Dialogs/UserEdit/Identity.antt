-- ===== src/Dialogs/UserEdit/Identity.antt =====
-- What filling in the form of a user leaves alone (frontend/src/components/UserEditModal.vue).
use wg_portal.Prelude.{
  List, Bool, true, false, ◌&&◌, ◌===◌, ◌≡◌, refl, ap, ◌∙◌, clash, some, String,
}
use wg_portal.Dialogs.Forms.{Page, enter_all, enter_all-Keeps}
use wg_portal.Dialogs.UserEdit.{UserForm, show, fill, filled}
use wg_portal.Dialogs.UserEdit.Inputs.{
  Field, identifier, notes, disabled, locked, is_new, is_local, shows, write, enters,
}
use wg_portal.Js.{World}
use wg_portal.Js.Keeping.{Kept}
use wg_portal.Js.Keyed.{find-key}
use wg_portal.Models.{User}
use wg_portal.Users
use wg_portal.Users.{user_key}

abbrev pub user_page : Page UserForm
user_page = record { Input = Field; shows = shows; enters = enters }

-- The two agree in all but the notes, `disabled` and `locked`.
abbrev pub SameSource : User → User → Type 0
SameSource p q =
    (q.identifier ≡ p.identifier)
    × (q.source ≡ p.source)
    × (q.email ≡ p.email)
    × (q.is_admin ≡ p.is_admin)
    × (q.firstname ≡ p.firstname)
    × (q.lastname ≡ p.lastname)
    × (q.phone ≡ p.phone)
    × (q.department ≡ p.department)
    × (q.password ≡ p.password)
    × (q.api_enabled ≡ p.api_enabled)
    × (q.disabled_reason ≡ p.disabled_reason)
    × (q.locked_reason ≡ p.locked_reason)
    × (q.peer_count ≡ p.peer_count)
    × (q.is_selected ≡ p.is_selected)

external-Keeps :
    (p : User) (i : Field) (w : World UserForm)
    → (p.source === "db") ≡ false
    → shows i w.store ≡ true
    → SameSource p w.store.form
    → Kept (λ s. SameSource p s.form) (enters i w)
unfolding shows write enters
external-Keeps p (notes t) w e h a = a
external-Keeps p (disabled b) w e h a = a
external-Keeps p (locked b) w e h a = a
external-Keeps p (identifier t) w e h a =
    clash _ h (ap (λ b. b && is_new w.store) (ap (λ t. t === "db") a.1 ∙ e))
external-Keeps p _ w e h a = clash _ h (ap (λ t. t === "db") a.1 ∙ e)

-- Whatever is entered for a user of an external source, every field of the form stays but for the
-- notes and for whether the user is disabled and locked.
pub enter_all-SameSource :
    (entries : List Field) (w : World UserForm)
    → (w.store.form.source === "db") ≡ false
    → Kept (λ s. SameSource w.store.form s.form) (enter_all user_page entries w)
enter_all-SameSource entries w e =
    enter_all-Keeps user_page (λ s. SameSource w.store.form s.form)
      (λ i v. external-Keeps w.store.form i v e) entries w
      (refl, refl, refl, refl, refl, refl, refl, refl, refl, refl, refl, refl, refl, refl)

-- The dialog is for the user of this identifier, and so is its form.
abbrev pub IsFor : String → UserForm → Type 0
IsFor id s = (s.user_id ≡ id) × (s.form.identifier ≡ id)

and_false : (a : Bool) → (a && false) ≡ false
and_false true = refl
and_false false = refl

named-Keeps :
    (id : String) (i : Field) (w : World UserForm)
    → (id === "#NEW#") ≡ false
    → shows i w.store ≡ true
    → IsFor id w.store
    → Kept (IsFor id) (enters i w)
unfolding shows write enters
named-Keeps id (identifier t) w new h (shown, name) = clash _ h (
    ap (λ b. is_local w.store && b) (ap (λ t. t === "#NEW#") shown ∙ new)
    ∙ and_false (is_local w.store))
named-Keeps id _ w new h p = p

-- Opening the dialog on a user of the store and filling in the form, whatever is entered, never
-- renames the user: the dialog and its form end with the identifier the dialog was opened on.
show-enter_all-IsFor :
    (id : String) (u : User) (entries : List Field) (w : World UserForm)
    → (id === "#NEW#") ≡ false
    → Users.find w.store.users id ≡ some u
    → Kept (IsFor id) (enter_all user_page entries (record w { store = show id w.store }))
unfolding show fill
show-enter_all-IsFor id u entries w new found =
    enter_all-Keeps user_page (IsFor id) (λ i v. named-Keeps id i v new) entries
      (record w { store = show id w.store })
      (refl, ap (λ o. (filled o w.store.form).identifier) found ∙ find-key user_key _ id u found)
