-- ===== src/Dialogs/UserEdit/Validity.antt =====
-- Which users the dialog lets through (formValid in frontend/src/components/UserEditModal.vue).
use wg_portal.Prelude.{
  String, Bool, not, ◌&&◌, ◌||◌, ◌===◌, ===_ne, if◌then◌else◌, is_empty, ltb, ◌==◌, length, units,
  ◌≡◌, refl, arith, Bool-cases, inl, inr,
}
use Prim.Native.Char.{code}
use wg_portal.Dialogs.UserEdit.{UserForm, password_weak, form_valid, shorter}

-- A text is falsy exactly if it has no code units.
is_empty-units : (s : String) → is_empty s ≡ (length (units s) == 0)
is_empty-units String.[] = refl
is_empty-units (String.◌∷◌ c s) = elim (Bool-cases (ltb (code c) 0x10000)) [
  | inl small ↦ rw (===_ne (String.◌∷◌ c s) "" (cc), small) (ground arith)
  | inr large ↦ rw (===_ne (String.◌∷◌ c s) "" (cc), large) (ground arith)
]

-- The form as it should be accepted.
abbrev pub acceptable : UserForm → Bool
acceptable s =
    let n = length (units s.form.password) in
    not (s.form.source === "db")
    || ltb 0 (length (units s.form.identifier))
      && (if n == 0 then not (s.user_id === "#NEW#") else not (shorter n s.min_password_length))

-- A user of another source is always accepted; one of the database exactly with an identifier and
-- with a password that is long enough, or, for an existing user, empty.
pub form_valid-acceptable : (s : UserForm) → form_valid s ≡ acceptable s
unfolding form_valid password_weak
form_valid-acceptable s =
    ground (arith, is_empty-units s.form.password, is_empty-units s.form.identifier)
