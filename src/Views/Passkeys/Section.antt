-- ===== src/Views/Passkeys/Section.antt =====
-- The section of the passkeys over time: the buttons of the template, each where it is enabled, the
-- replies of the backend and the answer of the browser (frontend/src/views/SettingsView.vue).
pub mod Phases
pub mod Laws
use wg_portal.Prelude.{
  String, List, [], ◌∷◌, Option, some, none, Bool, true, false, if◌then◌else◌, is_some, units,
}
use wg_portal.Auth.{Credential}
use wg_portal.Auth.Requests
use wg_portal.Encoding.{base64_url_encode}
use wg_portal.Js.{M, World, world_after, Reply, fulfilled, rejected}
use wg_portal.Views.Passkeys.{Passkeys, Row, in_auth, save_rename, save_rename_reply}

-- The operation that is under way: the load of the passkeys at the start of the page, or one of the
-- user's; a registration has three steps.
pub data Phase : Type 0 where
  idle loading starting signing finishing renaming deleting : Phase

-- `asked` is the passkey whose deletion the dialog asks to confirm.
pub record Section : Type 0 where
  pub page : World Passkeys
  pub phase : Phase
  pub asked : Option String

-- A click on the button that registers says whether the browser supports passkeys, one on the button
-- that saves has the row with the name of the input.
pub data Event : Type 0 where
  register_clicked : Bool → Event
  save_clicked : Row → Event
  delete_clicked : String → Event
  delete_cancelled delete_confirmed : Event
  started signed : Reply (Unit {0}) → Event
  replied : Reply (List Credential) → Event

abbrev pub fetching : Section → Bool
fetching s = s.page.store.auth.fetching

-- A method runs, and the section is in a phase then.
abbrev after : M Passkeys (Unit {0}) → Phase → Section → Section
after m p s = record s { page = world_after s.page (m s.page); phase = p }

abbrev with_row : Row → Section → Section
with_row row s = record s { page = record s.page { store = record s.page.store { row = row } } }

-- An identifier that cannot be encoded is not sent.
abbrev sent : String → Phase → Phase
sent id p = if is_some (base64_url_encode (units id)) then p else idle

abbrev pub saved : Row → Section → Section
saved row s = after save_rename (sent row.id renaming) (with_row row s)

abbrev pub registered : Bool → Section → Section
registered supported =
    after (in_auth (Requests.register_web_authn supported)) (if supported then starting else idle)

abbrev pub confirmed : Option String → Section → Section
confirmed none s = s
confirmed (some id) s =
    after (in_auth (Requests.delete_web_authn_credential id)) (sent id deleting)
      (record s { asked = none })

-- The phase behind a step that may fail.
abbrev pub next {ℓ} : {A : Type ℓ} → Reply A → Phase → Phase
next (fulfilled _) p = p
next (rejected _) p = idle

abbrev pub on_started : Phase → Reply (Unit {0}) → Section → Section
on_started starting r s = after (in_auth (Requests.registration_options r)) (next r signing) s
on_started _ r s = s

abbrev pub on_signed : Phase → Reply (Unit {0}) → Section → Section
on_signed signing r s = after (in_auth (Requests.registration_response r)) (next r finishing) s
on_signed _ r s = s

abbrev pub on_replied : Phase → Reply (List Credential) → Section → Section
on_replied loading r s = after (in_auth (Requests.load_web_authn_credentials_reply r)) idle s
on_replied finishing r s = after (in_auth (Requests.registration_finished r)) idle s
on_replied renaming r s = after (save_rename_reply r) idle s
on_replied deleting r s = after (in_auth (Requests.delete_web_authn_credential_reply r)) idle s
on_replied _ r s = s

-- The load in `onMounted`, once the user has come: whatever is under way.
abbrev pub load_begins : Section → Section
load_begins s = after (in_auth Requests.load_web_authn_credentials) loading s

-- A button that is disabled while the store fetches.
abbrev pub unless : Bool → (Section → Section) → Section → Section
unless true f s = s
unless false f s = f s

abbrev pub handle : Event → Section → Section
handle (register_clicked supported) s = unless (fetching s) (registered supported) s
handle (save_clicked row) s = unless (fetching s) (saved row) s
handle (delete_clicked id) s = unless (fetching s) (λ s. record s { asked = some id }) s
handle delete_cancelled s = record s { asked = none }
handle delete_confirmed s = unless (fetching s) (confirmed s.asked) s
handle (started r) s = on_started s.phase r s
handle (signed r) s = on_signed s.phase r s
handle (replied r) s = on_replied s.phase r s

abbrev pub handle_all : List Event → Section → Section
handle_all [] s = s
handle_all (e ∷ es) s = handle_all es (handle e s)
