-- ===== src/Views/Passkeys/Section/Laws.antt =====
-- The buttons of the passkeys (frontend/src/views/SettingsView.vue).
use wg_portal.Prelude.{
  ℕ, String, List, [], ◌∷◌, Option, some, none, Bool, true, false, ◌≡◌, refl, All, units, ap, ◌∙◌,
}
use wg_portal.Auth.{Credential, set_web_authn_credentials}
use wg_portal.Auth.Requests
use wg_portal.Encoding.{base64_url_encode}
use wg_portal.Js.{encoded, Reply, fulfilled, rejected}
use wg_portal.Views.Passkeys.Section.Phases.{answers, answers-idle}
use wg_portal.Views.Passkeys.{Row, save_rename, save_rename_reply}
use wg_portal.Views.Passkeys.Section.{
  load_begins, Phase, idle, loading, starting, signing, finishing, renaming, deleting, Section,
  Event, register_clicked, save_clicked, delete_clicked, delete_cancelled, delete_confirmed,
  started, signed, replied, handle, handle_all, on_started, on_signed, on_replied, confirmed,
  registered, saved, unless, fetching,
}

abbrev pub busy : Phase → Bool
busy idle = false
busy _ = true

abbrev pub HasCode : String → Type 0
HasCode id = (t : List ℕ) × (base64_url_encode (units id) ≡ some t)

abbrev AsksFor : Option String → Type 0
AsksFor none = Unit {0}
AsksFor (some id) = HasCode id

-- The buttons are disabled exactly while an operation is under way.
abbrev pub IsGuarded : Section → Type 0
IsGuarded s = (s.page.store.auth.fetching ≡ busy s.phase) × AsksFor s.asked

-- The passkeys of the table have identifiers that can be encoded.
abbrev IsListed : Event → Type 0
IsListed (save_clicked row) = HasCode row.id
IsListed (delete_clicked id) = HasCode id
IsListed _ = Unit {0}

unless-IsGuarded :
    (b : Bool) (f : Section → Section) (s : Section)
    → fetching s ≡ b
    → IsGuarded s
    → (fetching s ≡ false → IsGuarded (f s))
    → IsGuarded (unless b f s)
unless-IsGuarded true f s e h k = h
unless-IsGuarded false f s e h k = k e

registered-IsGuarded :
    (b : Bool) (s : Section) → AsksFor s.asked → fetching s ≡ false → IsGuarded (registered b s)
unfolding Requests.register_web_authn Requests.web_authn_unsupported
registered-IsGuarded true s a e = (refl, a)
registered-IsGuarded false s a e = (e, a)

saved-IsGuarded :
    (row : Row) (s : Section) → HasCode row.id → AsksFor s.asked → IsGuarded (saved row s)
unfolding save_rename Requests.rename_web_authn_credential
saved-IsGuarded row s (t, l) a = rw (l, encoded) (refl, a)

confirmed-IsGuarded :
    (asked : Option String) (s : Section)
    → AsksFor asked
    → IsGuarded s
    → IsGuarded (confirmed asked s)
unfolding Requests.delete_web_authn_credential
confirmed-IsGuarded none s a h = h
confirmed-IsGuarded (some id) s (t, l) h = rw (l, encoded) (refl, tt)

on_started-IsGuarded :
    (p : Phase) (r : Reply (Unit {0})) (s : Section)
    → s.phase ≡ p
    → IsGuarded s
    → IsGuarded (on_started p r s)
unfolding Requests.registration_options
on_started-IsGuarded starting (fulfilled _) s e (f, a) = (f ∙ ap busy e, a)
on_started-IsGuarded starting (rejected _) s e (f, a) = (refl, a)
on_started-IsGuarded idle r s e h = h
on_started-IsGuarded loading r s e h = h
on_started-IsGuarded signing r s e h = h
on_started-IsGuarded finishing r s e h = h
on_started-IsGuarded renaming r s e h = h
on_started-IsGuarded deleting r s e h = h

on_signed-IsGuarded :
    (p : Phase) (r : Reply (Unit {0})) (s : Section)
    → s.phase ≡ p
    → IsGuarded s
    → IsGuarded (on_signed p r s)
unfolding Requests.registration_response
on_signed-IsGuarded signing (fulfilled _) s e (f, a) = (f ∙ ap busy e, a)
on_signed-IsGuarded signing (rejected _) s e (f, a) = (refl, a)
on_signed-IsGuarded idle r s e h = h
on_signed-IsGuarded loading r s e h = h
on_signed-IsGuarded starting r s e h = h
on_signed-IsGuarded finishing r s e h = h
on_signed-IsGuarded renaming r s e h = h
on_signed-IsGuarded deleting r s e h = h

on_replied-IsGuarded :
    (p : Phase) (r : Reply (List Credential)) (s : Section)
    → IsGuarded s
    → IsGuarded (on_replied p r s)
unfolding Requests.load_web_authn_credentials_reply Requests.registration_finished save_rename_reply
    Requests.rename_web_authn_credential_reply Requests.delete_web_authn_credential_reply
    set_web_authn_credentials
on_replied-IsGuarded loading (fulfilled _) s (f, a) = (refl, a)
on_replied-IsGuarded loading (rejected _) s (f, a) = (refl, a)
on_replied-IsGuarded finishing (fulfilled _) s (f, a) = (refl, a)
on_replied-IsGuarded finishing (rejected _) s (f, a) = (refl, a)
on_replied-IsGuarded renaming (fulfilled _) s (f, a) = (refl, a)
on_replied-IsGuarded renaming (rejected _) s (f, a) = (refl, a)
on_replied-IsGuarded deleting (fulfilled _) s (f, a) = (refl, a)
on_replied-IsGuarded deleting (rejected _) s (f, a) = (refl, a)
on_replied-IsGuarded idle r s h = h
on_replied-IsGuarded starting r s h = h
on_replied-IsGuarded signing r s h = h

handle-IsGuarded : (e : Event) (s : Section) → IsListed e → IsGuarded s → IsGuarded (handle e s)
handle-IsGuarded (register_clicked b) s l (f, a) =
    unless-IsGuarded _ (registered b) s refl (f, a) (registered-IsGuarded b s a)
handle-IsGuarded (save_clicked row) s l (f, a) =
    unless-IsGuarded _ (saved row) s refl (f, a) (λ e. saved-IsGuarded row s l a)
handle-IsGuarded (delete_clicked id) s l (f, a) =
    unless-IsGuarded _ (λ s. record s { asked = some id }) s refl (f, a) (λ e. (f, l))
handle-IsGuarded delete_cancelled s l (f, a) = (f, tt)
handle-IsGuarded delete_confirmed s l (f, a) =
    unless-IsGuarded _ (confirmed s.asked) s refl (f, a)
      (λ e. confirmed-IsGuarded s.asked s a (f, a))
handle-IsGuarded (started r) s l h = on_started-IsGuarded s.phase r s refl h
handle-IsGuarded (signed r) s l h = on_signed-IsGuarded s.phase r s refl h
handle-IsGuarded (replied r) s l h = on_replied-IsGuarded s.phase r s h

guarded :
    (es : List Event) (s : Section) → All IsListed es → IsGuarded s → IsGuarded (handle_all es s)
guarded [] s l h = h
guarded (e ∷ es) s (l, ls) h = guarded es (handle e s) ls (handle-IsGuarded e s l h)

load_begins-IsGuarded : (s : Section) → AsksFor s.asked → IsGuarded (load_begins s)
unfolding Requests.load_web_authn_credentials
load_begins-IsGuarded s a = (refl, a)

-- From the load of the passkeys on, which the page begins once the user has come, if no operation is
-- under way at that moment: whatever is clicked, and however the backend and the browser answer, the
-- buttons of the passkeys are disabled exactly while the load or another operation is under way; and
-- from there the answer to the start of a registration, the one of the browser and the reply, whatever
-- they are, free the buttons. Each passkey of the table has an identifier that can be encoded.
pub handle_all-IsGuarded :
    (es : List Event) (s : Section)
    → All IsListed es
    → s.phase ≡ idle
    → AsksFor s.asked
    → (r q : Reply (Unit {0})) (c : Reply (List Credential))
    → IsGuarded (handle_all es (load_begins s))
      × (fetching (handle_all (answers r q c) (handle_all es (load_begins s))) ≡ false)
handle_all-IsGuarded es s l still a r q c =
    let g = guarded es (load_begins s) l (load_begins-IsGuarded s a) in
    let (f, _) = guarded (answers r q c) (handle_all es (load_begins s)) (tt, (tt, (tt, tt))) g in
    (g, f ∙ ap busy (answers-idle r q c (handle_all es (load_begins s))))
