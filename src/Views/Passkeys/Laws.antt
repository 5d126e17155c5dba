-- ===== src/Views/Passkeys/Laws.antt =====
-- What the table of passkeys shows after a rename (frontend/src/views/SettingsView.vue).
use wg_portal.Prelude.{List, false, ◌≡◌, refl}
use wg_portal.Auth.{Credential, set_web_authn_credentials}
use wg_portal.Auth.Requests
use wg_portal.Js.{World, ok, Reply, fulfilled, rejected}
use wg_portal.Views.Passkeys.{Passkeys, save_rename_reply}

-- The table shows the new name and leaves the input, whether the backend has renamed the passkey or
-- refused to: the store does not pass the refusal on.
save_rename_reply-shown :
    (r : Reply (List Credential)) (w : World Passkeys)
    → (v : World Passkeys) × (save_rename_reply r w ≡ ok tt v)
      × (v.store.row ≡ record w.store.row { name = w.store.row.temp_name; rename_mode = false })
unfolding save_rename_reply Requests.rename_web_authn_credential_reply set_web_authn_credentials
save_rename_reply-shown (fulfilled _) w = (_, refl, refl)
save_rename_reply-shown (rejected _) w = (_, refl, refl)
