-- ===== src/Settings.antt =====
-- The store of the backend's settings (frontend/src/stores/settings.js). The values are of any type.
use wg_portal.Prelude.{String, List, [], ◌∷◌, Option, some, none, ◌===◌, if◌then◌else◌}
use wg_portal.Js.{M, Reply, update, emit, request, get, notify, lit, settle, ◌>>◌}

pub record SettingsStore (V : Type 0) : Type 0 where
  pub settings : List (String × V)

module _ {V : Type 0} where
  -- `key in settings ? settings[key] : undefined`
  unfoldable lookup : String → List (String × V) → Option V
  lookup key [] = none
  lookup key ((k, v) ∷ rest) = if k === key then some v else lookup key rest

  unfoldable setting : SettingsStore V → String → Option V
  setting s key = lookup key s.settings

  unfoldable pub set_settings : List (String × V) → M (SettingsStore V) (Unit {0})
  set_settings settings = update (λ s. record s { settings = settings })

  unfoldable pub load_settings : M (SettingsStore V) (Unit {0})
  load_settings = emit (request get (lit "/config/settings" ∷ []))

  unfoldable pub load_settings_reply : Reply (List (String × V)) → M (SettingsStore V) (Unit {0})
  unfolding set_settings
  load_settings_reply r = settle r set_settings (λ e. do
    set_settings []
    emit (notify "Backend Connection Failure" "Failed to load settings!"))
