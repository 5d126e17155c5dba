-- ===== src/Security.antt =====
-- The store of the CSRF token (frontend/src/stores/security.js).
use wg_portal.Prelude.{String, [], ◌∷◌}
use wg_portal.Js.{M, Reply, update, emit, request, get, notify, lit, settle, ◌>>◌}

pub record SecurityStore : Type 0 where
  pub csrf_token : String

unfoldable pub set_csrf_token : String → M SecurityStore (Unit {0})
set_csrf_token token = update (λ s. record s { csrf_token = token })

unfoldable pub load_security_properties : M SecurityStore (Unit {0})
load_security_properties = emit (request get (lit "/csrf" ∷ []))

unfoldable pub load_security_properties_reply : Reply String → M SecurityStore (Unit {0})
unfolding set_csrf_token
load_security_properties_reply r = settle r set_csrf_token (λ e. do
  set_csrf_token ""
  emit (notify "Backend Connection Failure" "Failed to load csrf token!"))
