-- ===== src/Views/Menu.antt =====
-- The links of the menu and of the home page, by the names of their routes (the templates of
-- frontend/src/App.vue and frontend/src/views/HomeView.vue).
pub mod Laws
use wg_portal.Prelude.{
  String, List, [], ◌∷◌, ◌++◌, Bool, true, false, not, ◌&&◌, ◌||◌, if◌then◌else◌,
}
use wg_portal.Auth.{AuthStore, is_authenticated, is_admin}

-- `v-if` on links.
abbrev pub shown_if : Bool → List String → List String
shown_if b links = if b then links else []

abbrev pub administrates : AuthStore → Bool
administrates s = is_authenticated s && is_admin s

-- The bar at the left.
unfoldable pub bar_links : AuthStore → List String
bar_links s =
    "home" ∷ []
    ++ shown_if (administrates s) ("interfaces" ∷ [])
    ++ shown_if (administrates s) ("users" ∷ [])
    ++ "key-generator" ∷ []

-- The menu of the user and the link to the login, by the settings ApiAdminOnly and WebAuthnEnabled.
unfoldable pub user_links : Bool → Bool → AuthStore → List String
user_links api_admin_only web_authn_enabled s =
    shown_if (is_authenticated s) (
      "profile" ∷ []
      ++ shown_if (is_admin s || not api_admin_only || web_authn_enabled) ("settings" ∷ [])
      ++ shown_if (is_admin s) ("audit" ∷ []))
    ++ shown_if (not (is_authenticated s)) ("login" ∷ [])

-- The cards of the home page that lead to another page of the application; the links to other sites
-- are left out.
unfoldable pub home_links : AuthStore → List String
home_links s =
    shown_if (is_authenticated s) ("profile" ∷ [])
    ++ shown_if (administrates s) ("interfaces" ∷ "users" ∷ [])
