-- ===== src/Views/Menu/Laws.antt =====
-- Every link of the menu and of the home page leads to its page.
use wg_portal.Prelude.{
  String, List, [], ◌∷◌, ◌++◌, Option, some, none, Bool, true, false, ◌&&◌, ◌||◌, not, ◌≡◌, refl,
  All, ◌===◌, includes, arith,
}
use wg_portal.Js.{World, Reply, ok}
use wg_portal.Js.Array.{find}
use wg_portal.Auth.{AuthStore, Session, is_authenticated, is_admin}
use wg_portal.Router.{Location, guard, public_pages}
use wg_portal.Router.Laws.{target, guard-public}
use wg_portal.Router.Routes.{Route, routes, visit}
use wg_portal.Views.Menu.{shown_if, administrates, bar_links, user_links, home_links}

-- `:to="{ name }"`: the route of a name.
abbrev route_of : String → Option Route
route_of name = find (λ r. r.name === name) routes

-- The link names a route, and the guard lets the navigation to it go on.
abbrev pub Reaches : Reply Session → World AuthStore → String → Type 0
Reaches reply w name =
    (r : Route) × (route_of name ≡ some r) × (target (guard (visit r) reply w) ≡ some none)

guard-user :
    (to : Location) (reply : Reply Session) (w : World AuthStore)
    → to.login_state ≡ none
    → is_authenticated w.store ≡ true
    → guard to reply w ≡ ok none w
unfolding guard
guard-user to reply w h u = ground arith

module _ (P : String → Type 0) where
  shown_if-All :
      (b : Bool) (links : List String) → (b ≡ true → All P links) → All P (shown_if b links)
  shown_if-All true links h = h refl
  shown_if-All false links h = tt

  append-All : (a b : List String) → All P a → All P b → All P (a ++ b)
  append-All [] b h k = k
  append-All (x ∷ a) b (p, h) k = (p, append-All a b h k)

and_left : (a b : Bool) → (a && b) ≡ true → a ≡ true
and_left true b h = refl
and_left false b h = h

module _ (reply : Reply Session) (w : World AuthStore) where
  to_user :
      (name : String) (r : Route)
      → route_of name ≡ some r
      → is_authenticated w.store ≡ true
      → Reaches reply w name
  to_user name r e u = (r, e, rw (guard-user (visit r) reply w refl u) refl)

  to_all :
      (name : String) (r : Route)
      → route_of name ≡ some r
      → includes public_pages r.path ≡ true
      → Reaches reply w name
  to_all name r e p = (r, e, rw (guard-public (visit r) reply w refl p) refl)

  home : Reaches reply w "home"
  unfolding find
  home = to_all "home" _ refl refl

  both :
      (a b : List String)
      → All (Reaches reply w) a
      → All (Reaches reply w) b
      → All (Reaches reply w) (a ++ b)
  both = append-All (Reaches reply w)

  shown :
      (b : Bool) (links : List String)
      → (b ≡ true → All (Reaches reply w) links)
      → All (Reaches reply w) (shown_if b links)
  shown = shown_if-All (Reaches reply w)

  bar_links-All : All (Reaches reply w) (bar_links w.store)
  unfolding bar_links find
  bar_links-All =
      let a = administrates w.store in
      let interfaces = shown_if a ("interfaces" ∷ []) in
      let users = shown_if a ("users" ∷ []) in
      both ("home" ∷ [] ++ interfaces ++ users) ("key-generator" ∷ [])
        (both ("home" ∷ [] ++ interfaces) users
          (both ("home" ∷ []) interfaces (home, tt)
            (shown a ("interfaces" ∷ []) (λ h. (to_user "interfaces" _ refl (and_left _ _ h), tt))))
          (shown a ("users" ∷ []) (λ h. (to_user "users" _ refl (and_left _ _ h), tt))))
        (to_all "key-generator" _ refl refl, tt)

  user_links-All :
      (api_admin_only web_authn_enabled : Bool)
      → All (Reaches reply w) (user_links api_admin_only web_authn_enabled w.store)
  unfolding user_links find
  user_links-All api_admin_only web_authn_enabled =
      let user = is_authenticated w.store in
      let some_settings = is_admin w.store || not api_admin_only || web_authn_enabled in
      let settings = shown_if some_settings ("settings" ∷ []) in
      let audit = shown_if (is_admin w.store) ("audit" ∷ []) in
      both (shown_if user ("profile" ∷ [] ++ settings ++ audit))
        (shown_if (not user) ("login" ∷ []))
        (shown user ("profile" ∷ [] ++ settings ++ audit) (λ u.
          both ("profile" ∷ [] ++ settings) audit
            (both ("profile" ∷ []) settings (to_user "profile" _ refl u, tt)
              (shown some_settings ("settings" ∷ []) (λ _. (to_user "settings" _ refl u, tt))))
            (shown (is_admin w.store) ("audit" ∷ []) (λ _. (to_user "audit" _ refl u, tt)))))
        (shown (not user) ("login" ∷ []) (λ _. (to_all "login" _ refl refl, tt)))

  home_links-All : All (Reaches reply w) (home_links w.store)
  unfolding home_links find
  home_links-All =
      let user = is_authenticated w.store in
      let admin = administrates w.store in
      both (shown_if user ("profile" ∷ [])) (shown_if admin ("interfaces" ∷ "users" ∷ []))
        (shown user ("profile" ∷ []) (λ u. (to_user "profile" _ refl u, tt)))
        (shown admin ("interfaces" ∷ "users" ∷ []) (λ a.
          let u = and_left _ _ a in
          (to_user "interfaces" _ refl u, (to_user "users" _ refl u, tt))))

-- Every link that the menu or the home page shows, to a visitor, a user or an administrator and
-- whatever the settings say, names a route of the table, and the guard lets the navigation to it go
-- on.
pub links-Reaches :
    (api_admin_only web_authn_enabled : Bool) (reply : Reply Session) (w : World AuthStore)
    → All (Reaches reply w) (
        bar_links w.store
        ++ user_links api_admin_only web_authn_enabled w.store
        ++ home_links w.store)
links-Reaches api_admin_only web_authn_enabled reply w =
    let bar = bar_links w.store in
    let user = user_links api_admin_only web_authn_enabled w.store in
    both reply w (bar ++ user) (home_links w.store)
      (both reply w bar user (bar_links-All reply w)
        (user_links-All reply w api_admin_only web_authn_enabled))
      (home_links-All reply w)
