-- ===== src/Router/Routes.antt =====
-- The route table of frontend/src/router/index.js, and which of its pages a visitor may see.
use wg_portal.Prelude.{
  String, List, [], ◌∷◌, some, none, ◌≡◌, refl, All, All-map, includes, if◌then◌else◌, Bool-cases,
  inl, inr,
}
use wg_portal.Js.{World, Reply}
use wg_portal.Auth.{AuthStore, Session}
use wg_portal.Router.{Location, guard, public_pages}
use wg_portal.Router.Laws.{target, guard-public, guard-restricted}

pub record Route : Type 0 where
  pub path : String
  pub name : String

abbrev pub routes : List Route
routes =
    record { path = "/"; name = "home" }
    ∷ record { path = "/login"; name = "login" }
    ∷ record { path = "/interface"; name = "interface" }
    ∷ record { path = "/interfaces"; name = "interfaces" }
    ∷ record { path = "/users"; name = "users" }
    ∷ record { path = "/profile"; name = "profile" }
    ∷ record { path = "/settings"; name = "settings" }
    ∷ record { path = "/audit"; name = "audit" }
    ∷ record { path = "/key-generator"; name = "key-generator" }
    ∷ []

-- The pages for visitors, by the names of their routes.
abbrev open_names : List String
open_names = "home" ∷ "login" ∷ "key-generator" ∷ []

abbrev pub visit : Route → Location
visit r = record { path = r.path; full_path = r.path; login_state = none }

-- The table and the list of public pages agree.
names_agree : All (λ r. includes public_pages r.path ≡ includes open_names r.name) routes
names_agree = (refl, (refl, (refl, (refl, (refl, (refl, (refl, (refl, (refl, tt)))))))))

visited :
    (reply : Reply Session) (w : World AuthStore) (r : Route)
    → w.store.user ≡ none
    → includes public_pages r.path ≡ includes open_names r.name
    → target (guard (visit r) reply w)
      ≡ some (if includes open_names r.name then none else some "/login")
visited reply w r u h = elim (Bool-cases (includes public_pages r.path)) [
  | inl public ↦ rw (guard-public (visit r) reply w refl public, ← h, public)
  | inr hidden ↦ rw (guard-restricted (visit r) reply w refl hidden u, ← h, hidden)
]

-- Of the pages in the route table a visitor reaches the home page, the login page and the key
-- generator, and is sent to the login page from all others, if the navigation is no OAuth
-- callback.
guard-routes :
    (reply : Reply Session) (w : World AuthStore)
    → w.store.user ≡ none
    → All
        (λ r.
          target (guard (visit r) reply w)
          ≡ some (if includes open_names r.name then none else some "/login"))
        routes
guard-routes reply w u = All-map (λ r h. visited reply w r u h) routes names_agree
