-- ===== src/Views/Start/Laws.antt =====
-- How the application starts (frontend/src/App.vue), over the stores of the session and the settings.
use wg_portal.Prelude.{
  ℕ, ◌-◌, ◌≤◌, String, List, ◌++◌, Option, Bool, true, false, ltb, length, length-append,
  length-replicate, replicate, ◌≡◌, refl, ◌∙◌, arith, Bool-cases, inl, inr, ◌⊎◌,
}
use wg_portal.Auth.{UserInfo, Session, is_authenticated}
use wg_portal.Auth.Requests
use wg_portal.Js.{M, World, Out, ok, throw, hang, Reply, fulfilled, rejected}
use wg_portal.FetchWrapper.Received.{Received}
use wg_portal.Security
use wg_portal.Settings
use wg_portal.Views.Start.{App, in_settings, display_name, user_display_name}

-- The backend has answered with a session of a user who is signed in.
abbrev pub accepted : Received Session → Bool
accepted r = elim r.reply [ fulfilled s ↦ s.logged_in | rejected _ ↦ false ]

-- The promise is fulfilled, and whether a user is signed in.
abbrev Fulfils : {V : Type 0} → Bool → M (App V) (Unit {0}) → World (App V) → Type 0
Fulfils {V} signed_in m w =
    (v : World (App V)) × (m w ≡ ok tt v) × (is_authenticated v.store.auth ≡ signed_in)

settings_reply :
    {V : Type 0} (r : Reply (List (String × V))) (w : World (App V))
    → Fulfils (is_authenticated w.store.auth) (in_settings (Settings.load_settings_reply r)) w
unfolding Settings.load_settings_reply Settings.set_settings
settings_reply (fulfilled _) w = (_, refl, refl)
settings_reply (rejected _) w = (_, refl, refl)

abbrev Ended : {V : Type 0} → Bool → Out (App V) (Unit {0}) → Type 0
Ended signed_in (ok _ v) = is_authenticated v.store.auth ≡ signed_in
Ended signed_in (throw _ v) = ⊥
Ended signed_in hang = ⊥

short_name :
    (name : List ℕ)
    → ltb (length name) 20 ≡ true
    → length (replicate (20 - length name) 0xA0 ++ name) ≡ 20
short_name name h =
    length-append (replicate (20 - length name) 0xA0) name
    ∙ ground (arith, length-replicate {A = ℕ} (20 - length name) 0xA0)

long_name : (name : List ℕ) → ltb (length name) 20 ≡ false → 20 ≤ length name
long_name name h = ground arith

-- On a wide window the name in the menu has at least 20 characters, and exactly 20 if it was padded;
-- the padding stands in front of the whole name. On a narrow one it is the name.
user_display_name-padded :
    (user : Option UserInfo)
    → (k : ℕ) × (user_display_name user true ≡ replicate k 0xA0 ++ display_name user)
      × (20 ≤ length (user_display_name user true))
      × ((k ≡ 0) ⊎ (length (user_display_name user true) ≡ 20))
      × (user_display_name user false ≡ display_name user)
unfolding user_display_name
user_display_name-padded user = elim (Bool-cases (ltb (length (display_name user)) 20)) [
  | inl short ↦
      let len = short_name (display_name user) short in
      rw short (20 - length (display_name user), refl, rw len (omega arith), inr len, refl)
  | inr long ↦ rw long (0, refl, long_name (display_name user) long, inl refl, refl)
]
