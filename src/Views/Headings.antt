-- ===== src/Views/Headings.antt =====
-- The headings of the tables of peers, by which they are sorted, and the arrow that shows the order
-- (the templates of frontend/src/views/InterfaceView.vue and ProfileView.vue).
pub mod Laws
use wg_portal.Prelude.{
  ℕ, zero, suc, String, List, [], ◌∷◌, ◌++◌, Option, none, some, Bool, true, false, if◌then◌else◌,
  ◌===◌,
}
use wg_portal.Interfaces
use wg_portal.Peers
use wg_portal.Peers.{SortKey}
use wg_portal.Profile
use wg_portal.Views.InterfaceView
use wg_portal.Views.InterfaceView.{InterfaceView}
use wg_portal.Views.ProfileView
use wg_portal.Views.ProfileView.{ProfileView}

-- A heading with the column that a click on it sorts by, and its arrow: `true` is the one up.
pub record Heading (K : Type 0) : Type 0 where
  pub title : String
  pub key : Option K
  pub arrow : Option Bool

abbrev plain : {K : Type 0} → String → Heading K
plain title = record { title = title; key = none; arrow = none }

abbrev shown_if {ℓ} : {A : Type ℓ} → Bool → List A → List A
shown_if true xs = xs
shown_if false xs = []

-- `sortKey === '…'`
abbrev pub arrow_of : {K : Type 0} → (K → K → Bool) → Option K → Bool → K → Option Bool
arrow_of same none ascending key = none
arrow_of same (some old) ascending key = if same old key then some ascending else none

unfoldable pub arrow : InterfaceView → SortKey → Option Bool
unfolding InterfaceView.same_key
arrow s key = arrow_of InterfaceView.same_key s.sort_key s.ascending key

abbrev sortable : InterfaceView → String → SortKey → Heading SortKey
sortable s title key = record { title = title; key = some key; arrow = arrow s key }

-- The headings between those of the boxes and of the actions; `none` is a TypeError, where no
-- interface is selected.
unfoldable headings : InterfaceView → Option (List (Heading SortKey))
unfolding arrow Interfaces.get_selected
headings s = elim (Interfaces.get_selected s.interfaces) [
  | none ↦ none
  | some i ↦ some (
      sortable s "name" SortKey.display_name
        ∷ sortable s "user" SortKey.user_identifier
        ∷ sortable s "ip" SortKey.addresses
        ∷ sortable s "Expires At" SortKey.expires_at
        ∷ shown_if (i.mode === "client") (plain "endpoint" ∷ [])
      ++ shown_if s.peers.stats_enabled
          (sortable s "status" SortKey.is_connected ∷ sortable s "RX/TX" SortKey.traffic ∷ []))
]

-- A click on a heading.
unfoldable click : Heading SortKey → InterfaceView → InterfaceView
unfolding InterfaceView.sort_by
click h s = elim h.key [ none ↦ s | some key ↦ InterfaceView.sort_by key s ]

abbrev own_sortable : ProfileView → String → Profile.SortKey → Heading Profile.SortKey
own_sortable s title key = record {
  title = title;
  key = some key;
  arrow = arrow_of ProfileView.same_key s.sort_key s.ascending key;
}

-- The headings in the view of the user's own peers.
unfoldable own_headings : ProfileView → List (Heading Profile.SortKey)
unfolding ProfileView.same_key
own_headings s =
    own_sortable s "name" Profile.SortKey.display_name
      ∷ own_sortable s "ip" Profile.SortKey.addresses
      ∷ shown_if s.profile.stats_enabled (
          own_sortable s "stats" Profile.SortKey.is_connected
          ∷ own_sortable s "RX/TX" Profile.SortKey.traffic
          ∷ [])
    ++ plain "interface" ∷ []

unfoldable own_click : Heading Profile.SortKey → ProfileView → ProfileView
unfolding ProfileView.sort_by
own_click h s = elim h.key [ none ↦ s | some key ↦ ProfileView.sort_by key s ]
