-- ===== src/Views/Selection.antt =====
-- The box in the head of a table, which selects the rows of the page that is shown
-- (`toggleSelectAll` of frontend/src/views/InterfaceView.vue, ProfileView.vue and UserView.vue). The
-- rows that are shown are objects of the store, each with an identifier of its own.
pub mod Laws
use wg_portal.Prelude.{String, List, [], ◌∷◌, Bool, ◌===◌, if◌then◌else◌}

module _ {A : Type 0} (key : A → String) (set : Bool → A → A) where
  -- `row.IsSelected = selected` at the first row with an identifier.
  abbrev pub set_key : Bool → String → List A → List A
  set_key b id [] = []
  set_key b id (x ∷ xs) = if key x === id then set b x ∷ xs else x ∷ set_key b id xs

  -- `shown.forEach(row => { row.IsSelected = selected })`
  unfoldable pub select_each : Bool → List A → List A → List A
  select_each b [] rows = rows
  select_each b (x ∷ shown) rows = select_each b shown (set_key b (key x) rows)
