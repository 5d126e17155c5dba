-- ===== src/Views/Selection/Laws.antt =====
-- Which rows of a store are selected after a click on the box in the head of the table
-- (`toggleSelectAll` of the views).
use wg_portal.Prelude.{
  String, List, [], ◌∷◌, Option, some, none, Bool, if◌then◌else◌, includes, map, map_option, ◌===◌,
  ===_iff, ◌≡◌, refl, ap, ◌∙◌, arith,
}
use wg_portal.Js.Array.{find}
use wg_portal.Js.Keyed.{find_key}
use wg_portal.Views.Selection.{set_key, select_each}

module _ {A : Type 0} (key : A → String) (set : Bool → A → A)
    (keeps : (b : Bool) (x : A) → key (set b x) ≡ key x)
    (twice : (b : Bool) (x : A) → set b (set b x) ≡ set b x) where
  find-set_key :
      (b : Bool) (id j : String) (xs : List A)
      → find_key key j (set_key key set b id xs)
        ≡ (if id === j then map_option (set b) (find_key key j xs) else find_key key j xs)
  unfolding find
  find-set_key b id j [] = ground arith
  find-set_key b id j (x ∷ xs) = ground (
    arith,
    ===_iff (key x) id,
    ===_iff (key x) j,
    ===_iff (key (set b x)) j,
    ===_iff id j,
    keeps b x,
    find-set_key b id j xs,
  )

  set_twice :
      (b : Bool) (o : Option A) → map_option (set b) (map_option (set b) o) ≡ map_option (set b) o
  set_twice b none = refl
  set_twice b (some x) = ap some (twice b x)

  pub find-select_each :
      (b : Bool) (shown xs : List A) (j : String)
      → find_key key j (select_each key set b shown xs) ≡ (
          if includes (map key shown) j
          then map_option (set b) (find_key key j xs)
          else find_key key j xs)
  unfolding select_each
  find-select_each b [] xs j = refl
  find-select_each b (x ∷ shown) xs j =
      find-select_each b shown (set_key key set b (key x) xs) j
      ∙ ground (arith, find-set_key b (key x) j xs, set_twice b (find_key key j xs))
