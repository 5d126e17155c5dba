-- ===== src/Views/Bar.antt =====
-- The search field and the bar of pages of a table (the templates of
-- frontend/src/views/InterfaceView.vue, UserView.vue, ProfileView.vue and AuditView.vue): what is
-- offered, and what a click does to the pager of the store.
pub mod Laws
pub mod Tables
use wg_portal.Prelude.{
  ℕ, List, [], ◌∷◌, String, Option, Bool, true, false, not, ◌||◌, ◌==◌, ℤ, pos, negsuc, ◌≡◌,
}
use wg_portal.Js.{M, update, state, pass, when, ◌>>=◌, ◌>>◌}
use wg_portal.Js.Paging.{
  Pager, turn, after_page_size_change, goto_page, next_page, previous_page, has_next_page,
}

-- A store with a pager. The number of records depends on the filter alone.
pub record Table (S : Type 0) : Type 0 where
  pub view : S → Pager
  pub put : Pager → S → S
  pub count : S → ℕ
  pub view-put : (p : Pager) (s : S) → view (put p s) ≡ p
  pub count-put : (p : Pager) (s : S) → p.filter ≡ (view s).filter → count (put p s) ≡ count s

pub data PageSize : Type 0 where
  ten twenty_five fifty hundred everything : PageSize

abbrev pub size_of : PageSize → ℕ
size_of ten = 10
size_of twenty_five = 25
size_of fifty = 50
size_of hundred = 100
size_of everything = 999999999

-- What the template listens to: the text of the search field changes, a key is released there; a page
-- size is chosen, the list of sizes is clicked; the arrows and the number of a page are clicked.
pub data Control : Type 0 where
  typed : String → Control
  released : Control
  chosen : PageSize → Control
  size_clicked : Control
  previous next : Control
  page : ℕ → Control

abbrev pub is_zero : ℤ → Bool
is_zero (pos n) = n == 0
is_zero (negsuc n) = false

abbrev pub is_listed : ℕ → List ℕ → Bool
is_listed n [] = false
is_listed n (m ∷ ms) = m == n || is_listed n ms

-- `disabled`, and the numbers of pages that there are; `count` is the number of records.
unfoldable pub offers : ℕ → Pager → Control → Bool
unfolding has_next_page
offers count p (typed t) = true
offers count p released = true
offers count p (chosen n) = true
offers count p size_clicked = true
offers count p previous = not (is_zero p.page_offset)
offers count p next = has_next_page count p
offers count p (page n) = is_listed n p.pages

-- What the user does by key and mouse: a text in the search field, a page size that is chosen with
-- the mouse, a click on an arrow, and one on the number of a page.
pub data Gesture : Type 0 where
  search : String → Gesture
  size : PageSize → Gesture
  back forth : Gesture
  number : ℕ → Gesture

module _ {S : Type 0} (table : Table S) where
  abbrev turns : (ℕ → Pager → Option Pager) → M S (Unit {0})
  turns = turn table.view table.put table.count

  abbrev sets : (Pager → Pager) → M S (Unit {0})
  sets f = update (λ s. table.put (f (table.view s)) s)

  unfoldable pub press : Control → M S (Unit {0})
  unfolding after_page_size_change goto_page next_page previous_page
  press (typed t) = sets (λ p. record p { filter = t })
  press released = turns after_page_size_change
  press (chosen n) = sets (λ p. record p { page_size = size_of n })
  press size_clicked = turns after_page_size_change
  press previous = turns previous_page
  press next = turns next_page
  press (page n) = turns (λ count. goto_page count n)

  -- A control works where it is offered.
  unfoldable pub click : Control → M S (Unit {0})
  unfolding offers press
  click c w = when (offers (table.count w.store) (table.view w.store) c) (press c) pass w

  -- A key in the search field types and is released; a page size that is chosen with the mouse is
  -- clicked; the rest is one click.
  abbrev pub gesture : Gesture → M S (Unit {0})
  gesture (search t) = click (typed t) >> click released
  gesture (size n) = click (chosen n) >> click size_clicked
  gesture back = click previous
  gesture forth = click next
  gesture (number n) = click (page n)

  abbrev pub gesture_all : List Gesture → M S (Unit {0})
  gesture_all [] = pass
  gesture_all (g ∷ gs) = gesture g >> gesture_all gs
