-- ===== src/Dialogs/Forms.antt =====
-- How the template of a dialog reads its form: an input writes the form when it is on the page
-- (`v-if`, `v-model`, `@tags-changed`). A number that is entered is a natural number; the page lets
-- the user empty such a field, too, which puts an empty text there and is left out.
use wg_portal.Prelude.{List, [], ◌∷◌, Bool, true, ◌≡◌, Bool-cases, inl, inr}
use wg_portal.Js.{M, World, pass, when, ◌>>◌}
use wg_portal.Js.Keeping.{Kept, Keeps, >>=-Keeps}

-- The inputs of a form, when each is on the page, and what it does.
pub record Page (S : Type 0) : Type 1 where
  pub Input : Type 0
  pub shows : Input → S → Bool
  pub enters : Input → M S (Unit {0})

module _ {S : Type 0} (page : Page S) where
  abbrev enter : page.Input → M S (Unit {0})
  enter i w = when (page.shows i w.store) (page.enters i) pass w

  abbrev pub enter_all : List page.Input → M S (Unit {0})
  enter_all [] = pass
  enter_all (i ∷ is) = enter i >> enter_all is

  -- What each input on the page keeps, the whole form keeps.
  pub enter_all-Keeps :
      (P : S → Type 0)
      → ((i : page.Input) (w : World S)
          → page.shows i w.store ≡ true
          → P w.store
          → Kept P (page.enters i w))
      → (is : List page.Input) → Keeps P (enter_all is)
  enter_all-Keeps P keeps [] w h = h
  enter_all-Keeps P keeps (i ∷ is) w h =
      >>=-Keeps P (enter i) (λ _. enter_all is) one (λ _. enter_all-Keeps P keeps is) w h
    where
      one : Keeps P (enter i)
      one v k = elim (Bool-cases (page.shows i v.store)) [
        | inl e ↦ rw e (keeps i v e k)
        | inr e ↦ rw e k
      ]
