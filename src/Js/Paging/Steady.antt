-- ===== src/Js/Paging/Steady.antt =====
-- What every action on a pager keeps: a positive page size, and page numbers from 1 on without a
-- gap. With it no action loops.
use wg_portal.Prelude.{ℕ, ◌<◌, List, Option, none, some, ◌≡◌, refl, ap}
use wg_portal.Js.{World, Out, ok, hang}
use wg_portal.Js.Keeping.{Kept, Keeps}
use wg_portal.Js.Paging.{
  Pager, calculate_pages, after_page_size_change, goto_page, next_page, previous_page, turn,
}
use wg_portal.Js.Paging.Numbers.{range_from, calculate_pages_lem}

-- 1, 2, …, up to some number.
abbrev IsNumbered : List ℕ → Type 0
IsNumbered pages = (n : ℕ) × (pages ≡ range_from 1 n)

pub record IsSteady (p : Pager) : Type 0 where
  pub size_pos : 0 < p.page_size
  pub numbered : IsNumbered p.pages

-- The action ends, in a pager that keeps what is kept.
abbrev pub Ends : Option Pager → Type 0
Ends r = (q : Pager) × (r ≡ some q) × IsSteady q

pub calculate_pages-Ends :
    (count : ℕ) (p : Pager) → 0 < p.page_size → Ends (calculate_pages count p)
calculate_pages-Ends count p h =
    (_, calculate_pages_lem count p h, record { size_pos = h; numbered = (_, refl) })

module _ (count : ℕ) (p : Pager) (s : IsSteady p) where
  pub after_page_size_change-Ends : Ends (after_page_size_change count p)
  unfolding after_page_size_change
  after_page_size_change-Ends = calculate_pages-Ends count _ s.size_pos

  pub goto_page-Ends : (k : ℕ) → Ends (goto_page count k p)
  unfolding goto_page
  goto_page-Ends k = calculate_pages-Ends count _ s.size_pos

  pub next_page-Ends : Ends (next_page count p)
  unfolding next_page
  next_page-Ends = calculate_pages-Ends count _ s.size_pos

  pub previous_page-Ends : Ends (previous_page count p)
  unfolding previous_page
  previous_page-Ends = calculate_pages-Ends count _ s.size_pos

-- A store's action keeps its pager steady, if the pager's action ends.
pub turn-Keeps {ℓ} :
    {S : Type ℓ} (view : S → Pager) (put : Pager → S → S) (count : S → ℕ)
    (op : ℕ → Pager → Option Pager)
    → ((q : Pager) (s : S) → view (put q s) ≡ q)
    → ((s : S) → IsSteady (view s) → Ends (op (count s) (view s)))
    → Keeps (λ s. IsSteady (view s)) (turn view put count op)
turn-Keeps {S} view put count op same ends w p =
    go (op (count w.store) (view w.store)) (ends w.store p)
  where
    go :
        (r : Option Pager)
        → Ends r
        → Kept
            (λ s. IsSteady (view s))
            (elim r as (λ _. Out S (Unit {0})) [
              | none ↦ hang
              | some q ↦ ok tt (record w { store = put q w.store })
            ])
    go none (q, e, s) = cc
    go (some r) (q, e, s) = let e' : r ≡ q = cc in rw (same r w.store, e') s

-- What an action does to a store, from what it does to the pager.
pub turn_lem {ℓ} :
    {S : Type ℓ} (view : S → Pager) (put : Pager → S → S) (count : S → ℕ)
    (op : ℕ → Pager → Option Pager) (w : World S) {q : Pager}
    → op (count w.store) (view w.store) ≡ some q
    → turn view put count op w ≡ ok tt (record w { store = put q w.store })
turn_lem {S} view put count op w h =
    ap
      (λ r. elim r as (λ _. Out S (Unit {0})) [
        | none ↦ hang
        | some p ↦ ok tt (record w { store = put p w.store })
      ])
      h
