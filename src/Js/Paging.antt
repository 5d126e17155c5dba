-- ===== src/Js/Paging.antt =====
-- The paging that the four list stores share: the text of the filter, the page size, the offset of
-- the page that is shown, and the list of page numbers. The loop of calculatePages runs on fuel;
-- `none` means that the fuel ran out. The fuel `count + 1` is enough for every page size but 0
-- (`page_numbers_lem`), and with page size 0 no fuel is.
pub mod Numbers
pub mod Slices
pub mod Navigation
pub mod Steady
use wg_portal.Prelude.{
  ℕ, zero, suc, ◌+◌, ◌-◌, ◌/◌, ◌%◌, List, [], ◌∷◌, ◌++◌, Option, none, some, Bool, true, false, ltb,
  ◌==◌, if◌then◌else◌, String, ℤ, pos, negsuc, ◌+ℤ◌, ◌-ℤ◌, ◌*ℤ◌, sub_ℕ, ltb_ℤ, map_option,
}
use wg_portal.Js.{M, World, ok, hang}
use wg_portal.Js.Array.{slice}

pub record Pager : Type 0 where
  pub filter : String
  pub page_size : ℕ
  pub page_offset : ℤ
  pub pages : List ℕ

-- The initial values of the four fields.
abbrev pub fresh_pager : Pager
fresh_pager = record { filter = ""; page_size = 10; page_offset = pos 0; pages = [] }

-- `for (let i = 0; i < count; i += size) pages.push(pageCounter++)`
unfoldable pub push_pages : ℕ → ℕ → ℕ → ℕ → ℕ → List ℕ → Option (List ℕ)
push_pages zero count size i counter pages = none
push_pages (suc fuel) count size i counter pages =
    let rest = push_pages fuel count size (i + size) (counter + 1) (pages ++ counter ∷ []) in
    if ltb i count then rest else some pages

unfoldable pub page_numbers : ℕ → ℕ → Option (List ℕ)
unfolding push_pages
page_numbers count size = push_pages (suc count) count size 0 1 []

-- `calculatePages` at the given FilteredCount; `none` if its loop does not end.
unfoldable pub calculate_pages : ℕ → Pager → Option Pager
calculate_pages count p = elim (page_numbers count p.page_size) [
  | none ↦ none
  | some ps ↦ some (record p { pages = ps })
]

unfoldable pub after_page_size_change : ℕ → Pager → Option Pager
after_page_size_change count p = calculate_pages count (record p { page_offset = pos 0 })

unfoldable pub goto_page : ℕ → ℕ → Pager → Option Pager
goto_page count page p =
    calculate_pages count (record p { page_offset = sub_ℕ page 1 *ℤ pos p.page_size })

unfoldable pub next_page : ℕ → Pager → Option Pager
next_page count p =
    calculate_pages count (record p { page_offset = p.page_offset +ℤ pos p.page_size })

unfoldable pub previous_page : ℕ → Pager → Option Pager
previous_page count p =
    calculate_pages count (record p { page_offset = p.page_offset -ℤ pos p.page_size })

-- The getters of the pager.
unfoldable pub has_next_page : ℕ → Pager → Bool
has_next_page count p = ltb_ℤ p.page_offset (sub_ℕ count p.page_size)

unfoldable pub has_prev_page : Pager → Bool
has_prev_page p = ltb_ℤ (pos 0) p.page_offset

-- n / size, where it is a whole number.
abbrev pub whole_div : ℕ → ℕ → Option ℕ
whole_div n size = if size == 0 then none else if n % size == 0 then some (n / size) else none

abbrev page_at : ℤ → ℕ → Option ℤ
page_at (pos n) size = map_option (λ q. pos (q + 1)) (whole_div n size)
page_at (negsuc n) size = map_option (λ q. sub_ℕ 1 q) (whole_div (suc n) size)

-- `pageOffset / pageSize + 1` where that is a whole number, and `none` elsewhere.
unfoldable pub current_page : Pager → Option ℤ
current_page p = page_at p.page_offset p.page_size

-- `items.slice(pageOffset, pageOffset + pageSize)`
unfoldable pub paged {ℓ} : {A : Type ℓ} → Pager → List A → List A
paged p xs = slice xs p.page_offset (p.page_offset +ℤ pos p.page_size)

-- A method of a store that works on its pager; `count` is the store's FilteredCount.
abbrev pub turn {ℓ} :
    {S : Type ℓ}
    → (S → Pager)
    → (Pager → S → S)
    → (S → ℕ)
    → (ℕ → Pager → Option Pager)
    → M S (Unit {0})
turn view put count op w = elim (op (count w.store) (view w.store)) [
  | none ↦ hang
  | some p ↦ ok tt (record w { store = put p w.store })
]
