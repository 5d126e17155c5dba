-- ===== src/Js/Paging/Slices.antt =====
-- What the pages show: the slices of all page numbers, one after the other, are the whole list.
use wg_portal.Prelude.{
  ℕ, zero, suc, ◌+◌, ◌-◌, ◌*◌, ◌<◌, List, some, ◌≡◌, refl, sym, ◌∙◌, arith, length, take, drop,
  take-append-drop, drop-drop, drop-eq-nil, concat_map, pos, sub_ℕ, ◌+ℤ◌, ◌*ℤ◌,
}
use wg_portal.Js.Array.{slice}
use wg_portal.Js.Paging.{Pager, goto_page, paged}
use wg_portal.Js.Paging.Numbers.{
  ceil_div, ceil_div-eq-zero, ceil_div-pred, range_from, calculate_pages_lem,
}

-- The items of page k, counted from 1.
abbrev pub page_items {ℓ} : {A : Type ℓ} → ℕ → List A → ℕ → List A
page_items size xs k = take size (drop ((k - 1) * size) xs)

pages_from {ℓ} :
    {A : Type ℓ} (xs : List A) (size : ℕ)
    → 0 < size
    → (n j : ℕ) → ceil_div (length xs - j * size) size ≡ n
    → concat_map (page_items size xs) (range_from (j + 1) n) ≡ drop (j * size) xs
pages_from xs size h zero j e =
    sym
      (drop-eq-nil (j * size) xs (omega (arith, ceil_div-eq-zero (length xs - j * size) size h e)))
pages_from xs size h (suc n) j e =
    let next : (j + 1) * size ≡ j * size + size = omega arith in
    let left : length xs - (j + 1) * size ≡ length xs - j * size - size = omega arith in
    let before : j + 1 - 1 ≡ j = omega arith in
    let rest : ceil_div (length xs - (j + 1) * size) size ≡ n =
      rw left (ceil_div-pred (length xs - j * size) size n h e) in
    rw (before, pages_from xs size h n (j + 1) rest, next, ← drop-drop size (j * size) xs)
      (take-append-drop size (drop (j * size) xs))

-- The offset of page k.
pub offset_lem : (k size : ℕ) → 0 < k → sub_ℕ k 1 *ℤ pos size ≡ pos ((k - 1) * size)
unfolding ◌*ℤ◌
offset_lem k size h = ground arith

pub pos-add : (a b : ℕ) → pos a +ℤ pos b ≡ pos (a + b)
unfolding ◌+ℤ◌
pos-add a b = ground arith

add-sub : (a b : ℕ) → a + b - a ≡ b
add-sub a b = omega arith

-- gotoPage(k) moves the offset to the start of page k, and renews the page numbers.
pub goto_page_lem :
    (count k : ℕ) (p : Pager)
    → 0 < p.page_size
    → 0 < k
    → goto_page count k p
      ≡ some (record p {
        page_offset = pos ((k - 1) * p.page_size);
        pages = range_from 1 (ceil_div count p.page_size);
      })
unfolding goto_page
goto_page_lem count k p hs hk = rw (
  calculate_pages_lem count (record p { page_offset = sub_ℕ k 1 *ℤ pos p.page_size }) hs,
  offset_lem k p.page_size hk,
)

-- The slice at page k's offset.
pub paged-page_items {ℓ} :
    {A : Type ℓ} (p : Pager) (xs : List A) (k : ℕ)
    → p.page_offset ≡ pos ((k - 1) * p.page_size)
    → paged p xs ≡ page_items p.page_size xs k
unfolding paged slice
paged-page_items p xs k h = rw (h, paged, pos-add, add-sub)

concat_map-range {ℓ} :
    {A : Type ℓ} (f g : ℕ → List A)
    → ((k : ℕ) → 0 < k → f k ≡ g k)
    → (n start : ℕ) → 0 < start
    → concat_map f (range_from start n) ≡ concat_map g (range_from start n)
concat_map-range f g h zero start hs = refl
concat_map-range f g h (suc n) start hs =
    rw (h start hs, concat_map-range f g h n (start + 1) (omega arith))

-- Whatever shows each page's items on its own shows the whole list on the pages 1, 2, ….
pub pages-partition {ℓ} :
    {A : Type ℓ} (xs : List A) (size : ℕ) (show : ℕ → List A)
    → 0 < size
    → ((k : ℕ) → 0 < k → show k ≡ page_items size xs k)
    → concat_map show (range_from 1 (ceil_div (length xs) size)) ≡ xs
pages-partition xs size show h each =
    let zero : 0 * size ≡ 0 = omega arith in
    let same : length xs - 0 * size ≡ length xs = omega arith in
    let n = ceil_div (length xs) size in
    concat_map-range show (page_items size xs) each n 1 (omega arith)
    ∙ rw zero at (pages_from xs size h n 0 (rw same))
