-- ===== src/Views/Window.antt =====
-- The window of at most ten page numbers below the table of peers (visiblePages in
-- frontend/src/views/InterfaceView.vue).
pub mod Laws
use wg_portal.Prelude.{
  ℕ, zero, suc, ◌+◌, ◌-◌, ◌≤◌, ◌<◌, min, List, [], ◌∷◌, Bool, ltb, leb, if◌then◌else◌, length, ℤ,
  pos, negsuc, ◌≡◌, refl, arith, Bool-cases, inl, inr, leb→le, ap, ◌∙◌,
}
use wg_portal.Js.Paging.Numbers.{range_from}

abbrev pub max : ℕ → ℕ → ℕ
max a b = if ltb a b then b else a

-- `Math.max(1, current - Math.floor(windowSize / 2))`
abbrev pub start_of : ℤ → ℕ
start_of (pos n) = max 1 (n - 5)
start_of (negsuc n) = 1

-- `for (let i = startPage; i <= endPage; i++) result.push(i)`, in so many rounds.
unfoldable pub count_up : ℕ → ℕ → List ℕ
count_up i zero = []
count_up i (suc rounds) = i ∷ count_up (i + 1) rounds

-- The window by its first page, shifted back where it goes beyond the last.
unfoldable pub window_from : ℕ → ℕ → List ℕ
unfolding count_up
window_from start total =
    let end = start + 10 - 1 in
    if ltb total end
    then count_up (max 1 (total - 10 + 1)) (total + 1 - max 1 (total - 10 + 1))
    else count_up start (end + 1 - start)

-- `visiblePages`, at a current page that is a whole number.
unfoldable pub visible_pages : List ℕ → ℤ → List ℕ
unfolding window_from
visible_pages pages current =
    if leb (length pages) 10 then pages else window_from (start_of current) (length pages)
