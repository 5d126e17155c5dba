-- ===== src/Views/Window/Laws.antt =====
-- The bounds of the window of page numbers (frontend/src/views/InterfaceView.vue).
use wg_portal.Prelude.{
  ℕ, zero, suc, ◌+◌, ◌-◌, ◌≤◌, ◌<◌, min, List, ◌∷◌, true, false, ltb, leb, length, pos, ◌≡◌, refl,
  arith, Bool-cases, inl, inr, ltb→lt, ap,
}
use wg_portal.Js.Paging.Numbers.{range_from}
use wg_portal.Views.Window.{max, start_of, count_up, window_from, visible_pages}

count_up_lem : (i n : ℕ) → count_up i n ≡ range_from i n
unfolding count_up
count_up_lem i zero = refl
count_up_lem i (suc n) = ap (i ∷◌) (count_up_lem (i + 1) n)

length-range_from : (i n : ℕ) → length (range_from i n) ≡ n
length-range_from i zero = refl
length-range_from i (suc n) = ap suc (length-range_from (i + 1) n)

-- Some ten pages among the first `total`, the current one among them.
abbrev pub IsWindow : ℕ → ℕ → List ℕ → Type 0
IsWindow total current pages =
    (s : ℕ) × (pages ≡ range_from s (min 10 total))
    × (1 ≤ s)
    × (s + min 10 total ≤ total + 1)
    × (s ≤ current)
    × (current < s + min 10 total)

max_one : (k : ℕ) → (1 ≤ max 1 k) × (k ≤ max 1 k) × (max 1 k ≤ 1 + (k - 1))
max_one k = ground arith

not-ltb : (a b : ℕ) → ltb a b ≡ false → b ≤ a
not-ltb a b h = ground arith

min_lem : (total : ℕ) → 10 < total → min 10 total ≡ 10
min_lem total h = omega arith

min_small : (total : ℕ) → total ≤ 10 → min 10 total ≡ total
min_small total h = omega arith

few_le : (n total : ℕ) → n ≡ total → leb n 10 ≡ true → total ≤ 10
few_le n total e h = ground arith

many_lt : (n total : ℕ) → n ≡ total → leb n 10 ≡ false → 10 < total
many_lt n total e h = ground arith

-- A window of ten pages that begins at `s`.
ten_from :
    (total current s rounds : ℕ)
    → 10 < total
    → rounds ≡ 10
    → 1 ≤ s
    → s + 10 ≤ total + 1
    → s ≤ current
    → current < s + 10
    → IsWindow total current (count_up s rounds)
ten_from total current s rounds h r a b c d =
    rw (min_lem total h, r) (s, count_up_lem s 10, a, b, c, d)

window_from-IsWindow :
    (total current : ℕ)
    → 10 < total
    → 1 ≤ current
    → current ≤ total
    → IsWindow total current (window_from (start_of (pos current)) total)
unfolding window_from
window_from-IsWindow total current h lo hi =
    let s = max 1 (current - 5) in
    let (one, above, below) = max_one (current - 5) in
    elim (Bool-cases (ltb total (s + 10 - 1))) [
      | inl beyond ↦
          let far : total < s + 10 - 1 = ltb→lt total (s + 10 - 1) beyond in
          let (first_pos, first_ge, first_le) = max_one (total - 10 + 1) in
          rw beyond (
            ten_from total current (max 1 (total - 10 + 1)) (total + 1 - max 1 (total - 10 + 1)) h
              (omega arith) first_pos (omega arith) (omega arith) (omega arith))
      | inr fits ↦
          let near : s + 10 - 1 ≤ total = not-ltb total (s + 10 - 1) fits in
          rw fits (
            ten_from total current s (s + 10 - 1 + 1 - s) h (omega arith) one (omega arith)
              (omega arith) (omega arith))
    ]

-- Where the current page is one of the pages that there are, at most ten page numbers are shown below
-- the table, in order and without a gap, all of them existing pages; there are ten if there are as
-- many pages, and the current page is among them.
pub visible_pages-IsWindow :
    (total current : ℕ)
    → 1 ≤ current
    → current ≤ total
    → IsWindow total current (visible_pages (range_from 1 total) (pos current))
unfolding visible_pages
visible_pages-IsWindow total current lo hi =
    elim (Bool-cases (leb (length (range_from 1 total)) 10)) [
      | inl few ↦
          let small : total ≤ 10 =
            few_le (length (range_from 1 total)) total (length-range_from 1 total) few in
          rw (few, min_small total small) (1, refl, omega arith, omega arith, lo, omega arith)
      | inr many ↦
          rw (many, length-range_from 1 total)
            (window_from-IsWindow total current
              (many_lt (length (range_from 1 total)) total (length-range_from 1 total) many) lo hi)
    ]
