-- ===== src/Js/Paging/Numbers.antt =====
-- The loop of calculatePages: it ends for every page size but 0, and numbers the pages from 1.
use wg_portal.Prelude.{
  ℕ, zero, suc, ◌+◌, ◌-◌, ◌/◌, ◌<◌, List, [], ◌∷◌, ◌++◌, none, some, ◌≡◌, refl, ltb, arith,
  append-nil, append_assoc, ap, ◌∙◌, Bool-cases, inl, inr, lt→ltb, ltb→lt,
}
use wg_portal.Js.Paging.{Pager, push_pages, page_numbers, calculate_pages}

-- ⌈n / k⌉, the number of pages of size k that n items need.
abbrev pub ceil_div : ℕ → ℕ → ℕ
ceil_div n k = (n + k - 1) / k

-- start, start + 1, …, `n` numbers.
abbrev pub range_from : ℕ → ℕ → List ℕ
range_from start zero = []
range_from start (suc n) = start ∷ range_from (start + 1) n

ceil_div-step : (d k : ℕ) → 0 < d → 0 < k → ceil_div d k ≡ suc (ceil_div (d - k) k)
ceil_div-step d k hd hk = grind arith

ceil_div-zero : (k : ℕ) → 0 < k → ceil_div 0 k ≡ 0
ceil_div-zero k h = grind arith

pub ceil_div-eq-zero : (d k : ℕ) → 0 < k → ceil_div d k ≡ 0 → d ≡ 0
ceil_div-eq-zero d k h e = grind (arith, ceil_div-step d k)

ceil_div-pos : (d k n : ℕ) → 0 < k → ceil_div d k ≡ suc n → 0 < d
ceil_div-pos d k n h e = grind (arith, ceil_div-zero k)

-- One page less, where there is one.
pub ceil_div-pred : (d k n : ℕ) → 0 < k → ceil_div d k ≡ suc n → ceil_div (d - k) k ≡ n
ceil_div-pred d k n h e = omega (arith, ceil_div-step d k (ceil_div-pos d k n h e) h)

sub-zero : (n : ℕ) → n - 0 ≡ n
sub-zero n = omega arith

push_pages_lem :
    (fuel count size i counter : ℕ) (pages : List ℕ)
    → 0 < size
    → count - i < fuel
    → push_pages fuel count size i counter pages
      ≡ some (pages ++ range_from counter (ceil_div (count - i) size))
unfolding push_pages
push_pages_lem zero count size i counter pages hs h = absurd (omega arith)
push_pages_lem (suc fuel) count size i counter pages hs h = elim (Bool-cases (ltb i count)) [
  | inl more ↦
      let lt : i < count = ltb→lt i count more in
      let left : ceil_div (count - i) size ≡ suc (ceil_div (count - (i + size)) size) =
        ceil_div-step (count - i) size (omega arith) hs
        ∙ ap (λ d. suc (ceil_div d size)) (omega arith) in
      rw (more, left)
        (push_pages_lem fuel count size (i + size) (counter + 1) (pages ++ counter ∷ []) hs
            (omega arith)
          ∙ ap some (append_assoc pages (counter ∷ []) _))
  | inr done ↦
      let left : ceil_div (count - i) size ≡ 0 =
        ap (λ d. ceil_div d size) (ground (arith, lt→ltb i count)) ∙ ceil_div-zero size hs in
      rw (done, left, append-nil)
]

-- calculatePages ends, with the page numbers 1 to ⌈count / size⌉.
page_numbers_lem :
    (count size : ℕ)
    → 0 < size
    → page_numbers count size ≡ some (range_from 1 (ceil_div count size))
unfolding page_numbers
page_numbers_lem count size h =
    push_pages_lem (suc count) count size 0 1 [] h (omega arith)
    ∙ ap (λ n. some (range_from 1 (ceil_div n size))) (sub-zero count)

-- With a positive page size calculatePages ends, and only renews the page numbers.
pub calculate_pages_lem :
    (count : ℕ) (p : Pager)
    → 0 < p.page_size
    → calculate_pages count p
      ≡ some (record p { pages = range_from 1 (ceil_div count p.page_size) })
unfolding calculate_pages
calculate_pages_lem count p h = rw (page_numbers_lem count p.page_size h, calculate_pages)

-- With page size 0 and something to show, the loop of calculatePages does not end on any fuel.
push_pages-zero :
    (fuel count i counter : ℕ) (pages : List ℕ)
    → i < count
    → push_pages fuel count 0 i counter pages ≡ none
unfolding push_pages
push_pages-zero zero count i counter pages h = refl
push_pages-zero (suc fuel) count i counter pages h =
    ground (arith, push_pages-zero fuel count (i + 0) (counter + 1) (pages ++ counter ∷ []))
