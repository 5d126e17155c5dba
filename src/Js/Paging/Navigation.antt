-- ===== src/Js/Paging/Navigation.antt =====
-- Turning pages: the offset stands for a page number, and the getters that the views disable their
-- buttons by say whether there is a page before and behind.
use wg_portal.Prelude.{
  ℕ, zero, suc, ◌+◌, ◌-◌, ◌*◌, ◌≤◌, ◌<◌, some, ◌≡◌, refl, sym, ◌↔◌, true, arith, pos, ◌-ℤ◌, sub_ℕ,
  ltb_ℤ,
}
use native.Mathlib.Nat.{le-div_iff_mul-le, mul-mod_left, mul-div_cancel}
use wg_portal.Js.Paging.{
  Pager, next_page, previous_page, has_next_page, has_prev_page, current_page, whole_div,
}
use wg_portal.Js.Paging.Numbers.{ceil_div, range_from, calculate_pages_lem}
use wg_portal.Js.Paging.Slices.{pos-add}

-- The pager shows page k of `count` items; the first page also if there is no item.
record IsOnPage (count k : ℕ) (p : Pager) : Type 0 where
  pub size_pos : 0 < p.page_size
  pub offset : p.page_offset ≡ pos ((k - 1) * p.page_size)
  pub from_one : 1 ≤ k
  pub in_range : (k - 1) * p.page_size ≤ count

le-ceil_div : (k c s : ℕ) → 0 < s → (k ≤ ceil_div c s) ↔ (k * s ≤ c + s - 1)
le-ceil_div k c s h = le-div_iff_mul-le h

pub lt-ceil_div : (k c s : ℕ) → 0 < s → (k < ceil_div c s) ↔ (k * s < c)
lt-ceil_div k c s h =
    let (to, from) = le-ceil_div (suc k) c s h in
    let more : suc k * s ≡ k * s + s = omega arith in
    (λ lt. omega (arith, to lt), λ lt. from (omega arith))

mul-pred : (k s : ℕ) → 1 ≤ k → (k - 1) * s + s ≡ k * s
mul-pred zero s h = elim h [ ]
mul-pred (suc k) s h = let e : suc k - 1 ≡ k = omega arith in rw e (omega arith)

mul-pos_iff : (k s : ℕ) → 0 < s → (0 < k * s) ↔ (0 < k)
mul-pos_iff zero s h = (λ lt. absurd (omega arith), λ lt. absurd (omega arith))
mul-pos_iff (suc k) s h = (λ lt. omega arith, λ lt. omega arith)

pub ltb-sub_ℕ_iff : (a c s : ℕ) → (ltb_ℤ (pos a) (sub_ℕ c s) ≡ true) ↔ (a + s < c)
ltb-sub_ℕ_iff a c s = (λ e. ground arith, λ lt. ground arith)

ltb-pos_iff : (a : ℕ) → (ltb_ℤ (pos 0) (pos a) ≡ true) ↔ (0 < a)
ltb-pos_iff a = (λ e. ground arith, λ lt. ground arith)

whole_div-mul : (k s : ℕ) → 0 < s → whole_div (k * s) s ≡ some k
whole_div-mul k s h = ground (arith, mul-mod_left k s, mul-div_cancel k h)

pub pos-sub : (a b c : ℕ) → a ≡ c + b → pos a -ℤ pos b ≡ pos c
unfolding ◌-ℤ◌
pos-sub a b c h = ground arith

module _ {count k : ℕ} {p : Pager} (on : IsOnPage count k p) where
  -- On page k of a list, `hasNextPage` holds exactly if there are more than k pages.
  has_next_page_iff : (has_next_page count p ≡ true) ↔ (k < ceil_div count p.page_size)
  unfolding has_next_page
  has_next_page_iff =
      let (to, from) = lt-ceil_div k count p.page_size on.size_pos in
      let (lt, test) = ltb-sub_ℕ_iff ((k - 1) * p.page_size) count p.page_size in
      let here = mul-pred k p.page_size on.from_one in
      rw (on.offset, has_next_page) ((λ e. from (rw here at (lt e))), (λ h. test (rw here (to h))))

  -- `hasPrevPage` says whether there is a page before this one.
  has_prev_page_iff : (has_prev_page p ≡ true) ↔ (1 < k)
  unfolding has_prev_page
  has_prev_page_iff =
      let (to, from) = mul-pos_iff (k - 1) p.page_size on.size_pos in
      let (lt, test) = ltb-pos_iff ((k - 1) * p.page_size) in
      rw (on.offset, has_prev_page)
        ((λ e. let h = to (lt e) in omega arith), (λ h. test (from (omega arith))))

  -- On page k of a list, `currentPage` is k.
  current_page_lem : current_page p ≡ some (pos k)
  unfolding current_page
  current_page_lem =
      let back : k - 1 + 1 ≡ k = omega (arith, on.from_one) in
      rw (on.offset, current_page, whole_div-mul (k - 1) p.page_size on.size_pos, back)

  -- On page k of a list with a page behind it, as hasNextPage says, nextPage ends and shows page k
  -- + 1.
  next_page-IsOnPage :
      has_next_page count p ≡ true
      → (q : Pager) × (next_page count p ≡ some q) × IsOnPage count (k + 1) q
  unfolding next_page
  next_page-IsOnPage h =
      let (to, from) = lt-ceil_div k count p.page_size on.size_pos in
      let here = mul-pred k p.page_size on.from_one in
      let lt = to (has_next_page_iff.0 h) in
      let same : k + 1 - 1 ≡ k = omega arith in
      (
        record p {
          page_offset = pos (k * p.page_size);
          pages = range_from 1 (ceil_div count p.page_size);
        },
        rw (
          on.offset,
          pos-add,
          here,
          calculate_pages_lem count (record p { page_offset = pos (k * p.page_size) }) on.size_pos,
        ),
        record {
          size_pos = on.size_pos;
          offset = rw same;
          from_one = omega arith;
          in_range = rw same (omega arith);
        },
      )

  -- On page k of a list with a page before it, as hasPrevPage says, previousPage ends and shows
  -- page k - 1.
  previous_page-IsOnPage :
      has_prev_page p ≡ true
      → (q : Pager) × (previous_page count p ≡ some q) × IsOnPage count (k - 1) q
  unfolding previous_page
  previous_page-IsOnPage h =
      let back = k - 1 in
      let lt = has_prev_page_iff.0 h in
      let here = mul-pred back p.page_size (omega arith) in
      let less : (back - 1) * p.page_size ≤ count = omega (arith, here, on.in_range) in
      (
        record p {
          page_offset = pos ((back - 1) * p.page_size);
          pages = range_from 1 (ceil_div count p.page_size);
        },
        rw (
          on.offset,
          pos-sub (back * p.page_size) p.page_size ((back - 1) * p.page_size) (sym here),
          calculate_pages_lem count (record p { page_offset = pos ((back - 1) * p.page_size) })
              on.size_pos,
        ),
        record { size_pos = on.size_pos; offset = refl; from_one = omega arith; in_range = less },
      )
