-- ===== src/Views/Bar/Laws.antt =====
-- However the pages of a table are turned, the page that is shown exists.
use wg_portal.Prelude.{
  ℕ, zero, suc, ◌+◌, ◌-◌, ◌*◌, ◌<◌, ◌≤◌, List, [], ◌∷◌, some, true, ◌≡◌, refl, ap, sym, ◌∙◌, ◌⊎◌,
  inl, inr, arith, pos, ◌*ℤ◌, ◌+ℤ◌, ◌-ℤ◌, ltb_ℤ, ℤ, sub_ℕ, Option, false, not, clash, ◌==◌, ◌||◌,
  Bool-cases, ==_iff,
}
use wg_portal.Js.{World}
use wg_portal.Js.Keeping.{Kept, Keeps, >>=-Keeps}
use wg_portal.Js.Paging.{
  Pager, turn, calculate_pages, after_page_size_change, goto_page, next_page, previous_page,
  has_next_page,
}
use wg_portal.Js.Paging.Navigation.{ltb-sub_ℕ_iff, lt-ceil_div, pos-sub}
use wg_portal.Js.Paging.Numbers.{range_from, ceil_div, calculate_pages_lem}
use wg_portal.Js.Paging.Slices.{pos-add, offset_lem}
use wg_portal.Js.Paging.Steady.{turn_lem}
use wg_portal.Views.Bar.{
  Table, PageSize, ten, twenty_five, fifty, hundred, everything, size_of, Control, previous, next,
  page, is_zero, is_listed, offers, press, click, Gesture, search, size, back, forth, number,
  gesture, gesture_all,
}

-- The pager shows the first page of `count` records, or a later one on which there are some, and its
-- numbers are those of the pages there are.
pub record IsShown (count : ℕ) (p : Pager) : Type 0 where
  pub size_pos : 0 < p.page_size
  pub before : ℕ
  pub offset : p.page_offset ≡ pos (before * p.page_size)
  pub inside : (before ≡ 0) ⊎ (before * p.page_size < count)
  pub numbers : p.pages ≡ range_from 1 (ceil_div count p.page_size)

-- The action ends in such a pager, with the same filter.
abbrev Shows : ℕ → Pager → Option Pager → Type 0
Shows count p r = (q : Pager) × (r ≡ some q) × (q.filter ≡ p.filter) × IsShown count q

first-Shows :
    (count : ℕ) (p : Pager) → 0 < p.page_size → Shows count p (after_page_size_change count p)
unfolding after_page_size_change
first-Shows count p h = (
  _,
  calculate_pages_lem count (record p { page_offset = pos 0 }) h,
  refl,
  record {
    size_pos = h;
    before = 0;
    offset = ap pos (omega arith);
    inside = inl refl;
    numbers = refl;
  },
)

-- A page that begins where it should is shown.
at_page :
    (count m : ℕ) (p : Pager)
    → 0 < p.page_size
    → p.page_offset ≡ pos (m * p.page_size)
    → (m ≡ 0) ⊎ (m * p.page_size < count)
    → Shows count p (calculate_pages count p)
at_page count m p h o i = (
  _,
  calculate_pages_lem count p h,
  refl,
  record { size_pos = h; before = m; offset = o; inside = i; numbers = refl },
)

listed_lem :
    (n start len : ℕ) → is_listed n (range_from start len) ≡ true → (start ≤ n) × (n < start + len)
listed_lem n start zero h = clash false h refl
listed_lem n start (suc len) h = elim (Bool-cases (start == n)) [
  | inl e ↦ let same = (==_iff start n).0 e in (omega arith, omega arith)
  | inr e ↦
      let (lo, hi) =
        listed_lem n (start + 1) len
          (ap (λ b. b || is_listed n (range_from (start + 1) len)) (sym e) ∙ h) in
      (omega arith, omega arith)
]

zero_times : (n : ℕ) → 0 * n ≡ 0
zero_times n = omega arith

earlier : (m width count : ℕ) → (suc m ≡ 0) ⊎ (suc m * width < count) → m * width < count
earlier m width count (inl e) = absurd (omega arith)
earlier m width count (inr lt) =
    let more : suc m * width ≡ m * width + width = omega arith in omega arith

module _ (count : ℕ) (p : Pager) (on : IsShown count p) where
  size_pos : 0 < p.page_size
  size_pos = on.size_pos

  next-Shows : has_next_page count p ≡ true → Shows count p (next_page count p)
  unfolding next_page has_next_page
  next-Shows h =
      let size = p.page_size in
      let e : p.page_offset +ℤ pos size ≡ pos ((on.before + 1) * size) =
        ap (◌+ℤ pos size) on.offset ∙ pos-add (on.before * size) size ∙ ap pos (omega arith) in
      let lt : on.before * size + size < count =
        (ltb-sub_ℕ_iff (on.before * size) count size).0
          (ap (λ o. ltb_ℤ o (sub_ℕ count size)) (sym on.offset) ∙ h) in
      at_page count (on.before + 1) (record p { page_offset = p.page_offset +ℤ pos size }) size_pos
        e (inr (omega arith))

  previous-Shows : is_zero p.page_offset ≡ false → Shows count p (previous_page count p)
  unfolding previous_page
  previous-Shows h = back on.before on.offset on.inside
    where
      back :
          (m : ℕ)
          → p.page_offset ≡ pos (m * p.page_size)
          → (m ≡ 0) ⊎ (m * p.page_size < count)
          → Shows count p
              (calculate_pages count (record p { page_offset = p.page_offset -ℤ pos p.page_size }))
      back zero o i =
          clash (is_zero p.page_offset) (ap is_zero (o ∙ ap pos (zero_times p.page_size))) h
      back (suc m) o i =
          at_page count m (record p { page_offset = p.page_offset -ℤ pos p.page_size }) size_pos
            (ap (◌-ℤ pos p.page_size) o
              ∙ pos-sub (suc m * p.page_size) p.page_size (m * p.page_size) (omega arith))
            (inr (earlier m p.page_size count i))

  page-Shows : (n : ℕ) → is_listed n p.pages ≡ true → Shows count p (goto_page count n p)
  unfolding goto_page
  page-Shows n h =
      let listed : is_listed n (range_from 1 (ceil_div count p.page_size)) ≡ true =
        ap (is_listed n) (sym on.numbers) ∙ h in
      let (lo, hi) = listed_lem n 1 (ceil_div count p.page_size) listed in
      let begins : sub_ℕ n 1 *ℤ pos p.page_size ≡ pos ((n - 1) * p.page_size) =
        offset_lem n p.page_size lo in
      at_page count (n - 1) (record p { page_offset = sub_ℕ n 1 *ℤ pos p.page_size }) size_pos
        begins (inr ((lt-ceil_div (n - 1) count p.page_size size_pos).0 (omega arith)))

size_of-pos : (n : PageSize) → 0 < size_of n
size_of-pos ten = omega arith
size_of-pos twenty_five = omega arith
size_of-pos fifty = omega arith
size_of-pos hundred = omega arith
size_of-pos everything = omega arith

is_zero-false : (o : ℤ) → not (is_zero o) ≡ true → is_zero o ≡ false
is_zero-false o h = elim (Bool-cases (is_zero o)) [
  | inl e ↦ clash false (sym (ap not e) ∙ h) refl
  | inr e ↦ e
]

-- What the store shows.
abbrev pub TableIsShown : {S : Type 0} → Table S → S → Type 0
TableIsShown table s = IsShown (table.count s) (table.view s)

module _ {S : Type 0} (table : Table S) where
  turn-Kept :
      (op : ℕ → Pager → Option Pager) (w : World S)
      → Shows
          (table.count w.store)
          (table.view w.store)
          (op (table.count w.store) (table.view w.store))
      → Kept (TableIsShown table) (turn table.view table.put table.count op w)
  turn-Kept op w (q, e, f, on) =
      rw (turn_lem table.view table.put table.count op w e)
        (rw (table.view-put q w.store, table.count-put q w.store f) on)

  -- The pager is set, and the first page is shown.
  searched :
      (p : Pager) (w : World S)
      → 0 < p.page_size
      → Kept (TableIsShown table) (
          turn table.view table.put table.count after_page_size_change
            (record w { store = table.put p w.store }))
  searched p w h =
      turn-Kept after_page_size_change (record w { store = table.put p w.store })
        (first-Shows _ _ (rw (table.view-put p w.store) h))

  turned :
      (c : Control) (op : ℕ → Pager → Option Pager) (w : World S)
      → (offers (table.count w.store) (table.view w.store) c ≡ true
          → Shows
              (table.count w.store)
              (table.view w.store)
              (op (table.count w.store) (table.view w.store)))
      → ((v : World S) → press table c v ≡ turn table.view table.put table.count op v)
      → TableIsShown table w.store
      → Kept (TableIsShown table) (click table c w)
  unfolding click
  turned c op w shows same on =
      elim (Bool-cases (offers (table.count w.store) (table.view w.store) c)) [
        | inl e ↦ rw (e, same w) (turn-Kept op w (shows e))
        | inr e ↦ rw e on
      ]

  gesture-Keeps : (g : Gesture) → Keeps (TableIsShown table) (gesture table g)
  unfolding click press offers
  gesture-Keeps (search t) w on =
      searched (record (table.view w.store) { filter = t }) w on.size_pos
  gesture-Keeps (size n) w on =
      searched (record (table.view w.store) { page_size = size_of n }) w (size_of-pos n)
  gesture-Keeps back w on =
      turned previous previous_page w
        (λ h. previous-Shows _ _ on (is_zero-false (table.view w.store).page_offset h)) (λ v. refl)
        on
  gesture-Keeps forth w on = turned next next_page w (next-Shows _ _ on) (λ v. refl) on
  gesture-Keeps (number n) w on =
      turned (page n) (λ count. goto_page count n) w (page-Shows _ _ on n) (λ v. refl) on

  -- A pager that shows the first page, or a later one on which there are records, and has the numbers
  -- of the pages that there are, still does so after whatever the user searches, each text followed by
  -- the release of a key, whatever page sizes the user chooses with the mouse, and however pages are
  -- turned; and each action ends. The records do not change meanwhile.
  pub gesture_all-Keeps : (gs : List Gesture) → Keeps (TableIsShown table) (gesture_all table gs)
  gesture_all-Keeps [] w on = on
  gesture_all-Keeps (g ∷ gs) w on =
      >>=-Keeps (TableIsShown table) (gesture table g) (λ _. gesture_all table gs) (gesture-Keeps g)
        (λ _. gesture_all-Keeps gs) w on
