-- ===== src/Js/Sort/Order.antt =====
-- The comparison of two values is a total order on numbers, and on texts.
use wg_portal.Prelude.{ℕ, List, [], ◌∷◌, ◌≡◌, refl, Bool, true, false, arith, All, units, length}
use mathlib.Core.List.{Perm}
use wg_portal.Js.Sort.{
  is_plus, Value, num, text, less_units, less, compare_values, directed, sort_by,
}
use wg_portal.Js.Sort.Laws.{IsSorted, sort-perm, length-sort, sort-IsSorted}

less_units_asym : (a b : List ℕ) → less_units a b ≡ true → less_units b a ≡ false
unfolding less_units
less_units_asym [] [] h = refl
less_units_asym [] (y ∷ b) h = refl
less_units_asym (x ∷ a) [] h = cc
less_units_asym (x ∷ a) (y ∷ b) h = ground (arith, less_units_asym a b)

less_units_trans :
    (a b c : List ℕ) → less_units b a ≡ false → less_units c b ≡ false → less_units c a ≡ false
unfolding less_units
less_units_trans [] [] [] h k = refl
less_units_trans [] [] (z ∷ c) h k = refl
less_units_trans [] (y ∷ b) [] h k = refl
less_units_trans [] (y ∷ b) (z ∷ c) h k = refl
less_units_trans (x ∷ a) [] c h k = cc
less_units_trans (x ∷ a) (y ∷ b) [] h k = cc
less_units_trans (x ∷ a) (y ∷ b) (z ∷ c) h k = ground (arith, less_units_trans a b c)

-- Two values of one kind.
abbrev SameKind : Value → Value → Type 0
SameKind (num _) (num _) = Unit
SameKind (text _) (text _) = Unit
SameKind _ _ = ⊥

SameKind-sym : (a b : Value) → SameKind a b → SameKind b a
SameKind-sym (num _) (num _) h = tt
SameKind-sym (text _) (text _) h = tt
SameKind-sym _ _ h = ground arith

less_asym : (a b : Value) → less a b ≡ true → less b a ≡ false
unfolding less
less_asym (num a) (num b) h = ground arith
less_asym (text a) (text b) h = less_units_asym (units a) (units b) h
less_asym _ _ h = cc

less_trans :
    (a b c : Value)
    → SameKind a b
    → SameKind b c
    → less b a ≡ false
    → less c b ≡ false
    → less c a ≡ false
unfolding less
less_trans (num a) (num b) (num c) p q h k = ground arith
less_trans (text a) (text b) (text c) p q h k = less_units_trans (units a) (units b) (units c) h k
less_trans _ _ _ p q h k = ground arith

compare_asym :
    (up : Bool) (a b : Value)
    → is_plus (directed up (compare_values a b)) ≡ true
    → is_plus (directed up (compare_values b a)) ≡ false
unfolding compare_values
compare_asym true a b h = ground (arith, less_asym a b, less_asym b a)
compare_asym false a b h = ground (arith, less_asym a b, less_asym b a)

compare_trans :
    (up : Bool) (a b c : Value)
    → SameKind a b
    → SameKind b c
    → is_plus (directed up (compare_values a b)) ≡ false
    → is_plus (directed up (compare_values b c)) ≡ false
    → is_plus (directed up (compare_values a c)) ≡ false
unfolding compare_values
compare_trans true a b c p q h k =
    ground (arith, less_asym a b, less_asym b c, less_asym a c, less_trans a b c p q)
compare_trans false a b c p q h k = ground (
  arith,
  less_asym b a,
  less_asym c b,
  less_asym c a,
  less_trans c b a (SameKind-sym b c q) (SameKind-sym a b p),
)

-- The kinds of values that have an order.
pub data Kind : Type 0 where
  numeric textual : Kind

abbrev pub HasKind : Kind → Value → Type 0
HasKind numeric (num _) = Unit
HasKind textual (text _) = Unit
HasKind _ _ = ⊥

SameKind-of_HasKind : (k : Kind) (a b : Value) → HasKind k a → HasKind k b → SameKind a b
SameKind-of_HasKind numeric (num _) (num _) p q = tt
SameKind-of_HasKind textual (text _) (text _) p q = tt
SameKind-of_HasKind _ _ _ p q = ground arith

module _ {ℓ} {A : Type ℓ} (up : Bool) (key : A → Value) where
  pub sort_by-perm : (xs : List A) → Perm (sort_by up key xs) xs
  unfolding sort_by
  sort_by-perm xs = sort-perm _ xs

  pub length-sort_by : (xs : List A) → length (sort_by up key xs) ≡ length xs
  unfolding sort_by
  length-sort_by xs = length-sort _ xs

  -- No element has a key behind the key of a later one.
  abbrev pub InOrder : List A → Type 0
  InOrder = IsSorted (λ a b. directed up (compare_values (key a) (key b)))

  pub sort_by-InOrder :
      (k : Kind) (xs : List A) → All (λ a. HasKind k (key a)) xs → InOrder (sort_by up key xs)
  unfolding sort_by
  sort_by-InOrder k =
      sort-IsSorted (λ a b. directed up (compare_values (key a) (key b))) (λ a. HasKind k (key a))
        (λ a b p q. compare_asym up (key a) (key b))
        (λ a b c p q r.
          compare_trans up (key a) (key b) (key c) (SameKind-of_HasKind k (key a) (key b) p q)
            (SameKind-of_HasKind k (key b) (key c) q r))
