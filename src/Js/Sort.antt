-- ===== src/Js/Sort.antt =====
-- `xs.slice().sort(compare)`: the stable sort by a comparison, written as an insertion sort (the
-- language fixes the result for a comparison that is an order), and the comparison of two values
-- by `>` and `<` that the stores use. Texts compare by their UTF-16 code units.
pub mod Laws
pub mod Order
use wg_portal.Prelude.{ℕ, List, [], ◌∷◌, String, units, Bool, true, false, if◌then◌else◌, ltb, ◌==◌}

-- The sign of a comparison's result.
pub data Sign : Type 0 where
  minus same plus : Sign

-- `-result`
abbrev opposite : Sign → Sign
opposite minus = plus
opposite same = same
opposite plus = minus

abbrev pub is_plus : Sign → Bool
is_plus plus = true
is_plus _ = false

module _ {ℓ} {A : Type ℓ} (compare : A → A → Sign) where
  -- An element goes behind those that are smaller, and before its equals.
  pub insert : A → List A → List A
  insert x [] = x ∷ []
  insert x (y ∷ ys) = if is_plus (compare x y) then y ∷ insert x ys else x ∷ y ∷ ys

  unfoldable pub sort : List A → List A
  unfolding insert
  sort [] = []
  sort (x ∷ xs) = insert x (sort xs)

-- The values that are compared: numbers (and BigInts), texts, null or undefined.
pub data Value : Type 0 where
  num : ℕ → Value
  text : String → Value
  null : Value

less_units : List ℕ → List ℕ → Bool
less_units [] [] = false
less_units [] (b ∷ t) = true
less_units (a ∷ r) [] = false
less_units (a ∷ r) (b ∷ t) = if ltb a b then true else if a == b then less_units r t else false

-- `a < b`; a comparison of a text or a number with null or undefined is taken to be false.
unfoldable pub less : Value → Value → Bool
unfolding less_units
less (num a) (num b) = ltb a b
less (text a) (text b) = less_units (units a) (units b)
less _ _ = false

-- `result`: 1 if a > b, -1 if a < b, and else 0.
unfoldable pub compare_values : Value → Value → Sign
compare_values a b = if less a b then minus else if less b a then plus else same

-- `state.sortOrder === 1 ? result : -result`
abbrev pub directed : Bool → Sign → Sign
directed true r = r
directed false r = opposite r

-- The sort of the list stores: by the value that `key` picks, upwards or downwards.
unfoldable pub sort_by {ℓ} : {A : Type ℓ} → Bool → (A → Value) → List A → List A
sort_by up key = sort (λ a b. directed up (compare_values (key a) (key b)))
