-- ===== src/Js/Array.antt =====
-- Methods of a JavaScript array that the stores call: find, findIndex, filter, an assignment
-- `xs[i] = v`, push, slice. An index that is not found (-1) is `none`: an assignment there sets a
-- property that no method of the array sees, so it leaves the list as it is.
use wg_portal.Prelude.{
  ℕ, suc, ◌-◌, List, [], ◌∷◌, ◌++◌, Option, none, some, Bool, if◌then◌else◌, set, take, drop,
  length, ℤ, pos, negsuc,
}

abbrev pub next_index : Option ℕ → Option ℕ
next_index none = none
next_index (some i) = some (suc i)

-- An end of a slice: a negative one counts from the end of the array.
abbrev slice_end : ℕ → ℤ → ℕ
slice_end n (pos i) = i
slice_end n (negsuc i) = n - suc i

module _ {ℓ} {A : Type ℓ} where
  unfoldable pub find : (A → Bool) → List A → Option A
  find p [] = none
  find p (x ∷ xs) = if p x then some x else find p xs

  unfoldable pub find_index : (A → Bool) → List A → Option ℕ
  find_index p [] = none
  find_index p (x ∷ xs) = if p x then some 0 else next_index (find_index p xs)

  unfoldable pub filter : (A → Bool) → List A → List A
  filter p [] = []
  filter p (x ∷ xs) = if p x then x ∷ filter p xs else filter p xs

  -- `xs[i] = v` at an index that `findIndex` returned.
  abbrev pub assign : List A → Option ℕ → A → List A
  assign xs none v = xs
  assign xs (some i) v = set xs i v

  abbrev pub push : List A → A → List A
  push xs x = xs ++ x ∷ []

  -- `xs.slice(from, to)`
  unfoldable pub slice : List A → ℤ → ℤ → List A
  slice xs from to =
      let a = slice_end (length xs) from in
      let b = slice_end (length xs) to in take (b - a) (drop a xs)
