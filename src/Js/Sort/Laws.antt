-- ===== src/Js/Sort/Laws.antt =====
-- The sort returns the same elements; if the comparison is an order on them, it returns them in
-- that order, and leaves equal elements in the order in which they came.
use mathlib.Core.List.{Perm}
use mathlib.Core.List.Perm
use wg_portal.Prelude.{
  suc, List, [], ◌∷◌, ◌≡◌, refl, ap, ◌∙◌, length, arith, true, false, inl, inr, Bool-cases, All,
  All-zip,
}
use wg_portal.Js.Sort.{Sign, is_plus, insert, sort}

module _ {ℓ} {A : Type ℓ} (compare : A → A → Sign) where
  insert-perm : (x : A) (xs : List A) → Perm (insert compare x xs) (x ∷ xs)
  unfolding insert
  insert-perm x [] = Perm.refl (x ∷ [])
  insert-perm x (y ∷ ys) = elim (Bool-cases (is_plus (compare x y))) [
    | inl behind ↦ rw behind (Perm.trans (Perm.cons y (insert-perm x ys)) (Perm.swap x y ys))
    | inr before ↦ rw before (Perm.refl (x ∷ y ∷ ys))
  ]

  pub sort-perm : (xs : List A) → Perm (sort compare xs) xs
  unfolding sort
  sort-perm [] = Perm.refl []
  sort-perm (x ∷ xs) = Perm.trans (insert-perm x (sort compare xs)) (Perm.cons x (sort-perm xs))

  length-insert : (x : A) (xs : List A) → length (insert compare x xs) ≡ suc (length xs)
  unfolding insert
  length-insert x [] = refl
  length-insert x (y ∷ ys) = ground (arith, length-insert x ys)

  pub length-sort : (xs : List A) → length (sort compare xs) ≡ length xs
  unfolding sort
  length-sort [] = refl
  length-sort (x ∷ xs) = length-insert x (sort compare xs) ∙ ap suc (length-sort xs)

module _ {ℓ κ} {A : Type ℓ} (P : A → Type κ) (compare : A → A → Sign) where
  insert-All : (x : A) (xs : List A) → P x → All P xs → All P (insert compare x xs)
  unfolding insert
  insert-All x [] px ps = (px, tt)
  insert-All x (y ∷ ys) px (py, ps) = elim (Bool-cases (is_plus (compare x y))) [
    | inl behind ↦ rw behind (py, insert-All x ys px ps)
    | inr before ↦ rw before (px, (py, ps))
  ]

  sort-All : (xs : List A) → All P xs → All P (sort compare xs)
  unfolding sort
  sort-All [] ps = tt
  sort-All (x ∷ xs) (px, ps) = insert-All x (sort compare xs) px (sort-All xs ps)

-- No element is followed by one that the comparison puts before it.
abbrev pub IsSorted {ℓ} : {A : Type ℓ} → (A → A → Sign) → List A → Type 0
IsSorted compare [] = Unit
IsSorted compare (x ∷ xs) = All (λ y. is_plus (compare x y) ≡ false) xs × IsSorted compare xs

module _ {ℓ κ} {A : Type ℓ} (compare : A → A → Sign) (P : A → Type κ)
    (total : (a b : A) → P a → P b → is_plus (compare a b) ≡ true → is_plus (compare b a) ≡ false)
    (trans : (a b c : A)
      → P a
      → P b
      → P c
      → is_plus (compare a b) ≡ false
      → is_plus (compare b c) ≡ false
      → is_plus (compare a c) ≡ false) where
  insert-IsSorted :
      (x : A) (xs : List A)
      → P x
      → All P xs
      → IsSorted compare xs
      → IsSorted compare (insert compare x xs)
  unfolding insert
  insert-IsSorted x [] px ps s = (tt, tt)
  insert-IsSorted x (y ∷ ys) px (py, ps) (below, s) = elim (Bool-cases (is_plus (compare x y))) [
    | inl behind ↦ rw behind (
      insert-All (λ z. is_plus (compare y z) ≡ false) compare x ys (total x y px py behind) below,
      insert-IsSorted x ys px ps s,
    )
    | inr before ↦
        rw before
          ((before, All-zip (λ z pz yz. trans x y z px py pz before yz) ys ps below), (below, s))
  ]

  -- Over elements on which the comparison is a total order, the sort is in order.
  pub sort-IsSorted : (xs : List A) → All P xs → IsSorted compare (sort compare xs)
  unfolding sort
  sort-IsSorted [] ps = tt
  sort-IsSorted (x ∷ xs) (px, ps) =
      insert-IsSorted x (sort compare xs) px (sort-All P compare xs ps) (sort-IsSorted xs ps)
