-- ===== src/Js/Keyed.antt =====
-- Lists of records looked up by a text, as the stores keep them: what find answers after an
-- assignment at findIndex, after a filter and after a push.
use wg_portal.Prelude.{
  ◌≡◌, refl, List, [], ◌∷◌, ◌++◌, Option, none, some, not, if◌then◌else◌, String, ◌===◌, ===_iff,
  Bool-cases, inl, inr, ap, sym, ◌∙◌, true, false, Bool, arith, ℕ,
}
use mathlib.Core.Option.{some-injective}
use wg_portal.Js.{World, Out, ok, throw, Reply, fulfilled, rejected, error, text_of}
use wg_portal.Js.Array.{find, find_index, next_index, filter, assign, push}

-- The first of two answers.
abbrev pub first_some {ℓ} : {A : Type ℓ} → Option A → Option A → Option A
first_some none b = b
first_some (some a) b = some a

abbrev pub replaced {ℓ} : {A : Type ℓ} → Option A → A → Option A
replaced none v = none
replaced (some _) v = some v

-- How a method ends that passes an error on as a new error.
abbrev pub ending {ℓ κ} : {S : Type ℓ} {A : Type κ} → Reply A → World S → Out S (Unit {0})
ending (fulfilled _) v = ok tt v
ending (rejected e) v = throw (error (text_of e)) v

assign-next_index {ℓ} :
    {A : Type ℓ} (x : A) (xs : List A) (i : Option ℕ) (v : A)
    → assign (x ∷ xs) (next_index i) v ≡ x ∷ assign xs i v
assign-next_index x xs none v = refl
assign-next_index x xs (some i) v = refl

module _ {ℓ} {A : Type ℓ} (key : A → String) where
  abbrev pub find_key : String → List A → Option A
  find_key id = find (λ x. key x === id)

  abbrev pub index_key : String → List A → Option ℕ
  index_key id = find_index (λ x. key x === id)

  abbrev pub remove_key : String → List A → List A
  remove_key id = filter (λ x. not (key x === id))

  -- The record that is found has the identifier.
  pub find-key : (xs : List A) (id : String) (v : A) → find_key id xs ≡ some v → key v ≡ id
  unfolding find
  find-key [] id v e = absurd (ground arith)
  find-key (x ∷ xs) id v e =
      let by : (b : Bool) → (key x === id) ≡ b → (if b then some x else find_key id xs) ≡ some v =
        λ b k. sym (ap (λ c. if c then some x else find_key id xs) k) ∙ e in
      elim (Bool-cases (key x === id)) [
        | inl y ↦ ap key (sym (some-injective x v (by true y))) ∙ (===_iff (key x) id).0 y
        | inr n ↦ find-key xs id v (by false n)
      ]

  -- The record of a reply has the given identifier.
  abbrev pub Names : String → Reply A → Type 0
  Names id (fulfilled a) = key a ≡ id
  Names id (rejected e) = Unit

  -- After `xs[xs.findIndex(id)] = v` the record found under `id` is `v`, if there was one; under
  -- the other ids nothing changes.
  pub find-assign :
      (xs : List A) (id j : String) (v : A)
      → key v ≡ id
      → find_key j (assign xs (index_key id xs) v)
        ≡ (if id === j then replaced (find_key j xs) v else find_key j xs)
  unfolding find find_index
  find-assign [] id j v h = ground arith
  find-assign (x ∷ xs) id j v h = ground (
    arith,
    ===_iff (key x) id,
    ===_iff (key x) j,
    ===_iff (key v) j,
    ===_iff id j,
    assign-next_index x xs (index_key id xs) v,
    find-assign xs id j v,
  )

  pub find-filter :
      (xs : List A) (id j : String)
      → find_key j (remove_key id xs) ≡ (if id === j then none else find_key j xs)
  unfolding find filter
  find-filter [] id j = ground arith
  find-filter (x ∷ xs) id j =
      ground (arith, ===_iff (key x) id, ===_iff (key x) j, ===_iff id j, find-filter xs id j)

  pub find-push :
      (xs : List A) (j : String) (v : A)
      → find_key j (push xs v) ≡ first_some (find_key j xs) (if key v === j then some v else none)
  unfolding find
  find-push [] j v = ground arith
  find-push (x ∷ xs) j v = ground (arith, find-push xs j v)

  pub find-append :
      (xs ys : List A) (j : String)
      → find_key j (xs ++ ys) ≡ first_some (find_key j xs) (find_key j ys)
  unfolding find
  find-append [] ys j = refl
  find-append (x ∷ xs) ys j = ground (arith, find-append xs ys j)
