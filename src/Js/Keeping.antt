-- ===== src/Js/Keeping.antt =====
-- Computations that end and keep a property of the store, whether their promise is fulfilled or
-- rejected: the rules by which a method is seen to be one.
use wg_portal.Prelude.{
  ℕ, String, List, Option, none, some, ◌≡◌, refl, ap, subst, or_else, units, ◌⊎◌, inl, inr,
}
use wg_portal.Encoding.{base64_url_encode}
use wg_portal.Js.{
  M, World, Out, ok, throw, hang, Effect, Thrown, error, emit, encoded, catch, ◌>>=◌,
}

-- The end of a computation that did not loop, with the property.
abbrev pub Kept {ℓ κ} : {S : Type ℓ} {A : Type κ} → (S → Type 0) → Out S A → Type 0
Kept P (ok a w) = P w.store
Kept P (throw e w) = P w.store
Kept P hang = ⊥

abbrev pub Keeps {ℓ κ} : {S : Type ℓ} {A : Type κ} → (S → Type 0) → M S A → Type ℓ
Keeps {S} P m = (w : World S) → P w.store → Kept P (m w)

-- The world at the end of a computation; `none` if it loops.
abbrev pub settled {ℓ κ} : {S : Type ℓ} {A : Type κ} → Out S A → Option (World S)
settled (ok _ w) = some w
settled (throw _ w) = some w
settled hang = none

pub Kept-map {ℓ κ} :
    {S : Type ℓ} {A : Type κ} {P Q : S → Type 0} (f : (s : S) → P s → Q s) (out : Out S A)
    → Kept P out
    → Kept Q out
Kept-map f (ok _ w) p = f w.store p
Kept-map f (throw _ w) p = f w.store p
Kept-map f hang p = absurd p

module _ {ℓ} {S : Type ℓ} (P : S → Type 0) where
  pub Kept-settled {κ} :
      {A : Type κ} (out : Out S A) → Kept P out → (v : World S) × (settled out ≡ some v) × P v.store
  Kept-settled (ok _ w) p = (w, refl, p)
  Kept-settled (throw _ w) p = (w, refl, p)
  Kept-settled hang p = absurd p

  -- How such a computation ended.
  pub Kept-cases {κ} :
      {A : Type κ} (out : Out S A)
      → Kept P out
      → ((a : A) × (v : World S) × (out ≡ ok a v) × P v.store)
        ⊎ ((e : Thrown) × (v : World S) × (out ≡ throw e v) × P v.store)
  Kept-cases (ok a w) p = inl (a, w, refl, p)
  Kept-cases (throw e w) p = inr (e, w, refl, p)
  Kept-cases hang p = absurd p

  pub settled-Kept {κ} :
      {A : Type κ} (out : Out S A) (v : World S) → Kept P out → settled out ≡ some v → P v.store
  settled-Kept (ok _ w) v p e = subst (λ (u : World S). P u.store) (ap (λ o. or_else o w) e) p
  settled-Kept (throw _ w) v p e = subst (λ (u : World S). P u.store) (ap (λ o. or_else o w) e) p
  settled-Kept hang v p e = absurd p

  encoded-Keeps : (id : String) → Keeps P (encoded {S = S} id)
  encoded-Keeps id w p = by_text (base64_url_encode (units id))
    where
      by_text :
          (t : Option (List ℕ))
          → Kept P (elim t as (λ _. Out S (List ℕ)) [
            | none ↦ throw (error "InvalidCharacterError") w
            | some b ↦ ok b w
          ])
      by_text none = p
      by_text (some b) = p

  pub >>=-Keeps {κ μ} :
      {A : Type κ} {B : Type μ} (m : M S A) (k : A → M S B)
      → Keeps P m
      → ((a : A) → Keeps P (k a))
      → Keeps P (m >>= k)
  >>=-Keeps {A} {B} m k hm hk w p = after (m w) (hm w p)
    where
      after :
          (out : Out S A)
          → Kept P out
          → Kept P
              (elim out as (λ _. Out S B) [ ok a v ↦ k a v | throw e v ↦ throw e v | hang ↦ hang ])
      after (ok a v) q = hk a v q
      after (throw e v) q = q
      after hang q = absurd q

  pub catch-Keeps {κ} :
      {A : Type κ} (m : M S A) (h : Thrown → M S A)
      → Keeps P m
      → ((e : Thrown) → Keeps P (h e))
      → Keeps P (catch m h)
  catch-Keeps {A} m h hm hh w p = after (m w) (hm w p)
    where
      after :
          (out : Out S A)
          → Kept P out
          → Kept P
              (elim out as (λ _. Out S A) [ ok a v ↦ ok a v | throw e v ↦ h e v | hang ↦ hang ])
      after (ok a v) q = q
      after (throw e v) q = hh e v q
      after hang q = absurd q

  -- An identifier is encoded, and then a request is sent.
  pub coded_request-Keeps :
      (id : String) (effect : List ℕ → Effect) → Keeps P (encoded id >>= λ t. emit (effect t))
  coded_request-Keeps id effect =
      >>=-Keeps (encoded id) (λ t. emit (effect t)) (encoded-Keeps id) (λ t w p. p)

-- The answer and the world of a fulfilled promise.
abbrev answer_or {ℓ κ} : {S : Type ℓ} {A : Type κ} → A → Out S A → A
answer_or d (ok a _) = a
answer_or d _ = d

abbrev world_or {ℓ κ} : {S : Type ℓ} {A : Type κ} → World S → Out S A → World S
world_or d (ok _ w) = w
world_or d _ = d

pub ok_inj {ℓ κ} :
    {S : Type ℓ} {A : Type κ} (a b : A) (v w : World S) → ok a v ≡ ok b w → (a ≡ b) × (v ≡ w)
ok_inj a b v w e = (ap (answer_or a) e, ap (world_or v) e)
