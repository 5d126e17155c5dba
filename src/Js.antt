-- ===== src/Js.antt =====
-- How the frontend's JavaScript runs: a method of a store is a computation over the store's state
-- and the log of its visible effects, which ends with a value, with a thrown value (a rejected
-- promise), or never. A request is split where the code waits: what runs before the request is
-- sent is one computation, what runs when the reply is there is another, `settle`d by the reply.
-- Console output is left out.
pub mod Array
pub mod Keeping
pub mod Keyed
pub mod Paging
pub mod Sort
use wg_portal.Prelude.{ℕ, String, List, [], ◌∷◌, ◌++◌, none, some, ◌≡◌, Bool, true, false, units}
use wg_portal.Encoding.{base64_url_encode}

-- What can be thrown: `new Error(text)` and rejected texts, and the `TypeError` of reading a field
-- of `undefined`.
pub data Thrown : Type 0 where
  error : String → Thrown
  type_error : Thrown

pub data Method : Type 0 where
  get post put delete : Method

-- A path is made of literal pieces and encoded identifiers.
pub data Piece : Type 0 where
  lit : String → Piece
  coded : List ℕ → Piece

-- The visible effects of a method: a request by `apiWrapper` (the path behind the base URL), a
-- notification (its title and text), a navigation, a call of the WebAuthn API of the browser, the
-- browser leaving the page for an address, and a click on a link with the name of a file.
pub data Effect : Type 0 where
  request : Method → List Piece → Effect
  notify : String → String → Effect
  navigate : String → Effect
  browser : String → Effect
  leave : List ℕ → Effect
  click : List ℕ → String → Effect

pub record World {ℓ} (S : Type ℓ) : Type ℓ where
  pub store : S
  pub log : List Effect

-- The end of a computation.
pub data Out {ℓ κ} (S : Type ℓ) (A : Type κ) : Type (ℓ ⊔ κ) where
  ok : A → World S → Out S A
  throw : Thrown → World S → Out S A
  hang : Out S A

abbrev pub M {ℓ κ} : Type ℓ → Type κ → Type (ℓ ⊔ κ)
M S A = World S → Out S A

infixl 5 ◌>>=◌ ◌>>◌
abbrev pub ◌>>=◌ {ℓ κ μ} : {S : Type ℓ} {A : Type κ} {B : Type μ} → M S A → (A → M S B) → M S B
◌>>=◌ m f w = elim (m w) [ ok a v ↦ f a v | throw e v ↦ throw e v | hang ↦ hang ]

abbrev pub ◌>>◌ {ℓ κ μ} : {S : Type ℓ} {A : Type κ} {B : Type μ} → M S A → M S B → M S B
m >> k = m >>= λ _. k

abbrev pub return {ℓ κ} : {S : Type ℓ} {A : Type κ} → A → M S A
return a w = ok a w

-- `throw e`, or `return Promise.reject(e)` in a handler.
abbrev pub reject {ℓ κ} : {S : Type ℓ} {A : Type κ} → Thrown → M S A
reject e w = throw e w

-- `m.catch(h)`
abbrev pub catch {ℓ κ} : {S : Type ℓ} {A : Type κ} → M S A → (Thrown → M S A) → M S A
catch m h w = elim (m w) [ ok a v ↦ ok a v | throw e v ↦ h e v | hang ↦ hang ]

-- Reads the state, writes it, and reports an effect.
abbrev pub state {ℓ} : {S : Type ℓ} → M S S
state w = ok w.store w

abbrev pub update {ℓ} : {S : Type ℓ} → (S → S) → M S (Unit {0})
update f w = ok tt (record w { store = f w.store })

abbrev pub emit {ℓ} : {S : Type ℓ} → Effect → M S (Unit {0})
emit e w = ok tt (record w { log = w.log ++ e ∷ [] })

abbrev pub pass {ℓ} : {S : Type ℓ} → M S (Unit {0})
pass w = ok tt w

-- How the promise of `apiWrapper` ends.
pub data Reply {ℓ} (A : Type ℓ) : Type ℓ where
  fulfilled : A → Reply A
  rejected : Thrown → Reply A

-- `apiWrapper….then(f).catch(h)`: what `f` throws goes to `h` too.
abbrev pub settle {ℓ κ μ} :
    {S : Type ℓ} {A : Type κ} {B : Type μ} → Reply A → (A → M S B) → (Thrown → M S B) → M S B
settle (fulfilled a) f h = catch (f a) h
settle (rejected e) f h = h e

-- `base64_url_encode(id)` in a method: it throws where btoa throws.
abbrev pub encoded {ℓ} : {S : Type ℓ} → String → M S (List ℕ)
encoded id w = elim (base64_url_encode (units id)) [
  | none ↦ throw (error "InvalidCharacterError") w
  | some t ↦ ok t w
]

-- What a method leaves behind; a method that never comes back changes nothing.
abbrev pub world_after {ℓ} : {S A : Type ℓ} → World S → Out S A → World S
world_after w (ok _ v) = v
world_after w (throw _ v) = v
world_after w hang = w

-- Code with two outcomes of a test.
abbrev pub when {ℓ} : {S : Type ℓ} → Bool → M S (Unit {0}) → M S (Unit {0}) → M S (Unit {0})
when true a b = a
when false a b = b

-- The text of a thrown value, as `new Error(error)` and a notification show it.
abbrev pub text_of : Thrown → String
text_of (error s) = s
text_of type_error = "TypeError"

-- The promise of a computation was fulfilled, with a final world.
abbrev Fulfils {ℓ κ} : {S : Type ℓ} {A : Type κ} → Out S A → World S → Type (ℓ ⊔ κ)
Fulfils {A} out v = (a : A) × (out ≡ ok a v)
