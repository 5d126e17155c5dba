-- ===== src/Dialogs/Buttons.antt =====
-- What the two halves of a button's handler promise, for every dialog: a second click does nothing,
-- and once the reply is there the button is free again, whatever the reply.
use wg_portal.Prelude.{String, Option, some, none, Bool, true, false, ◌≡◌, refl, ap, inl, inr}
use wg_portal.Js.{M, World, Out, ok, throw, hang}
use wg_portal.Js.Keeping.{Kept, Keeps, Kept-cases}
use wg_portal.Dialogs.{with_selected, failed, sent, once, ended, answered, returned, within}

module _ {S : Type 0} (busy : S → Bool) (set : Bool → S → S)
    (set_lem : (b : Bool) (s : S) → busy (set b s) ≡ b) (Q : S → Type 0)
    (set_Q : (b : Bool) (s : S) → Q s → Q (set b s)) where
  -- A click while the button is busy does nothing.
  pub once-busy :
      (title : String) (m : M S (Unit {0})) (w : World S)
      → busy w.store ≡ true
      → once busy set title m w ≡ ok false w
  once-busy title m w h = rw h refl

  -- A click has ended, and the button is busy exactly if the code waits for a reply.
  abbrev Waits : Out S Bool → Type 0
  Waits out = (b : Bool) × (v : World S) × (out ≡ ok b v) × (busy v.store ≡ b) × Q v.store

  -- So does code between two requests.
  pub sent-Waits :
      (title : String) (m : M S (Unit {0}))
      → Keeps (λ s. (busy s ≡ true) × Q s) m
      → (w : World S) → busy w.store ≡ true
      → Q w.store
      → Waits (sent busy set title (m w))
  sent-Waits title m keeps w h q =
      elim (Kept-cases (λ s. (busy s ≡ true) × Q s) (m w) (keeps w (h, q))) [
        | inl (a, v, e, p) ↦ (true, v, ap (sent busy set title) e, p.0, p.1)
        | inr (err, v, e, p) ↦ (
          false,
          failed busy set title err v,
          ap (sent busy set title) e,
          set_lem false v.store,
          set_Q false v.store p.1,
        )
      ]

  -- A click on a free button ends so, if what it does keeps the button busy.
  pub once-Waits :
      (title : String) (m : M S (Unit {0}))
      → Keeps (λ s. (busy s ≡ true) × Q s) m
      → (w : World S) → busy w.store ≡ false
      → Q w.store
      → Waits (once busy set title m w)
  once-Waits title m keeps w h q = rw h (
      sent-Waits title m keeps (record w { store = set true w.store }) (set_lem true w.store)
        (set_Q true w.store q))

  -- Once its reply is there, the button is free again.
  pub answered-free :
      (title : String) (m : M S (Unit {0}))
      → Keeps Q m
      → (w : World S) → Q w.store
      → (v : World S) × (answered busy set title m w ≡ ok tt v) × (busy v.store ≡ false) × Q v.store
  answered-free title m ends w q = elim (Kept-cases Q (m w) (ends w q)) [
    | inl (a, v, e, p) ↦ (
      record v { store = set false v.store },
      ap (ended busy set title) e,
      set_lem false v.store,
      set_Q false v.store p,
    )
    | inr (err, v, e, p) ↦ (
      failed busy set title err v,
      ap (ended busy set title) e,
      set_lem false v.store,
      set_Q false v.store p,
    )
  ]

-- Code for the selected record keeps a property, if it does for every identifier.
pub with_selected-Keeps :
    {S A : Type 0} (P : S → Type 0) (key : A → String) (m : String → M S (Unit {0}))
    → ((id : String) → Keeps P (m id))
    → (o : Option A) → Keeps P (with_selected key m o)
with_selected-Keeps P key m keeps none w h = h
with_selected-Keeps P key m keeps (some a) w h = keeps (key a) w h

module _ {S T : Type 0} (get : S → T) (put : T → S → S) (R : T → Type 0) (P : S → Type 0) where
  returned-Kept :
      {A : Type 0} (w : World S)
      → ((t : T) → R t → P (put t w.store))
      → (out : Out T A) → Kept R out
      → Kept P (returned put w out)
  returned-Kept w free (ok a v) k = free v.store k
  returned-Kept w free (throw e v) k = free v.store k
  returned-Kept w free hang k = absurd k

  -- A method of a store keeps what its own property gives.
  pub within-Keeps :
      {A : Type 0} (m : M T A)
      → ((s : S) → P s → R (get s))
      → ((t : T) (s : S) → R t → P s → P (put t s))
      → Keeps R m
      → Keeps P (within get put m)
  within-Keeps m into out keeps w p =
      returned-Kept w (λ t r. out t w.store r p) _
        (keeps (record { store = get w.store; log = w.log }) (into w.store p))
