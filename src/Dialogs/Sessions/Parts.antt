-- ===== src/Dialogs/Sessions/Parts.antt =====
-- How the parts of a dialog are seen to be sound: a click and a reply, for each of its two buttons
-- (frontend/src/components/*EditModal.vue).
use wg_portal.Prelude.{
  some, Option, ◌+◌, String, Bool, true, false, ◌≡◌, refl, sym, ◌∙◌, arith, Bool-cases, inl, inr,
}
use wg_portal.Js.{M, World, ok, update, ◌>>◌}
use wg_portal.Js.Keeping.{Keeps, >>=-Keeps, Kept-map, settled, settled-Kept, ok_inj}
use wg_portal.Dialogs.{within, with_selected, once, answered}
use wg_portal.Dialogs.Buttons.{
  within-Keeps, with_selected-Keeps, once-busy, once-Waits, answered-free,
}
use wg_portal.Dialogs.Sessions.{Dialog, Flags, flag, Frees}

-- An input that keeps both flags, whatever they are, leaves them as they were.
pub Keeps-quiet :
    {S : Type 0} (d : Dialog S) (m : M S (Unit {0}))
    → ((a b : Bool) → Keeps (Flags d a b) m)
    → (w v : World S) → settled (m w) ≡ some v
    → Flags d (d.is_saving w.store) (d.is_deleting w.store) v.store
Keeps-quiet d m keeps w v e = settled-Kept (Flags d _ _) (m w) v (keeps _ _ w (refl, refl)) e

module _ {S : Type 0} (busy other : S → Bool) (set : Bool → S → S)
    (set_lem : (b : Bool) (s : S) → busy (set b s) ≡ b)
    (set_other : (b : Bool) (s : S) → other (set b s) ≡ other s) (title : String)
    (m : M S (Unit {0})) (quiet : (a b : Bool) → Keeps (λ s. (busy s ≡ a) × (other s ≡ b)) m) where
  pub once-Clicks :
      (b : Bool) (w v : World S)
      → once busy set title m w ≡ ok b v
      → (flag (busy v.store) ≡ flag (busy w.store) + flag b) × (other v.store ≡ other w.store)
  once-Clicks b w v e = elim (Bool-cases (busy w.store)) [
    | inl on ↦
        let (b_eq, v_eq) = ok_inj b false v w (
          sym e
          ∙ once-busy busy set set_lem (λ s. other s ≡ other w.store) (λ b s q. set_other b s ∙ q)
              title m w on) in
        rw (v_eq, b_eq, on) (omega arith, refl)
    | inr off ↦
        let (c, u, done, p, q) =
          once-Waits busy set set_lem (λ s. other s ≡ other w.store) (λ b s q. set_other b s ∙ q)
            title m (quiet true (other w.store)) w off refl in
        let (b_eq, v_eq) = ok_inj b c v u (sym e ∙ done) in
        rw (v_eq, b_eq, off, p, q) (omega arith, refl)
  ]

  pub answered-Frees : Frees busy other (answered busy set title m)
  answered-Frees w =
      answered-free busy set set_lem (λ s. other s ≡ other w.store) (λ b s q. set_other b s ∙ q)
        title m
        (λ v h.
          Kept-map {P = λ s. (busy s ≡ busy v.store) × (other s ≡ other w.store)} (λ s f. f.1) _
            (quiet (busy v.store) (other w.store) v (refl, h)))
        w refl

-- Calls of a store, for a property of the dialog that the store does not touch.
module _ {S T : Type 0} (get : S → T) (put : T → S → S) (P : S → Type 0)
    (free : (t : T) (s : S) → P s → P (put t s)) where
  pub called-Keeps : (m : M T (Unit {0})) → Keeps (λ _. Unit {0}) m → Keeps P (within get put m)
  called-Keeps m ends =
      within-Keeps get put (λ _. Unit {0}) P m (λ s h. tt) (λ t s r h. free t s h) ends

  -- A call for the selected record.
  pub called_for-Keeps :
      {A : Type 0} (key : A → String) (m : String → M T (Unit {0}))
      → ((id : String) → Keeps (λ _. Unit {0}) (m id))
      → (o : Option A) → Keeps P (with_selected key (λ id. within get put (m id)) o)
  called_for-Keeps key m ends =
      with_selected-Keeps P key (λ id. within get put (m id)) (λ id. called-Keeps (m id) (ends id))

  -- A reply, after which the dialog is closed.
  pub closed-Keeps :
      (close : S → S) (closing : (s : S) → P s → P (close s)) (m : M T (Unit {0}))
      → Keeps (λ _. Unit {0}) m
      → Keeps P (within get put m >> update close)
  closed-Keeps close closing m ends =
      >>=-Keeps P (within get put m) (λ _. update close) (called-Keeps m ends)
        (λ _ v h. closing v.store h)
