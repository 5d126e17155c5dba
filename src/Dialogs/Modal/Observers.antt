-- ===== src/Dialogs/Modal/Observers.antt =====
-- What becomes of the observers of a dialog (frontend/src/components/Modal.vue).
use wg_portal.Prelude.{
  ℕ, zero, suc, ◌+◌, List, [], ◌∷◌, Option, some, true, false, not, ◌==◌, ◌≡◌, refl, ap, ◌∙◌,
  length, ◌<◌, All, arith,
}
use wg_portal.Js.Array.{filter}
use wg_portal.Dialogs.Modal.{Modal, show, frame, hide, disconnect}

-- The dialog is shown and hidden, with a frame in between.
abbrev pub patient : Modal → Modal
patient s = hide (frame (show s))

-- The dialog is shown, hidden and shown again within one frame, and then hidden.
abbrev hurried : Modal → Modal
hurried s = hide (frame (frame (show (hide (show s)))))

abbrev pub repeated : (Modal → Modal) → ℕ → Modal → Modal
repeated f zero s = s
repeated f (suc n) s = repeated f n (f s)

-- A hidden dialog that waits for no frame.
abbrev pub resting : ℕ → Option ℕ → List ℕ → Modal
resting created kept connected = record {
  visible = false;
  waiting = 0;
  created = created;
  kept = kept;
  connected = connected;
}

-- The pairs that observe are older than the next one.
abbrev AreOld : ℕ → List ℕ → Type 0
AreOld n = All (λ m. m < n)

older-ne : (n m : ℕ) → m < n → (m == n) ≡ false
older-ne n m h = ground arith

filter-older :
    (n : ℕ) (pairs : List ℕ) → All (λ m. m < n) pairs → filter (λ m. not (m == n)) pairs ≡ pairs
unfolding filter
filter-older n [] h = refl
filter-older n (m ∷ pairs) (p, h) = rw (older-ne n m p) (ap (m ∷◌) (filter-older n pairs h))

same : (n : ℕ) → (n == n) ≡ true
same n = ground arith

All-older : (n : ℕ) (pairs : List ℕ) → All (λ m. m < n) pairs → All (λ m. m < suc n) pairs
All-older n [] h = tt
All-older n (m ∷ pairs) (p, h) = (omega arith, All-older n pairs h)

-- The pair that was created last is the one that is disconnected.
hide-latest :
    (n : ℕ) (pairs : List ℕ)
    → All (λ m. m < n) pairs
    → filter (λ m. not (m == n)) (n ∷ pairs) ≡ pairs
unfolding filter
hide-latest n pairs h = rw (same n) (filter-older n pairs h)

patient_lem :
    (n : ℕ) (kept : Option ℕ) (pairs : List ℕ)
    → AreOld n pairs
    → patient (resting n kept pairs) ≡ resting (suc n) (some n) pairs
unfolding show frame hide
patient_lem n kept pairs old = ap (resting (suc n) (some n)) (hide-latest n pairs old)

hurried_lem :
    (n : ℕ) (kept : Option ℕ) (pairs : List ℕ)
    → AreOld n pairs
    → disconnect kept pairs ≡ pairs
    → hurried (resting n kept pairs) ≡ resting (suc (suc n)) (some (suc n)) (n ∷ pairs)
unfolding show frame hide
hurried_lem n kept pairs old spent =
    ap (λ rest. hide (frame (frame (show (record (resting n kept rest) { waiting = 1 }))))) spent
    ∙ ap (resting (suc (suc n)) (some (suc n)))
        (hide-latest (suc n) (n ∷ pairs) (omega arith, All-older n pairs old))

-- Showing and hiding a dialog, with a frame in between and however often, leaves no observers
-- behind: the pairs that observe are those from before.
pub repeated-patient :
    (times n : ℕ) (kept : Option ℕ) (pairs : List ℕ)
    → AreOld n pairs
    → (repeated patient times (resting n kept pairs)).connected ≡ pairs
repeated-patient zero n kept pairs old = refl
repeated-patient (suc times) n kept pairs old =
    ap (λ s. (repeated patient times s).connected) (patient_lem n kept pairs old)
    ∙ repeated-patient times (suc n) (some n) pairs (All-older n pairs old)

-- Showing, hiding and showing a dialog again within one frame leaves one pair of observers behind
-- when it is hidden at last, each time: nothing disconnects them later.
repeated-hurried :
    (times n : ℕ) (kept : Option ℕ) (pairs : List ℕ)
    → AreOld n pairs
    → disconnect kept pairs ≡ pairs
    → length (repeated hurried times (resting n kept pairs)).connected ≡ times + length pairs
repeated-hurried zero n kept pairs old spent = omega arith
repeated-hurried (suc times) n kept pairs old spent =
    let older : AreOld (suc n) (n ∷ pairs) = (omega arith, All-older n pairs old) in
    ap (λ s. length (repeated hurried times s).connected) (hurried_lem n kept pairs old spent)
    ∙ repeated-hurried times (suc (suc n)) (some (suc n)) (n ∷ pairs)
        (All-older (suc n) (n ∷ pairs) older) (filter-older (suc n) (n ∷ pairs) older)
    ∙ omega arith
