-- ===== src/Dialogs/Modal.antt =====
-- The frame of the dialogs (the script of frontend/src/components/Modal.vue): its height, its
-- observers, and when it asks to be closed. A pair of observers, one for the size and one for the
-- classes, is a number; both live and die together.
pub mod Observers
use wg_portal.Prelude.{
  ℕ, zero, suc, List, [], ◌∷◌, Option, some, none, Bool, true, false, not, ltb, ◌==◌, if◌then◌else◌,
}
use wg_portal.Js.Array.{filter}

-- `waiting` counts the openings that wait for a frame of the browser; `kept` is the pair that is
-- kept at the content, `connected` are the pairs that observe it, the latest first. The content is on
-- the page all the time, since the dialog is only hidden.
pub record Modal : Type 0 where
  pub visible : Bool
  pub waiting : ℕ
  pub created : ℕ
  pub kept : Option ℕ
  pub connected : List ℕ

-- `Math.max(contentHeight, props.minHeight)`
unfoldable final_height : ℕ → ℕ → ℕ
final_height content_height min_height =
    if ltb content_height min_height then min_height else content_height

-- The watcher of `visible`, up to the frame.
unfoldable pub show : Modal → Modal
show s = record s { visible = true; waiting = suc s.waiting }

-- The frame: a pair is created, connected, and kept in place of the one before.
abbrev framed : ℕ → Modal → Modal
framed zero s = s
framed (suc n) s = record s {
  waiting = n;
  created = suc s.created;
  kept = some s.created;
  connected = s.created ∷ s.connected;
}

unfoldable pub frame : Modal → Modal
frame s = framed s.waiting s

abbrev pub disconnect : Option ℕ → List ℕ → List ℕ
disconnect none pairs = pairs
disconnect (some n) pairs = filter (λ m. not (m == n)) pairs

-- The watcher when the dialog is hidden.
unfoldable pub hide : Modal → Modal
unfolding filter
hide s = record s { visible = false; connected = disconnect s.kept s.connected }

-- The dialog asks to be closed: by a click beside it, if `closeOnBackdrop`, and by its button.
unfoldable close_backdrop : Bool → Bool
close_backdrop close_on_backdrop = close_on_backdrop

unfoldable close_modal : Bool
close_modal = true
