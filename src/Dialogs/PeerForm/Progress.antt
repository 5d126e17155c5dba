-- ===== src/Dialogs/PeerForm/Progress.antt =====
-- The buttons of a dialog for a peer over whole sessions
-- (frontend/src/components/PeerEditModal.vue, UserPeerEditModal.vue).
use wg_portal.Prelude.{◌≤◌, ltb, Bool, ◌≡◌, refl}
use wg_portal.Js.{M}
use wg_portal.Js.Keeping.{Keeps, Kept-map}
use wg_portal.Dialogs.Sessions.{IsSound, Session, Reach, IsIdle, Rests}
use wg_portal.Dialogs.Sessions.Laws.{Reach-IsExact, Reach-Rests}
use wg_portal.Dialogs.Sessions.Parts.{Keeps-quiet, once-Clicks, answered-Frees}
use wg_portal.Dialogs.PeerForm.{PeerForm, Kind}
use wg_portal.Dialogs.PeerForm.Flags.{
  Flags, edit-Flags, close-Flags, show-Keeps, show_reply-Keeps, submit-Keeps, remove-Keeps,
  saved-Keeps, deleted-Keeps,
}
use wg_portal.Dialogs.PeerForm.Submit.{
  save, save_reply, del, del_reply, submit, remove, set_saving, set_deleting,
}
use wg_portal.Dialogs.PeerForm.Session.{
  Input, shown_for, prepared_reply, edited, closed, Saved, Deleted, input, dialog,
}

quiet : (k : Kind) (i : Input) (a b : Bool) → Keeps (Flags a b) (input k i)
quiet k (shown_for id) a b = show-Keeps a b k id
quiet k (prepared_reply r) a b = show_reply-Keeps a b k r
quiet k (edited f) a b = λ w h. edit-Flags a b k f w.store h
quiet k closed a b = λ w h. close-Flags a b k w.store h

-- The flags in the order of the button that deletes.
turned :
    (m : M PeerForm (Unit {0}))
    → ((a b : Bool) → Keeps (Flags a b) m)
    → (a b : Bool) → Keeps (λ s. (s.is_deleting ≡ a) × (s.is_saving ≡ b)) m
turned m keeps a b w h = Kept-map (λ s f. (f.1, f.0)) (m w) (keeps b a w (h.1, h.0))

dialog-IsSound : (k : Kind) → IsSound (dialog k)
unfolding save save_reply del del_reply
dialog-IsSound k = record {
  quiet = λ i. Keeps-quiet (dialog k) (input k i) (quiet k i);
  saves =
      once-Clicks (λ s. s.is_saving) (λ s. s.is_deleting) set_saving (λ b s. refl) (λ b s. refl)
        "Failed to save peer!" (submit k) (λ a b. submit-Keeps a b k);
  saved = λ r.
      answered-Frees (λ s. s.is_saving) (λ s. s.is_deleting) set_saving (λ b s. refl) (λ b s. refl)
        "Failed to save peer!" _ (λ a b. saved-Keeps a b k r.target r.reply);
  deletes =
      once-Clicks (λ s. s.is_deleting) (λ s. s.is_saving) set_deleting (λ b s. refl) (λ b s. refl)
        "Failed to delete peer!" remove (turned remove remove-Keeps);
  deleted = λ r.
      answered-Frees (λ s. s.is_deleting) (λ s. s.is_saving) set_deleting (λ b s. refl)
        (λ b s. refl) "Failed to delete peer!" _
        (turned _ (λ a b. deleted-Keeps a b k r.id r.reply));
}

-- From an idle dialog, whatever the user does and in whatever order replies come, each button has at
-- most one request in flight, and it is busy exactly then.
pub Reach-counted :
    (k : Kind) (s t : Session (dialog k))
    → IsIdle (dialog k) s
    → Reach (dialog k) s t
    → (t.saves ≤ 1)
      × (t.deletes ≤ 1)
      × (t.world.store.is_saving ≡ ltb 0 t.saves)
      × (t.world.store.is_deleting ≡ ltb 0 t.deletes)
Reach-counted k = Reach-IsExact (dialog k) (dialog-IsSound k)

-- No button stays busy for ever: wherever a session has got to from an idle dialog, let the reply to a
-- save and the one to a deletion come, each if it is awaited, in either order and whatever they are.
-- Then each handler ends without an error, with its button free, and the dialog is idle.
pub Reach-IsIdle :
    (k : Kind) (s t : Session (dialog k)) (saved : Saved) (deleted : Deleted)
    → IsIdle (dialog k) s
    → Reach (dialog k) s t
    → Rests (dialog k) saved deleted t
Reach-IsIdle k = Reach-Rests (dialog k) (dialog-IsSound k)
