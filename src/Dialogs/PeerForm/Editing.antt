-- ===== src/Dialogs/PeerForm/Editing.antt =====
-- What an input of the dialogs for a peer does to the form when the watchers have run
-- (frontend/src/components/PeerEditModal.vue and UserPeerEditModal.vue).
use wg_portal.Prelude.{Bool, not, ◌&&◌, ◌≡◌, refl, subst, sym, Bool-cases, inl, inr}
use wg_portal.Dialogs.PeerForm.{
  Origin, own, prepared, listed, profiled, PeerForm, Kind, write_through, set_overridable, differ,
  watch_ignore, watch_disabled, edit,
}
use wg_portal.Models.{Peer}

write_through-form : (o : Origin) (s : PeerForm) → (write_through o s).form ≡ s.form
unfolding write_through
write_through-form own s = refl
write_through-form prepared s = refl
write_through-form (listed id) s = refl
write_through-form (profiled id) s = refl

watch_disabled-form : (old : Bool) (s : PeerForm) → (watch_disabled old s).form ≡ s.form
unfolding watch_disabled
watch_disabled-form old s = elim (Bool-cases (old && not s.form.disabled)) [
  | inl e ↦ rw e refl
  | inr e ↦ rw e refl
]

-- A property of the form that neither the input nor the watcher of IgnoreGlobalSettings breaks.
module _ (Q : Peer → Type 0) (kept : (b : Bool) (p : Peer) → Q p → Q (set_overridable b p)) where
  watch_ignore-form :
      (k : Kind) (old : Bool) (s : PeerForm) → Q s.form → Q (watch_ignore k old s).form
  unfolding watch_ignore
  watch_ignore-form k old s q =
      elim (Bool-cases (k.watches_ignore && differ old s.form.ignore_global_settings)) [
        | inl e ↦ rw e (subst Q (sym (write_through-form s.origin _)) (kept _ s.form q))
        | inr e ↦ rw e q
      ]

  pub edit-form : (k : Kind) (f : Peer → Peer) (s : PeerForm) → Q (f s.form) → Q (edit k f s).form
  unfolding edit
  edit-form k f s q = subst Q (sym (watch_disabled-form s.form.disabled _)) (
      watch_ignore-form k s.form.ignore_global_settings _
        (subst Q (sym (write_through-form s.origin _)) q))
