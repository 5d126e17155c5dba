-- ===== src/Dialogs/PeerForm/Sharing.antt =====
-- What the store sees of a form that is not saved: the settings of the form are the objects of the
-- peer that it shows (frontend/src/components/PeerEditModal.vue).
use wg_portal.Prelude.{
  String, List, [], ◌∷◌, Option, some, ◌&&◌, Bool, true, false, not, ◌===◌, ===_iff, ===_refl,
  if◌then◌else◌, ◌≡◌, refl, ap, ◌∙◌, map_option, arith, Bool-cases, inl, inr,
}
use wg_portal.Js.{World, ok}
use wg_portal.Js.Array.{find}
use wg_portal.Js.Keyed.{find_key}
use wg_portal.Models.{Peer}
use wg_portal.Peers.{peer_key}
use wg_portal.Dialogs.PeerForm.{
  Clock, Origin, listed, PeerForm, Kind, peer_edit, share, at_key, set_overridable, selected_peer,
  watch_ignore, watch_disabled, watched, differ, write_through, edit,
}
use wg_portal.Dialogs.PeerForm.Fill.{fill, mark_ignoring, fill_existing, has_closed, present, show}
use wg_portal.Dialogs.PeerForm.Submit.{close}

-- A change that keeps the identifier: the changed peer is still the one that is found.
find-at_key :
    (f : Peer → Peer) (keeps : (p : Peer) → (f p).identifier ≡ p.identifier) (id j : String)
    (ps : List Peer)
    → find_key peer_key j (at_key id f ps)
      ≡ (if id === j then map_option f (find_key peer_key j ps) else find_key peer_key j ps)
unfolding find
find-at_key f keeps id j [] = ground arith
find-at_key f keeps id j (p ∷ ps) = ground (
  arith,
  ===_iff p.identifier id,
  ===_iff p.identifier j,
  ===_iff (f p).identifier j,
  ===_iff id j,
  keeps p,
  find-at_key f keeps id j ps,
)

abbrev pub stored : String → PeerForm → Option Peer
stored id s = find_key peer_key id s.peers.peers

-- The watchers of a form that shares nothing leave the store alone, and so does closing.
pub close-peers : (k : Kind) (s : PeerForm) → (close k s).peers ≡ s.peers
unfolding close watch_ignore watch_disabled write_through
close-peers k s = ground arith

has_closed-fill :
    (k : Kind) (o : Origin) (p : Peer) (s : PeerForm)
    → has_closed (fill k o p s).form ≡ has_closed p
unfolding fill has_closed
has_closed-fill k o p s = refl

-- The form as fill_existing leaves it, by the answer of its test.
abbrev existing : Kind → PeerForm → Bool → PeerForm → PeerForm
existing k filled closed s = watched k s.form (
    if closed
    then record filled { form = record filled.form { ignore_global_settings = true } }
    else filled)

fill_existing_lem :
    (k : Kind) (o : Origin) (p : Peer) (s : PeerForm)
    → fill_existing k o p s ≡ existing k (fill k o p s) (has_closed p) s
unfolding fill_existing mark_ignoring
fill_existing_lem k o p s = ap (λ b. existing k (fill k o p s) b s) (has_closed-fill k o p s)

watch_disabled-peers : (old : Bool) (s : PeerForm) → (watch_disabled old s).peers ≡ s.peers
unfolding watch_disabled
watch_disabled-peers old s = ground arith

opened-stored :
    (c : Clock) (id : String) (p : Peer) (s : PeerForm) (closed : Bool)
    → s.form.ignore_global_settings ≡ false
    → stored id s ≡ some p
    → stored id (existing (peer_edit c) (fill (peer_edit c) (listed id) p s) closed s)
      ≡ some (if closed then set_overridable false p else p)
unfolding fill watch_ignore write_through
opened-stored c id p s true h e =
    let filled = fill (peer_edit c) (listed id) p s in
    let ignoring : PeerForm = record filled {
      form = record filled.form { ignore_global_settings = true };
    } in
    ap (λ ps. find_key peer_key id ps.peers)
      (watch_disabled-peers s.form.disabled
        (watch_ignore (peer_edit c) s.form.ignore_global_settings ignoring))
    ∙ ap (λ old. stored id (watch_ignore (peer_edit c) old ignoring)) h
    ∙ find-at_key (share (set_overridable false ignoring.form)) (λ p. refl) id id s.peers.peers
    ∙ rw (===_refl id, e) refl
opened-stored c id p s false h e =
    let filled = fill (peer_edit c) (listed id) p s in
    ap (λ ps. find_key peer_key id ps.peers)
      (watch_disabled-peers s.form.disabled
        (watch_ignore (peer_edit c) s.form.ignore_global_settings filled))
    ∙ rw h e

selected-listed :
    (id : String) (p : Peer) (s : PeerForm)
    → stored id s ≡ some p
    → selected_peer (record s { peer_id = id }) ≡ some (listed id, p)
unfolding selected_peer
selected-listed id p s e = rw e refl

-- Opening the dialog of PeerEditModal on a peer of the store and closing it again, with nothing
-- saved, changes the stored peer: if one of its settings is not overridable, none is afterwards.
pub show-close :
    (c : Clock) (id : String) (p : Peer) (w : World PeerForm)
    → w.store.form.ignore_global_settings ≡ false
    → stored id w.store ≡ some p
    → (v : World PeerForm) × (show (peer_edit c) id w ≡ ok tt v)
      × (stored id (close (peer_edit c) v.store)
          ≡ some (if has_closed p then set_overridable false p else p))
unfolding show present
show-close c id p w h e =
    let s : PeerForm = record w.store { peer_id = id } in
    let shown : World PeerForm = record w { store = fill_existing (peer_edit c) (listed id) p s } in
    (
      shown,
      ap (λ o. present (peer_edit c) o (record w { store = s })) (selected-listed id p s e),
      ap (λ ps. find_key peer_key id ps.peers) (close-peers (peer_edit c) shown.store)
          ∙ ap (stored id) (fill_existing_lem (peer_edit c) (listed id) p s)
          ∙ opened-stored c id p s (has_closed p) h e,
    )

-- The form and its owner after a change that is written through.
write_through_lem :
    (id : String) (q : Peer) (s : PeerForm)
    → stored id s ≡ some q
    → stored id (write_through (listed id) s) ≡ some (share s.form q)
unfolding write_through
write_through_lem id q s e =
    find-at_key (share s.form) (λ p. refl) id id s.peers.peers ∙ rw (===_refl id, e) refl

-- The settings of the form are those of the stored peer.
abbrev IsShared : String → Peer → PeerForm → Type 0
IsShared id p s = (s.origin ≡ listed id) × (stored id s ≡ some (share s.form p))

write_through-IsShared :
    (id : String) (p q : Peer) (s : PeerForm)
    → s.origin ≡ listed id
    → stored id s ≡ some q
    → share s.form q ≡ share s.form p
    → IsShared id p (write_through s.origin s)
unfolding write_through
write_through-IsShared id p q s o e h = rw o (refl, write_through_lem id q s e ∙ ap some h)

watch_ignore-IsShared :
    (k : Kind) (old : Bool) (id : String) (p : Peer) (s : PeerForm)
    → IsShared id p s
    → IsShared id p (watch_ignore k old s)
unfolding watch_ignore
watch_ignore-IsShared k old id p s sh =
    elim (Bool-cases (k.watches_ignore && differ old s.form.ignore_global_settings)) [
      | inl on ↦ rw on (
          write_through-IsShared id p (share s.form p)
            (record s { form = set_overridable (not s.form.ignore_global_settings) s.form }) sh.0
            sh.1 refl)
      | inr off ↦ rw off sh
    ]

watch_disabled-IsShared :
    (old : Bool) (id : String) (p : Peer) (s : PeerForm)
    → IsShared id p s
    → IsShared id p (watch_disabled old s)
unfolding watch_disabled
watch_disabled-IsShared old id p s sh = elim (Bool-cases (old && not s.form.disabled)) [
  | inl on ↦ rw on sh
  | inr off ↦ rw off sh
]

-- Cancelling does not take an edit of a setting back: after any input into the form of a stored
-- peer, the store has the settings of the form, and closing the dialog leaves them there.
pub edit-close :
    (k : Kind) (f : Peer → Peer) (id : String) (p : Peer) (s : PeerForm)
    → s.origin ≡ listed id
    → stored id s ≡ some p
    → stored id (close k (edit k f s)) ≡ some (share (edit k f s).form p)
unfolding edit
edit-close k f id p s o e =
    ap (λ ps. find_key peer_key id ps.peers) (close-peers k (edit k f s))
    ∙ (watch_disabled-IsShared s.form.disabled id p _ (
        watch_ignore-IsShared k s.form.ignore_global_settings id p _
          (write_through-IsShared id p p (record s { form = f s.form }) o e refl))).1
