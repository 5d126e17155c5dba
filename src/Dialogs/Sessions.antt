-- ===== src/Dialogs/Sessions.antt =====
-- A dialog with a button that saves and one that deletes, as the dialogs for a peer, an interface and
-- a user are (frontend/src/components/*EditModal.vue), and its sessions: any sequence of inputs,
-- clicks and replies, as a step relation. The requests that wait for a reply are counted.
pub mod Laws
pub mod Parts
use wg_portal.Prelude.{ℕ, ◌+◌, ◌-◌, ◌<◌, ◌⊎◌, some, Bool, true, false, ◌≡◌, if◌then◌else◌}
use wg_portal.Js.{M, World, ok}
use wg_portal.Js.Keeping.{Keeps, settled}

-- What the dialog does. `Input` is what sends no save and no deletion; `Saved` and `Deleted` are the
-- replies to these, with the identifiers that they were sent for.
pub record Dialog (S : Type 0) : Type 1 where
  pub is_saving : S → Bool
  pub is_deleting : S → Bool
  pub Input : Type 0
  pub Saved : Type 0
  pub Deleted : Type 0
  pub input : Input → M S (Unit {0})
  pub save : M S Bool
  pub save_reply : Saved → M S (Unit {0})
  pub del : M S Bool
  pub del_reply : Deleted → M S (Unit {0})

abbrev pub flag : Bool → ℕ
flag b = if b then 1 else 0

-- A click: the button gets busy exactly if a request is sent, and the other one stays as it is.
abbrev Clicks : {S : Type 0} (busy other : S → Bool) → M S Bool → Type 0
Clicks {S} busy other m =
    (b : Bool) (w v : World S)
    → m w ≡ ok b v
    → (flag (busy v.store) ≡ flag (busy w.store) + flag b) × (other v.store ≡ other w.store)

-- A reply: the button gets free, and the other one stays as it is.
abbrev pub Frees : {S : Type 0} (busy other : S → Bool) → M S (Unit {0}) → Type 0
Frees {S} busy other m =
    (w : World S)
    → (v : World S) × (m w ≡ ok tt v) × (busy v.store ≡ false) × (other v.store ≡ other w.store)

module _ {S : Type 0} (d : Dialog S) where
  abbrev pub Flags : Bool → Bool → S → Type 0
  Flags a b s = (d.is_saving s ≡ a) × (d.is_deleting s ≡ b)

  -- What an implementation owes.
  pub record IsSound : Type 0 where
    pub quiet :
        (i : d.Input) (w v : World S)
        → settled (d.input i w) ≡ some v
        → Flags (d.is_saving w.store) (d.is_deleting w.store) v.store
    pub saves : Clicks d.is_saving d.is_deleting d.save
    pub saved : (r : d.Saved) → Frees d.is_saving d.is_deleting (d.save_reply r)
    pub deletes : Clicks d.is_deleting d.is_saving d.del
    pub deleted : (r : d.Deleted) → Frees d.is_deleting d.is_saving (d.del_reply r)

  pub record Session : Type 0 where
    pub world : World S
    pub saves : ℕ
    pub deletes : ℕ

  -- The user makes an input or clicks a button; or the reply to a request comes.
  pub data Step (s : Session) (t : Session) : Type 0 where
    acted :
        (i : d.Input) (v : World S)
        → settled (d.input i s.world) ≡ some v
        → t ≡ record s { world = v }
        → Step s t
    save_clicked :
        (b : Bool) (v : World S)
        → d.save s.world ≡ ok b v
        → t ≡ record s { world = v; saves = s.saves + flag b }
        → Step s t
    save_answered :
        (r : d.Saved) (v : World S)
        → 0 < s.saves
        → d.save_reply r s.world ≡ ok tt v
        → t ≡ record s { world = v; saves = s.saves - 1 }
        → Step s t
    delete_clicked :
        (b : Bool) (v : World S)
        → d.del s.world ≡ ok b v
        → t ≡ record s { world = v; deletes = s.deletes + flag b }
        → Step s t
    delete_answered :
        (r : d.Deleted) (v : World S)
        → 0 < s.deletes
        → d.del_reply r s.world ≡ ok tt v
        → t ≡ record s { world = v; deletes = s.deletes - 1 }
        → Step s t

  pub data Reach (s : Session) : Session → Type 0 where
    here : Reach s s
    next : {t u : Session} → Reach s t → Step t u → Reach s u

  abbrev pub IsIdle : Session → Type 0
  IsIdle s =
      (d.is_saving s.world.store ≡ false)
      × (d.is_deleting s.world.store ≡ false)
      × (s.saves ≡ 0)
      × (s.deletes ≡ 0)

  -- The reply to a save comes if one is awaited: it ends well, and the button is free.
  abbrev pub AfterSaved : d.Saved → Session → Session → Type 0
  AfterSaved r t u =
      ((t.saves ≡ 0) × (u ≡ t))
      ⊎ ((0 < t.saves)
          × (v : World S) × (d.save_reply r t.world ≡ ok tt v)
          × (d.is_saving v.store ≡ false)
          × (u ≡ record t { world = v; saves = t.saves - 1 }))

  -- The same for a deletion.
  abbrev pub AfterDeleted : d.Deleted → Session → Session → Type 0
  AfterDeleted r t u =
      ((t.deletes ≡ 0) × (u ≡ t))
      ⊎ ((0 < t.deletes)
          × (v : World S) × (d.del_reply r t.world ≡ ok tt v)
          × (d.is_deleting v.store ≡ false)
          × (u ≡ record t { world = v; deletes = t.deletes - 1 }))

  -- The replies that are awaited come in either order, and then the dialog is idle.
  abbrev pub Rests : d.Saved → d.Deleted → Session → Type 0
  Rests saved deleted t =
      ((m : Session) × (u : Session) × AfterSaved saved t m × AfterDeleted deleted m u × IsIdle u)
      × ((m : Session) × (u : Session) × AfterDeleted deleted t m × AfterSaved saved m u × IsIdle u)
