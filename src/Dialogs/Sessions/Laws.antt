-- ===== src/Dialogs/Sessions/Laws.antt =====
-- The buttons of a dialog over whole sessions (frontend/src/components/*EditModal.vue): for every
-- dialog whose parts are sound, no double click sends twice, and no button stays busy for ever.
use wg_portal.Prelude.{
  ℕ, ◌-◌, ◌<◌, ◌≤◌, ltb, Bool, true, false, ◌≡◌, refl, sym, ◌∙◌, arith, Bool-cases, inl, inr,
}
use wg_portal.Js.Keeping.{ok_inj}
use wg_portal.Dialogs.Sessions.{
  Dialog, flag, IsSound, Session, Step, acted, save_clicked, save_answered, delete_clicked,
  delete_answered, Reach, here, next, IsIdle, AfterSaved, AfterDeleted, Rests,
}

pred_flag : (n : ℕ) (b : Bool) → n ≡ flag b → n - 1 ≡ 0
pred_flag n true h = omega arith
pred_flag n false h = omega arith

flag_on : (n : ℕ) (b : Bool) → n ≡ flag b → b ≡ true → 0 < n
flag_on n true h e = omega arith
flag_on n false h e = ground arith

flag_off : (n : ℕ) (b : Bool) → n ≡ flag b → b ≡ false → n ≡ 0
flag_off n true h e = ground arith
flag_off n false h e = omega arith

flag_le : (n : ℕ) (b : Bool) → n ≡ flag b → n ≤ 1
flag_le n true h = omega arith
flag_le n false h = omega arith

flag-ltb : (n : ℕ) (b : Bool) → n ≡ flag b → b ≡ ltb 0 n
flag-ltb n true h = rw h refl
flag-ltb n false h = rw h refl

module _ {S : Type 0} (d : Dialog S) (sound : IsSound d) where
  -- A button is busy exactly while one request of it waits.
  abbrev IsCounted : Session d → Type 0
  IsCounted s =
      (s.saves ≡ flag (d.is_saving s.world.store))
      × (s.deletes ≡ flag (d.is_deleting s.world.store))

  Step-IsCounted : (s t : Session d) → Step d s t → IsCounted s → IsCounted t
  Step-IsCounted s t (acted i v e h) c = let (p, q) = sound.quiet i s.world v e in rw (h, p, q) c
  Step-IsCounted s t (save_clicked b v e h) c =
      let (n, m) = sound.saves b s.world v e in rw (h, n, m, c.0) (refl, c.1)
  Step-IsCounted s t (save_answered r v p e h) c =
      let (u, done, n, m) = sound.saved r s.world in
      let eq = (ok_inj tt tt v u (sym e ∙ done)).1 in
      rw (h, eq, n, m) (pred_flag s.saves _ c.0, c.1)
  Step-IsCounted s t (delete_clicked b v e h) c =
      let (n, m) = sound.deletes b s.world v e in rw (h, n, m, c.1) (c.0, refl)
  Step-IsCounted s t (delete_answered r v p e h) c =
      let (u, done, n, m) = sound.deleted r s.world in
      let eq = (ok_inj tt tt v u (sym e ∙ done)).1 in
      rw (h, eq, n, m) (c.0, pred_flag s.deletes _ c.1)

  Reach-IsCounted : (s t : Session d) → Reach d s t → IsCounted s → IsCounted t
  Reach-IsCounted s t here c = c
  Reach-IsCounted s t (next {t = u} r st) c = Step-IsCounted u t st (Reach-IsCounted s u r c)

  -- An idle dialog has counted its requests.
  counted : (s t : Session d) → IsIdle d s → Reach d s t → IsCounted t
  counted s t (a, b, c, e) r = Reach-IsCounted s t r (rw (a, b, c, e) (refl, refl))

  -- Each button has at most one request in flight, and is busy exactly then.
  abbrev IsExact : Session d → Type 0
  IsExact t =
      (t.saves ≤ 1)
      × (t.deletes ≤ 1)
      × (d.is_saving t.world.store ≡ ltb 0 t.saves)
      × (d.is_deleting t.world.store ≡ ltb 0 t.deletes)

  pub Reach-IsExact : (s t : Session d) → IsIdle d s → Reach d s t → IsExact t
  Reach-IsExact s t idle r =
      let (n, m) = counted s t idle r in
      (flag_le t.saves _ n, flag_le t.deletes _ m, flag-ltb t.saves _ n, flag-ltb t.deletes _ m)

  save_done :
      (r : d.Saved) (t : Session d)
      → IsCounted t
      → (u : Session d) × AfterSaved d r t u
        × (d.is_saving u.world.store ≡ false)
        × (u.saves ≡ 0)
        × (d.is_deleting u.world.store ≡ d.is_deleting t.world.store)
        × (u.deletes ≡ t.deletes)
  save_done r t c = elim (Bool-cases (d.is_saving t.world.store)) [
    | inl busy ↦
        let (v, done, n, m) = sound.saved r t.world in
        (
          record t { world = v; saves = t.saves - 1 },
          inr (flag_on t.saves _ c.0 busy, v, done, n, refl),
          n,
          pred_flag t.saves _ c.0,
          m,
          refl,
        )
    | inr free ↦
        let none_left = flag_off t.saves _ c.0 free in
        (t, inl (none_left, refl), free, none_left, refl, refl)
  ]

  delete_done :
      (r : d.Deleted) (t : Session d)
      → IsCounted t
      → (u : Session d) × AfterDeleted d r t u
        × (d.is_deleting u.world.store ≡ false)
        × (u.deletes ≡ 0)
        × (d.is_saving u.world.store ≡ d.is_saving t.world.store)
        × (u.saves ≡ t.saves)
  delete_done r t c = elim (Bool-cases (d.is_deleting t.world.store)) [
    | inl busy ↦
        let (v, done, n, m) = sound.deleted r t.world in
        (
          record t { world = v; deletes = t.deletes - 1 },
          inr (flag_on t.deletes _ c.1 busy, v, done, n, refl),
          n,
          pred_flag t.deletes _ c.1,
          m,
          refl,
        )
    | inr free ↦
        let none_left = flag_off t.deletes _ c.1 free in
        (t, inl (none_left, refl), free, none_left, refl, refl)
  ]

  pub Reach-Rests :
      (s t : Session d) (saved : d.Saved) (deleted : d.Deleted)
      → IsIdle d s
      → Reach d s t
      → Rests d saved deleted t
  Reach-Rests s t saved deleted idle r =
      let c = counted s t idle r in
      let (m, first, free, left, busy, more) = save_done saved t c in
      let (u, second, free', left', same, kept) =
        delete_done deleted m (rw (free, left, busy, more) (refl, c.1)) in
      let (n, third, gone, empty, still, waits) = delete_done deleted t c in
      let (v, fourth, gone', empty', same', kept') =
        save_done saved n (rw (gone, empty, still, waits) (c.0, refl)) in
      (
        (m, u, first, second, (same ∙ free, free', kept ∙ left, left')),
        (n, v, third, fourth, (gone', same' ∙ gone, empty', kept' ∙ empty)),
      )
