-- ===== src/Views/Passkeys/Section/Phases.antt =====
-- The answers that end an operation on the passkeys (frontend/src/views/SettingsView.vue).
use wg_portal.Prelude.{List, [], ◌∷◌, ◌≡◌, refl, ap, ◌∙◌}
use wg_portal.Auth.{Credential}
use wg_portal.Js.{Reply, fulfilled, rejected}
use wg_portal.Views.Passkeys.Section.{
  Phase, idle, loading, starting, signing, finishing, renaming, deleting, Section, Event, started,
  signed, replied, handle_all, on_started, on_signed, on_replied, next,
}

-- The phase after each kind of answer.
abbrev start_phase : Phase → Reply (Unit {0}) → Phase
start_phase starting r = next r signing
start_phase p r = p

abbrev sign_phase : Phase → Reply (Unit {0}) → Phase
sign_phase signing r = next r finishing
sign_phase p r = p

abbrev reply_phase : Phase → Phase
reply_phase starting = starting
reply_phase signing = signing
reply_phase _ = idle

on_started-phase :
    (p : Phase) (r : Reply (Unit {0})) (s : Section)
    → s.phase ≡ p
    → (on_started p r s).phase ≡ start_phase p r
on_started-phase starting r s e = refl
on_started-phase idle r s e = e
on_started-phase loading r s e = e
on_started-phase signing r s e = e
on_started-phase finishing r s e = e
on_started-phase renaming r s e = e
on_started-phase deleting r s e = e

on_signed-phase :
    (p : Phase) (r : Reply (Unit {0})) (s : Section)
    → s.phase ≡ p
    → (on_signed p r s).phase ≡ sign_phase p r
on_signed-phase signing r s e = refl
on_signed-phase idle r s e = e
on_signed-phase loading r s e = e
on_signed-phase starting r s e = e
on_signed-phase finishing r s e = e
on_signed-phase renaming r s e = e
on_signed-phase deleting r s e = e

on_replied-phase :
    (p : Phase) (r : Reply (List Credential)) (s : Section)
    → s.phase ≡ p
    → (on_replied p r s).phase ≡ reply_phase p
on_replied-phase loading r s e = refl
on_replied-phase finishing r s e = refl
on_replied-phase renaming r s e = refl
on_replied-phase deleting r s e = refl
on_replied-phase idle r s e = e
on_replied-phase starting r s e = e
on_replied-phase signing r s e = e

ends_idle :
    (p : Phase) (r q : Reply (Unit {0})) → reply_phase (sign_phase (start_phase p r) q) ≡ idle
ends_idle starting (fulfilled _) (fulfilled _) = refl
ends_idle starting (fulfilled _) (rejected _) = refl
ends_idle starting (rejected _) q = refl
ends_idle signing r (fulfilled _) = refl
ends_idle signing r (rejected _) = refl
ends_idle idle r q = refl
ends_idle loading r q = refl
ends_idle finishing r q = refl
ends_idle renaming r q = refl
ends_idle deleting r q = refl

abbrev pub answers : Reply (Unit {0}) → Reply (Unit {0}) → Reply (List Credential) → List Event
answers r q c = started r ∷ signed q ∷ replied c ∷ []

pub answers-idle :
    (r q : Reply (Unit {0})) (c : Reply (List Credential)) (s : Section)
    → (handle_all (answers r q c) s).phase ≡ idle
answers-idle r q c s =
    let x = on_started s.phase r s in
    let y = on_signed x.phase q x in
    on_replied-phase y.phase c y refl
    ∙ ap reply_phase (
        on_signed-phase x.phase q x refl
        ∙ ap (λ p. sign_phase p q) (on_started-phase s.phase r s refl))
    ∙ ends_idle s.phase r q
