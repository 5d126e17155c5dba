-- ===== src/Login/Sessions.antt =====
-- The login page over time: what the user types and clicks, the replies to the logins, and the timer
-- of a refusal (frontend/src/views/LoginView.vue). A button works where the template enables it; the
-- passkey button, which is always enabled, and the external logins, which leave the page, are left out.
use wg_portal.Prelude.{
  ℕ, zero, suc, ◌+◌, ◌≤◌, String, List, [], ◌∷◌, Bool, true, false, ◌||◌, ltb, if◌then◌else◌, ◌≡◌,
  refl, arith, Bool-cases, inl, inr, subst, ◌∙◌, lt→ltb, is_empty, clash,
}
use wg_portal.Auth.Requests
use wg_portal.Auth.{set_user_info, reset_return_url, return_url}
use wg_portal.Js.{World, world_after, Reply, fulfilled, rejected}
use wg_portal.Login.{LoginView, disable_login_btn, login, login_reply, welcome, refuse, expire}
use wg_portal.Models.{User}

-- The page, and how many logins wait for their reply.
pub record Session : Type 0 where
  pub page : World LoginView
  pub in_flight : ℕ

pub data Event : Type 0 where
  username_typed password_typed : String → Event
  login_clicked timer : Event
  replied : Reply User → Event

abbrev typed : (LoginView → LoginView) → Session → Session
typed f s = record s { page = record s.page { store = f s.page.store } }

-- A reply comes only where one is awaited.
abbrev answered : Reply User → ℕ → Session → Session
answered r zero s = s
answered r (suc n) s = record { page = world_after s.page (login_reply r s.page); in_flight = n }

-- The timer runs out only where it runs.
abbrev timed : Bool → Session → Session
timed false s = s
timed true s = record s { page = world_after s.page (expire s.page) }

abbrev pub step : Event → Session → Session
step (username_typed t) s = typed (λ p. record p { username = t }) s
step (password_typed t) s = typed (λ p. record p { password = t }) s
step login_clicked s =
    if disable_login_btn s.page.store
    then s
    else record { page = world_after s.page (login s.page); in_flight = suc s.in_flight }
step timer s = timed s.page.store.delayed s
step (replied r) s = answered r s.in_flight s

abbrev pub run : List Event → Session → Session
run [] s = s
run (e ∷ es) s = run es (step e s)

abbrev bit : Bool → ℕ
bit true = 1
bit false = 0

-- At most one login waits or is delayed, and the flag says so.
abbrev Exact : ℕ → Bool → Bool → Type 0
Exact n delayed logging_in = (n + bit delayed ≤ 1) × (logging_in ≡ ltb 0 (n + bit delayed))

abbrev pub IsExact : Session → Type 0
IsExact s = Exact s.in_flight s.page.store.delayed s.page.store.logging_in

begins : (n : ℕ) (d l : Bool) → l ≡ false → Exact n d l → Exact (suc n) d true
begins zero true l e (_, h) = clash l h e
begins (suc n) d l e (_, h) = clash l (h ∙ lt→ltb 0 (suc n + bit d) (omega arith)) e
begins zero false l e h = (omega arith, refl)

ends : (n : ℕ) (d l : Bool) → d ≡ true → Exact n d l → Exact n false false
ends zero d l e h = (omega arith, refl)
ends (suc n) true l e (h, _) = absurd (omega arith)
ends (suc n) false l e h = clash false e refl

succeeds : (n : ℕ) (d l : Bool) → Exact (suc n) d l → Exact n d false
succeeds zero true l (h, _) = absurd (omega arith)
succeeds zero false l h = (omega arith, refl)
succeeds (suc n) d l (h, _) = absurd (omega arith)

fails : (n : ℕ) (d l : Bool) → Exact (suc n) d l → Exact n true l
fails zero true l (h, _) = absurd (omega arith)
fails zero false l (_, h) = (omega arith, h)
fails (suc n) d l (h, _) = absurd (omega arith)

or_false : (a b l : Bool) → (a || b || l) ≡ false → l ≡ false
or_false a b false e = refl
or_false true b true e = e
or_false false true true e = e
or_false false false true e = e

enabled-free : (p : LoginView) → disable_login_btn p ≡ false → p.logging_in ≡ false
unfolding disable_login_btn
enabled-free p e = or_false (is_empty p.username) (is_empty p.password) p.logging_in e

answered-IsExact :
    (r : Reply User) (n : ℕ) (s : Session) → s.in_flight ≡ n → IsExact s → IsExact (answered r n s)
unfolding login_reply welcome refuse Requests.login_reply set_user_info reset_return_url return_url
answered-IsExact r zero s e h = h
answered-IsExact (fulfilled u) (suc n) s e h =
    succeeds n _ _ (subst (λ k. Exact k s.page.store.delayed s.page.store.logging_in) e h)
answered-IsExact (rejected _) (suc n) s e h =
    fails n _ _ (subst (λ k. Exact k s.page.store.delayed s.page.store.logging_in) e h)

timed-IsExact :
    (d : Bool) (s : Session) → s.page.store.delayed ≡ d → IsExact s → IsExact (timed d s)
unfolding expire
timed-IsExact false s e h = h
timed-IsExact true s e h = ends s.in_flight _ _ e h

step-IsExact : (e : Event) (s : Session) → IsExact s → IsExact (step e s)
unfolding login Requests.login
step-IsExact (username_typed t) s h = h
step-IsExact (password_typed t) s h = h
step-IsExact login_clicked s h = elim (Bool-cases (disable_login_btn s.page.store)) [
  | inl e ↦ rw e h
  | inr e ↦ rw e (begins s.in_flight _ _ (enabled-free s.page.store e) h)
]
step-IsExact timer s h = timed-IsExact s.page.store.delayed s refl h
step-IsExact (replied r) s h = answered-IsExact r s.in_flight s refl h

-- From a page whose button is free with no login under way, whatever is typed and clicked for logins
-- by password, however these are answered and whenever the timers run out, at most one login waits for its reply or is
-- held back after a refusal, and the page takes a login to be running exactly while one does.
pub run-IsExact : (es : List Event) (s : Session) → IsExact s → IsExact (run es s)
run-IsExact [] s h = h
run-IsExact (e ∷ es) s h = run-IsExact es (step e s) (step-IsExact e s h)
