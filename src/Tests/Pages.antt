-- ===== src/Tests/Pages.antt =====
-- The login page, the route table and the forms (frontend/src/views/LoginView.vue,
-- router/index.js, helpers/datetime.js).
use wg_portal.Prelude.{List, [], ◌∷◌, some, none, ◌≡◌, refl, arith, true, false, ◌-◌, ◌%◌}
use wg_portal.Js.{World, fulfilled, rejected, error}
use wg_portal.Models.{User, fresh_user}
use wg_portal.Auth.{AuthStore, load_store}
use wg_portal.Login.{LoginView, login_reply, authentication_finished}
use wg_portal.Login.Laws.{Welcomes, login_reply-Welcomes}
use wg_portal.Login.Sessions.{
  Session, Event, username_typed, password_typed, login_clicked, timer, replied, run, IsExact,
  run-IsExact,
}
use wg_portal.Datetime.{Zone, instant}
use wg_portal.Datetime.Laws.{through_form, through_form-same_day}

abbrev bob : User
bob = record fresh_user { identifier = "bob" }

-- A visitor who asked for the profile page.
abbrev visitor : AuthStore
visitor = load_store (record { user = none; return_url = some "/profile" })

abbrev page : World LoginView
page = record {
  store = record {
    auth = visitor;
    logging_in = true;
    username = "bob";
    password = "secret";
    delayed = false;
  };
  log = [];
}

login_reply-Welcomes_example :
    Welcomes (login_reply (fulfilled bob) page) page
    × Welcomes (authentication_finished (fulfilled bob) page) page
login_reply-Welcomes_example = login_reply-Welcomes bob page

-- An empty form, and a visitor who tries a wrong password and clicks while the button is held back.
abbrev empty_page : Session
empty_page = record {
  page = record {
    store = record page.store { logging_in = false; username = ""; password = "" };
    log = [];
  };
  in_flight = 0;
}

abbrev attempts : List Event
attempts =
    login_clicked
    ∷ username_typed "bob"
    ∷ password_typed "wrong"
    ∷ login_clicked
    ∷ login_clicked
    ∷ replied (rejected (error "401"))
    ∷ password_typed "secret"
    ∷ login_clicked
    ∷ timer
    ∷ login_clicked
    ∷ replied (fulfilled bob)
    ∷ []

run-IsExact_example : IsExact (run attempts empty_page)
run-IsExact_example = run-IsExact attempts empty_page (omega arith, refl)

-- Two hours before UTC, at noon and at 23:30 of the second day.
abbrev cest : Zone
cest = record { ahead = 120; behind = 0 }

through_form-same_day_example : through_form cest (instant 129601) ≡ instant (129601 - 129601 % 60)
through_form-same_day_example = through_form-same_day cest 129601 (omega arith) refl
