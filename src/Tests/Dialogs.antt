-- ===== src/Tests/Dialogs.antt =====
-- The dialogs (frontend/src/components/PeerEditModal.vue, InterfaceEditModal.vue, UserEditModal.vue).
use wg_portal.Prelude.{
  units, ◌≤◌, ltb, String, List, [], ◌∷◌, some, none, true, false, if◌then◌else◌, ◌===◌, ◌≡◌, refl,
  arith,
}
use wg_portal.Datetime.{empty, format_date_time_to_rfc3339}
use wg_portal.Encoding.{base64_url_encode, url_safe, replace_first}
use wg_portal.Encoding.Base64.{btoa}
use wg_portal.Js.Array.{find}
use wg_portal.Dialogs.InterfaceEdit.{InterfaceForm}
use wg_portal.Dialogs.InterfaceEdit.Defaults.{apply_peer_defaults_reply, peers_reply}
use wg_portal.Dialogs.InterfaceEdit.Laws.{effects, apply_peer_defaults-free}
use wg_portal.Dialogs.PeerForm.{
  Clock, PeerForm, own, listed, peer_edit, edit, share, set_overridable,
}
use wg_portal.Dialogs.PeerForm.Fill.{has_closed, show}
use wg_portal.Dialogs.PeerForm.Outcome.{save_reply-updated}
use wg_portal.Dialogs.PeerForm.Progress.{Reach-counted, Reach-IsIdle}
use wg_portal.Dialogs.PeerForm.Session.{dialog}
use wg_portal.Dialogs.Sessions.{Rests, Session, Reach, here, next, save_clicked, IsIdle}
use wg_portal.Dialogs.PeerForm.Sharing.{stored, show-close, edit-close}
use wg_portal.Dialogs.PeerForm.Submit.{close, save, save_reply}
use wg_portal.Dialogs.Tags.{handle_change, field_set, handle_change_lem}
use wg_portal.Dialogs.UserEdit.{UserForm, form_valid}
use wg_portal.Dialogs.UserEdit.Validity.{acceptable, form_valid-acceptable}
use wg_portal.Interfaces
use wg_portal.Js.{World, ok, fulfilled, rejected, error, request, put, lit, coded}
use wg_portal.Js.Keyed.{replaced}
use wg_portal.Models.{Peer, fresh_peer, fresh_interface, fresh_user}
use wg_portal.Peers
use wg_portal.Profile
use wg_portal.Users
use wg_portal.Validators.{NetworkLibrary}

abbrev clock : Clock
clock = record {
  zone = record { ahead = 0; behind = 0 };
  parse = λ _. some 86400;
  print = λ _. "1970-01-02T00:00:00.000Z";
}

-- A peer whose DNS setting is not overridable.
abbrev laptop : Peer
laptop = record fresh_peer {
  identifier = "wg";
  dns = record { value = "10.0.0.1" ∷ []; overridable = false };
}

abbrev desk : PeerForm
desk = record {
  peers = record Peers.fresh_store { peers = laptop ∷ [] };
  interfaces = Interfaces.fresh_store;
  profile = Profile.fresh_store;
  peer_id = "";
  form = fresh_peer;
  origin = own;
  expiry_date = none;
  expiry_time = empty;
  is_saving = false;
  is_deleting = false;
}

abbrev room : World PeerForm
room = record { store = desk; log = [] }

stored-laptop : stored "wg" desk ≡ some laptop
unfolding find
stored-laptop = refl

show-close_example :
    (v : World PeerForm) × (show (peer_edit clock) "wg" room ≡ ok tt v)
    × (stored "wg" (close (peer_edit clock) v.store)
        ≡ some (if has_closed laptop then set_overridable false laptop else laptop))
show-close_example = show-close clock "wg" laptop room refl stored-laptop

-- The dialog shows the laptop.
abbrev shown : PeerForm
shown = record desk { peer_id = "wg"; form = laptop; origin = listed "wg" }

abbrev other_dns : Peer → Peer
other_dns p = record p { dns = record p.dns { value = "10.0.0.2" ∷ [] } }

edit-close_example :
    stored "wg" (close (peer_edit clock) (edit (peer_edit clock) other_dns shown))
    ≡ some (share (edit (peer_edit clock) other_dns shown).form laptop)
edit-close_example = edit-close (peer_edit clock) other_dns "wg" laptop shown refl stored-laptop

abbrev saving : World PeerForm
saving = record { store = record shown { is_saving = true }; log = [] }

abbrev answer : Peer
answer = record laptop { display_name = "Laptop" }

save_reply-updated_example :
    (v : World PeerForm) × (save_reply (peer_edit clock) (some "wg") (fulfilled answer) saving
      ≡ ok tt v)
    × (v.log ≡ [])
    × (v.store.peer_id ≡ "")
    × (v.store.is_saving ≡ false)
    × (stored "wg" v.store ≡ replaced (stored "wg" saving.store) answer)
save_reply-updated_example = save_reply-updated (peer_edit clock) "wg" answer saving refl

abbrev start : Session (dialog (peer_edit clock))
start = record { world = record { store = shown; log = [] }; saves = 0; deletes = 0 }

start-IsIdle : IsIdle (dialog (peer_edit clock)) start
start-IsIdle = (refl, refl, refl, refl)

-- After the click on the button that saves.
abbrev clicked : World PeerForm
clicked = record {
  store = record shown {
    peers = record shown.peers { fetching = true };
    form = record laptop { expires_at = some "" };
    is_saving = true;
  };
  log = request put (lit "/peer/" ∷ coded (b'd' ∷ b'2' ∷ b'c' ∷ b'-' ∷ []) ∷ []) ∷ [];
}

save-clicked : save (peer_edit clock) start.world ≡ ok true clicked
unfolding save find base64_url_encode url_safe replace_first btoa format_date_time_to_rfc3339
save-clicked = refl

abbrev waiting : Session (dialog (peer_edit clock))
waiting = record { world = clicked; saves = 1; deletes = 0 }

reached : Reach (dialog (peer_edit clock)) start waiting
reached = next here (save_clicked true clicked save-clicked refl)

Reach-counted_example :
    (waiting.saves ≤ 1)
    × (waiting.deletes ≤ 1)
    × (waiting.world.store.is_saving ≡ ltb 0 waiting.saves)
    × (waiting.world.store.is_deleting ≡ ltb 0 waiting.deletes)
Reach-counted_example = Reach-counted (peer_edit clock) start waiting start-IsIdle reached

Reach-IsIdle_example :
    Rests
      (dialog (peer_edit clock))
      (record { target = some "wg"; reply = rejected (error "409") })
      (record { id = "wg"; reply = fulfilled tt })
      waiting
Reach-IsIdle_example =
    Reach-IsIdle (peer_edit clock) start waiting
      (record { target = some "wg"; reply = rejected (error "409") })
      (record { id = "wg"; reply = fulfilled tt }) start-IsIdle reached

abbrev tags : List String
tags = "10.0.0.0/24" ∷ "nonsense" ∷ []

abbrev set_to : List String → List String → List String
set_to new old = new

handle_change_lem_example :
    handle_change
      (λ tag. tag === "nonsense")
      "Invalid CIDR"
      set_to
      tags
      (record { store = []; log = [] })
    ≡ ok tt (
        field_set
          (λ tag. tag === "nonsense")
          "Invalid CIDR"
          set_to
          tags
          (record { store = []; log = [] }))
handle_change_lem_example =
    handle_change_lem (λ tag. tag === "nonsense") "Invalid CIDR" set_to tags
      (record { store = []; log = [] })

-- The packages, on the texts of the example.
abbrev library : NetworkLibrary
library = record {
  is_cidr = λ text. if text === "10.0.0.0/24" then 4 else 0;
  is_ip = λ text. text === "10.0.0.1";
}

abbrev applying : World InterfaceForm
applying = record {
  store = record {
    interfaces = record Interfaces.fresh_store {
      interfaces = record fresh_interface { identifier = "wg0" } ∷ [];
    };
    peers = Peers.fresh_store;
    backends = "local" ∷ [];
    interface_id = "wg0";
    form = fresh_interface;
    is_saving = false;
    is_deleting = false;
    is_applying_defaults = true;
  };
  log = [];
}

applying-coded : base64_url_encode (units "wg0") ≡ some (b'd' ∷ b'2' ∷ b'c' ∷ b'w' ∷ [])
unfolding base64_url_encode url_safe replace_first btoa
applying-coded = refl

apply_peer_defaults-free_example :
    (v : World InterfaceForm) × (apply_peer_defaults_reply (fulfilled tt) applying ≡ ok true v)
    × (v.store.is_applying_defaults ≡ true)
    × (v.log ≡ effects (b'd' ∷ b'2' ∷ b'c' ∷ b'w' ∷ []) (fulfilled tt))
    × (u : World InterfaceForm) × (peers_reply (fulfilled (laptop ∷ [])) v ≡ ok tt u)
    × (u.store.is_applying_defaults ≡ false)
unfolding find
apply_peer_defaults-free_example =
    apply_peer_defaults-free (fulfilled tt) (fulfilled (laptop ∷ []))
      (record fresh_interface { identifier = "wg0" }) (b'd' ∷ b'2' ∷ b'c' ∷ b'w' ∷ []) applying refl
      refl refl applying-coded (record { size_pos = omega arith; numbered = (0, refl) })

-- A new user with a password that is too short.
abbrev weak : UserForm
weak = record {
  users = Users.fresh_store;
  min_password_length = some 16;
  user_id = "#NEW#";
  form = record fresh_user { identifier = "bob"; password = "secret" };
  is_saving = false;
  is_deleting = false;
}

form_valid-acceptable_example : form_valid weak ≡ acceptable weak
form_valid-acceptable_example = form_valid-acceptable weak
