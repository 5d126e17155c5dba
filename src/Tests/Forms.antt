-- ===== src/Tests/Forms.antt =====
-- The forms of the dialogs, filled in (frontend/src/components/InterfaceEditModal.vue,
-- UserPeerEditModal.vue, UserEditModal.vue), and the frame of the dialogs (Modal.vue).
use wg_portal.Prelude.{List, [], ◌∷◌, some, none, ◌≡◌, refl, true, false, arith}
use wg_portal.Datetime.{empty}
use wg_portal.Dialogs.Forms.{enter_all}
use wg_portal.Dialogs.InterfaceEdit.{InterfaceForm, show}
use wg_portal.Dialogs.InterfaceEdit.Identity.{Entry, interface_page, IsFor, enter_all-IsFor}
use wg_portal.Dialogs.InterfaceEdit.Inputs
use wg_portal.Dialogs.InterfaceEdit.Inputs.Defaults
use wg_portal.Dialogs.Modal.Observers.{resting, patient, repeated, repeated-patient}
use wg_portal.Dialogs.PeerForm.{Clock, PeerForm, own}
use wg_portal.Dialogs.UserEdit.{UserForm}
use wg_portal.Dialogs.UserEdit.Identity.{user_page, SameSource, enter_all-SameSource}
use wg_portal.Dialogs.UserEdit.Inputs as UserInputs
use wg_portal.Dialogs.UserPeerEdit.Identity.{own_peer_page, SamePlace, enter_all-SamePlace}
use wg_portal.Dialogs.UserPeerEdit.Inputs as PeerInputs
use wg_portal.Interfaces
use wg_portal.Js.{World, ◌>>◌}
use wg_portal.Js.Array.{find}
use wg_portal.Js.Keeping.{Kept}
use wg_portal.Models.{Interface, fresh_interface, fresh_peer, fresh_user}
use wg_portal.Peers
use wg_portal.Profile
use wg_portal.Users
use wg_portal.Validators.{NetworkLibrary}

abbrev networks : NetworkLibrary
networks = record { is_cidr = λ _. 4; is_ip = λ _. true }

abbrev wg0 : Interface
wg0 = record fresh_interface { identifier = "wg0" }

abbrev desk : World InterfaceForm
desk = record {
  store = record {
    interfaces = record Interfaces.fresh_store { interfaces = wg0 ∷ [] };
    peers = Peers.fresh_store;
    backends = "local" ∷ [];
    interface_id = "";
    form = fresh_interface;
    is_saving = false;
    is_deleting = false;
    is_applying_defaults = false;
  };
  log = [];
}

-- The identifier is not on the page, and the port is hidden for a client.
abbrev entries : List Entry
entries =
    Entry.field (Inputs.identifier "wg1")
    ∷ Entry.field (Inputs.addresses ("10.0.0.1/24" ∷ []))
    ∷ Entry.field (Inputs.mode Inputs.client)
    ∷ Entry.field (Inputs.listen_port 1)
    ∷ Entry.default (Defaults.mtu 1420)
    ∷ []

enter_all-IsFor_example :
    Kept (IsFor "wg0") ((show "wg0" >> enter_all (interface_page networks) entries) desk)
unfolding Interfaces.find find
enter_all-IsFor_example = enter_all-IsFor networks "wg0" wg0 entries desk refl refl

abbrev clock : Clock
clock = record { zone = record { ahead = 0; behind = 0 }; parse = λ _. none; print = λ _. "" }

abbrev phone : World PeerForm
phone = record {
  store = record {
    peers = Peers.fresh_store;
    interfaces = Interfaces.fresh_store;
    profile = Profile.fresh_store;
    peer_id = "phone";
    form = record fresh_peer { identifier = "phone"; addresses = "10.0.0.2/32" ∷ [] };
    origin = own;
    expiry_date = none;
    expiry_time = empty;
    is_saving = false;
    is_deleting = false;
  };
  log = [];
}

abbrev peer_entries : List PeerInputs.Field
peer_entries =
    PeerInputs.display_name "My phone"
    ∷ PeerInputs.mtu 1280
    ∷ PeerInputs.disabled true
    ∷ PeerInputs.expiry_date (some 20000)
    ∷ []

enter_all-SamePlace_example :
    Kept
      (λ s. SamePlace phone.store.form s.form)
      (enter_all (own_peer_page clock) peer_entries phone)
enter_all-SamePlace_example = enter_all-SamePlace clock peer_entries phone

-- A user of a directory.
abbrev carol : World UserForm
carol = record {
  store = record {
    users = Users.fresh_store;
    min_password_length = some 16;
    user_id = "carol";
    form = record fresh_user { identifier = "carol"; source = "ldap" };
    is_saving = false;
    is_deleting = false;
  };
  log = [];
}

abbrev user_entries : List UserInputs.Field
user_entries =
    UserInputs.email "carol@example.com"
    ∷ UserInputs.is_admin true
    ∷ UserInputs.notes "left"
    ∷ UserInputs.locked true
    ∷ []

enter_all-SameSource_example :
    Kept (λ s. SameSource carol.store.form s.form) (enter_all user_page user_entries carol)
enter_all-SameSource_example = enter_all-SameSource user_entries carol refl

repeated-patient_example : (repeated patient 3 (resting 2 (some 1) (0 ∷ []))).connected ≡ 0 ∷ []
repeated-patient_example = repeated-patient 3 2 (some 1) (0 ∷ []) (omega arith, tt)
