-- ===== src/Profile/Loads.antt =====
-- What each load of the profile store asks for, and what its reply leaves
-- (frontend/src/stores/profile.js), for a user whose identifier can be encoded.
use wg_portal.Prelude.{
  ℕ, ◌<◌, String, List, [], ◌∷◌, ◌++◌, append-nil, Option, some, none, true, false, units, ◌≡◌,
  refl, ap,
}
use wg_portal.Auth.{UserInfo}
use wg_portal.Encoding.{base64_url_encode}
use wg_portal.Js.{
  World, Out, hang, Effect, request, get, lit, coded, Piece, notify, ok, Reply, fulfilled, rejected,
  encoded,
}
use wg_portal.Js.Paging.Numbers.{calculate_pages_lem, range_from, ceil_div}
use wg_portal.Models.{Interface, Peer, User}
use wg_portal.Profile
use wg_portal.Profile.{ProfileStore}
use wg_portal.Profile.Requests

-- The notification of a failed load.
abbrev pub told : {A : Type 0} → String → Reply A → List Effect
told title (fulfilled _) = []
told title (rejected _) = notify "Backend Connection Failure" title ∷ []

-- What becomes of the user, the peers and the interfaces.
abbrev user_of : Reply User → Option User
user_of (fulfilled u) = some u
user_of (rejected _) = none

abbrev list_of : {A : Type 0} → Reply (List A) → List A
list_of (fulfilled xs) = xs
list_of (rejected _) = []

-- What a request for the user's data, and a reply, do in the store.
abbrev pub asked : List ℕ → List Piece → Effect
asked t path = request get (lit "/user/" ∷ coded t ∷ path)

abbrev pub ask : List ℕ → List Piece → World ProfileStore → World ProfileStore
ask t path w = record {
  store = record w.store { fetching = true };
  log = w.log ++ asked t path ∷ [];
}

abbrev pub take_user : Reply User → World ProfileStore → World ProfileStore
take_user r w = record {
  store = record w.store { user = user_of r; fetching = false };
  log = w.log ++ told "Failed to load user!" r;
}

abbrev pub take_peers : Reply (List Peer) → World ProfileStore → World ProfileStore
take_peers r w = record {
  store = record w.store { peers = list_of r; fetching = false };
  log = w.log ++ told "Failed to load user peers!" r;
}

abbrev pub take_interfaces : Reply (List Interface) → World ProfileStore → World ProfileStore
take_interfaces r w = record {
  store = record w.store {
    interfaces = list_of r;
    selected_interface_id = Profile.first_identifier (list_of r);
    fetching = false;
  };
  log = w.log ++ told "Failed to load interfaces!" r;
}

pub load_user_reply_lem :
    (r : Reply User) (w : World ProfileStore) → Requests.load_user_reply r w ≡ ok tt (take_user r w)
unfolding Requests.load_user_reply Profile.set_user
load_user_reply_lem (fulfilled u) w = rw (append-nil w.log) refl
load_user_reply_lem (rejected e) w = refl

pub load_peers_reply_lem :
    (r : Reply (List Peer)) (w : World ProfileStore)
    → Requests.load_peers_reply r w ≡ ok tt (take_peers r w)
unfolding Requests.load_peers_reply Profile.set_peers
load_peers_reply_lem (fulfilled u) w = rw (append-nil w.log) refl
load_peers_reply_lem (rejected e) w = refl

pub load_interfaces_reply_lem :
    (r : Reply (List Interface)) (w : World ProfileStore)
    → Requests.load_interfaces_reply r w ≡ ok tt (take_interfaces r w)
unfolding Requests.load_interfaces_reply Profile.set_interfaces
load_interfaces_reply_lem (fulfilled u) w = rw (append-nil w.log) refl
load_interfaces_reply_lem (rejected e) w = refl

module _ (u : UserInfo) (t : List ℕ) (h : base64_url_encode (units u.identifier) ≡ some t) where
  pub load_user_lem : (w : World ProfileStore) → Requests.load_user (some u) w ≡ ok tt (ask t [] w)
  unfolding Requests.load_user
  load_user_lem w = rw (h, encoded) refl

  pub load_peers_lem :
      (w : World ProfileStore)
      → Requests.load_peers (some u) w ≡ ok tt (ask t (lit "/peers" ∷ []) w)
  unfolding Requests.load_peers
  load_peers_lem w = rw (h, encoded) refl

  pub load_stats_lem :
      (w : World ProfileStore)
      → Requests.load_stats (some u) w ≡ ok tt (ask t (lit "/stats" ∷ []) w)
  unfolding Requests.load_stats
  load_stats_lem w = rw (h, encoded) refl

  pub load_interfaces_lem :
      (w : World ProfileStore)
      → Requests.load_interfaces (some u) w ≡ ok tt (ask t (lit "/interfaces" ∷ []) w)
  unfolding Requests.load_interfaces
  load_interfaces_lem w = rw (h, encoded) refl

abbrev pub numbered : World ProfileStore → World ProfileStore
numbered w = record w {
  store = record w.store {
    view = record w.store.view {
      pages = range_from 1 (ceil_div (Profile.filtered_peer_count w.store) w.store.view.page_size);
    };
  };
}

pub calculate_pages_numbered :
    (w : World ProfileStore)
    → 0 < w.store.view.page_size
    → Profile.calculate_pages w ≡ ok tt (numbered w)
unfolding Profile.calculate_pages
calculate_pages_numbered w p =
    ap
      (λ o. elim o as (λ _. Out ProfileStore (Unit {0})) [
        | none ↦ hang
        | some q ↦ ok tt (record w { store = record w.store { view = q } })
      ])
      (calculate_pages_lem (Profile.filtered_peer_count w.store) w.store.view p)
