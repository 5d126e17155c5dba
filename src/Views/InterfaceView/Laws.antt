-- ===== src/Views/InterfaceView/Laws.antt =====
-- What the view of an interface asks for and selects (frontend/src/views/InterfaceView.vue), over the
-- stores of the interfaces and the peers.
use wg_portal.Prelude.{
  ℕ, String, List, [], ◌∷◌, ◌++◌, Option, some, true, false, if◌then◌else◌, is_empty, includes,
  map_option, units, map, ◌≡◌, refl, ap, ◌∙◌,
}
use wg_portal.Views.Selection.Laws.{find-select_each}
use wg_portal.Encoding.{base64_url_encode}
use wg_portal.Helpers.{AddressLibrary}
use wg_portal.Interfaces
use wg_portal.Interfaces.Requests
use wg_portal.Interfaces.Selection.{first_identifier-selected}
use wg_portal.Dialogs.{returned}
use wg_portal.Js.{
  World, Out, Effect, notify, ok, throw, Thrown, fulfilled, rejected, type_error, request, get, lit,
  coded, encoded, when,
}
use wg_portal.Js.Array.{find}
use wg_portal.Models.{Interface}
use wg_portal.Peers
use wg_portal.Peers.{peer_key}
use wg_portal.Peers.Requests as PeerRequests
use wg_portal.Views.InterfaceView.{InterfaceView, interfaces_loaded, select, toggle_select_all}

-- The promise was rejected with a TypeError, after these effects.
abbrev IsTypeError : {A : Type 0} → List Effect → Out InterfaceView A → Type 0
IsTypeError log out = (v : World InterfaceView) × (out ≡ throw type_error v) × (v.log ≡ log)

-- With no interfaces, or after their load has failed, the view ends with a TypeError. It does not
-- ask for peers or statistics, and the user is told of the failed load only.
interfaces_loaded-none :
    (e : Thrown) (w : World InterfaceView)
    → IsTypeError w.log (interfaces_loaded (fulfilled []) w)
      × IsTypeError
          (w.log ++ notify "Backend Connection Failure" "Failed to load interfaces!" ∷ [])
          (interfaces_loaded (rejected e) w)
unfolding interfaces_loaded Requests.load_interfaces_reply Interfaces.set_interfaces
    Interfaces.first_identifier Interfaces.get_selected find PeerRequests.load_peers
    PeerRequests.with_interface
interfaces_loaded-none e w = ((_, refl, refl), (_, refl, refl))

-- The world in which the interfaces have come and the peers of the first are asked for.
abbrev pub asked : Interface → List Interface → List ℕ → World InterfaceView → World InterfaceView
asked i is t w = record {
  store = record w.store {
    interfaces = record w.store.interfaces {
      interfaces = i ∷ is;
      selected = i.identifier;
      fetching = false;
    };
    peers = record w.store.peers { fetching = true };
  };
  log = w.log ++ request get (lit "/peer/iface/" ∷ coded t ∷ lit "/all" ∷ []) ∷ [];
}

load_peers-selected :
    (i : Interface) (t : List ℕ) (o : Option Interface) (w : World Peers.PeerStore)
    → o ≡ some i
    → is_empty i.identifier ≡ false
    → base64_url_encode (units i.identifier) ≡ some t
    → PeerRequests.load_peers "" o w
      ≡ ok tt (record {
        store = record w.store { fetching = true };
        log = w.log ++ request get (lit "/peer/iface/" ∷ coded t ∷ lit "/all" ∷ []) ∷ [];
      })
unfolding PeerRequests.load_peers PeerRequests.with_interface
load_peers-selected i t o w e h k =
    ap (λ x. PeerRequests.load_peers "" x w) e ∙ rw (h, when, k, encoded)

-- When the interfaces have come, the view asks for the peers of the first one, once, and for nothing
-- else.
interfaces_loaded-first :
    (i : Interface) (is : List Interface) (t : List ℕ) (w : World InterfaceView)
    → is_empty i.identifier ≡ false
    → base64_url_encode (units i.identifier) ≡ some t
    → interfaces_loaded (fulfilled (i ∷ is)) w ≡ ok tt (asked i is t w)
unfolding interfaces_loaded Requests.load_interfaces_reply Interfaces.set_interfaces
    Interfaces.first_identifier
interfaces_loaded-first i is t w h k =
    let is_loaded : Interfaces.InterfaceStore = record w.store.interfaces {
      interfaces = i ∷ is;
      selected = i.identifier;
      fetching = false;
    } in
    ap
      (returned (λ p s. record s { peers = p })
        (record w { store = record w.store { interfaces = is_loaded } }))
      (load_peers-selected i t (Interfaces.get_selected is_loaded)
        (record { store = w.store.peers; log = w.log })
        (first_identifier-selected (i ∷ is) is_loaded refl refl) h k)

-- The box in the head of the table selects exactly the peers of the page that is shown, or takes
-- their selection back; of all other peers the store keeps what it had.
toggle_select_all-find :
    (lib : AddressLibrary) (s : InterfaceView) (j : String)
    → Peers.find (toggle_select_all lib s).peers j ≡ (
        if includes (map peer_key (Peers.filtered_and_paged lib s.peers)) j
        then map_option (select s.select_all) (Peers.find s.peers j)
        else Peers.find s.peers j)
unfolding toggle_select_all
toggle_select_all-find lib s j =
    find-select_each peer_key select (λ b p. refl) (λ b p. refl) s.select_all
      (Peers.filtered_and_paged lib s.peers) s.peers.peers j
