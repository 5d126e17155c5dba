-- ===== src/Tests/Lists.antt =====
-- Pages and sorted lists (frontend/src/stores/peers.js, profile.js and audit.js).

use wg_portal.Prelude.{
  some, refl, List, [], ◌∷◌, true, false, ◌≡◌, arith, concat_map, ◌===◌, if◌then◌else◌,
}
use wg_portal.Helpers.{AddressLibrary}
use wg_portal.Js.{World, ok}
use wg_portal.Js.Paging.{fresh_pager}
use wg_portal.Models.{Peer, fresh_peer}
use wg_portal.Audit
use wg_portal.Audit.{AuditEntry, AuditStore}
use wg_portal.Peers
use wg_portal.Peers.{PeerStore, display_name, addresses, sort_value}
use wg_portal.Peers.Pages.{page_shown, calculate_pages-partition}
use wg_portal.Views.InterfaceView.{InterfaceView, same_key}
use wg_portal.Views.Headings.{arrow}
use wg_portal.Views.Headings.Laws.{IsSortedBy, sort_again, even, sort_again-IsSortedBy}
use wg_portal.Interfaces

-- Addresses are compared by their first one; the test knows two of them.
abbrev library : AddressLibrary
library = record {
  address4 = λ ip. if ip === "10.0.0.2" then 167772162 else 167772161;
  address6 = λ ip. 1;
}

abbrev peer_a : Peer
peer_a = record fresh_peer {
  identifier = "a";
  display_name = "laptop";
  addresses = "10.0.0.2" ∷ [];
}

abbrev peer_b : Peer
peer_b = record fresh_peer { identifier = "b"; display_name = "phone"; addresses = "10.0.0.1" ∷ [] }

abbrev peer_store : PeerStore
peer_store = record Peers.fresh_store {
  peers = peer_a ∷ peer_b ∷ [];
  sort_key = addresses;
  ascending = true;
  view = record fresh_pager { page_size = 1 };
}

abbrev peer_world : World PeerStore
peer_world = record { store = peer_store; log = [] }

calculate_pages-partition_example :
    (v : World PeerStore) × (Peers.calculate_pages peer_world ≡ ok tt v)
    × (concat_map (page_shown library v) v.store.pages ≡ Peers.sorted library peer_store)
calculate_pages-partition_example = calculate_pages-partition library peer_world (omega arith)

abbrev interface_view : InterfaceView
interface_view = record {
  interfaces = Interfaces.fresh_store;
  peers = peer_store;
  backends = [];
  sort_key = some display_name;
  ascending = false;
  select_all = false;
}

sort_again-IsSortedBy_example :
    IsSortedBy library addresses (even 1) interface_view (sort_again 2 addresses interface_view)
unfolding arrow same_key Peers.filtered
sort_again-IsSortedBy_example =
    sort_again-IsSortedBy library 1 addresses interface_view refl (tt, (tt, tt))

abbrev entries : List AuditEntry
entries =
    record { timestamp = "1"; severity = "low"; origin = "ui"; message = "login" }
    ∷ record { timestamp = "2"; severity = "low"; origin = "ui"; message = "logout" }
    ∷ []

abbrev audit_world : World AuditStore
audit_world = record { store = Audit.fresh_store; log = [] }
