-- ===== src/Interfaces.antt =====
-- The store of the WireGuard interfaces (frontend/src/stores/interfaces.js): its state, getters and
-- synchronous actions. `Requests` has the actions that call the backend, `Laws` and `Selection`
-- what holds.
pub mod Requests
pub mod Laws
pub mod Selection
use wg_portal.Prelude.{ℕ, String, List, [], ◌∷◌, Option, some, none, Bool, true, false, length}
use wg_portal.Js.{M, update}
use wg_portal.Js.Keyed.{find_key, first_some}
use wg_portal.Models.{Interface, fresh_interface}

pub record InterfaceStore : Type 0 where
  pub interfaces : List Interface
  pub prepared : Interface
  pub configuration : String
  pub selected : String
  pub fetching : Bool

abbrev pub fresh_store : InterfaceStore
fresh_store = record {
  interfaces = [];
  prepared = fresh_interface;
  configuration = "";
  selected = "";
  fetching = false;
}

abbrev pub interface_key : Interface → String
interface_key i = i.identifier

abbrev pub count : InterfaceStore → ℕ
count s = length s.interfaces

-- `Find(id)`
abbrev pub find : InterfaceStore → String → Option Interface
find s id = find_key interface_key id s.interfaces

-- `interfaces[0]`
abbrev pub first : List Interface → Option Interface
first [] = none
first (i ∷ _) = some i

-- The interface that is selected, or else the first one.
unfoldable pub get_selected : InterfaceStore → Option Interface
get_selected s = first_some (find s s.selected) (first s.interfaces)

abbrev pub set_fetching : Bool → M InterfaceStore (Unit {0})
set_fetching b = update (λ s. record s { fetching = b })

-- The identifier of the first interface, or an empty text.
unfoldable pub first_identifier : List Interface → String
first_identifier [] = ""
first_identifier (i ∷ _) = i.identifier

unfoldable pub set_interfaces : List Interface → M InterfaceStore (Unit {0})
set_interfaces interfaces = update (λ s. record s {
  interfaces = interfaces;
  selected = first_identifier interfaces;
  fetching = false;
})

unfoldable pub set_prepared_interface : Interface → M InterfaceStore (Unit {0})
set_prepared_interface iface = update (λ s. record s { prepared = iface })

unfoldable pub set_interface_config : String → M InterfaceStore (Unit {0})
set_interface_config config = update (λ s. record s { configuration = config })
