-- ===== src/Interfaces/Laws.antt =====
-- The replies of the backend to changes, against a directory of the interfaces by their identifiers.
use wg_portal.Prelude.{String, Option, some, none, false, ◌≡◌, refl, ◌===◌, if◌then◌else◌}
use wg_portal.Js.{M, World, Out, Reply, fulfilled, rejected}
use wg_portal.Js.Keyed.{find-assign, find-filter, find-push, first_some, replaced, ending, Names}
use wg_portal.Models.{Interface}
use wg_portal.Interfaces.{InterfaceStore, interface_key, find}
use wg_portal.Interfaces.Requests.{
  delete_interface_reply, update_interface_reply, create_interface_reply, apply_peer_defaults_reply,
  save_configuration_reply,
}

-- The reply to a change; an update is answered by the record with the identifier asked for.
pub data Change : Type 0 where
  deleted : String → Reply (Unit {0}) → Change
  updated : (id : String) (r : Reply Interface) → Names interface_key id r → Change
  created : Reply Interface → Change
  peers_updated saved : Reply (Unit {0}) → Change

-- What the store does on the reply.
abbrev pub receive : Change → M InterfaceStore (Unit {0})
receive (deleted id r) = delete_interface_reply id r
receive (updated id r _) = update_interface_reply id r
receive (created r) = create_interface_reply r
receive (peers_updated r) = apply_peer_defaults_reply r
receive (saved r) = save_configuration_reply r

-- The promise of a change is rejected, with the error's text, exactly if the reply is.
abbrev pub outcome : Change → World InterfaceStore → Out InterfaceStore (Unit {0})
outcome (deleted _ r) = ending r
outcome (updated _ r _) = ending r
outcome (created r) = ending r
outcome (peers_updated r) = ending r
outcome (saved r) = ending r

abbrev pub Directory : Type 0
Directory = String → Option Interface

-- What becomes of the directory: the older interface stays where two have one identifier.
abbrev pub change : Change → Directory → Directory
change (deleted id (fulfilled _)) d j = if id === j then none else d j
change (updated id (fulfilled iface) _) d j = if id === j then replaced (d j) iface else d j
change (created (fulfilled iface)) d j =
    first_some (d j) (if interface_key iface === j then some iface else none)
change _ d j = d j

-- On every reply to a change, where an update is answered by the record with the identifier asked
-- for, the fetching is over and the promise ends as the request did; the directory that Find shows
-- is changed by a confirmed change, and stays as it is after a refusal.
pub receive-interfaces :
    (c : Change) (w : World InterfaceStore)
    → (v : World InterfaceStore) × (receive c w ≡ outcome c v)
      × (v.store.fetching ≡ false)
      × ((j : String) → find v.store j ≡ change c (find w.store) j)
unfolding delete_interface_reply update_interface_reply create_interface_reply
    apply_peer_defaults_reply save_configuration_reply
receive-interfaces (deleted id (fulfilled _)) w =
    (_, refl, refl, find-filter interface_key w.store.interfaces id)
receive-interfaces (updated id (fulfilled iface) same) w =
    (_, refl, refl, λ j. find-assign interface_key w.store.interfaces id j iface same)
receive-interfaces (created (fulfilled iface)) w =
    (_, refl, refl, λ j. find-push interface_key w.store.interfaces j iface)
receive-interfaces (peers_updated (fulfilled _)) w = (_, refl, refl, λ j. refl)
receive-interfaces (saved (fulfilled _)) w = (_, refl, refl, λ j. refl)
receive-interfaces (deleted id (rejected e)) w = (_, refl, refl, λ j. refl)
receive-interfaces (updated id (rejected e) _) w = (_, refl, refl, λ j. refl)
receive-interfaces (created (rejected e)) w = (_, refl, refl, λ j. refl)
receive-interfaces (peers_updated (rejected e)) w = (_, refl, refl, λ j. refl)
receive-interfaces (saved (rejected e)) w = (_, refl, refl, λ j. refl)
