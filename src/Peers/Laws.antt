-- ===== src/Peers/Laws.antt =====
-- The replies of the backend to changes, against a directory of the peers by their identifiers.
use wg_portal.Prelude.{String, List, Option, some, none, false, ◌≡◌, refl, ◌===◌, if◌then◌else◌}
use wg_portal.Js.{M, World, Out, Reply, fulfilled, rejected}
use wg_portal.Js.Keyed.{
  find-assign, find-filter, find-push, first_some, replaced, ending, Names, find-append, find_key,
}
use wg_portal.Models.{Peer}
use wg_portal.Peers.{PeerStore, peer_key, find}
use wg_portal.Peers.Requests.{
  delete_peer_reply, update_peer_reply, create_peer_reply, create_multiple_peers_reply,
}

-- The reply to a change; an update is answered by the record with the identifier asked for.
pub data Change : Type 0 where
  deleted : String → Reply (Unit {0}) → Change
  updated : (id : String) (r : Reply Peer) → Names peer_key id r → Change
  created : Reply Peer → Change
  created_many : Reply (List Peer) → Change

-- What the store does on the reply.
abbrev pub receive : Change → M PeerStore (Unit {0})
receive (deleted id r) = delete_peer_reply id r
receive (updated id r _) = update_peer_reply id r
receive (created r) = create_peer_reply r
receive (created_many r) = create_multiple_peers_reply r

-- The promise of a change is rejected, with the error's text, exactly if the reply is.
abbrev pub outcome : Change → World PeerStore → Out PeerStore (Unit {0})
outcome (deleted _ r) = ending r
outcome (updated _ r _) = ending r
outcome (created r) = ending r
outcome (created_many r) = ending r

abbrev pub Directory : Type 0
Directory = String → Option Peer

-- What becomes of the directory: the older peer stays where two have one identifier.
abbrev pub change : Change → Directory → Directory
change (deleted id (fulfilled _)) d j = if id === j then none else d j
change (updated id (fulfilled peer) _) d j = if id === j then replaced (d j) peer else d j
change (created (fulfilled peer)) d j =
    first_some (d j) (if peer_key peer === j then some peer else none)
change (created_many (fulfilled peers)) d j = first_some (d j) (find_key peer_key j peers)
change _ d j = d j

-- On every reply to a change, where an update is answered by the record with the identifier asked
-- for, the fetching is over and the promise ends as the request did; the directory that Find shows
-- is changed by a confirmed change, and stays as it is after a refusal.
pub receive-peers :
    (c : Change) (w : World PeerStore)
    → (v : World PeerStore) × (receive c w ≡ outcome c v)
      × (v.store.fetching ≡ false)
      × ((j : String) → find v.store j ≡ change c (find w.store) j)
unfolding delete_peer_reply update_peer_reply create_peer_reply create_multiple_peers_reply
receive-peers (deleted id (fulfilled _)) w = (_, refl, refl, find-filter peer_key w.store.peers id)
receive-peers (updated id (fulfilled peer) same) w =
    (_, refl, refl, λ j. find-assign peer_key w.store.peers id j peer same)
receive-peers (created (fulfilled peer)) w =
    (_, refl, refl, λ j. find-push peer_key w.store.peers j peer)
receive-peers (created_many (fulfilled peers)) w =
    (_, refl, refl, find-append peer_key w.store.peers peers)
receive-peers (deleted id (rejected e)) w = (_, refl, refl, λ j. refl)
receive-peers (updated id (rejected e) _) w = (_, refl, refl, λ j. refl)
receive-peers (created (rejected e)) w = (_, refl, refl, λ j. refl)
receive-peers (created_many (rejected e)) w = (_, refl, refl, λ j. refl)
