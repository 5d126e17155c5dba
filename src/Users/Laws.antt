-- ===== src/Users/Laws.antt =====
-- The replies of the backend to changes, against a directory of the users by their identifiers.
use wg_portal.Prelude.{String, Option, some, none, false, ◌≡◌, refl, ◌===◌, if◌then◌else◌}
use wg_portal.Js.{M, World, Out, Reply, fulfilled, rejected}
use wg_portal.Js.Keyed.{find-assign, find-filter, find-push, first_some, replaced, ending, Names}
use wg_portal.Models.{User}
use wg_portal.Users.{UserStore, user_key, find}
use wg_portal.Users.Requests.{delete_user_reply, update_user_reply, create_user_reply}

-- The reply to a change; an update is answered by the record with the identifier asked for.
pub data Change : Type 0 where
  deleted : String → Reply (Unit {0}) → Change
  updated : (id : String) (r : Reply User) → Names user_key id r → Change
  created : Reply User → Change

-- What the store does on the reply.
abbrev pub receive : Change → M UserStore (Unit {0})
receive (deleted id r) = delete_user_reply id r
receive (updated id r _) = update_user_reply id r
receive (created r) = create_user_reply r

-- The promise of a change is rejected, with the error's text, exactly if the reply is.
abbrev pub outcome : Change → World UserStore → Out UserStore (Unit {0})
outcome (deleted _ r) = ending r
outcome (updated _ r _) = ending r
outcome (created r) = ending r

abbrev pub Directory : Type 0
Directory = String → Option User

-- What becomes of the directory: the older user stays where two have one identifier.
abbrev pub change : Change → Directory → Directory
change (deleted id (fulfilled _)) d j = if id === j then none else d j
change (updated id (fulfilled user) _) d j = if id === j then replaced (d j) user else d j
change (created (fulfilled user)) d j =
    first_some (d j) (if user_key user === j then some user else none)
change _ d j = d j

-- On every reply to a change, where an update is answered by the record with the identifier asked
-- for, the fetching is over and the promise ends as the request did; the directory that Find shows
-- is changed by a confirmed change, and stays as it is after a refusal.
pub receive-users :
    (c : Change) (w : World UserStore)
    → (v : World UserStore) × (receive c w ≡ outcome c v)
      × (v.store.fetching ≡ false)
      × ((j : String) → find v.store j ≡ change c (find w.store) j)
unfolding delete_user_reply update_user_reply create_user_reply
receive-users (deleted id (fulfilled _)) w = (_, refl, refl, find-filter user_key w.store.users id)
receive-users (updated id (fulfilled user) same) w =
    (_, refl, refl, λ j. find-assign user_key w.store.users id j user same)
receive-users (created (fulfilled user)) w =
    (_, refl, refl, λ j. find-push user_key w.store.users j user)
receive-users (deleted id (rejected e)) w = (_, refl, refl, λ j. refl)
receive-users (updated id (rejected e) _) w = (_, refl, refl, λ j. refl)
receive-users (created (rejected e)) w = (_, refl, refl, λ j. refl)
