-- ===== src/Peers/Statistics.antt =====
-- Loading the statistics and the peers of an interface, on every branch.
use wg_portal.Prelude.{
  ℕ, String, List, [], ◌∷◌, ◌++◌, Option, some, none, true, false, ◌≡◌, refl, is_empty, units,
}
use wg_portal.Encoding.{base64_url_encode}
use wg_portal.Js.{
  World, Out, ok, throw, Reply, fulfilled, rejected, type_error, request, get, lit, coded, encoded,
  when, ◌>>=◌, ◌>>◌,
}
use wg_portal.Models.{Interface}
use wg_portal.Peers.{PeerStore, StatsResponse, set_stats}
use wg_portal.Peers.Requests.{load_stats, load_stats_reply, load_peers}

-- The request for the statistics is sent.
abbrev pub asked : List ℕ → World PeerStore → World PeerStore
asked t w = record w {
  store = record w.store { fetching = true };
  log = w.log ++ request get (lit "/peer/iface/" ∷ coded t ∷ lit "/stats" ∷ []) ∷ [];
}

-- What a load for a given interface does before its reply comes.
load_stats_lem :
    (id : String) (selected : Option Interface) (t : List ℕ) (w : World PeerStore)
    → is_empty id ≡ false
    → base64_url_encode (units id) ≡ some t
    → load_stats id selected w
      ≡ ok tt (record w {
        store = record w.store { fetching = true };
        log = w.log ++ request get (lit "/peer/iface/" ∷ coded t ∷ lit "/stats" ∷ []) ∷ [];
      })
unfolding load_stats
load_stats_lem id selected t w h k = rw (h, when, k, encoded)

-- What the reply makes of that: statistics are taken, everything else is a TypeError.
abbrev pub loaded : Reply (Option StatsResponse) → World PeerStore → Out PeerStore (Unit {0})
loaded (fulfilled (some r)) v =
    ok tt (record v { store = record v.store { stats = r.stats; stats_enabled = r.enabled } })
loaded _ v =
    throw type_error (record v { store = record v.store { stats = []; stats_enabled = false } })

-- A load of the statistics of an interface whose identifier is given and can be encoded sends one
-- request and leaves the store fetching, whatever the reply; a failed request turns the statistics
-- off, and the caller gets a TypeError, with no notification.
pub load_stats-loaded :
    (id : String) (selected : Option Interface) (r : Reply (Option StatsResponse)) (t : List ℕ)
    (w : World PeerStore)
    → is_empty id ≡ false
    → base64_url_encode (units id) ≡ some t
    → (load_stats id selected >> load_stats_reply r) w ≡ loaded r (asked t w)
unfolding load_stats_reply set_stats
load_stats-loaded id selected (fulfilled (some r)) t w h k =
    rw (load_stats_lem id selected t w h k, ◌>>=◌)
load_stats-loaded id selected (fulfilled none) t w h k =
    rw (load_stats_lem id selected t w h k, ◌>>=◌)
load_stats-loaded id selected (rejected e) t w h k = rw (load_stats_lem id selected t w h k, ◌>>=◌)

-- Without an identifier, and with no interface in the list of interfaces, a load of the peers and
-- one of the statistics throw a TypeError; with an interface selected, a load of the peers loads
-- that one's, and does nothing if its identifier is empty.
load-default_interface :
    (i : Interface) (w : World PeerStore)
    → (load_peers "" none w ≡ throw type_error w)
      × (load_stats "" none w ≡ throw type_error w)
      × (is_empty i.identifier ≡ true → load_peers "" (some i) w ≡ ok tt w)
      × (is_empty i.identifier ≡ false → load_peers "" (some i) w ≡ load_peers i.identifier none w)
unfolding load_peers load_stats
load-default_interface i w = (refl, refl, λ e. rw (e, when), λ e. rw (e, when))
