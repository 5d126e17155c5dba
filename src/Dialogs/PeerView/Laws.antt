-- ===== src/Dialogs/PeerView/Laws.antt =====
-- What the dialog that shows a peer promises (frontend/src/components/PeerViewModal.vue).
use wg_portal.Prelude.{String, Option, some, none, false, ◌≡◌, refl}
use wg_portal.Js.{World, Out, ok, Reply, fulfilled, rejected, ◌>>◌}
use wg_portal.Models.{fresh_stats}
use wg_portal.Peers
use wg_portal.Peers.{set_peer_config}
use wg_portal.Peers.Requests
use wg_portal.Profile.{ProfileStore}
use wg_portal.Dialogs.PeerView.{PeerView, selected_stats, config_reply}

-- The statistics of the profile are never shown: what the dialog shows does not depend on the
-- profile, and it is empty while the peer store has no statistics.
selected_stats-profile :
    (s : PeerView) (profile : ProfileStore)
    → s.peers.stats_enabled ≡ false
    → (selected_stats (record s { profile = profile }) ≡ selected_stats s)
      × (selected_stats s ≡ fresh_stats)
unfolding selected_stats Peers.statistics
selected_stats-profile s profile h = (refl, rw h refl)

abbrev config_of : Reply String → String
config_of (fulfilled c) = c
config_of (rejected _) = ""

-- The configuration that is shown after a computation.
abbrev shown : Out PeerView (Unit {0}) → Option String
shown (ok _ v) = some v.store.config_string
shown _ = none

-- Of two requests the later reply is shown, an empty text for an error, in whatever order the
-- replies come: the text can be of the style that was selected first.
config_reply-last :
    (first second : Reply String) (w : World PeerView)
    → shown ((config_reply first >> config_reply second) w) ≡ some (config_of second)
unfolding config_reply Requests.load_peer_config_reply set_peer_config
config_reply-last (fulfilled _) (fulfilled _) w = refl
config_reply-last (fulfilled _) (rejected _) w = refl
config_reply-last (rejected _) (fulfilled _) w = refl
config_reply-last (rejected _) (rejected _) w = refl
