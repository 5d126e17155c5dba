-- ===== src/Dialogs/PeerForm/Fill.antt =====
-- How the form is filled when the dialog is shown (the watcher of `visible` in
-- frontend/src/components/PeerEditModal.vue and UserPeerEditModal.vue).
use wg_portal.Prelude.{String, Option, some, none, Bool, true, not, ◌||◌, is_empty, if◌then◌else◌}
use wg_portal.Datetime.{Timestamp, missing, invalid, instant, format_rfc3339_to_datetime}
use wg_portal.Js.{M, Reply, update, state, ◌>>=◌, ◌>>◌}
use wg_portal.Models.{Peer}
use wg_portal.Peers.Requests
use wg_portal.Dialogs.PeerForm.{
  Clock, Origin, prepared, PeerForm, Kind, selected_peer, watch_ignore, watch_disabled, watched,
  in_peers, with_iface,
}

-- `new Date(expiresAt)` behind the test for an empty text.
abbrev pub timestamp : Clock → Option String → Timestamp
timestamp c none = missing
timestamp c (some t) =
    if is_empty t then missing else elim (c.parse t) [ none ↦ invalid | some n ↦ instant n ]

-- `expiresAtValue ? String(expiresAtValue) : ""`
abbrev pub expiry_text : Clock → Timestamp → String
expiry_text c (instant n) = c.print n
expiry_text c _ = ""

-- The assignments that fill the form: every field but ExpiresAt, Filename, IgnoreGlobalSettings and
-- IsSelected, with the settings shared; the expiry goes into the fields for date and time.
unfoldable pub fill : Kind → Origin → Peer → PeerForm → PeerForm
fill k o p s =
    let d = format_rfc3339_to_datetime k.clock.zone (timestamp k.clock p.expires_at) in
    record s {
      form = record p {
        expires_at = s.form.expires_at;
        filename = s.form.filename;
        ignore_global_settings = s.form.ignore_global_settings;
        is_selected = s.form.is_selected;
      };
      origin = o;
      expiry_date = d.date;
      expiry_time = d.time;
    }

-- Some setting is not overridable.
unfoldable pub has_closed : Peer → Bool
has_closed p =
    not p.endpoint.overridable
    || not p.endpoint_public_key.overridable
    || not p.allowed_ips.overridable
    || not p.persistent_keepalive.overridable
    || not p.dns.overridable
    || not p.dns_search.overridable
    || not p.mtu.overridable
    || not p.firewall_mark.overridable
    || not p.routing_table.overridable
    || not p.pre_up.overridable
    || not p.post_up.overridable
    || not p.pre_down.overridable
    || not p.post_down.overridable

-- A setting that is not overridable turns IgnoreGlobalSettings on.
unfoldable pub mark_ignoring : PeerForm → PeerForm
unfolding has_closed
mark_ignoring s =
    if has_closed s.form
    then record s { form = record s.form { ignore_global_settings = true } }
    else s

-- The form is filled from an existing peer.
unfoldable pub fill_existing : Kind → Origin → Peer → PeerForm → PeerForm
unfolding fill mark_ignoring watch_ignore watch_disabled
fill_existing k o p s = watched k s.form (mark_ignoring (fill k o p s))

-- The form is filled from the prepared peer.
unfoldable pub fill_prepared : Kind → PeerForm → PeerForm
unfolding fill watch_ignore watch_disabled
fill_prepared k s = watched k s.form (fill k prepared s.peers.prepared s)

-- By `selectedPeer`: the form is filled, or a prepared peer is requested.
unfoldable pub present : Kind → Option (Origin × Peer) → M PeerForm (Unit {0})
unfolding fill_existing Requests.prepare_peer
present k (some (o, p)) = update (fill_existing k o p)
present k none = state >>= λ s. with_iface (λ id. in_peers (Requests.prepare_peer id)) (k.iface s)

-- The dialog is shown for a peer, up to the request for a prepared one, if there is none.
unfoldable pub show : Kind → String → M PeerForm (Unit {0})
unfolding selected_peer present
show k id = do update (λ s. record s { peer_id = id }); s ← state; present k (selected_peer s)

unfoldable pub show_reply : Kind → Reply Peer → M PeerForm (Unit {0})
unfolding fill_prepared Requests.prepare_peer_reply
show_reply k r = in_peers (Requests.prepare_peer_reply r) >> update (fill_prepared k)
