-- ===== src/Dialogs/UserPeerEdit/Identity.antt =====
-- What a user may change of an own peer (frontend/src/components/UserPeerEditModal.vue).
use wg_portal.Prelude.{List, true, ◌≡◌, refl}
use wg_portal.Dialogs.Forms.{Page, enter_all, enter_all-Keeps}
use wg_portal.Dialogs.PeerForm.{Clock, PeerForm, user_peer_edit}
use wg_portal.Dialogs.PeerForm.Editing.{edit-form}
use wg_portal.Dialogs.UserPeerEdit.Inputs.{
  Field, display_name, expiry_date, expiry_time, write, enters,
}
use wg_portal.Js.{World}
use wg_portal.Js.Keeping.{Kept, Keeps}
use wg_portal.Models.{Peer}

abbrev pub own_peer_page : Clock → Page PeerForm
own_peer_page clock = record {
  Input = Field;
  shows = λ i s. true;
  enters = enters (user_peer_edit clock);
}

-- The two agree in what the administrator decides: whose the peer is, its interface, and its place
-- in the network.
abbrev pub SamePlace : Peer → Peer → Type 0
SamePlace p q =
    (q.identifier ≡ p.identifier)
    × (q.interface_identifier ≡ p.interface_identifier)
    × (q.user_identifier ≡ p.user_identifier)
    × (q.mode ≡ p.mode)
    × (q.addresses ≡ p.addresses)
    × (q.allowed_ips.value ≡ p.allowed_ips.value)
    × (q.extra_allowed_ips ≡ p.extra_allowed_ips)
    × (q.endpoint.value ≡ p.endpoint.value)
    × (q.endpoint_public_key.value ≡ p.endpoint_public_key.value)
    × (q.dns.value ≡ p.dns.value)
    × (q.dns_search.value ≡ p.dns_search.value)
    × (q.firewall_mark.value ≡ p.firewall_mark.value)
    × (q.routing_table.value ≡ p.routing_table.value)
    × (q.ignore_global_settings ≡ p.ignore_global_settings)

write-SamePlace : (p : Peer) (i : Field) (q : Peer) → SamePlace p q → SamePlace p (write i q)
unfolding write
write-SamePlace p (display_name _) q h = h
write-SamePlace p _ q h = h

field-Keeps :
    (clock : Clock) (p : Peer) (i : Field)
    → Keeps (λ s. SamePlace p s.form) (enters (user_peer_edit clock) i)
unfolding enters
field-Keeps clock p (expiry_date d) w h = h
field-Keeps clock p (expiry_time t) w h = h
field-Keeps clock p i w h =
    edit-form (SamePlace p) (λ b r q. q) (user_peer_edit clock) (write i) w.store
      (write-SamePlace p i w.store.form h)

-- Whatever a user enters for an own peer, what the administrator decides stays as it was: whose the
-- peer is, its interface, its addresses and allowed networks, its endpoint, and its settings for DNS
-- and routing.
pub enter_all-SamePlace :
    (clock : Clock) (entries : List Field) (w : World PeerForm)
    → Kept (λ s. SamePlace w.store.form s.form) (enter_all (own_peer_page clock) entries w)
enter_all-SamePlace clock entries w =
    enter_all-Keeps (own_peer_page clock) (λ s. SamePlace w.store.form s.form)
      (λ i v _. field-Keeps clock w.store.form i v) entries w
      (refl, refl, refl, refl, refl, refl, refl, refl, refl, refl, refl, refl, refl, refl)
