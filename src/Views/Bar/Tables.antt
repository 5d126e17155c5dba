-- ===== src/Views/Bar/Tables.antt =====
-- The tables of the four views: the stores of peers, of the user's own peers, of users, and of the
-- audit log.
use wg_portal.Prelude.{◌≡◌, refl, ap}
use wg_portal.Audit
use wg_portal.Audit.{AuditStore}
use wg_portal.Js.Paging.{Pager}
use wg_portal.Peers
use wg_portal.Peers.{PeerStore}
use wg_portal.Profile
use wg_portal.Profile.{ProfileStore}
use wg_portal.Users
use wg_portal.Users.{UserStore}
use wg_portal.Views.Bar.{Table}

pub audit_count :
    (p : Pager) (s : AuditStore)
    → p.filter ≡ s.view.filter
    → Audit.filtered_count (record s { view = p }) ≡ Audit.filtered_count s
unfolding Audit.filtered_count Audit.filtered
audit_count p s e =
    ap (λ f. Audit.filtered_count (record s { view = record s.view { filter = f } })) e

abbrev pub audit_table : Table AuditStore
audit_table = record {
  view = λ s. s.view;
  put = λ p s. record s { view = p };
  count = Audit.filtered_count;
  view-put = λ p s. refl;
  count-put = audit_count;
}

pub user_count :
    (p : Pager) (s : UserStore)
    → p.filter ≡ s.view.filter
    → Users.filtered_count (record s { view = p }) ≡ Users.filtered_count s
unfolding Users.filtered_count Users.filtered
user_count p s e =
    ap (λ f. Users.filtered_count (record s { view = record s.view { filter = f } })) e

abbrev pub user_table : Table UserStore
user_table = record {
  view = λ s. s.view;
  put = λ p s. record s { view = p };
  count = Users.filtered_count;
  view-put = λ p s. refl;
  count-put = user_count;
}

pub peer_count :
    (p : Pager) (s : PeerStore)
    → p.filter ≡ s.view.filter
    → Peers.filtered_count (record s { view = p }) ≡ Peers.filtered_count s
unfolding Peers.filtered_count Peers.filtered
peer_count p s e =
    ap (λ f. Peers.filtered_count (record s { view = record s.view { filter = f } })) e

abbrev pub peer_table : Table PeerStore
peer_table = record {
  view = λ s. s.view;
  put = λ p s. record s { view = p };
  count = Peers.filtered_count;
  view-put = λ p s. refl;
  count-put = peer_count;
}

pub own_peer_count :
    (p : Pager) (s : ProfileStore)
    → p.filter ≡ s.view.filter
    → Profile.filtered_peer_count (record s { view = p }) ≡ Profile.filtered_peer_count s
unfolding Profile.filtered_peer_count Profile.filtered_peers
own_peer_count p s e =
    ap (λ f. Profile.filtered_peer_count (record s { view = record s.view { filter = f } })) e

abbrev pub own_peer_table : Table ProfileStore
own_peer_table = record {
  view = λ s. s.view;
  put = λ p s. record s { view = p };
  count = Profile.filtered_peer_count;
  view-put = λ p s. refl;
  count-put = own_peer_count;
}
