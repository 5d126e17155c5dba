-- ===== src/Peers/Session.antt =====
-- A session never loops, in whatever order calls and replies come, and the page list stays
-- numbered from 1.
use wg_portal.Prelude.{
  ℕ, ◌<◌, String, List, [], ◌∷◌, Option, some, none, ◌≡◌, refl, All, arith, false, Bool-cases, inl,
  inr, is_empty,
}
use wg_portal.Js.{M, World, fulfilled, rejected, ◌>>◌, when}
use wg_portal.Js.Keeping.{Keeps, Kept-settled, >>=-Keeps, catch-Keeps, coded_request-Keeps}
use wg_portal.Js.Paging
use wg_portal.Js.Paging.{Pager}
use wg_portal.Js.Paging.Steady.{
  IsSteady, Ends, calculate_pages-Ends, after_page_size_change-Ends, goto_page-Ends, next_page-Ends,
  previous_page-Ends, turn-Keeps,
}
use wg_portal.Models.{Interface, Peer}
use wg_portal.Peers
use wg_portal.Peers.{
  PeerStore, page, filtered_count, set_peers, set_peer, set_prepared_peer, set_peer_config,
  set_stats, set_fetching, fresh_store,
}
use wg_portal.Peers.Requests
use wg_portal.Peers.Requests.{report}
use wg_portal.Peers.Events.{
  Event, prepare, prepared_loaded, mail, mailed, load_config, config_loaded, load_peer, peer_loaded,
  load_stats, stats_loaded, delete, deleted, update, updated, create, created, create_many,
  many_created, load, loaded, set_filter, set_page_size, set_order, size_changed, goto, next,
  previous, step, run,
}

-- The page sizes that the view offers are positive.
abbrev IsFairTo : Event → Type 0
IsFairTo (set_page_size n) = 0 < n
IsFairTo _ = Unit

abbrev pub HasSteadyPeerPages : PeerStore → Type 0
HasSteadyPeerPages s = IsSteady s.view

page-Keeps :
    (op : ℕ → Pager → Option Pager)
    → ((count : ℕ) (p : Pager) → IsSteady p → Ends (op count p))
    → Keeps HasSteadyPeerPages (page op)
page-Keeps op ends =
    turn-Keeps (λ s. s.view) (λ p s. record s { view = p }) filtered_count op (λ q s. refl)
      (λ s. ends (filtered_count s) s.view)

set_peers-Keeps : (peers : List Peer) → Keeps HasSteadyPeerPages (set_peers peers)
unfolding set_peers
set_peers-Keeps peers w p =
    >>=-Keeps HasSteadyPeerPages (page Paging.calculate_pages) (λ _. set_fetching false)
      (page-Keeps Paging.calculate_pages (λ count p s. calculate_pages-Ends count p s.size_pos))
      (λ _ v q. q) (record w { store = record w.store { peers = peers } }) p

-- The handler of a failed load.
failed-Keeps : (t : String) → Keeps HasSteadyPeerPages (set_peers [] >> report t)
failed-Keeps t =
    >>=-Keeps HasSteadyPeerPages (set_peers []) (λ _. report t) (set_peers-Keeps []) (λ _ v q. q)

-- A load without an identifier, and any load.
selected_load :
    (selected : Option Interface) (send : String → M PeerStore (Unit {0}))
    → ((iface : String) → Keeps HasSteadyPeerPages (send iface))
    → Keeps HasSteadyPeerPages (Requests.with_interface "" selected send)
unfolding Requests.with_interface
selected_load none send keeps w p = p
selected_load (some i) send keeps w p = elim (Bool-cases (is_empty i.identifier)) [
  | inl blank ↦ rw (blank, when) p
  | inr given ↦ rw (given, when) (keeps i.identifier w p)
]

with_interface-Keeps :
    (id : String) (selected : Option Interface) (send : String → M PeerStore (Unit {0}))
    → ((iface : String) → Keeps HasSteadyPeerPages (send iface))
    → Keeps HasSteadyPeerPages (Requests.with_interface id selected send)
unfolding Requests.with_interface
with_interface-Keeps id selected send keeps w p = elim (Bool-cases (is_empty id)) [
  | inl blank ↦ rw (blank, when) (selected_load selected send keeps w p)
  | inr given ↦ rw (given, when) (keeps id w p)
]

pub step-Keeps : (e : Event) → IsFairTo e → Keeps HasSteadyPeerPages (step e)
unfolding step Requests.prepare_peer Requests.prepare_peer_reply Requests.mail_peer_config
    Requests.mail_peer_config_reply Requests.load_peer_config Requests.load_peer_config_reply
    Requests.load_peer Requests.load_peer_reply Requests.load_stats Requests.load_stats_reply
    Requests.delete_peer Requests.delete_peer_reply Requests.update_peer Requests.update_peer_reply
    Requests.create_peer Requests.create_peer_reply Requests.create_multiple_peers
    Requests.create_multiple_peers_reply Requests.load_peers Requests.load_peers_reply
    Peers.after_page_size_change Peers.goto_page Peers.next_page Peers.previous_page set_peer
    set_prepared_peer set_peer_config set_stats
step-Keeps (prepare iface) f w p = coded_request-Keeps HasSteadyPeerPages iface _ _ p
step-Keeps (prepared_loaded (fulfilled _)) f w p = p
step-Keeps (prepared_loaded (rejected _)) f w p = p
step-Keeps (mail style) f w p = p
step-Keeps (mailed (fulfilled _)) f w p = p
step-Keeps (mailed (rejected _)) f w p = p
step-Keeps (load_config id style) f w p = coded_request-Keeps HasSteadyPeerPages id _ _ p
step-Keeps (config_loaded (fulfilled _)) f w p = p
step-Keeps (config_loaded (rejected _)) f w p = p
step-Keeps (load_peer id) f w p = coded_request-Keeps HasSteadyPeerPages id _ _ p
step-Keeps (peer_loaded (fulfilled _)) f w p = p
step-Keeps (peer_loaded (rejected _)) f w p = failed-Keeps "Failed to load peer!" w p
step-Keeps (load_stats id selected) f w p =
    with_interface-Keeps id selected _
      (λ iface v q. coded_request-Keeps HasSteadyPeerPages iface _ _ q) w p
step-Keeps (stats_loaded (fulfilled none)) f w p = p
step-Keeps (stats_loaded (fulfilled (some _))) f w p = p
step-Keeps (stats_loaded (rejected _)) f w p = p
step-Keeps (delete id) f w p = coded_request-Keeps HasSteadyPeerPages id _ _ p
step-Keeps (deleted id (fulfilled _)) f w p = p
step-Keeps (deleted id (rejected _)) f w p = p
step-Keeps (update id) f w p = coded_request-Keeps HasSteadyPeerPages id _ _ p
step-Keeps (updated id (fulfilled _)) f w p = p
step-Keeps (updated id (rejected _)) f w p = p
step-Keeps (create iface) f w p = coded_request-Keeps HasSteadyPeerPages iface _ _ p
step-Keeps (created (fulfilled _)) f w p = p
step-Keeps (created (rejected _)) f w p = p
step-Keeps (create_many iface) f w p = coded_request-Keeps HasSteadyPeerPages iface _ _ p
step-Keeps (many_created (fulfilled _)) f w p = p
step-Keeps (many_created (rejected _)) f w p = p
step-Keeps (load id selected) f w p =
    with_interface-Keeps id selected _
      (λ iface v q. coded_request-Keeps HasSteadyPeerPages iface _ _ q) w p
step-Keeps (loaded (fulfilled peers)) f w p =
    catch-Keeps HasSteadyPeerPages (set_peers peers)
      (λ e. set_peers [] >> report "Failed to load peers!") (set_peers-Keeps peers)
      (λ e. failed-Keeps "Failed to load peers!") w p
step-Keeps (loaded (rejected _)) f w p = failed-Keeps "Failed to load peers!" w p
step-Keeps (set_filter t) f w p = record { size_pos = p.size_pos; numbered = p.numbered }
step-Keeps (set_page_size n) f w p = record { size_pos = f; numbered = p.numbered }
step-Keeps (set_order key up) f w p = p
step-Keeps size_changed f w p =
    page-Keeps Paging.after_page_size_change after_page_size_change-Ends w p
step-Keeps (goto k) f w p =
    page-Keeps (λ count. Paging.goto_page count k) (λ count q s. goto_page-Ends count q s k) w p
step-Keeps next f w p = page-Keeps Paging.next_page next_page-Ends w p
step-Keeps previous f w p = page-Keeps Paging.previous_page previous_page-Ends w p

run-HasSteadyPeerPages :
    (es : List Event) (w : World PeerStore)
    → All IsFairTo es
    → HasSteadyPeerPages w.store
    → (v : World PeerStore) × (run es w ≡ some v) × HasSteadyPeerPages v.store
unfolding run
run-HasSteadyPeerPages [] w f p = (w, refl, p)
run-HasSteadyPeerPages (e ∷ es) w (f, fs) p =
    let (v, done, q) = Kept-settled HasSteadyPeerPages (step e w) (step-Keeps e f w p) in
    let (u, rest, s) = run-HasSteadyPeerPages es v fs q in (u, rw (done, run) rest, s)

-- From the initial peer store, no session with positive page sizes loops, in whatever order calls,
-- replies and page turns come and whatever interface is selected, and the pages are then numbered
-- 1, 2, … without a gap.
pub run-fresh_peers :
    (es : List Event)
    → All IsFairTo es
    → (v : World PeerStore) × (run es (record { store = fresh_store; log = [] }) ≡ some v)
      × HasSteadyPeerPages v.store
run-fresh_peers es f =
    run-HasSteadyPeerPages es _ f (record { size_pos = omega arith; numbered = (0, refl) })
