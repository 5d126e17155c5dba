-- ===== src/Views/ProfileView.antt =====
-- The view of the signed-in user's own peers (the script of frontend/src/views/ProfileView.vue): the
-- order of the table, the selection, and the loads at the start.
pub mod Laws
use wg_portal.Prelude.{
  String, List, Option, some, none, Bool, true, false, not, if◌then◌else◌, is_empty, is_some, [],
  ◌∷◌, ◌&&◌,
}
use wg_portal.Auth.{UserInfo}
use wg_portal.Dialogs.{within}
use wg_portal.Helpers.{AddressLibrary}
use wg_portal.FetchWrapper.Received.{Received, ends_session}
use wg_portal.Js.{M, emit, request, post, lit, pass, when, ◌>>◌}
use wg_portal.Models.{Interface, Peer, User}
use wg_portal.Peers.{StatsResponse}
use wg_portal.Profile
use wg_portal.Profile.{ProfileStore, SortKey}
use wg_portal.Profile.Requests
use wg_portal.Views.Bar.{Control, click}
use wg_portal.Views.Bar.Tables.{own_peer_table}
use wg_portal.Views.InterfaceView.{select}
use wg_portal.Views.Selection.{select_each}
use wg_portal.Peers.{peer_key}

-- `sort_key` is `none` before the first click on a column.
pub record ProfileView : Type 0 where
  pub profile : ProfileStore
  pub sort_key : Option SortKey
  pub ascending : Bool
  pub select_all : Bool

abbrev pub in_profile {ℓ} : {A : Type ℓ} → M ProfileStore A → M ProfileView A
in_profile = within (λ s. s.profile) (λ p s. record s { profile = p })

-- `===` on the columns.
unfoldable pub same_key : SortKey → SortKey → Bool
same_key SortKey.display_name SortKey.display_name = true
same_key SortKey.addresses SortKey.addresses = true
same_key SortKey.is_connected SortKey.is_connected = true
same_key SortKey.traffic SortKey.traffic = true
same_key _ _ = false

unfoldable pub next_order : SortKey → Option SortKey → Bool → Bool
unfolding same_key
next_order key none ascending = true
next_order key (some old) ascending = if same_key old key then not ascending else true

unfoldable pub sort_by : SortKey → ProfileView → ProfileView
unfolding next_order
sort_by key s =
    let up = next_order key s.sort_key s.ascending in
    record s {
      sort_key = some key;
      ascending = up;
      profile = record s.profile { sort_key = key; ascending = up };
    }

unfoldable friendly_interface_name : String → String → String
friendly_interface_name id name = if is_empty name then id else name

-- `none`: the getter throws, and nothing is selected.
unfoldable toggle_select_all : AddressLibrary → ProfileView → Option ProfileView
unfolding select_each Profile.filtered_and_paged_peers
toggle_select_all lib s = elim (Profile.filtered_and_paged_peers lib s.profile) [
  | none ↦ none
  | some shown ↦ some (record s {
    profile = record s.profile {
      peers = select_each peer_key select s.select_all shown s.profile.peers;
    };
  })
]

-- What a reply leaves of the signed-in user, whom a response of the status 401 or 403 signs out.
abbrev pub left : {A : Type 0} → Received A → Option UserInfo → Option UserInfo
left r me = if ends_session r then none else me

-- The request by which the wrapper signs the user out, before the store gets the reply.
unfoldable pub signs_out : {A : Type 0} → Received A → Option UserInfo → M ProfileView (Unit {0})
signs_out r me =
    when (ends_session r && is_some me) (emit (request post (lit "/auth/logout" ∷ []))) pass

-- `onMounted`, with the user who is signed in at its start, and the replies that come; an error ends
-- it. Each load asks the auth store anew who is signed in.
unfoldable pub mounted :
    Option UserInfo
    → Received User
    → Received (List Peer)
    → Received (Option StatsResponse)
    → Received (List Interface)
    → M ProfileView (Unit {0})
unfolding Requests.load_user Requests.load_user_reply Requests.load_peers Requests.load_peers_reply
    Requests.load_stats Requests.load_stats_reply Requests.load_interfaces
    Requests.load_interfaces_reply Profile.calculate_pages signs_out
mounted me user peers stats interfaces = do
  in_profile (Requests.load_user me)
  signs_out user me
  in_profile (Requests.load_user_reply user.reply)
  in_profile (Requests.load_peers (left user me))
  signs_out peers (left user me)
  in_profile (Requests.load_peers_reply peers.reply)
  in_profile (Requests.load_stats (left peers (left user me)))
  signs_out stats (left peers (left user me))
  in_profile (Requests.load_stats_reply stats.reply)
  in_profile (Requests.load_interfaces (left stats (left peers (left user me))))
  signs_out interfaces (left stats (left peers (left user me)))
  in_profile (Requests.load_interfaces_reply interfaces.reply)
  in_profile Profile.calculate_pages

-- The search field and the bar of pages.
unfoldable click_bar : Control → M ProfileView (Unit {0})
unfolding click
click_bar c = in_profile (click own_peer_table c)
