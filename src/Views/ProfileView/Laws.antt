-- ===== src/Views/ProfileView/Laws.antt =====
-- What the view of the user's own peers loads at its start (frontend/src/views/ProfileView.vue), over
-- the store of the profile.
use wg_portal.Prelude.{
  ℕ, ◌<◌, List, [], ◌∷◌, ◌++◌, append-nil, append_assoc, Option, some, none, Bool, true, false,
  units, ◌≡◌, refl, sym, subst,
}
use wg_portal.Auth.{UserInfo}
use wg_portal.Dialogs.{returned}
use wg_portal.Encoding.{base64_url_encode}
use wg_portal.Js.{
  M, ◌>>◌, World, Out, hang, Effect, lit, ok, throw, type_error, Reply, fulfilled, rejected,
}
use wg_portal.FetchWrapper.Received.{Received, ends_session}
use wg_portal.Models.{Interface, Peer, User}
use wg_portal.Peers.{StatsResponse}
use wg_portal.Profile
use wg_portal.Profile.{ProfileStore}
use wg_portal.Profile.Loads.{
  told, asked, ask, take_user, take_peers, take_interfaces, load_user_reply_lem,
  load_peers_reply_lem, load_interfaces_reply_lem, load_user_lem, load_peers_lem, load_stats_lem,
  load_interfaces_lem, calculate_pages_numbered,
}
use wg_portal.Profile.Requests
use wg_portal.Views.ProfileView.{ProfileView, in_profile, mounted, signs_out}

-- The requests up to the one of the statistics, with the notifications of failed loads.
abbrev pub first_loads : List ℕ → Reply User → Reply (List Peer) → List Effect
first_loads t user peers =
    asked t []
    ∷ (told "Failed to load user!" user
        ++ asked t (lit "/peers" ∷ [])
          ∷ (told "Failed to load user peers!" peers ++ asked t (lit "/stats" ∷ []) ∷ []))

-- A change of the store in the view.
abbrev lift : (World ProfileStore → World ProfileStore) → World ProfileView → World ProfileView
lift f w =
    let v = f (record { store = w.store.profile; log = w.log }) in
    record { store = record w.store { profile = v.store }; log = v.log }

-- A method of the store that is fulfilled, and what comes after it.
continue :
    (P : Out ProfileView (Unit {0}) → Type 0) (m : M ProfileStore (Unit {0}))
    (f : World ProfileStore → World ProfileStore) (k : M ProfileView (Unit {0}))
    (w : World ProfileView)
    → ((v : World ProfileStore) → m v ≡ ok tt (f v))
    → P (k (lift f w))
    → P ((in_profile m >> k) w)
continue P m f k w e h =
    subst
      (λ (out : Out ProfileStore (Unit {0})).
        P
          (elim (returned {A = Unit {0}} (λ p s. record s { profile = p }) w out)
            as (λ _. Out ProfileView (Unit {0})) [
              | ok _ u ↦ k u
              | throw err u ↦ throw err u
              | hang ↦ hang
            ]))
      (sym (e (record { store = w.store.profile; log = w.log }))) h

-- There are statistics in the reply.
abbrev has_stats : Reply (Option StatsResponse) → Bool
has_stats (fulfilled (some _)) = true
has_stats _ = false

-- The request for the interfaces, which comes only after statistics.
abbrev last_loads : Bool → List ℕ → Reply (List Interface) → List Effect
last_loads false t interfaces = []
last_loads true t interfaces =
    asked t (lit "/interfaces" ∷ []) ∷ told "Failed to load interfaces!" interfaces

-- The end of the loads, given whether there were statistics: with them the promise is fulfilled and
-- nothing is fetched any more, and else it is rejected with a TypeError while the store is fetching.
abbrev pub Visits : Bool → List Effect → Out ProfileView (Unit {0}) → Type 0
Visits true log out = elim out [
  | ok _ v ↦ (v.log ≡ log) × (v.store.profile.fetching ≡ false)
  | throw _ _ ↦ ⊥
  | hang ↦ ⊥
]
Visits false log out = elim out [
  | ok _ _ ↦ ⊥
  | throw e v ↦ (e ≡ type_error) × (v.log ≡ log) × (v.store.profile.fetching ≡ true)
  | hang ↦ ⊥
]

Visits-log :
    (b : Bool) (l k : List Effect) (out : Out ProfileView (Unit {0}))
    → l ≡ k
    → Visits b l out
    → Visits b k out
Visits-log b l k out e = subst (λ x. Visits b x out) e

-- The loads from the reply with the statistics on.
after_stats :
    (u : UserInfo) (t : List ℕ) (stats : Reply (Option StatsResponse))
    (interfaces : Reply (List Interface)) (w : World ProfileView)
    → base64_url_encode (units u.identifier) ≡ some t
    → 0 < w.store.profile.view.page_size
    → w.store.profile.fetching ≡ true
    → Visits (has_stats stats) (w.log ++ last_loads (has_stats stats) t interfaces) (
        (in_profile (Requests.load_stats_reply stats)
            >> (in_profile (Requests.load_interfaces (some u))
                >> (in_profile (Requests.load_interfaces_reply interfaces)
                    >> in_profile Profile.calculate_pages)))
          w)
unfolding Requests.load_stats_reply Profile.set_stats Profile.calculate_pages
after_stats u t (fulfilled (some s)) interfaces w h p f =
    let P = Visits true (w.log ++ last_loads true t interfaces) in
    let v : World ProfileView = record w {
      store = record w.store {
        profile = record w.store.profile { stats = s.stats; stats_enabled = s.enabled };
      };
    } in
    continue P (Requests.load_interfaces (some u)) (ask t (lit "/interfaces" ∷ [])) _ v
      (load_interfaces_lem u t h)
      (continue P (Requests.load_interfaces_reply interfaces) (take_interfaces interfaces) _
        (lift (ask t (lit "/interfaces" ∷ [])) v) (load_interfaces_reply_lem interfaces)
        (subst (λ out. P (returned {A = Unit {0}} (λ q x. record x { profile = q }) v out))
          (sym (calculate_pages_numbered _ p)) (append_assoc w.log _ _, refl)))
after_stats u t (fulfilled none) interfaces w h p f = (refl, sym (append-nil w.log), f)
after_stats u t (rejected e) interfaces w h p f = (refl, sym (append-nil w.log), f)

-- The loads without a sign-out.
abbrev plain :
    Option UserInfo
    → Reply User
    → Reply (List Peer)
    → Reply (Option StatsResponse)
    → Reply (List Interface)
    → M ProfileView (Unit {0})
plain me user peers stats interfaces = do
  in_profile (Requests.load_user me)
  in_profile (Requests.load_user_reply user)
  in_profile (Requests.load_peers me)
  in_profile (Requests.load_peers_reply peers)
  in_profile (Requests.load_stats me)
  in_profile (Requests.load_stats_reply stats)
  in_profile (Requests.load_interfaces me)
  in_profile (Requests.load_interfaces_reply interfaces)
  in_profile Profile.calculate_pages

plain-Visits :
    (u : UserInfo) (t : List ℕ) (user : Reply User) (peers : Reply (List Peer))
    (stats : Reply (Option StatsResponse)) (interfaces : Reply (List Interface))
    (w : World ProfileView)
    → base64_url_encode (units u.identifier) ≡ some t
    → 0 < w.store.profile.view.page_size
    → Visits
        (has_stats stats)
        (w.log ++ (first_loads t user peers ++ last_loads (has_stats stats) t interfaces))
        (plain (some u) user peers stats interfaces w)
plain-Visits u t user peers stats interfaces w h p =
    let P =
      Visits (has_stats stats)
        (w.log ++ (first_loads t user peers ++ last_loads (has_stats stats) t interfaces)) in
    let w1 = lift (ask t []) w in
    let w2 = lift (take_user user) w1 in
    let w3 = lift (ask t (lit "/peers" ∷ [])) w2 in
    let w4 = lift (take_peers peers) w3 in
    continue P (Requests.load_user (some u)) (ask t []) _ w (load_user_lem u t h) (
      continue P (Requests.load_user_reply user) (take_user user) _ w1 (load_user_reply_lem user) (
        continue P (Requests.load_peers (some u)) (ask t (lit "/peers" ∷ [])) _ w2
          (load_peers_lem u t h)
          (continue P (Requests.load_peers_reply peers) (take_peers peers) _ w3
            (load_peers_reply_lem peers)
            (continue P (Requests.load_stats (some u)) (ask t (lit "/stats" ∷ [])) _ w4
              (load_stats_lem u t h)
              (Visits-log _ _ _ _ (simp append_assoc) (
                after_stats u t stats interfaces (lift (ask t (lit "/stats" ∷ [])) w4) h p
                  refl))))))

mounted-plain :
    (me : Option UserInfo) (user : Received User) (peers : Received (List Peer))
    (stats : Received (Option StatsResponse)) (interfaces : Received (List Interface))
    → ends_session user ≡ false
    → ends_session peers ≡ false
    → ends_session stats ≡ false
    → ends_session interfaces ≡ false
    → mounted me user peers stats interfaces
      ≡ plain me user.reply peers.reply stats.reply interfaces.reply
unfolding mounted signs_out
mounted-plain me user peers stats interfaces a b c d = rw (a, b, c, d) refl

-- Where no response has the status 401 or 403, the view asks for the user, the peers, the statistics
-- and the interfaces, in this order and whatever the replies, and a failed load of the user, the peers
-- or the interfaces is told at once. But if the load of the statistics fails, the view ends there with
-- a TypeError, the store fetching and the interfaces not asked for. It is given that the identifier
-- of the signed-in user can be encoded and that the page size is positive.
pub mounted-Visits :
    (u : UserInfo) (t : List ℕ) (user : Received User) (peers : Received (List Peer))
    (stats : Received (Option StatsResponse)) (interfaces : Received (List Interface))
    (w : World ProfileView)
    → ends_session user ≡ false
    → ends_session peers ≡ false
    → ends_session stats ≡ false
    → ends_session interfaces ≡ false
    → base64_url_encode (units u.identifier) ≡ some t
    → 0 < w.store.profile.view.page_size
    → Visits
        (has_stats stats.reply)
        (w.log
          ++ (first_loads t user.reply peers.reply
              ++ last_loads (has_stats stats.reply) t interfaces.reply))
        (mounted (some u) user peers stats interfaces w)
mounted-Visits u t user peers stats interfaces w a b c d h p =
    subst
      (λ m.
        Visits (has_stats stats.reply)
          (w.log
            ++ (first_loads t user.reply peers.reply
                ++ last_loads (has_stats stats.reply) t interfaces.reply))
          (m w))
      (sym (mounted-plain (some u) user peers stats interfaces a b c d))
      (plain-Visits u t user.reply peers.reply stats.reply interfaces.reply w h p)
