-- ===== src/Views/Overview.antt =====
-- What the view of an interface shows of the selected one, by its mode (the template of
-- frontend/src/views/InterfaceView.vue). A line is the key of its label and its value.
use wg_portal.Prelude.{ℕ, String, List, [], ◌∷◌, map, or_else, if◌then◌else◌, ◌===◌, units}
use wg_portal.Models.{Interface}
use wg_portal.Views.Addresses.{Text, ipv4_addresses, ipv6_addresses}

pub data Value : Type 0 where
  text : String → Value
  number : ℕ → Value
  badges : List String → Value
  addresses : List Text → Value

record Line : Type 0 where
  pub label : String
  pub value : Value

abbrev line : String → Value → Line
line label value = record { label = label; value = value }

abbrev ipv4 : Interface → Line
ipv4 i = line "ip (IPv4)" (addresses (ipv4_addresses (map units i.addresses)))

abbrev ipv6 : Interface → Line
ipv6 i = line "ip (IPv6)" (addresses (ipv6_addresses (map units i.addresses)))

unfoldable server_lines : Interface → List Line
unfolding ipv4_addresses ipv6_addresses
server_lines i =
    line "key" (text i.public_key)
    ∷ line "endpoint" (text i.peer_def_endpoint)
    ∷ line "port" (number i.listen_port)
    ∷ line "peers" (number i.enabled_peers)
    ∷ line "total-peers" (number i.total_peers)
    ∷ ipv4 i
    ∷ ipv6 i
    ∷ line "dns" (badges (or_else i.dns []))
    ∷ line "mtu" (number i.mtu)
    ∷ line "default-keep-alive" (number i.peer_def_persistent_keepalive)
    ∷ line "default-allowed-ip" (badges i.peer_def_allowed_ips)
    ∷ []

unfoldable client_lines : Interface → List Line
unfolding ipv4_addresses ipv6_addresses
client_lines i =
    line "key" (text i.public_key)
    ∷ line "endpoints" (number i.enabled_peers)
    ∷ line "total-endpoints" (number i.total_peers)
    ∷ ipv4 i
    ∷ ipv6 i
    ∷ line "dns" (badges (or_else i.dns []))
    ∷ line "mtu" (number i.mtu)
    ∷ []

unfoldable any_lines : Interface → List Line
unfolding ipv4_addresses ipv6_addresses
any_lines i =
    line "key" (text i.public_key)
    ∷ line "endpoint" (text i.peer_def_endpoint)
    ∷ line "port" (number i.listen_port)
    ∷ line "peers" (number i.enabled_peers)
    ∷ line "total-peers" (number i.total_peers)
    ∷ ipv4 i
    ∷ ipv6 i
    ∷ line "default-allowed-ip" (badges i.peer_def_allowed_ips)
    ∷ line "dns" (badges i.peer_def_dns)
    ∷ line "mtu" (number i.mtu)
    ∷ line "default-keep-alive" (number i.peer_def_persistent_keepalive)
    ∷ []

unfoldable overview : Interface → List Line
unfolding server_lines client_lines any_lines
overview i =
    if i.mode === "server"
    then server_lines i
    else if i.mode === "client"
    then client_lines i
    else if i.mode === "any"
    then any_lines i
    else []
