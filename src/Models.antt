-- ===== src/Models.antt =====
-- The objects that the backend sends and the stores keep, and the fresh ones that stand in for
-- them (frontend/src/helpers/models.js). `null` is `none`.
use wg_portal.Prelude.{ℕ, String, Bool, true, false, List, [], Option, none}

pub record Interface : Type 0 where
  pub disabled : Bool
  pub display_name : String
  pub identifier : String
  pub mode : String
  pub backend : String
  pub public_key : String
  pub private_key : String
  pub listen_port : ℕ
  pub addresses : List String
  -- Sent by the backend; the fresh interface has none.
  pub dns : Option (List String)
  pub dns_str : List String
  pub dns_search : List String
  pub mtu : ℕ
  pub firewall_mark : ℕ
  pub routing_table : String
  pub pre_up : String
  pub post_up : String
  pub pre_down : String
  pub post_down : String
  pub save_config : Bool
  pub peer_def_network : List String
  pub peer_def_dns : List String
  pub peer_def_dns_search : List String
  pub peer_def_endpoint : String
  pub peer_def_allowed_ips : List String
  pub peer_def_mtu : ℕ
  pub peer_def_persistent_keepalive : ℕ
  pub peer_def_firewall_mark : ℕ
  pub peer_def_routing_table : String
  pub peer_def_pre_up : String
  pub peer_def_post_up : String
  pub peer_def_pre_down : String
  pub peer_def_post_down : String
  pub total_peers : ℕ
  pub enabled_peers : ℕ
  pub filename : String

abbrev pub fresh_interface : Interface
fresh_interface = record {
  disabled = false;
  display_name = "";
  identifier = "";
  mode = "server";
  backend = "local";
  public_key = "";
  private_key = "";
  listen_port = 51820;
  addresses = [];
  dns = none;
  dns_str = [];
  dns_search = [];
  mtu = 0;
  firewall_mark = 0;
  routing_table = "";
  pre_up = "";
  post_up = "";
  pre_down = "";
  post_down = "";
  save_config = false;
  peer_def_network = [];
  peer_def_dns = [];
  peer_def_dns_search = [];
  peer_def_endpoint = "";
  peer_def_allowed_ips = [];
  peer_def_mtu = 0;
  peer_def_persistent_keepalive = 0;
  peer_def_firewall_mark = 0;
  peer_def_routing_table = "";
  peer_def_pre_up = "";
  peer_def_post_up = "";
  peer_def_pre_down = "";
  peer_def_post_down = "";
  total_peers = 0;
  enabled_peers = 0;
  filename = "";
}

-- A setting of a peer that the interface's defaults may override.
pub record Setting {ℓ} (A : Type ℓ) : Type ℓ where
  pub value : A
  pub overridable : Bool

abbrev open_setting {ℓ} : {A : Type ℓ} → A → Setting A
open_setting v = record { value = v; overridable = true }

pub record Peer : Type 0 where
  pub identifier : String
  pub display_name : String
  pub user_identifier : String
  pub interface_identifier : String
  pub disabled : Bool
  pub expires_at : Option String
  pub notes : String
  pub endpoint : Setting String
  pub endpoint_public_key : Setting String
  pub allowed_ips : Setting (List String)
  pub extra_allowed_ips : List String
  pub preshared_key : String
  pub persistent_keepalive : Setting ℕ
  pub private_key : String
  pub public_key : String
  pub mode : String
  pub addresses : List String
  pub check_alive_address : String
  pub dns : Setting (List String)
  pub dns_search : Setting (List String)
  pub mtu : Setting ℕ
  pub firewall_mark : Setting ℕ
  pub routing_table : Setting String
  pub pre_up : Setting String
  pub post_up : Setting String
  pub pre_down : Setting String
  pub post_down : Setting String
  pub filename : String
  pub ignore_global_settings : Bool
  pub is_selected : Bool

abbrev pub fresh_peer : Peer
fresh_peer = record {
  identifier = "";
  display_name = "";
  user_identifier = "";
  interface_identifier = "";
  disabled = false;
  expires_at = none;
  notes = "";
  endpoint = open_setting "";
  endpoint_public_key = open_setting "";
  allowed_ips = open_setting [];
  extra_allowed_ips = [];
  preshared_key = "";
  persistent_keepalive = open_setting 0;
  private_key = "";
  public_key = "";
  mode = "client";
  addresses = [];
  check_alive_address = "";
  dns = open_setting [];
  dns_search = open_setting [];
  mtu = open_setting 0;
  firewall_mark = open_setting 0;
  routing_table = open_setting "";
  pre_up = open_setting "";
  post_up = open_setting "";
  pre_down = open_setting "";
  post_down = open_setting "";
  filename = "";
  ignore_global_settings = false;
  is_selected = false;
}

pub record User : Type 0 where
  pub identifier : String
  pub email : String
  pub source : String
  pub is_admin : Bool
  pub firstname : String
  pub lastname : String
  pub phone : String
  pub department : String
  pub notes : String
  pub password : String
  pub disabled : Bool
  pub disabled_reason : String
  pub locked : Bool
  pub locked_reason : String
  pub api_enabled : Bool
  pub peer_count : ℕ
  pub is_selected : Bool

abbrev pub fresh_user : User
fresh_user = record {
  identifier = "";
  email = "";
  source = "db";
  is_admin = false;
  firstname = "";
  lastname = "";
  phone = "";
  department = "";
  notes = "";
  password = "";
  disabled = false;
  disabled_reason = "";
  locked = false;
  locked_reason = "";
  api_enabled = false;
  peer_count = 0;
  is_selected = false;
}

pub record Stats : Type 0 where
  pub is_connected : Bool
  pub is_pingable : Bool
  pub last_handshake : Option String
  pub last_ping : Option String
  pub last_session_start : Option String
  pub bytes_transmitted : ℕ
  pub bytes_received : ℕ
  pub endpoint_address : String

abbrev pub fresh_stats : Stats
fresh_stats = record {
  is_connected = false;
  is_pingable = false;
  last_handshake = none;
  last_ping = none;
  last_session_start = none;
  bytes_transmitted = 0;
  bytes_received = 0;
  endpoint_address = "";
}
