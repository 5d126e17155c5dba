-- ===== src/Helpers.antt =====
-- The small helpers that the stores share (frontend/src/helpers/utils.js): ipToBigInt, over the two
-- address classes of the package ip-address, which are a parameter.
use wg_portal.Prelude.{ℕ, String, includes_text, if◌then◌else◌}

-- `new Address4(ip).bigInteger()` and `new Address6(ip).bigInteger()`, on the addresses that the
-- backend sends.
pub record AddressLibrary : Type 0 where
  pub address4 : String → ℕ
  pub address6 : String → ℕ

unfoldable pub ip_to_big_int : AddressLibrary → String → ℕ
ip_to_big_int lib ip = if includes_text ip "." then lib.address4 ip else lib.address6 ip
