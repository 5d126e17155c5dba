-- ===== src/Views/KeyGenerator.antt =====
-- The key generator (the script of frontend/src/views/KeyGeneraterView.vue), on code units and
-- bytes. The Web Crypto API of the browser is not modelled: the keys that it exports and the random
-- bytes are given.
pub mod Laws
use wg_portal.Prelude.{
  ℕ, suc, zero, ◌%◌, List, [], ◌∷◌, ◌++◌, Option, some, none, ◌==◌, if◌then◌else◌, length,
  map_option,
}
use wg_portal.Encoding.{replace_all}
use wg_portal.Encoding.Base64.{btoa}

-- The fields that are shown.
record KeyView : Type 0 where
  pub private_key : List ℕ
  pub public_key : List ℕ
  pub preshared_key : List ℕ

-- `while (b64.length % 4) b64 += '='`, in at most so many rounds; `none`: more are needed.
unfoldable pub pad : ℕ → List ℕ → Option (List ℕ)
pad zero b64 = if length b64 % 4 == 0 then some b64 else none
pad (suc fuel) b64 =
    let rest = pad fuel (b64 ++ b'=' ∷ []) in if length b64 % 4 == 0 then some b64 else rest

-- Three rounds are enough (`b64url_to_b64-jwk`).
unfoldable pub b64url_to_b64 : List ℕ → Option (List ℕ)
unfolding replace_all pad
b64url_to_b64 input = pad 3 (replace_all b'_' b'/' (replace_all b'-' b'+' input))

-- The keys of the pair, as `exportKey('jwk', …)` gives them.
record Jwk : Type 0 where
  pub x : List ℕ
  pub d : List ℕ

unfoldable generate_new_key_pair : Jwk → KeyView → Option KeyView
unfolding b64url_to_b64
generate_new_key_pair jwk s = elim (b64url_to_b64 jwk.d) [
  | none ↦ none
  | some d ↦ map_option (λ x. record s { private_key = d; public_key = x }) (b64url_to_b64 jwk.x)
]

-- `binary += String.fromCharCode(bytes[i])` for each byte: the code unit is the byte.
unfoldable pub binary_of : List ℕ → List ℕ → List ℕ
binary_of binary [] = binary
binary_of binary (b ∷ bytes) = binary_of (binary ++ b ∷ []) bytes

unfoldable pub array_buffer_to_base64 : List ℕ → Option (List ℕ)
unfolding binary_of btoa
array_buffer_to_base64 bytes = btoa (binary_of [] bytes)

-- `none` where btoa throws.
unfoldable generate_new_preshared_key : List ℕ → KeyView → Option KeyView
unfolding array_buffer_to_base64
generate_new_preshared_key random s =
    map_option (λ t. record s { preshared_key = t }) (array_buffer_to_base64 random)
