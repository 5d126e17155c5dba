-- ===== src/Views/KeyGenerator/Laws.antt =====
-- The key generator shows each key in the base64 form that WireGuard reads
-- (frontend/src/views/KeyGeneraterView.vue).
use wg_portal.Prelude.{
  ℕ, suc, zero, ◌+◌, ◌*◌, ◌/◌, ◌%◌, ◌<◌, List, [], ◌∷◌, ◌++◌, some, ◌==◌, if◌then◌else◌, length,
  map_option, map, All, ◌≡◌, refl, ap, ◌∙◌, sym, arith, append_assoc, append-nil,
}
use wg_portal.Encoding.{replace_all}
use wg_portal.Encoding.Base64.{digit, encode, btoa, decode_string}
use wg_portal.Encoding.Base64.Laws.{decode_string-encode, all_bytes_iff}
use wg_portal.Views.KeyGenerator.{pad, b64url_to_b64, binary_of, array_buffer_to_base64}

-- The digits of the URL-safe alphabet.
abbrev url_digit : ℕ → ℕ
url_digit n = if n == 62 then b'-' else if n == 63 then b'_' else digit n

-- The value of a field of a JSON web key: its bytes in the URL-safe alphabet, without padding, with
-- the given digits.
abbrev unpadded : (ℕ → ℕ) → List ℕ → List ℕ
unpadded f [] = []
unpadded f (a ∷ []) = f (a / 4) ∷ f (a % 4 * 16) ∷ []
unpadded f (a ∷ b ∷ []) = f (a / 4) ∷ f (a % 4 * 16 + b / 16) ∷ f (b % 16 * 4) ∷ []
unpadded f (a ∷ b ∷ c ∷ s) =
    f (a / 4) ∷ f (a % 4 * 16 + b / 16) ∷ f (b % 16 * 4 + c / 64) ∷ f (c % 64) ∷ unpadded f s

abbrev pub jwk_field : List ℕ → List ℕ
jwk_field = unpadded url_digit

-- Both replacements on one character.
abbrev restored : ℕ → ℕ
restored c = let a = if c == b'-' then b'+' else c in if a == b'_' then b'/' else a

restored-url_digit : (n : ℕ) → n < 64 → restored (url_digit n) ≡ digit n
restored-url_digit n h = ground arith

replace_all-restored :
    (s : List ℕ) → replace_all b'_' b'/' (replace_all b'-' b'+' s) ≡ map restored s
unfolding replace_all
replace_all-restored [] = refl
replace_all-restored (c ∷ s) = ap (restored c ∷◌) (replace_all-restored s)

map-unpadded : (s : List ℕ) → All (λ c. c < 256) s → map restored (jwk_field s) ≡ unpadded digit s
map-unpadded [] h = refl
map-unpadded (a ∷ []) h =
    rw (restored-url_digit (a / 4) (omega arith), restored-url_digit (a % 4 * 16) (omega arith))
      refl
map-unpadded (a ∷ b ∷ []) h =
    rw
      (
        restored-url_digit (a / 4) (omega arith),
        restored-url_digit (a % 4 * 16 + b / 16) (omega arith),
        restored-url_digit (b % 16 * 4) (omega arith),
      )
      refl
map-unpadded (a ∷ b ∷ c ∷ s) (ha, (hb, (hc, h))) =
    rw
      (
        restored-url_digit (a / 4) (omega arith),
        restored-url_digit (a % 4 * 16 + b / 16) (omega arith),
        restored-url_digit (b % 16 * 4 + c / 64) (omega arith),
        restored-url_digit (c % 64) (omega arith),
        map-unpadded s h,
      )
      refl

-- Four characters in front do not matter for the padding.
pad-four :
    (fuel a b c d : ℕ) (s : List ℕ)
    → pad fuel (a ∷ b ∷ c ∷ d ∷ s) ≡ map_option (λ t. a ∷ b ∷ c ∷ d ∷ t) (pad fuel s)
unfolding pad
pad-four zero a b c d s = ground arith
pad-four (suc fuel) a b c d s = ground (arith, pad-four fuel a b c d (s ++ b'=' ∷ []))

pad-unpadded : (s : List ℕ) → pad 3 (unpadded digit s) ≡ some (encode s)
unfolding encode
pad-unpadded [] = unfold pad in refl
pad-unpadded (a ∷ []) = unfold pad in refl
pad-unpadded (a ∷ b ∷ []) = unfold pad in refl
pad-unpadded (a ∷ b ∷ c ∷ s) = pad-four 3 _ _ _ _ (unpadded digit s) ∙ rw (pad-unpadded s) refl

-- The loop of b64urlToB64 ends after at most three rounds on a field of a JSON web key, and its
-- result decodes to the bytes of the key.
pub b64url_to_b64-jwk :
    (key : List ℕ)
    → All (λ c. c < 256) key
    → (t : List ℕ) × (b64url_to_b64 (jwk_field key) ≡ some t) × (decode_string t ≡ some key)
unfolding b64url_to_b64
b64url_to_b64-jwk key h = (
  encode key,
  ap (pad 3) (replace_all-restored (jwk_field key) ∙ map-unpadded key h) ∙ pad-unpadded key,
  decode_string-encode key h,
)

binary_of-append : (binary bytes : List ℕ) → binary_of binary bytes ≡ binary ++ bytes
unfolding binary_of
binary_of-append binary [] = sym (append-nil binary)
binary_of-append binary (b ∷ bytes) =
    binary_of-append (binary ++ b ∷ []) bytes ∙ append_assoc binary (b ∷ []) bytes

length-encode : (s : List ℕ) → length (encode s) ≡ (length s + 2) / 3 * 4
unfolding encode
length-encode [] = refl
length-encode (a ∷ []) = refl
length-encode (a ∷ b ∷ []) = refl
length-encode (a ∷ b ∷ c ∷ s) = omega (arith, length-encode s)

-- Bytes become a text of four characters for each three of them, begun ones included (32 bytes
-- become 44 characters), and the text decodes to the bytes.
pub array_buffer_to_base64-decode :
    (bytes : List ℕ)
    → All (λ c. c < 256) bytes
    → (t : List ℕ) × (array_buffer_to_base64 bytes ≡ some t)
      × (length t ≡ (length bytes + 2) / 3 * 4)
      × (decode_string t ≡ some bytes)
unfolding array_buffer_to_base64 btoa
array_buffer_to_base64-decode bytes h = (
  encode bytes,
  rw (binary_of-append [] bytes, (all_bytes_iff bytes).1 h) refl,
  length-encode bytes,
  decode_string-encode bytes h,
)
