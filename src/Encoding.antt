-- ===== src/Encoding.antt =====
-- base64_url_encode, by which the stores put an identifier into a path
-- (frontend/src/helpers/encoding.js), and what the backend makes of it
-- (internal/app/api/v0/handlers/encoding.go). A text is its list of code units, since btoa works on
-- the units. `replace` with a text pattern changes the first match only.
pub mod Base64
pub mod RoundTrip
pub mod Slashes
pub mod Uri
use wg_portal.Prelude.{
  ℕ, List, [], ◌∷◌, Option, none, some, ◌==◌, if◌then◌else◌, map, String, map_option,
}
use wg_portal.Encoding.Base64.{btoa, decode_string}

-- `s.replace(from, to)` at one-character texts: the first match only.
unfoldable pub replace_first : ℕ → ℕ → List ℕ → List ℕ
replace_first from to [] = []
replace_first from to (c ∷ s) = if c == from then to ∷ s else c ∷ replace_first from to s

-- `strings.ReplaceAll(s, from, to)` at one-character texts.
unfoldable pub replace_all : ℕ → ℕ → List ℕ → List ℕ
replace_all from to = map (λ c. if c == from then to else c)

-- The three replacements of base64_url_encode.
unfoldable pub url_safe : List ℕ → List ℕ
url_safe s = replace_first b'=' b'-' (replace_first b'/' b'_' (replace_first b'+' b'.' s))

-- `none` where btoa throws.
unfoldable pub base64_url_encode : List ℕ → Option (List ℕ)
base64_url_encode input = map_option url_safe (btoa input)

-- The three replacements of the backend.
unfoldable pub url_unsafe : List ℕ → List ℕ
url_unsafe s = replace_all b'.' b'+' (replace_all b'_' b'/' (replace_all b'-' b'=' s))

-- What the backend reads; `none` where DecodeString reports an error.
unfoldable pub base64_url_decode : List ℕ → Option (List ℕ)
base64_url_decode s = decode_string (url_unsafe s)
