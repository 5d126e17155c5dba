-- ===== src/Encoding/RoundTrip.antt =====
-- The backend reads back the identifier that the frontend encoded.
use wg_portal.Prelude.{
  ℕ, ◌<◌, List, [], ◌∷◌, some, ◌≡◌, refl, ap, ◌∙◌, sym, arith, All, ◌==◌, ==_iff, map,
  if◌then◌else◌, Bool-cases, inl, inr,
}
use wg_portal.Encoding.{
  replace_first, replace_all, url_safe, base64_url_encode, url_unsafe, base64_url_decode,
}
use wg_portal.Encoding.Base64.{digit, encode, btoa}
use wg_portal.Encoding.Base64.Laws.{decode_string-encode, all_bytes_iff, encode-All}

-- What the backend makes of one character.
abbrev read_char : ℕ → ℕ
read_char c =
    let a = if c == b'-' then b'=' else c in
    let b = if a == b'_' then b'/' else a in if b == b'.' then b'+' else b

url_unsafe-map : (s : List ℕ) → url_unsafe s ≡ map read_char s
unfolding url_unsafe replace_all
url_unsafe-map [] = refl
url_unsafe-map (c ∷ s) = ap (read_char c ∷◌) (url_unsafe-map s)

-- Replacing characters that are read alike does not matter.
map-replace_first :
    (from to : ℕ) (s : List ℕ)
    → read_char to ≡ read_char from
    → map read_char (replace_first from to s) ≡ map read_char s
unfolding replace_first
map-replace_first from to [] h = refl
map-replace_first from to (c ∷ s) h = elim (Bool-cases (c == from)) [
  | inl e ↦ rw e (ap (λ z. z ∷ map read_char s) (h ∙ ap read_char (sym ((==_iff c from).0 e))))
  | inr ne ↦ rw ne (ap (read_char c ∷◌) (map-replace_first from to s h))
]

map-read_char : (s : List ℕ) → All (λ c. read_char c ≡ c) s → map read_char s ≡ s
map-read_char [] h = refl
map-read_char (c ∷ s) (p, h) = rw (p, map-read_char s h)

read_char-digit : (n : ℕ) → n < 64 → read_char (digit n) ≡ digit n
read_char-digit n h = ground arith

url_unsafe-url_safe : (s : List ℕ) → All (λ c. read_char c ≡ c) s → url_unsafe (url_safe s) ≡ s
unfolding url_safe
url_unsafe-url_safe s h =
    url_unsafe-map _
    ∙ map-replace_first b'=' b'-' _ refl
    ∙ map-replace_first b'/' b'_' _ refl
    ∙ map-replace_first b'+' b'.' s refl
    ∙ map-read_char s h

-- An identifier whose code units are all below 256 can be encoded, and the bytes that the backend
-- decodes from the result are those units: with `-` for `=` and `.` for `+`, as both sides have it in
-- their code.
pub decode-base64_url_encode :
    (s : List ℕ)
    → All (λ c. c < 256) s
    → (t : List ℕ) × (base64_url_encode s ≡ some t) × (base64_url_decode t ≡ some s)
unfolding base64_url_encode base64_url_decode btoa
decode-base64_url_encode s h = (
  url_safe (encode s),
  rw ((all_bytes_iff s).1 h),
  rw (url_unsafe-url_safe (encode s) (encode-All (λ c. read_char c ≡ c) read_char-digit refl s h))
      (decode_string-encode s h),
)
