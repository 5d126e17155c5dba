-- ===== src/Encoding/Uri.antt =====
-- encodeURIComponent of the browser on code units, by which the views put texts into links
-- (frontend/src/views/LoginView.vue, frontend/src/views/InterfaceView.vue,
-- frontend/src/components/PeerViewModal.vue), and what reads such a link: the address of a request
-- is cut at `#` and `?`, and the query is read as Go's url.ParseQuery does.
pub mod Laws
pub mod Queries
use wg_portal.Prelude.{
  ℕ, ◌+◌, ◌-◌, ◌*◌, ◌/◌, ◌%◌, List, [], ◌∷◌, ◌++◌, Option, none, some, Bool, true, false, ◌||◌,
  ◌&&◌, ◌==◌, ltb, leb, if◌then◌else◌, map, map_option, concat_map, or_else,
}

abbrev pub high_surrogate : ℕ → Bool
high_surrogate u = leb 0xD800 u && ltb u 0xDC00

abbrev low_surrogate : ℕ → Bool
low_surrogate u = leb 0xDC00 u && ltb u 0xE000

-- The high surrogate that waits after a unit, and the code points that the unit completes; `none`
-- is a surrogate alone.
abbrev waiting : ℕ → Option ℕ
waiting u = if high_surrogate u then some u else none

abbrev completed : Option ℕ → ℕ → Option (List ℕ)
completed none u =
    if high_surrogate u then some [] else if low_surrogate u then none else some (u ∷ [])
completed (some h) u =
    if low_surrogate u then some ((0x10000 + ((h - 0xD800) * 0x400 + (u - 0xDC00))) ∷ []) else none

abbrev pub appended : Option (List ℕ) → Option (List ℕ) → Option (List ℕ)
appended (some a) (some b) = some (a ++ b)
appended _ _ = none

unfoldable pub points_from : Option ℕ → List ℕ → Option (List ℕ)
points_from none [] = some []
points_from (some h) [] = none
points_from h (u ∷ s) = appended (completed h u) (points_from (waiting u) s)

-- The code points of a text.
unfoldable pub points : List ℕ → Option (List ℕ)
unfolding points_from
points = points_from none

unfoldable pub utf8 : ℕ → List ℕ
utf8 p =
    if ltb p 0x80
    then p ∷ []
    else if ltb p 0x800
    then (0xC0 + p / 0x40) ∷ (0x80 + p % 0x40) ∷ []
    else if ltb p 0x10000
    then (0xE0 + p / 0x1000) ∷ (0x80 + p / 0x40 % 0x40) ∷ (0x80 + p % 0x40) ∷ []
    else (0xF0 + p / 0x40000)
      ∷ (0x80 + p / 0x1000 % 0x40)
      ∷ (0x80 + p / 0x40 % 0x40)
      ∷ (0x80 + p % 0x40)
      ∷ []

abbrev between : ℕ → ℕ → ℕ → Bool
between a b c = leb a c && leb c b

-- Letters, digits, and - _ . ! ~ * ' ( ).
unfoldable pub unreserved : ℕ → Bool
unreserved c =
    between b'A' b'Z' c
    || between b'a' b'z' c
    || between b'0' b'9' c
    || c == b'-'
    || c == b'_'
    || c == b'.'
    || c == b'!'
    || c == b'~'
    || c == b'*'
    || c == 39
    || c == b'('
    || c == b')'

unfoldable pub hex_digit : ℕ → ℕ
hex_digit n = if ltb n 10 then b'0' + n else b'A' + (n - 10)

abbrev pub escape : ℕ → List ℕ
escape b = b'%' ∷ hex_digit (b / 16) ∷ hex_digit (b % 16) ∷ []

unfoldable pub encode_point : ℕ → List ℕ
unfolding unreserved utf8
encode_point p = if unreserved p then p ∷ [] else concat_map escape (utf8 p)

-- `none` is the URIError of a surrogate alone.
unfoldable pub encode_uri_component : List ℕ → Option (List ℕ)
unfolding points encode_point
encode_uri_component s = map_option (concat_map encode_point) (points s)

unfoldable pub hex_value : ℕ → Option ℕ
hex_value c =
    if between b'0' b'9' c
    then some (c - b'0')
    else if between b'A' b'F' c
    then some (c - b'A' + 10)
    else if between b'a' b'f' c
    then some (c - b'a' + 10)
    else none

-- What has been read of an escape: nothing, the `%`, or the first digit.
pub data Escape : Type 0 where
  plain percent : Escape
  first : ℕ → Escape

abbrev pub next : Escape → ℕ → Option Escape
next plain c = some (if c == b'%' then percent else plain)
next percent c = map_option first (hex_value c)
next (first d) c = map_option (λ _. plain) (hex_value c)

abbrev read : Escape → ℕ → List ℕ
read plain c = if c == b'%' then [] else if c == b'+' then b' ' ∷ [] else c ∷ []
read percent c = []
read (first d) c = (d * 16 + or_else (hex_value c) 0) ∷ []

unfoldable pub unescape_from : Escape → List ℕ → Option (List ℕ)
unescape_from plain [] = some []
unescape_from _ [] = none
unescape_from e (c ∷ s) = elim (next e c) [
  | none ↦ none
  | some f ↦ map_option (read e c ++◌) (unescape_from f s)
]

-- `url.QueryUnescape(s)`: the bytes; `none` is its error.
unfoldable pub query_unescape : List ℕ → Option (List ℕ)
unfolding unescape_from
query_unescape = unescape_from plain

-- What is before the first separator, and what is after it.
abbrev pub cut : ℕ → List ℕ → List ℕ × List ℕ
cut sep [] = ([], [])
cut sep (c ∷ s) = let (a, b) = cut sep s in if c == sep then ([], s) else (c ∷ a, b)

abbrev before_first : ℕ → List (List ℕ) → List (List ℕ)
before_first c [] = (c ∷ []) ∷ []
before_first c (p ∷ ps) = (c ∷ p) ∷ ps

-- The pieces between the separators.
abbrev pub pieces : ℕ → List ℕ → List (List ℕ)
pieces sep [] = [] ∷ []
pieces sep (c ∷ s) = let rest = pieces sep s in if c == sep then [] ∷ rest else before_first c rest

-- A key and its value, each unescaped.
abbrev parameter : List ℕ → Option (List ℕ) × Option (List ℕ)
parameter p = let (key, value) = cut b'=' p in (query_unescape key, query_unescape value)

unfoldable pub parse_query : List ℕ → List (Option (List ℕ) × Option (List ℕ))
unfolding query_unescape
parse_query s = map parameter (pieces b'&' s)

-- The query of an address.
unfoldable pub query_of : List ℕ → List ℕ
query_of url = (cut b'?' (cut b'#' url).0).1
