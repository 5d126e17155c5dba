-- ===== src/Encoding/Base64.antt =====
-- Base64 with padding: btoa of the browser on code units, and a strict decoder for padded input,
-- as Go's base64.StdEncoding.DecodeString on input without line breaks.
pub mod Laws
use wg_portal.Prelude.{
  ℕ, ◌+◌, ◌-◌, ◌*◌, ◌/◌, ◌%◌, List, [], ◌∷◌, Option, none, some, Bool, ◌==◌, ltb, if◌then◌else◌,
  map_option, ◌&&◌,
}

-- The character of a 6-bit value.
abbrev pub digit : ℕ → ℕ
digit n =
    if ltb n 26
    then b'A' + n
    else if ltb n 52
    then b'a' + (n - 26)
    else if ltb n 62
    then b'0' + (n - 52)
    else if n == 62
    then b'+'
    else b'/'

-- The 6-bit value of a character.
abbrev pub value_of : ℕ → Option ℕ
value_of c =
    if ltb c b'+'
    then none
    else if c == b'+'
    then some 62
    else if c == b'/'
    then some 63
    else if ltb c b'0'
    then none
    else if ltb c (b'9' + 1)
    then some (c - b'0' + 52)
    else if ltb c b'A'
    then none
    else if ltb c (b'Z' + 1)
    then some (c - b'A')
    else if ltb c b'a'
    then none
    else if ltb c (b'z' + 1)
    then some (c - b'a' + 26)
    else none

unfoldable pub encode : List ℕ → List ℕ
encode [] = []
encode (a ∷ []) = digit (a / 4) ∷ digit (a % 4 * 16) ∷ b'=' ∷ b'=' ∷ []
encode (a ∷ b ∷ []) = digit (a / 4) ∷ digit (a % 4 * 16 + b / 16) ∷ digit (b % 16 * 4) ∷ b'=' ∷ []
encode (a ∷ b ∷ c ∷ s) =
    digit (a / 4)
    ∷ digit (a % 4 * 16 + b / 16)
    ∷ digit (b % 16 * 4 + c / 64)
    ∷ digit (c % 64)
    ∷ encode s

pub all_bytes : List ℕ → Bool
all_bytes [] = Bool.true
all_bytes (c ∷ s) = ltb c 256 && all_bytes s

-- `btoa(input)`; it throws (`none`) if a code unit is over 255.
unfoldable pub btoa : List ℕ → Option (List ℕ)
unfolding encode all_bytes
btoa input = if all_bytes input then some (encode input) else none

abbrev one_byte : Option ℕ → Option ℕ → Option (List ℕ)
one_byte (some p) (some q) = some ((p * 4 + q / 16) ∷ [])
one_byte _ _ = none

abbrev two_bytes : Option ℕ → Option ℕ → Option ℕ → Option (List ℕ)
two_bytes (some p) (some q) (some r) = some ((p * 4 + q / 16) ∷ (q % 16 * 16 + r / 4) ∷ [])
two_bytes _ _ _ = none

abbrev three_bytes : Option ℕ → Option ℕ → Option ℕ → Option ℕ → Option (List ℕ) → Option (List ℕ)
three_bytes (some p) (some q) (some r) (some t) (some s) =
    some ((p * 4 + q / 16) ∷ (q % 16 * 16 + r / 4) ∷ (r % 4 * 64 + t) ∷ s)
three_bytes _ _ _ _ _ = none

-- The last group of four, with its padding.
last_group : ℕ → ℕ → ℕ → ℕ → Option (List ℕ)
last_group a b c d =
    if d == b'='
    then if c == b'='
      then one_byte (value_of a) (value_of b)
      else two_bytes (value_of a) (value_of b) (value_of c)
    else three_bytes (value_of a) (value_of b) (value_of c) (value_of d) (some [])

unfoldable pub decode_string : List ℕ → Option (List ℕ)
unfolding last_group
decode_string [] = some []
decode_string (a ∷ b ∷ c ∷ d ∷ []) = last_group a b c d
decode_string (a ∷ b ∷ c ∷ d ∷ e ∷ s) =
    three_bytes (value_of a) (value_of b) (value_of c) (value_of d) (decode_string (e ∷ s))
decode_string _ = none
