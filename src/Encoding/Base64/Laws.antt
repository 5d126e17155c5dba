-- ===== src/Encoding/Base64/Laws.antt =====
-- Decoding what was encoded gives the bytes back.
use wg_portal.Prelude.{
  ℕ, ◌+◌, ◌*◌, ◌/◌, ◌%◌, ◌<◌, List, [], ◌∷◌, some, ◌≡◌, refl, ◌↔◌, arith, All, ◌==◌, true, false,
}
use wg_portal.Encoding.Base64.{digit, value_of, three_bytes, encode, all_bytes, decode_string}

value_of-digit : (n : ℕ) → n < 64 → value_of (digit n) ≡ some n
value_of-digit n h = ground arith

digit-ne-pad : (n : ℕ) → n < 64 → (digit n == b'=') ≡ false
digit-ne-pad n h = ground arith

-- The encoding of some bytes begins with a character.
encode-cons : (x : ℕ) (s : List ℕ) → (e : ℕ) × (r : List ℕ) × (encode (x ∷ s) ≡ e ∷ r)
unfolding encode
encode-cons x [] = (_, _, refl)
encode-cons x (y ∷ []) = (_, _, refl)
encode-cons x (y ∷ z ∷ s) = (_, _, refl)

group_bytes :
    (a b c : ℕ) (s : List ℕ)
    → a < 256
    → b < 256
    → c < 256
    → three_bytes
        (value_of (digit (a / 4)))
        (value_of (digit (a % 4 * 16 + b / 16)))
        (value_of (digit (b % 16 * 4 + c / 64)))
        (value_of (digit (c % 64)))
        (some s)
      ≡ some (a ∷ b ∷ c ∷ s)
group_bytes a b c s ha hb hc =
    rw
      (
        value_of-digit (a / 4) (omega arith),
        value_of-digit (a % 4 * 16 + b / 16) (omega arith),
        value_of-digit (b % 16 * 4 + c / 64) (omega arith),
        value_of-digit (c % 64) (omega arith),
      )
      (ground arith)

pub decode_string-encode : (s : List ℕ) → All (λ c. c < 256) s → decode_string (encode s) ≡ some s
unfolding encode decode_string
decode_string-encode [] h = refl
decode_string-encode (a ∷ []) h =
    rw (value_of-digit (a / 4) (omega arith), value_of-digit (a % 4 * 16) (omega arith))
      (ground arith)
decode_string-encode (a ∷ b ∷ []) h =
    rw
      (
        digit-ne-pad (b % 16 * 4) (omega arith),
        value_of-digit (a / 4) (omega arith),
        value_of-digit (a % 4 * 16 + b / 16) (omega arith),
        value_of-digit (b % 16 * 4) (omega arith),
      )
      (ground arith)
decode_string-encode (a ∷ b ∷ c ∷ []) h =
    rw (digit-ne-pad (c % 64) (omega arith))
      (group_bytes a b c [] (omega arith) (omega arith) (omega arith))
decode_string-encode (a ∷ b ∷ c ∷ d ∷ s) (ha, (hb, (hc, h))) =
    let (e, r, shape) = encode-cons d s in
    let rest = decode_string-encode (d ∷ s) h in
    rw (shape, rw shape at rest) (group_bytes a b c (d ∷ s) ha hb hc)

-- btoa is defined on bytes, and there only.
pub all_bytes_iff : (s : List ℕ) → (all_bytes s ≡ true) ↔ All (λ c. c < 256) s
unfolding all_bytes
all_bytes_iff [] = (λ e. tt, λ h. refl)
all_bytes_iff (c ∷ s) =
    let (to, from) = all_bytes_iff s in
    ((λ e. (ground arith, to (ground arith))), (λ h. ground (arith, from h.1)))

module _ {κ} (P : ℕ → Type κ) (digits : (n : ℕ) → n < 64 → P (digit n)) (pad : P b'=') where
  -- The characters of an encoding are digits and padding.
  pub encode-All : (s : List ℕ) → All (λ c. c < 256) s → All P (encode s)
  unfolding encode
  encode-All [] h = tt
  encode-All (a ∷ []) h =
      (digits (a / 4) (omega arith), (digits (a % 4 * 16) (omega arith), (pad, (pad, tt))))
  encode-All (a ∷ b ∷ []) h = (
    digits (a / 4) (omega arith),
    (digits (a % 4 * 16 + b / 16) (omega arith), (digits (b % 16 * 4) (omega arith), (pad, tt))),
  )
  encode-All (a ∷ b ∷ c ∷ s) (ha, (hb, (hc, h))) = (
    digits (a / 4) (omega arith),
    (
      digits (a % 4 * 16 + b / 16) (omega arith),
      (digits (b % 16 * 4 + c / 64) (omega arith), (digits (c % 64) (omega arith), encode-All s h)),
    ),
  )
