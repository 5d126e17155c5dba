-- ===== src/Encoding/Uri/Queries.antt =====
-- A text that encodeURIComponent has encoded is one value of a query.
use wg_portal.Prelude.{
  ℕ, ◌/◌, ◌%◌, ◌<◌, List, [], ◌∷◌, ◌++◌, ◌≡◌, refl, arith, All, ◌==◌, true, false, Bool-cases, inl,
  inr, concat_map,
}
use wg_portal.Encoding.Uri.{unreserved, utf8, hex_digit, escape, encode_point, cut, pieces}
use wg_portal.Encoding.Uri.Laws.{unreserved-ne, utf8-All, All-append}

-- The text has no such character.
abbrev pub Free : ℕ → List ℕ → Type 0
Free d = All (λ c. (c == d) ≡ false)

pub cut-Free : (d : ℕ) (a b : List ℕ) → Free d a → cut d (a ++ b) ≡ (a ++ (cut d b).0, (cut d b).1)
cut-Free d [] b h = refl
cut-Free d (c ∷ a) b (p, h) = rw (p, cut-Free d a b h) refl

pub cut-Free_whole : (d : ℕ) (a : List ℕ) → Free d a → cut d a ≡ (a, [])
cut-Free_whole d [] h = refl
cut-Free_whole d (c ∷ a) (p, h) = rw (p, cut-Free_whole d a h) refl

pub pieces-Free : (d : ℕ) (a : List ℕ) → Free d a → pieces d a ≡ a ∷ []
pieces-Free d [] h = refl
pieces-Free d (c ∷ a) (p, h) = rw (p, pieces-Free d a h) refl

unreserved-hex_digit : (n : ℕ) → n < 16 → unreserved (hex_digit n) ≡ true
unfolding unreserved hex_digit
unreserved-hex_digit n h = ground arith

-- A character that separates the parts of an address.
abbrev pub Separator : ℕ → Type 0
Separator d = (unreserved d ≡ false) × ((b'%' == d) ≡ false)

escapes-Free :
    (d : ℕ) (bs : List ℕ) → Separator d → All (λ b. b < 256) bs → Free d (concat_map escape bs)
escapes-Free d [] s h = tt
escapes-Free d (b ∷ bs) (r, p) (h, hs) =
    let high = unreserved-ne _ d (unreserved-hex_digit (b / 16) (omega arith)) r in
    let low = unreserved-ne _ d (unreserved-hex_digit (b % 16) (omega arith)) r in
    (p, (high, (low, escapes-Free d bs (r, p) hs)))

encode_point-Free : (d p : ℕ) → Separator d → p < 0x110000 → Free d (encode_point p)
unfolding encode_point
encode_point-Free d p (r, q) h = elim (Bool-cases (unreserved p)) [
  | inl e ↦ rw e (unreserved-ne p d e r, tt)
  | inr e ↦ rw e (escapes-Free d (utf8 p) (r, q) (utf8-All p h))
]

pub concat_map-Free :
    (d : ℕ) (ps : List ℕ)
    → Separator d
    → All (λ p. p < 0x110000) ps
    → Free d (concat_map encode_point ps)
concat_map-Free d [] s h = tt
concat_map-Free d (p ∷ ps) s (h, hs) =
    All-append _ (encode_point p) _ (encode_point-Free d p s h) (concat_map-Free d ps s hs)
