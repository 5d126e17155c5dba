-- ===== src/Encoding/Uri/Laws.antt =====
-- What encodeURIComponent makes of a text is one value of a query, and is read back as the text.
use wg_portal.Prelude.{
  ℕ, ◌/◌, ◌%◌, ◌<◌, List, [], ◌∷◌, ◌++◌, Option, none, some, ◌≡◌, refl, ap, ◌∙◌, sym, arith, All,
  ◌==◌, ==_iff, true, false, Bool-cases, inl, inr, map_option, concat_map, append_assoc,
}
use wg_portal.Encoding.Uri.{
  completed, points_from, points, utf8, unreserved, hex_digit, hex_value, escape, encode_point,
  encode_uri_component, plain, unescape_from, query_unescape, appended, waiting, high_surrogate,
}

hex_value-hex_digit : (n : ℕ) → n < 16 → hex_value (hex_digit n) ≡ some n
unfolding hex_value hex_digit
hex_value-hex_digit n h = ground arith

pub unreserved-ne : (c d : ℕ) → unreserved c ≡ true → unreserved d ≡ false → (c == d) ≡ false
unreserved-ne c d h k = elim (Bool-cases (c == d)) [ inl e ↦ grind (arith, ==_iff c d) | inr n ↦ n ]

map_option-append :
    (a b : List ℕ) (o : Option (List ℕ))
    → map_option (a ++◌) (map_option (b ++◌) o) ≡ map_option ((a ++ b) ++◌) o
map_option-append a b none = refl
map_option-append a b (some c) = ap some (sym (append_assoc a b c))

map_option-one : (a b : ℕ) (o : Option (List ℕ)) → a ≡ b → map_option (a ∷◌) o ≡ map_option (b ∷◌) o
map_option-one a b o e = ap (λ c. map_option (c ∷◌) o) e

map_option-nil : (o : Option (List ℕ)) → map_option (λ s. [] ++ s) o ≡ o
map_option-nil none = refl
map_option-nil (some s) = refl

unescape_from-escape :
    (b : ℕ) (s : List ℕ)
    → b < 256
    → unescape_from plain (escape b ++ s) ≡ map_option (b ∷◌) (unescape_from plain s)
unfolding unescape_from
unescape_from-escape b s h =
    rw (hex_value-hex_digit (b / 16) (omega arith), hex_value-hex_digit (b % 16) (omega arith))
      (map_option-nil _
        ∙ map_option-nil _
        ∙ map_option-one _ _ _ (rw (hex_value-hex_digit (b % 16) (omega arith)) (omega arith)))

unescape_from-unreserved :
    (c : ℕ) (s : List ℕ)
    → unreserved c ≡ true
    → unescape_from plain (c ∷ s) ≡ map_option (c ∷◌) (unescape_from plain s)
unfolding unescape_from unreserved
unescape_from-unreserved c s h = rw (unreserved-ne c b'%' h refl, unreserved-ne c b'+' h refl) refl

unescape_from-escapes :
    (bs s : List ℕ)
    → All (λ b. b < 256) bs
    → unescape_from plain (concat_map escape bs ++ s) ≡ map_option (bs ++◌) (unescape_from plain s)
unescape_from-escapes [] s h = sym (map_option-nil _)
unescape_from-escapes (b ∷ bs) s (p, h) =
    unescape_from-escape b (concat_map escape bs ++ s) p
    ∙ ap (map_option (b ∷◌)) (unescape_from-escapes bs s h)
    ∙ map_option-append (b ∷ []) bs _

pub utf8-All : (p : ℕ) → p < 0x110000 → All (λ b. b < 256) (utf8 p)
unfolding utf8
utf8-All p h = ground arith

unreserved-utf8 : (p : ℕ) → unreserved p ≡ true → utf8 p ≡ p ∷ []
unfolding utf8 unreserved
unreserved-utf8 p h = ground arith

unescape_from-encode_point :
    (p : ℕ) (s : List ℕ)
    → p < 0x110000
    → unescape_from plain (encode_point p ++ s) ≡ map_option (utf8 p ++◌) (unescape_from plain s)
unfolding encode_point
unescape_from-encode_point p s h = elim (Bool-cases (unreserved p)) [
  | inl e ↦ rw (e, unreserved-utf8 p e) (unescape_from-unreserved p s e)
  | inr e ↦ rw e (unescape_from-escapes (utf8 p) s (utf8-All p h))
]

pub unescape_from-points :
    (ps : List ℕ)
    → All (λ p. p < 0x110000) ps
    → unescape_from plain (concat_map encode_point ps) ≡ some (concat_map utf8 ps)
unfolding unescape_from
unescape_from-points [] h = refl
unescape_from-points (p ∷ ps) (h, hs) =
    unescape_from-encode_point p (concat_map encode_point ps) h
    ∙ ap (map_option (utf8 p ++◌)) (unescape_from-points ps hs)

pub All-append : (P : ℕ → Type 0) (a b : List ℕ) → All P a → All P b → All P (a ++ b)
All-append P [] b h k = k
All-append P (x ∷ a) b (p, h) k = (p, All-append P a b h k)

-- The code points that have been read, if any, are code points.
abbrev pub Valid : Option (List ℕ) → Type 0
Valid none = Unit
Valid (some ps) = All (λ p. p < 0x110000) ps

appended-Valid : (a b : Option (List ℕ)) → Valid a → Valid b → Valid (appended a b)
appended-Valid (some a) (some b) h k = All-append _ a b h k
appended-Valid (some a) none h k = tt
appended-Valid none b h k = tt

abbrev Waits : Option ℕ → Type 0
Waits none = Unit
Waits (some h) = high_surrogate h ≡ true

-- Only a high surrogate waits.
waiting-Waits : (u : ℕ) → Waits (waiting u)
waiting-Waits u = elim (Bool-cases (high_surrogate u)) [ inl e ↦ rw e e | inr e ↦ rw e tt ]

completed-Valid : (h : Option ℕ) (u : ℕ) → Waits h → u < 0x10000 → Valid (completed h u)
completed-Valid none u w b = ground arith
completed-Valid (some h) u w b = ground arith

points_from-Valid :
    (h : Option ℕ) (s : List ℕ) → Waits h → All (λ u. u < 0x10000) s → Valid (points_from h s)
unfolding points_from
points_from-Valid none [] w b = tt
points_from-Valid (some h) [] w b = tt
points_from-Valid h (u ∷ s) w (b, bs) =
    appended-Valid (completed h u) (points_from (waiting u) s) (completed-Valid h u w b)
      (points_from-Valid (waiting u) s (waiting-Waits u) bs)

abbrev and_then : Option (List ℕ) → (List ℕ → Option (List ℕ)) → Option (List ℕ)
and_then none f = none
and_then (some a) f = f a

read_points :
    (ps : Option (List ℕ))
    → Valid ps
    → and_then (map_option (concat_map encode_point) ps) (unescape_from plain)
      ≡ map_option (concat_map utf8) ps
read_points none v = refl
read_points (some ps) v = unescape_from-points ps v

pub points-Valid : (s : List ℕ) → All (λ u. u < 0x10000) s → Valid (points s)
unfolding points
points-Valid s h = points_from-Valid none s tt h

-- What encodeURIComponent makes of a text is unescaped to the UTF-8 bytes of the text; it is an
-- error only where the text has a surrogate alone. The units of the text are below 65536.
query_unescape-encode_uri_component :
    (s : List ℕ)
    → All (λ u. u < 0x10000) s
    → and_then (encode_uri_component s) query_unescape ≡ map_option (concat_map utf8) (points s)
unfolding encode_uri_component query_unescape
query_unescape-encode_uri_component s h = read_points (points s) (points-Valid s h)
