-- ===== src/Encoding/Slashes.antt =====
-- Which special characters are left in an encoded identifier: base64_url_encode replaces one of
-- each kind, and leaves the others in the path.
use wg_portal.Prelude.{
  ℕ, suc, ◌-◌, List, [], ◌∷◌, some, ◌≡◌, refl, arith, ◌==◌, if◌then◌else◌, ap, ◌∙◌, false,
}
use wg_portal.Encoding.{replace_first, url_safe, base64_url_encode}
use wg_portal.Encoding.Base64.{btoa}

-- How often a character occurs.
abbrev pub count : ℕ → List ℕ → ℕ
count a [] = 0
count a (c ∷ s) = if c == a then suc (count a s) else count a s

count-replace_first :
    (from to : ℕ) (s : List ℕ)
    → (from == to) ≡ false
    → count from (replace_first from to s) ≡ count from s - 1
unfolding replace_first
count-replace_first from to [] h = refl
count-replace_first from to (c ∷ s) h = ground (arith, count-replace_first from to s)

count-replace_other :
    (a from to : ℕ) (s : List ℕ)
    → (from == a) ≡ false
    → (to == a) ≡ false
    → count a (replace_first from to s) ≡ count a s
unfolding replace_first
count-replace_other a from to [] h k = refl
count-replace_other a from to (c ∷ s) h k = ground (arith, count-replace_other a from to s)

abbrev FirstGone : List ℕ → List ℕ → Type 0
FirstGone b t =
    (count b'/' t ≡ count b'/' b - 1)
    × (count b'+' t ≡ count b'+' b - 1)
    × (count b'=' t ≡ count b'=' b - 1)

url_safe-FirstGone : (b : List ℕ) → FirstGone b (url_safe b)
unfolding url_safe
url_safe-FirstGone b =
    let p = replace_first b'+' b'.' b in
    let q = replace_first b'/' b'_' p in
    (
      count-replace_other b'/' b'=' b'-' q refl refl
          ∙ count-replace_first b'/' b'_' p refl
          ∙ ap (λ n. n - 1) (count-replace_other b'/' b'+' b'.' b refl refl),
      count-replace_other b'+' b'=' b'-' q refl refl
          ∙ count-replace_other b'+' b'/' b'_' p refl refl
          ∙ count-replace_first b'+' b'.' b refl,
      count-replace_first b'=' b'-' q refl
          ∙ ap (λ n. n - 1)
              (count-replace_other b'=' b'/' b'_' p refl refl
                ∙ count-replace_other b'=' b'+' b'.' b refl refl),
    )

-- Of the slashes, pluses and equals signs of the base64 text one of each kind is replaced, if
-- there is one, and all others stay in the path.
count-base64_url_encode :
    (s b t : List ℕ)
    → btoa s ≡ some b
    → base64_url_encode s ≡ some t
    → (count b'/' t ≡ count b'/' b - 1)
      × (count b'+' t ≡ count b'+' b - 1)
      × (count b'=' t ≡ count b'=' b - 1)
unfolding base64_url_encode
count-base64_url_encode s b t h k =
    let same : url_safe b ≡ t = ground arith in rw (← same) (url_safe-FirstGone b)
