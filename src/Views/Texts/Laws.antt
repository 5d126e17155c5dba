-- ===== src/Views/Texts/Laws.antt =====
-- How long a truncated text is, and that the choice of a language is remembered
-- (frontend/src/main.js, frontend/src/lang/index.js, frontend/src/App.vue).
use wg_portal.Prelude.{
  ℕ, zero, suc, ◌+◌, ◌≤◌, String, List, [], ◌∷◌, ◌++◌, false, Bool-cases, inl, inr, ltb, ltb→lt,
  length, take, length-take, length-append, map_option, units, is_empty, ◌===◌, ◌≡◌, refl, ap,
  arith, sym, All, clash, ◌∙◌, ===_iff,
}
use Prim.Native.Char.{code}
use wg_portal.Views.Start.{App, switch_language}
use wg_portal.Views.Texts.{suffix_or_dots, truncate, or_text, initial_locale}

take-append : (n : ℕ) (xs ys : List ℕ) → n ≤ length xs → take n (take n xs ++ ys) ≡ take n xs
take-append zero xs ys h = refl
take-append (suc n) [] ys h = absurd (omega arith)
take-append (suc n) (x ∷ xs) ys h = ap (x ∷◌) (take-append n xs ys (omega arith))

not-ltb : (m n : ℕ) → ltb (m + n) m ≡ false
not-ltb m n = ground arith

truncate-short :
    (value suffix : List ℕ) (extra : ℕ) → truncate value (length value + extra) suffix ≡ value
unfolding truncate
truncate-short value suffix extra = rw (not-ltb (length value) extra) refl

-- A truncated text begins as the text does, and has at most the given length and that of the suffix;
-- a text that is short enough stays as it is.
truncate_lem :
    (value suffix : List ℕ) (max_length : ℕ)
    → (take max_length (truncate value max_length suffix) ≡ take max_length value)
      × (length (truncate value max_length suffix) ≤ max_length + length (suffix_or_dots suffix))
      × (truncate value (length value + max_length) suffix ≡ value)
unfolding truncate
truncate_lem value suffix max_length = elim (Bool-cases (ltb max_length (length value))) [
  | inl e ↦ rw e (
    take-append max_length value _ (omega (arith, ltb→lt max_length (length value) e)),
    omega (
      arith,
      length-append (take max_length value) (suffix_or_dots suffix),
      length-take max_length value,
    ),
    truncate-short value suffix max_length,
  )
  | inr e ↦ rw e (refl, ground arith, truncate-short value suffix max_length)
]

or_text-units :
    (lang : String) (b : List ℕ) → is_empty lang ≡ false → or_text (units lang) b ≡ units lang
or_text-units String.[] b h = clash _ refl h
or_text-units (String.◌∷◌ c s) b h = elim (Bool-cases (ltb (code c) 0x10000)) [
  | inl e ↦ rw e refl
  | inr e ↦ rw e refl
]

-- A reload of the page gives the language that is shown.
abbrev pub IsRemembered : {V : Type 0} → List ℕ → List ℕ → App V → Type 0
IsRemembered user_language language s =
    units s.locale ≡ initial_locale (map_option units s.stored_language) user_language language

abbrev pub switch_all : {V : Type 0} → List String → App V → App V
switch_all [] s = s
switch_all (lang ∷ langs) s = switch_all langs (switch_language lang s)

switch_language-IsRemembered :
    {V : Type 0} (user_language language : List ℕ) (lang : String) (s : App V)
    → is_empty lang ≡ false
    → IsRemembered user_language language s
    → IsRemembered user_language language (switch_language lang s)
unfolding switch_language initial_locale
switch_language-IsRemembered user_language language lang s h r =
    elim (Bool-cases (s.locale === lang)) [
      | inl e ↦ rw e r
      | inr e ↦ rw e (sym (or_text-units lang _ h))
    ]

kept :
    {V : Type 0} (user_language language : List ℕ) (langs : List String) (s : App V)
    → All (λ lang. is_empty lang ≡ false) langs
    → IsRemembered user_language language s
    → IsRemembered user_language language (switch_all langs s)
kept user_language language [] s h r = r
kept user_language language (lang ∷ langs) s (h, hs) r =
    kept user_language language langs (switch_language lang s) hs
      (switch_language-IsRemembered user_language language lang s h r)

switch_language-locale :
    {V : Type 0} (lang : String) (s : App V) → (switch_language lang s).locale ≡ lang
unfolding switch_language
switch_language-locale lang s = elim (Bool-cases (s.locale === lang)) [
  | inl e ↦ rw e ((===_iff s.locale lang).0 e)
  | inr e ↦ rw e refl
]

-- After any choices of languages the last one is shown, and a reload of the page starts with it, also
-- where the languages of the navigator say another. It is given that no language is the empty text,
-- and that the page showed at first the language that it would start with.
pub switch_all-IsRemembered :
    {V : Type 0} (user_language language : List ℕ) (langs : List String) (last : String) (s : App V)
    → All (λ lang. is_empty lang ≡ false) langs
    → is_empty last ≡ false
    → IsRemembered user_language language s
    → ((switch_language last (switch_all langs s)).locale ≡ last)
      × (initial_locale
            (map_option units (switch_language last (switch_all langs s)).stored_language)
            user_language
            language
          ≡ units last)
switch_all-IsRemembered user_language language langs last s hs h r =
    let shown = switch_language-locale last (switch_all langs s) in
    (
      shown,
      sym (
            switch_language-IsRemembered user_language language last (switch_all langs s) h
              (kept user_language language langs s hs r))
          ∙ ap units shown,
    )
